-- ===== src/Tracker/Tempfiles.antt =====
-- tempfile.go: the cleaner of temporary rows.
use efes.Prelude.{
  ℕ, ◌+◌, ◌<◌, ◌≤◌, arith, subst, ◌≡◌, ◌⊎◌, refl, ap, sym, ◌∙◌, Bool, true, false, List, [], ◌∷◌,
  not, ◌||◌, ltb, if◌then◌else◌, map, Bool-cases, inl, inr,
}
use efes.Prelude.Int.{ℤ, ◌==ℤ◌, ==ℤ_iff}
use efes.Prelude.Members.{In, select, select-agree, In-select, In-of_select}
use efes.Tracker.{Place, Tempfile, has_device}

-- A row of tempfile with its time of creation.
pub record Row : Type 0 where
  pub tempfile : Tempfile
  pub created_at : ℕ

-- The statements that fail.
pub record Faults : Type 0 where
  pub begin : Bool
  pub select_old : Bool
  pub delete_old : Bool
  pub commit : Bool

-- The rows, and the delete tasks that are published.
pub record Cleaned : Type 0 where
  pub rows : List Row
  pub tasks : List Place

abbrev pub is_old : ℕ → ℕ → Row → Bool
is_old now too_old r = ltb (r.created_at + too_old) now

abbrev pub task_of : Row → Place
task_of r = record { fid = r.tempfile.fid; devid = r.tempfile.devid }

-- delete from tempfile where fid in (...)
unfoldable pub delete_in : List ℤ → List Row → List Row
delete_in fids = select (λ r. not (has_device r.tempfile.fid fids))

-- removeOldTempfilesFromDB, from the rows that the query gave, and the rest of removeOldTempfiles.
unfoldable pub remove_selected : Faults → List Row → List Row → Cleaned
unfolding delete_in
remove_selected f rows [] = record { rows = rows; tasks = [] }
remove_selected f rows (r ∷ rs) =
    if f.delete_old
    then record { rows = rows; tasks = [] }
    else if f.commit
    then record { rows = rows; tasks = [] }
    else record {
      rows = delete_in (map (λ x. x.tempfile.fid) (r ∷ rs)) rows;
      tasks = map task_of (r ∷ rs);
    }

-- removeOldTempfiles: a Commit that fails is taken as a rollback.
unfoldable pub remove_old_tempfiles : Faults → ℕ → ℕ → List Row → Cleaned
unfolding remove_selected
remove_old_tempfiles f now too_old rows =
    if f.begin
    then record { rows = rows; tasks = [] }
    else if f.select_old
    then record { rows = rows; tasks = [] }
    else remove_selected f rows (select (is_old now too_old) rows)

has_device-In :
    (fid : ℤ) (rs : List Row)
    → has_device fid (map (λ x. x.tempfile.fid) rs) ≡ true
    → (y : Row) × In y rs × (y.tempfile.fid ≡ fid)
unfolding has_device
has_device-In fid [] h = cc
has_device-In fid (r ∷ rs) h = elim (Bool-cases (r.tempfile.fid ==ℤ fid)) [
  | inl same ↦ (r, inl refl, (==ℤ_iff r.tempfile.fid fid).0 same)
  | inr other ↦ (let (y, there, e) = has_device-In fid rs (rw other at h) in (y, inr there, e))
]

In-has_device :
    (y : Row) (rs : List Row)
    → In y rs
    → has_device y.tempfile.fid (map (λ x. x.tempfile.fid) rs) ≡ true
unfolding has_device
In-has_device y [] m = absurd m
In-has_device y (r ∷ rs) (inl e) =
    rw ((==ℤ_iff r.tempfile.fid y.tempfile.fid).1 (ap (λ t. t.tempfile.fid) (sym e))) refl
In-has_device y (r ∷ rs) (inr m) =
    rw (In-has_device y rs m) (or_true (r.tempfile.fid ==ℤ y.tempfile.fid))
  where
    or_true : (a : Bool) → (a || true) ≡ true
    or_true true = refl
    or_true false = refl

-- The primary key of tempfile.
abbrev pub HasKey : List Row → Type 0
HasKey rows = (x y : Row) → In x rows → In y rows → x.tempfile.fid ≡ y.tempfile.fid → x ≡ y

module _ (now too_old : ℕ) (rows : List Row) (key : HasKey rows) where
  abbrev old_rows : List Row
  old_rows = select (is_old now too_old) rows

  -- The delete statement meets the old rows and no other.
  listed-is_old :
      (x : Row)
      → In x rows
      → not (has_device x.tempfile.fid (map (λ r. r.tempfile.fid) old_rows))
        ≡ not (is_old now too_old x)
  listed-is_old x m = elim (Bool-cases (is_old now too_old x)) [
    | inl old ↦
        ap not (In-has_device x old_rows (In-of_select (is_old now too_old) x rows m old) ∙ sym old)
    | inr young ↦
        elim (Bool-cases (has_device x.tempfile.fid (map (λ r. r.tempfile.fid) old_rows))) [
          | inr unlisted ↦ ap not (unlisted ∙ sym young)
          | inl listed ↦
              (let (y, there, same) = has_device-In x.tempfile.fid old_rows listed in
                let (inside, old) = In-select (is_old now too_old) y rows there in
                absurd (
                  clash (is_old now too_old x) young
                    (ap (is_old now too_old) (sym (key y x inside m same)) ∙ old)))
        ]
  ]
    where
      clash : (b : Bool) → b ≡ false → b ≡ true → ⊥
      clash true e h = cc
      clash false e h = cc

  select-true : (xs : List Row) → select (λ r. true) xs ≡ xs
  select-true [] = refl
  select-true (x ∷ xs) = ap (λ t. x ∷ t) (select-true xs)

  not-is_old : (b : Bool) → (b ≡ true → ⊥) → not b ≡ true
  not-is_old true h = absurd (h refl)
  not-is_old false h = refl

  -- Without an old row nothing is to be taken out.
  none_old : [] ≡ old_rows → rows ≡ select (λ r. not (is_old now too_old r)) rows
  none_old e = sym (
      select-agree (λ r. not (is_old now too_old r)) (λ r. true) rows
        (λ r m.
          not-is_old (is_old now too_old r)
            (λ old. subst (In r) (sym e) (In-of_select (is_old now too_old) r rows m old)))
      ∙ select-true rows)

  -- One of the statements fails.
  abbrev pub fails : Faults → Bool
  fails f = f.begin || (f.select_old || (f.delete_old || f.commit))

  -- The old rows have gone and each has its delete task, or nothing has changed and a statement fails.
  abbrev Removes : Bool → Cleaned → Type 0
  Removes failed c =
      ((c.rows ≡ select (λ r. not (is_old now too_old r)) rows)
        × (c.tasks ≡ map task_of (select (is_old now too_old) rows)))
      ⊎ ((failed ≡ true) × (c.rows ≡ rows) × (c.tasks ≡ []))

  remove_selected-Removes :
      (f : Faults) (olds : List Row)
      → olds ≡ old_rows
      → Removes (f.delete_old || f.commit) (remove_selected f rows olds)
  unfolding remove_selected delete_in
  remove_selected-Removes f [] e = inl (none_old e, ap (map task_of) e)
  remove_selected-Removes f (r ∷ rs) e = go f.delete_old f.commit
    where
      go :
          (a b : Bool)
          → Removes (a || b) (
              if a
              then record { rows = rows; tasks = [] }
              else if b
              then record { rows = rows; tasks = [] }
              else record {
                rows =
                    select
                      (λ x. not (has_device x.tempfile.fid (map (λ y. y.tempfile.fid) (r ∷ rs))))
                      rows;
                tasks = map task_of (r ∷ rs);
              })
      go true b = inr (refl, refl, refl)
      go false true = inr (refl, refl, refl)
      go false false = inl (
        ap (λ t. select (λ x. not (has_device x.tempfile.fid (map (λ y. y.tempfile.fid) t))) rows) e
            ∙ select-agree _ _ rows listed-is_old,
        ap (map task_of) e,
      )

  remove_old_tempfiles-Removes :
      (f : Faults) → Removes (fails f) (remove_old_tempfiles f now too_old rows)
  unfolding remove_old_tempfiles
  remove_old_tempfiles-Removes f =
      go f.begin f.select_old (f.delete_old || f.commit) (remove_selected-Removes f old_rows refl)
    where
      go :
          (a b d : Bool)
          → Removes d (remove_selected f rows old_rows)
          → Removes (a || (b || d)) (
              if a
              then record { rows = rows; tasks = [] }
              else if b
              then record { rows = rows; tasks = [] }
              else remove_selected f rows old_rows)
      go true b d h = inr (refl, refl, refl)
      go false true d h = inr (refl, refl, refl)
      go false false d h = h

  In-map : (x : Row) (xs : List Row) → In x xs → In (task_of x) (map task_of xs)
  In-map x [] m = absurd m
  In-map x (y ∷ ys) (inl e) = inl (ap task_of e)
  In-map x (y ∷ ys) (inr m) = inr (In-map x ys m)

  In-of_map :
      (p : Place) (xs : List Row) → In p (map task_of xs) → (y : Row) × In y xs × (p ≡ task_of y)
  In-of_map p [] m = absurd m
  In-of_map p (y ∷ ys) (inl e) = (y, inl refl, e)
  In-of_map p (y ∷ ys) (inr m) = (let (z, there, e) = In-of_map p ys m in (z, inr there, e))

  -- What becomes of a row: a statement fails and all is as it was; or the row was created more than
  -- `too_old` before `now`, is gone and has its delete task; or it was not, and has stayed without one.
  abbrev pub Treats : Row → Faults → Cleaned → Type 0
  Treats x f c =
      ((fails f ≡ true) × (c.rows ≡ rows) × (c.tasks ≡ []))
      ⊎ (((x.created_at + too_old < now) × (In x c.rows → ⊥) × In (task_of x) c.tasks)
          ⊎ ((now ≤ x.created_at + too_old) × In x c.rows × (In (task_of x) c.tasks → ⊥)))

  clash : (b : Bool) → b ≡ false → b ≡ true → ⊥
  clash true e h = cc
  clash false e h = cc

  treated : (x : Row) (f : Faults) (c : Cleaned) → In x rows → Removes (fails f) c → Treats x f c
  treated x f c m (inr same) = inl same
  treated x f c m (inl (left, sent)) = elim (Bool-cases (is_old now too_old x)) [
    | inl old ↦ inr (
        inl (
          ground (arith, old),
          (λ back.
              let (inside, young) =
                In-select (λ r. not (is_old now too_old r)) x rows (subst (In x) left back) in
              clash (not (is_old now too_old x)) (ap not old) young),
          subst (In (task_of x)) (sym sent)
              (In-map x old_rows (In-of_select (is_old now too_old) x rows m old)),
        ))
    | inr young ↦ inr (
        inr (
          ground (arith, young),
          subst (In x) (sym left)
              (In-of_select (λ r. not (is_old now too_old r)) x rows m (ap not young)),
          (λ task.
              let (y, listed, e) =
                In-of_map (task_of x) old_rows (subst (In (task_of x)) sent task) in
              let (inside, old) = In-select (is_old now too_old) y rows listed in
              clash (is_old now too_old x) young
                (ap (is_old now too_old) (key x y m inside (ap (λ p. p.fid) e)) ∙ old)),
        ))
  ]

  -- If the fid is a key of tempfile, and no statement fails, the cleaner takes out a row if and only
  -- if it was created more than the limit before now, and publishes a delete task for the rows that it
  -- takes out and for no other; only if a statement fails, it may leave all rows and publish nothing.
  pub remove_old_tempfiles-Treats :
      (f : Faults) (x : Row) → In x rows → Treats x f (remove_old_tempfiles f now too_old rows)
  remove_old_tempfiles-Treats f x m =
      treated x f (remove_old_tempfiles f now too_old rows) m (remove_old_tempfiles-Removes f)
