-- ===== src/Cleaner/Accounts.antt =====
-- cleandevice.go: the rows that a check deletes, and the tasks that it publishes.
use efes.Prelude.{
  ◌≡◌, refl, arith, ap, sym, ◌∙◌, Bool, true, false, List, [], ◌∷◌, not, ◌||◌, ◌&&◌, Bool-cases,
  inl, inr,
}
use efes.Prelude.Int.{ℤ, pos, negsuc, ◌==ℤ◌, ==ℤ_iff}
use efes.Tracker.{Place, same_place, has}
use efes.Tracker.Places.{taken, passed}
use efes.Cleaner.{in_list, remove_item, all_devids, delete_on, delete_tasks}

-- What the WHERE clause says of a row.
abbrev pub selects : ℤ → List ℤ → Place → Bool
selects fid devids q = (q.fid ==ℤ fid) && in_list q.devid devids

same_place-selects :
    (fid : ℤ) (devids : List ℤ) (p q : Place)
    → same_place p q ≡ true
    → selects fid devids q ≡ selects fid devids p
unfolding same_place
same_place-selects fid devids p q h = elim (Bool-cases (p.fid ==ℤ q.fid)) [
  | inl same ↦
      (let fids : p.fid ≡ q.fid = (==ℤ_iff p.fid q.fid).0 same in
        let devs : p.devid ≡ q.devid = (==ℤ_iff p.devid q.devid).0 (rw same at h) in
        λ i. (sym fids i ==ℤ fid) && in_list (sym devs i) devids)
  | inr differs ↦ cc (rw differs at h)
]

delete_on-selected :
    (fid : ℤ) (devids : List ℤ) (p : Place) (ps : List Place)
    → selects fid devids p ≡ true
    → delete_on fid devids (p ∷ ps) ≡ delete_on fid devids ps
unfolding delete_on
delete_on-selected fid devids p ps e = rw e refl

delete_on-other :
    (fid : ℤ) (devids : List ℤ) (p : Place) (ps : List Place)
    → selects fid devids p ≡ false
    → delete_on fid devids (p ∷ ps) ≡ p ∷ delete_on fid devids ps
unfolding delete_on
delete_on-other fid devids p ps e = rw e refl

-- The statement deletes what its WHERE clause selects.
pub has-delete_on :
    (q : Place) (fid : ℤ) (devids : List ℤ) (ps : List Place)
    → has q (delete_on fid devids ps) ≡ (has q ps && not (selects fid devids q))
unfolding has
has-delete_on q fid devids [] = unfold delete_on in refl
has-delete_on q fid devids (p ∷ ps) = elim (Bool-cases (selects fid devids p)) [
  | inl gone ↦
      ap (has q) (delete_on-selected fid devids p ps gone)
      ∙ has-delete_on q fid devids ps
      ∙ passed (same_place p q) (has q ps) (not (selects fid devids q))
          (λ e. ap not (same_place-selects fid devids p q e ∙ gone))
  | inr kept ↦
      ap (has q) (delete_on-other fid devids p ps kept)
      ∙ ap (λ t. same_place p q || t) (has-delete_on q fid devids ps)
      ∙ taken (same_place p q) (has q ps) (not (selects fid devids q))
          (λ e. ap not (same_place-selects fid devids p q e ∙ kept))
]

==ℤ_comm : (a b : ℤ) → (a ==ℤ b) ≡ (b ==ℤ a)
==ℤ_comm (pos a) (pos b) = ground arith
==ℤ_comm (pos a) (negsuc b) = refl
==ℤ_comm (negsuc a) (pos b) = refl
==ℤ_comm (negsuc a) (negsuc b) = ground arith

factor : (a b c : Bool) → ((a && b) || (a && c)) ≡ (a && (b || c))
factor true b c = refl
factor false b c = refl

nowhere : (a : Bool) → false ≡ (a && false)
nowhere true = refl
nowhere false = refl

-- The tasks name the selected places.
pub has-delete_tasks :
    (q : Place) (fid : ℤ) (devids : List ℤ) → has q (delete_tasks fid devids) ≡ selects fid devids q
unfolding has delete_tasks in_list same_place
has-delete_tasks q fid [] = nowhere (q.fid ==ℤ fid)
has-delete_tasks q fid (d ∷ ds) =
    ap (λ t. ((fid ==ℤ q.fid) && (d ==ℤ q.devid)) || t) (has-delete_tasks q fid ds)
    ∙ ap (λ t. (t && (d ==ℤ q.devid)) || selects fid ds q) (==ℤ_comm fid q.fid)
    ∙ factor (q.fid ==ℤ fid) (d ==ℤ q.devid) (in_list q.devid ds)

pub in_list-remove_item :
    (v w : ℤ) (l : List ℤ) → in_list v (remove_item w l) ≡ true → in_list v l ≡ true
unfolding in_list remove_item
in_list-remove_item v w [] h = h
in_list-remove_item v w (d ∷ l) h = elim (Bool-cases (d ==ℤ v)) [
  | inl found ↦ rw found refl
  | inr other ↦ elim (Bool-cases (d ==ℤ w)) [
    | inl removed ↦ rw other (rw removed at h)
    | inr kept ↦ rw other (in_list-remove_item v w l (rw other at (rw kept at h)))
  ]
]

pub listed-has :
    (q : Place) (fid : ℤ) (ps : List Place)
    → (q.fid ==ℤ fid) ≡ true
    → in_list q.devid (all_devids fid ps) ≡ true
    → has q ps ≡ true
unfolding in_list all_devids has same_place
listed-has q fid [] e h = h
listed-has q fid (p ∷ ps) e h = elim (Bool-cases (p.fid ==ℤ fid)) [
  | inl same ↦
      (let fids : (p.fid ==ℤ q.fid) ≡ true =
          (==ℤ_iff p.fid q.fid).1 ((==ℤ_iff p.fid fid).0 same ∙ sym ((==ℤ_iff q.fid fid).0 e)) in
        elim (Bool-cases (p.devid ==ℤ q.devid)) [
          | inl found ↦ rw fids (rw found refl)
          | inr other ↦ rw fids (rw other (listed-has q fid ps e (rw other at (rw same at h))))
        ])
  | inr other ↦ or_true _ (has q ps) (listed-has q fid ps e (rw other at h))
]
  where
    or_true : (a b : Bool) → b ≡ true → (a || b) ≡ true
    or_true true b h = refl
    or_true false b h = h
