-- ===== src/Tracker/Succeeding.antt =====
-- tracker.go: when `createClose` succeeds.
use efes.Prelude.{
  ℕ, ◌≡◌, ◌⊎◌, refl, ap, sym, subst, ◌∙◌, Bool, true, false, none, some, List, [], ◌∷◌, ◌||◌, ◌&&◌,
  ◌==◌, ==_iff, if◌then◌else◌, Bool-cases, Option-cases, inl, inr, eq_of_some_eq,
}
use efes.Prelude.Int.{ℤ, ◌==ℤ◌, ==ℤ_iff}
use efes.Prelude.Members.{In, either}
use efes.Tracker.{
  Place, File, Tables, Step, next, stop, ◌>>=◌, ◌>>◌, pure, exec, devid_of, delete_tempfile, fid_of,
  delete_file, places_of, delete_places, is_placed, same_place, has, has_device, has_file,
  conflicts, without_conflicts, held, replace_into, insert_place,
}
use efes.Tracker.Handlers.{
  Faults, found_tempfile, select_tempfile, select_file, get_devices_of_fid, delete_fid_on_db,
  delete_old, select_host, commit, close_transaction, conclude, create_close,
}

-- No statement fails.
abbrev pub sound : Faults
sound = record {
  begin = false;
  select_tempfile = false;
  delete_tempfile = false;
  select_file = false;
  select_places = false;
  delete_places = false;
  delete_file = false;
  replace_file = false;
  insert_place = false;
  select_host = false;
  commit = false;
}

clash : {A : Type 0} {b : Bool} → b ≡ true → b ≡ false → A
clash {b = true} e h = cc
clash {b = false} e h = cc

or_false : (a b : Bool) → a ≡ false → b ≡ false → (a || b) ≡ false
or_false a b e h = rw e h

or-cases : (a b : Bool) → (a || b) ≡ true → (a ≡ true) ⊎ (b ≡ true)
or-cases true b h = inl refl
or-cases false b h = inr h

and_false : (a : Bool) → (a && false) ≡ false
and_false true = refl
and_false false = refl

-- The places of a file are gone after their deletion, and no place of another file appears.
is_placed-deleted : (old : ℤ) (ps : List Place) → is_placed old (delete_places old ps) ≡ false
unfolding is_placed delete_places
is_placed-deleted old [] = refl
is_placed-deleted old (p ∷ ps) = elim (Bool-cases (p.fid ==ℤ old)) [
  | inl same ↦ rw same (is_placed-deleted old ps)
  | inr other ↦ rw other (rw other (is_placed-deleted old ps))
]

is_placed-delete_places :
    (fid old : ℤ) (ps : List Place)
    → is_placed fid ps ≡ false
    → is_placed fid (delete_places old ps) ≡ false
unfolding is_placed delete_places
is_placed-delete_places fid old [] h = h
is_placed-delete_places fid old (p ∷ ps) h = elim (Bool-cases (p.fid ==ℤ fid)) [
  | inl same ↦ cc (rw same at h)
  | inr differs ↦ elim (Bool-cases (p.fid ==ℤ old)) [
    | inl gone ↦ rw gone (is_placed-delete_places fid old ps (rw differs at h))
    | inr kept ↦ rw kept (rw differs (is_placed-delete_places fid old ps (rw differs at h)))
  ]
]

has-is_placed : (p : Place) (ps : List Place) → is_placed p.fid ps ≡ false → has p ps ≡ false
unfolding has same_place is_placed
has-is_placed p [] h = refl
has-is_placed p (q ∷ ps) h = elim (Bool-cases (q.fid ==ℤ p.fid)) [
  | inl same ↦ cc (rw same at h)
  | inr differs ↦ rw differs (has-is_placed p ps (rw differs at h))
]

In-delete_file : (r : File) (old : ℤ) (fs : List File) → In r (delete_file old fs) → In r fs
unfolding delete_file
In-delete_file r old [] m = m
In-delete_file r old (x ∷ fs) m = go (x.fid ==ℤ old) (In-delete_file r old fs) m
  where
    go :
        (b : Bool)
        → (In r (delete_file old fs) → In r fs)
        → In r (if b then delete_file old fs else x ∷ delete_file old fs)
        → In r (x ∷ fs)
    go true rest m = inr (rest m)
    go false rest (inl e) = inl e
    go false rest (inr m) = inr (rest m)

pub fid_of-In :
    (key : ℕ) (old : ℤ) (fs : List File)
    → fid_of key fs ≡ some old
    → (y : File) × In y fs × (y.dkey ≡ key) × (y.fid ≡ old)
unfolding fid_of
fid_of-In key old [] h = cc
fid_of-In key old (x ∷ fs) h = elim (Bool-cases (x.dkey == key)) [
  | inl same ↦ (x, inl refl, (==_iff x.dkey key).0 same, eq_of_some_eq (rw same at h))
  | inr other ↦
      (let (y, there, e, n) = fid_of-In key old fs (rw other at h) in (y, inr there, e, n))
]

pub fid_of-none :
    (key : ℕ) (fs : List File) (r : File) → fid_of key fs ≡ none → In r fs → r.dkey ≡ key → ⊥
unfolding fid_of
fid_of-none key [] r h m e = m
fid_of-none key (x ∷ fs) r h m e = elim (Bool-cases (x.dkey == key)) [
  | inl same ↦ cc (rw same at h)
  | inr other ↦
      either (λ s. clash ((==_iff x.dkey key).1 (ap (λ t. t.dkey) (sym s) ∙ e)) other)
        (λ t. fid_of-none key fs r (rw other at h) t e) m
]

-- No row that conflicts with the new one has a place.
held-false :
    (fid : ℤ) (key : ℕ) (fs : List File) (ps : List Place)
    → ((r : File) → In r fs → (r.fid ≡ fid) ⊎ (r.dkey ≡ key) → is_placed r.fid ps ≡ false)
    → held fid key fs ps ≡ false
unfolding held conflicts
held-false fid key [] ps h = refl
held-false fid key (r ∷ fs) ps h =
    or_false _ (held fid key fs ps) (first ((r.fid ==ℤ fid) || (r.dkey == key)) refl)
      (held-false fid key fs ps (λ x m. h x (inr m)))
  where
    reason : ((r.fid ==ℤ fid) || (r.dkey == key)) ≡ true → (r.fid ≡ fid) ⊎ (r.dkey ≡ key)
    reason e = elim (or-cases (r.fid ==ℤ fid) (r.dkey == key) e) [
      | inl same ↦ inl ((==ℤ_iff r.fid fid).0 same)
      | inr same ↦ inr ((==_iff r.dkey key).0 same)
    ]

    first :
        (b : Bool) → ((r.fid ==ℤ fid) || (r.dkey == key)) ≡ b → (b && is_placed r.fid ps) ≡ false
    first true e = h r (inl refl) (reason e)
    first false e = refl

-- The upload is known, its device has a host, and the key belongs to one file at most.
pub record IsClosable (fid devid : ℤ) (key : ℕ) (t : Tables) : Type 0 where
  pub known : devid_of fid t.tempfiles ≡ some devid
  pub hosted : has_device devid t.devices ≡ true
  pub unplaced : is_placed fid t.places ≡ false
  pub unique : (x y : File) → In x t.files → In y t.files → x.dkey ≡ y.dkey → x.fid ≡ y.fid

-- The statements from REPLACE INTO on, once no conflicting row has a place.
abbrev rest_of : ℤ → ℤ → ℕ → List Place → Tables → Step (List Place)
rest_of fid devid key tasks t =
    (do
      replace_into false fid key
      insert_place false (record { fid = fid; devid = devid })
      select_host false devid
      commit false
      pure tasks)
      t

abbrev Succeeds : Step (List Place) → Type 0
Succeeds (next tasks t) = Unit
Succeeds (stop status) = ⊥

bind-next :
    {A B : Type 0} (m : Tables → Step A) (f : A → Tables → Step B) (t : Tables) (a : A)
    (t' : Tables)
    → m t ≡ next a t'
    → (m >>= f) t ≡ f a t'
bind-next m f t a t' e = ap (λ s. elim s [ next a t' ↦ f a t' | stop status ↦ stop status ]) e

abbrev with_file : ℤ → ℕ → Tables → Tables
with_file fid key t = record t {
  files = record { fid = fid; dkey = key } ∷ without_conflicts fid key t.files;
}

replace_into-next :
    (fid : ℤ) (key : ℕ) (t : Tables)
    → held fid key t.files t.places ≡ false
    → replace_into false fid key t ≡ next tt (with_file fid key t)
unfolding replace_into
replace_into-next fid key t free = rw free refl

insert_place-next :
    (fid devid : ℤ) (key : ℕ) (t : Tables)
    → has (record { fid = fid; devid = devid }) t.places ≡ false
    → has_device devid t.devices ≡ true
    → insert_place false (record { fid = fid; devid = devid }) (with_file fid key t)
      ≡ next tt
          (record (with_file fid key t) { places = record { fid = fid; devid = devid } ∷ t.places })
unfolding insert_place has_file
insert_place-next fid devid key t fresh hosted =
    rw fresh (rw ((==ℤ_iff fid fid).1 refl) (rw hosted refl))

select_host-next :
    (devid : ℤ) (t : Tables)
    → has_device devid t.devices ≡ true
    → select_host false devid t ≡ next tt t
unfolding select_host
select_host-next devid t hosted = rw hosted refl

rest_of-Succeeds :
    (fid devid : ℤ) (key : ℕ) (tasks : List Place) (t : Tables)
    → held fid key t.files t.places ≡ false
    → has (record { fid = fid; devid = devid }) t.places ≡ false
    → has_device devid t.devices ≡ true
    → Succeeds (rest_of fid devid key tasks t)
unfolding commit
rest_of-Succeeds fid devid key tasks t free fresh hosted =
    let t' = with_file fid key t in
    let t'' = record t' { places = record { fid = fid; devid = devid } ∷ t.places } in
    subst Succeeds
      (sym (
        bind-next (replace_into false fid key) _ t tt t' (replace_into-next fid key t free)
        ∙ bind-next (insert_place false (record { fid = fid; devid = devid })) _ t' tt t''
            (insert_place-next fid devid key t fresh hosted)
        ∙ bind-next (select_host false devid) _ t'' tt t'' (select_host-next devid t'' hosted)))
      tt

module _ (fid devid : ℤ) (key : ℕ) (t : Tables) (h : IsClosable fid devid key t) where
  abbrev taken : Tables
  taken = record t { tempfiles = delete_tempfile fid t.tempfiles }

  abbrev after_old : ℤ → Tables
  after_old old = record taken {
    places = delete_places old t.places;
    files = delete_file old t.files;
  }

  select_tempfile-next : select_tempfile false fid t ≡ next devid t
  unfolding select_tempfile found_tempfile
  select_tempfile-next = ap (λ o. found_tempfile o t) h.known

  -- The transaction up to the query for the old file.
  transaction-start :
      close_transaction sound fid key t
      ≡ (delete_old sound (fid_of key t.files) >>= (λ tasks. rest_of fid devid key tasks)) taken
  unfolding close_transaction exec select_file
  transaction-start = bind-next (select_tempfile false fid) _ t devid t select_tempfile-next

  transaction-none :
      fid_of key t.files ≡ none → close_transaction sound fid key t ≡ rest_of fid devid key [] taken
  unfolding delete_old
  transaction-none e =
      transaction-start
      ∙ ap (λ o. (delete_old sound o >>= (λ tasks. rest_of fid devid key tasks)) taken) e

  transaction-some :
      (old : ℤ)
      → fid_of key t.files ≡ some old
      → close_transaction sound fid key t
        ≡ rest_of fid devid key (places_of old t.places) (after_old old)
  unfolding delete_old delete_fid_on_db exec get_devices_of_fid
  transaction-some old e =
      transaction-start
      ∙ ap (λ o. (delete_old sound o >>= (λ tasks. rest_of fid devid key tasks)) taken) e

  transaction-Succeeds : Succeeds (close_transaction sound fid key t)
  transaction-Succeeds = elim (Option-cases (fid_of key t.files)) [
    | inl new ↦ subst Succeeds (sym (transaction-none new)) (
        rest_of-Succeeds fid devid key [] taken
          (held-false fid key t.files t.places (λ r m.
            either (λ e. ap (λ f. is_placed f t.places) e ∙ h.unplaced)
              (λ e. absurd (fid_of-none key t.files r new m e))))
          (has-is_placed (record { fid = fid; devid = devid }) t.places h.unplaced) h.hosted)
    | inr (old, found) ↦
        (let (y, there, same, number) = fid_of-In key old t.files found in
          let unplaced = is_placed-delete_places fid old t.places h.unplaced in
          subst Succeeds (sym (transaction-some old found)) (
            rest_of-Succeeds fid devid key (places_of old t.places) (after_old old)
              (held-false fid key (delete_file old t.files) (delete_places old t.places) (λ r m.
                either (λ e. ap (λ f. is_placed f (delete_places old t.places)) e ∙ unplaced)
                  (λ e.
                    ap (λ f. is_placed f (delete_places old t.places))
                      (h.unique r y (In-delete_file r old t.files m) there (e ∙ sym same) ∙ number)
                    ∙ is_placed-deleted old t.places)))
              (has-is_placed (record { fid = fid; devid = devid }) (delete_places old t.places)
                unplaced)
              h.hosted))
  ]

  -- With no failing statement, createClose of an upload that tempfile knows, on a device that has a
  -- host, is answered with 200 if the file has no place yet and the key belongs to one file at most.
  pub create_close-succeeds : (create_close sound true (some fid) (some key) t).status ≡ 200
  unfolding create_close
  create_close-succeeds = go (close_transaction sound fid key t) transaction-Succeeds
    where
      go : (s : Step (List Place)) → Succeeds s → (conclude t s).status ≡ 200
      go (next tasks t') h = unfold conclude in refl
      go (stop status) h = absurd h
