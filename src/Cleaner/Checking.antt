-- ===== src/Cleaner/Checking.antt =====
-- cleandevice.go: what `checkFid` does to the places of a file.
use efes.Prelude.{
  ◌≡◌, refl, ap, sym, ◌∙◌, Bool, true, false, List, [], ◌∷◌, not, ◌||◌, ◌&&◌, ◌⊎◌, Bool-cases, inl,
  inr,
}
use efes.Prelude.Int.{ℤ, ◌==ℤ◌}
use efes.Tracker.{Place, has}
use efes.Tracker.Places.{IsAccounted, unchanged-IsAccounted}
use efes.Cleaner.{
  in_list, remove_item, all_devids, delete_on, delete_tasks, exists, Faults, Checked,
  delete_from_others, check_others, check_disk, check_fid,
}
use efes.Cleaner.Accounts.{
  selects, has-delete_on, has-delete_tasks, in_list-remove_item, listed-has,
}

-- The other devices of the file.
abbrev pub others : ℤ → ℤ → List Place → List ℤ
others devid fid ps = remove_item devid (all_devids fid ps)

-- How a check of a file that is on this disk may end: nothing changed, or the other devices lost
-- it and this one has it.
abbrev pub Ends : ℤ → ℤ → List Place → Checked → Type 0
Ends devid fid ps o =
    ((o.places ≡ ps) × (o.tasks ≡ []))
    ⊎ ((o.places ≡ delete_on fid (others devid fid ps) ps)
        × (o.tasks ≡ delete_tasks fid (others devid fid ps))
        × (in_list devid (all_devids fid ps) ≡ true))

check_others-Ends :
    (dry_run : Bool) (f : Faults) (ds : List ℤ) (devid fid : ℤ) (ps : List Place)
    → others devid fid ps ≡ ds
    → in_list devid (all_devids fid ps) ≡ true
    → Ends devid fid ps (check_others dry_run f ds fid ps)
unfolding check_others delete_from_others
check_others-Ends dry_run f [] devid fid ps e listed = inl (refl, refl)
check_others-Ends true f (d ∷ ds) devid fid ps e listed = inl (refl, refl)
check_others-Ends false f (d ∷ ds) devid fid ps e listed = elim (Bool-cases (f.exec || f.commit)) [
  | inl fails ↦ rw fails (inl (refl, refl))
  | inr works ↦
      rw works (inr (ap (λ t. delete_on fid t ps) (sym e), ap (delete_tasks fid) (sym e), listed))
]

pub check_fid-Ends :
    (dry_run : Bool) (f : Faults) (devid fid : ℤ) (ps : List Place)
    → Ends devid fid ps (check_fid dry_run exists f devid fid ps)
unfolding check_fid check_disk
check_fid-Ends dry_run f devid fid ps = elim (Bool-cases (f.begin || f.select)) [
  | inl fails ↦ rw fails (inl (refl, refl))
  | inr works ↦ rw works (elim (Bool-cases (not (in_list devid (all_devids fid ps)))) [
    | inl unlisted ↦ rw unlisted (inl (refl, refl))
    | inr listed ↦ rw listed (
        check_others-Ends dry_run f (others devid fid ps) devid fid ps refl
          (listed_here (in_list devid (all_devids fid ps)) listed))
  ])
]
  where
    listed_here : (a : Bool) → not a ≡ false → a ≡ true
    listed_here true h = refl
    listed_here false h = sym h

split : (a b : Bool) → (b ≡ true → a ≡ true) → a ≡ ((a && not b) || b)
split true true h = refl
split true false h = refl
split false true h = h refl
split false false h = refl

apart : (a b : Bool) → ((a && not b) && b) ≡ false
apart true true = refl
apart true false = refl
apart false b = refl

pub selected-has :
    (q : Place) (devid fid : ℤ) (ps : List Place)
    → selects fid (others devid fid ps) q ≡ true
    → has q ps ≡ true
selected-has q devid fid ps h = elim (Bool-cases (q.fid ==ℤ fid)) [
  | inl same ↦
      listed-has q fid ps same
        (in_list-remove_item q.devid devid (all_devids fid ps) (rw same at h))
  | inr other ↦ cc (rw other at h)
]

-- A check of a file that is on this disk, whichever call fails, keeps account of every place: a
-- row of `file_on` is either still there or is published as a delete task for its device, never
-- both, and nothing else is there or published.
pub check_fid-IsAccounted :
    (dry_run : Bool) (f : Faults) (devid fid : ℤ) (ps : List Place) (q : Place)
    → IsAccounted q ps
        (check_fid dry_run exists f devid fid ps).places
        (check_fid dry_run exists f devid fid ps).tasks
check_fid-IsAccounted dry_run f devid fid ps q = elim (check_fid-Ends dry_run f devid fid ps) [
  | inl (same, none_sent) ↦ rw same (rw none_sent (unchanged-IsAccounted q ps))
  | inr (deleted, sent, listed) ↦ rw deleted (
      rw sent (
        rw (has-delete_on q fid (others devid fid ps) ps) (
          rw (has-delete_tasks q fid (others devid fid ps)) (
            split (has q ps) (selects fid (others devid fid ps) q) (selected-has q devid fid ps),
            apart (has q ps) (selects fid (others devid fid ps) q),
          ))))
]

kept : (a b : Bool) → b ≡ false → (a && not b) ≡ a
kept true b h = ap not h
kept false b h = refl

unlisted_place : (a b : Bool) → b ≡ false → (a && b) ≡ false
unlisted_place true b h = h
unlisted_place false b h = refl

-- If a file is listed at most once for this device, a check of a file that is on this disk keeps
-- its place here, whichever call fails.
pub check_fid-keeps :
    (dry_run : Bool) (f : Faults) (devid fid : ℤ) (ps : List Place)
    → in_list devid (remove_item devid (all_devids fid ps)) ≡ false
    → has (record { fid = fid; devid = devid }) (check_fid dry_run exists f devid fid ps).places
      ≡ has (record { fid = fid; devid = devid }) ps
check_fid-keeps dry_run f devid fid ps once = elim (check_fid-Ends dry_run f devid fid ps) [
  | inl (same, none_sent) ↦ rw same refl
  | inr (deleted, sent, listed) ↦ rw deleted (
      has-delete_on (record { fid = fid; devid = devid }) fid (others devid fid ps) ps
      ∙ kept _ _ (unlisted_place (fid ==ℤ fid) (in_list devid (others devid fid ps)) once))
]
