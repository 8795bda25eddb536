-- ===== src/Tracker/Closing.antt =====
-- tracker.go: the tables and the tasks of `createClose`.
use efes.Prelude.{
  ℕ, Bool, false, ◌&&◌, sym, ◌≤◌, ◌≡◌, refl, ap, ◌∙◌, true, false, Option, none, some, List, [],
  ◌∷◌, ◌==◌, ◌⊎◌, Bool-cases, inl, inr, arith,
}
use efes.Prelude.Int.{ℤ, ◌==ℤ◌}
use efes.Tracker.{
  has, places_of, Place, Tempfile, File, Tables, Step, stop, devid_of, delete_tempfile, fid_of,
  ◌>>=◌, replace_into, insert_place, pure,
}
use efes.Tracker.Handlers.{
  Faults, Outcome, conclude, close_transaction, delete_old, create_close, select_host, commit,
}
use efes.Tracker.Places.{
  IsAccounted, has-places_of, delete_places-IsAccounted, unchanged-IsAccounted,
}
use efes.Tracker.Rule.{
  exec_rule, select_tempfile_rule, select_file_rule, replace_into_rule, insert_place_rule,
  select_host_rule, commit_rule, delete_fid_on_db_rule,
}

-- Whether a place is one of the key's old file.
abbrev pub of_old : Option ℤ → Place → Bool
of_old none q = false
of_old (some old) q = q.fid ==ℤ old

-- After a close that is committed: the file has the device of its temporary row, the key leads to
-- the file, the temporary row is gone, and the places of the key's old file are the delete tasks.
pub record Closed (fid : ℤ) (key : ℕ) (q : Place) (t : Tables) (tasks : List Place) (t' : Tables)
    : Type 0 where
  pub devid : ℤ
  pub rest : List Place
  pub was_open : devid_of fid t.tempfiles ≡ some devid
  pub tempfile_gone : devid_of fid t'.tempfiles ≡ none
  pub key_leads : fid_of key t'.files ≡ some fid
  pub placed : t'.places ≡ record { fid = fid; devid = devid } ∷ rest
  pub accounted : IsAccounted q t.places rest tasks
  pub queued : has q tasks ≡ (has q t.places && of_old (fid_of key t.files) q)

-- Either the request is answered with 200 and closed the file, or it is refused and nothing has
-- changed.
abbrev pub ClosedOrSame : ℤ → ℕ → Place → Tables → Outcome → Type 0
ClosedOrSame fid key q t o =
    ((o.status ≡ 200) × Closed fid key q t o.tasks o.tables)
    ⊎ ((o.tables ≡ t) × (o.tasks ≡ []) × (400 ≤ o.status))

abbrev Concludes : ℤ → ℕ → Place → Tables → Step (List Place) → Type 0
Concludes fid key q t r = ClosedOrSame fid key q t (conclude t r)

stops :
    (fid : ℤ) (key : ℕ) (q : Place) (t : Tables) (status : ℕ)
    → 400 ≤ status
    → Concludes fid key q t (stop status)
unfolding conclude
stops fid key q t status le = inr (refl, refl, le)

delete_tempfile-same :
    (fid : ℤ) (r : Tempfile) (rs : List Tempfile)
    → (r.fid ==ℤ fid) ≡ true
    → delete_tempfile fid (r ∷ rs) ≡ delete_tempfile fid rs
unfolding delete_tempfile
delete_tempfile-same fid r rs e = rw e refl

devid_of-other :
    (fid : ℤ) (r : Tempfile) (rs : List Tempfile)
    → (r.fid ==ℤ fid) ≡ false
    → devid_of fid (delete_tempfile fid (r ∷ rs)) ≡ devid_of fid (delete_tempfile fid rs)
unfolding devid_of delete_tempfile
devid_of-other fid r rs e = rw e (rw e refl)

devid_of-delete_tempfile :
    (fid : ℤ) (rs : List Tempfile) → devid_of fid (delete_tempfile fid rs) ≡ none
devid_of-delete_tempfile fid [] = unfold devid_of in unfold delete_tempfile in refl
devid_of-delete_tempfile fid (r ∷ rs) = elim (Bool-cases (r.fid ==ℤ fid)) [
  | inl gone ↦
      ap (devid_of fid) (delete_tempfile-same fid r rs gone) ∙ devid_of-delete_tempfile fid rs
  | inr other ↦ devid_of-other fid r rs other ∙ devid_of-delete_tempfile fid rs
]

fid_of-first :
    (fid : ℤ) (key : ℕ) (rs : List File)
    → fid_of key (record { fid = fid; dkey = key } ∷ rs) ≡ some fid
unfolding fid_of
fid_of-first fid key rs = let same : (key == key) ≡ true = ground arith in rw same refl

-- The end of the transaction, from the tables after the deletion of the old file.
close_end :
    (f : Faults) (fid devid : ℤ) (key : ℕ) (q : Place) (t t1 : Tables) (tasks : List Place)
    → devid_of fid t.tempfiles ≡ some devid
    → devid_of fid t1.tempfiles ≡ none
    → IsAccounted q t.places t1.places tasks
    → has q tasks ≡ (has q t.places && of_old (fid_of key t.files) q)
    → Concludes fid key q t (
        (replace_into f.replace_file fid key >>= λ _.
        insert_place f.insert_place (record { fid = fid; devid = devid }) >>= λ _.
        select_host f.select_host devid >>= λ _. commit f.commit >>= λ _. pure tasks)
          t1)
unfolding conclude
close_end f fid devid key q t t1 tasks opened gone accounted queued =
    replace_into_rule P s t1 f.replace_file fid key _ (
      insert_place_rule P s _ f.insert_place _ _ (
        select_host_rule P s _ f.select_host devid _ (
          commit_rule P s _ f.commit _ (
            inl (
              refl,
              record {
                devid = devid;
                rest = t1.places;
                was_open = opened;
                tempfile_gone = gone;
                key_leads = fid_of-first fid key _;
                placed = refl;
                accounted = accounted;
                queued = queued;
              },
            )))))
  where
    P : Step (List Place) → Type 0
    P = Concludes fid key q t

    s : (status : ℕ) → 400 ≤ status → P (stop status)
    s = stops fid key q t

none_queued : (a : Bool) → false ≡ (a && false)
none_queued true = refl
none_queued false = refl

old_done :
    (f : Faults) (fid devid : ℤ) (key : ℕ) (q : Place) (t t1 : Tables) (old : Option ℤ)
    → devid_of fid t.tempfiles ≡ some devid
    → devid_of fid t1.tempfiles ≡ none
    → t1.places ≡ t.places
    → fid_of key t.files ≡ old
    → Concludes fid key q t (
        (delete_old f old >>= λ tasks. replace_into f.replace_file fid key >>= λ _.
        insert_place f.insert_place (record { fid = fid; devid = devid }) >>= λ _.
        select_host f.select_host devid >>= λ _. commit f.commit >>= λ _. pure tasks)
          t1)
unfolding delete_old has
old_done f fid devid key q t t1 none opened gone same e =
    close_end f fid devid key q t t1 [] opened gone (rw same (unchanged-IsAccounted q t.places))
      (none_queued (has q t.places) ∙ ap (λ o. has q t.places && of_old o q) (sym e))
old_done f fid devid key q t t1 (some oldfid) opened gone same e =
    delete_fid_on_db_rule (Concludes fid key q t) (stops fid key q t) t1 f oldfid _ (
      close_end f fid devid key q t _ _ opened gone
        (rw same (delete_places-IsAccounted q oldfid t.places))
        (ap (λ ps. has q (places_of oldfid ps)) same
          ∙ has-places_of q oldfid t.places
          ∙ ap (λ o. has q t.places && of_old o q) (sym e)))

transaction_done :
    (f : Faults) (fid : ℤ) (key : ℕ) (q : Place) (t : Tables)
    → Concludes fid key q t (close_transaction f fid key t)
unfolding close_transaction
transaction_done f fid key q t = select_tempfile_rule P s t f.select_tempfile fid _ (λ devid opened.
    exec_rule P s t f.delete_tempfile _ _ (
      select_file_rule P s _ f.select_file key _ (
        old_done f fid devid key q t _ _ opened (devid_of-delete_tempfile fid t.tempfiles) refl
          refl)))
  where
    P : Step (List Place) → Type 0
    P = Concludes fid key q t

    s : (status : ℕ) → 400 ≤ status → P (stop status)
    s = stops fid key q t

-- A create-close request, whichever statement fails, either is answered with 200 and has closed the
-- file, or is answered with an error (400 or more), changes nothing and publishes nothing. A closed
-- file had a temporary row, which is gone; its key leads to it, it has the place of the temporary
-- row, and a place is published as a delete task if and only if it was one of the key's old file,
-- while all other places stay.
pub create_close-ClosedOrSame :
    (f : Faults) (fid : ℤ) (key : ℕ) (t : Tables) (q : Place)
    → ClosedOrSame fid key q t (create_close f true (some fid) (some key) t)
unfolding create_close
create_close-ClosedOrSame f fid key t q = elim (Bool-cases f.begin) [
  | inl fails ↦ rw fails (inr (refl, refl, omega arith))
  | inr begun ↦ simp begun (transaction_done f fid key q t)
]
