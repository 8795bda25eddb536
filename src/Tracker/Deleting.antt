-- ===== src/Tracker/Deleting.antt =====
-- tracker.go: the places and the tasks of `deleteFile`.
use efes.Prelude.{
  ℕ, ◌≤◌, ◌≡◌, ◌⊎◌, refl, arith, Bool, true, false, not, Option, none, some, List, [], ◌&&◌,
  if◌then◌else◌, Bool-cases, inl, inr,
}
use efes.Prelude.Int.{ℤ, pos, ◌==ℤ◌}
use efes.Tracker.{Place, Tables, Step, next, fid_of, has}
use efes.Tracker.Handlers.{
  Faults, Outcome, conclude, select_file, delete_transaction, delete_found, delete_begun, is_none,
  delete_request,
}
use efes.Tracker.Places.{has-delete_places, has-places_of}
use efes.Tracker.Rule.{delete_fid_on_db_rule, commit_rule}

-- The file that a request asks to delete: its fid, or that of its key.
abbrev pub target : ℤ → Option ℕ → Tables → Option ℤ
target fid none t = some fid
target fid (some key) t = if fid ==ℤ pos 0 then fid_of key t.files else some fid

abbrev pub of_target : Option ℤ → Place → Bool
of_target none q = false
of_target (some fid) q = q.fid ==ℤ fid

-- The request is answered with an error and nothing has changed, or it is answered with 200, the
-- places of the target are gone and are the delete tasks, and the others are still there.
abbrev pub DeletesOrSame : Option ℤ → Place → Tables → Outcome → Type 0
DeletesOrSame target q t o =
    ((400 ≤ o.status) × (o.tables ≡ t) × (o.tasks ≡ []))
    ⊎ ((o.status ≡ 200)
        × (has q o.tables.places ≡ (has q t.places && not (of_target target q)))
        × (has q o.tasks ≡ (has q t.places && of_target target q)))

transaction-DeletesOrSame :
    (f : Faults) (fid : ℤ) (t : Tables) (q : Place)
    → DeletesOrSame (some fid) q t (conclude t (delete_transaction f fid t))
unfolding delete_transaction conclude
transaction-DeletesOrSame f fid t q =
    delete_fid_on_db_rule P (λ status le. inl (le, refl, refl)) t f fid _
      (commit_rule P (λ status le. inl (le, refl, refl)) _ f.commit _
        (inr (refl, has-delete_places q fid t.places, has-places_of q fid t.places)))
  where
    P : Step (List Place) → Type 0
    P r = DeletesOrSame (some fid) q t (conclude t r)

untouched : (a : Bool) → (a ≡ (a && not false)) × (false ≡ (a && false))
untouched true = (refl, refl)
untouched false = (refl, refl)

found-DeletesOrSame :
    (f : Faults) (fails : Bool) (key : ℕ) (t : Tables) (q : Place)
    → DeletesOrSame (fid_of key t.files) q t (delete_found f t (select_file fails key t))
unfolding select_file delete_found has
found-DeletesOrSame f true key t q = inl (omega arith, refl, refl)
found-DeletesOrSame f false key t q = found (fid_of key t.files)
  where
    found : (o : Option ℤ) → DeletesOrSame o q t (delete_found f t (next o t))
    found none = inr (refl, (untouched (has q t.places)).0, (untouched (has q t.places)).1)
    found (some fid) = transaction-DeletesOrSame f fid t q

begun-DeletesOrSame :
    (f : Faults) (fid : ℤ) (key : Option ℕ) (t : Tables) (q : Place)
    → DeletesOrSame (target fid key t) q t (delete_begun f fid key t)
unfolding delete_begun
begun-DeletesOrSame f fid none t q = transaction-DeletesOrSame f fid t q
begun-DeletesOrSame f fid (some key) t q = elim (Bool-cases (fid ==ℤ pos 0)) [
  | inl absent ↦ rw absent (found-DeletesOrSame f f.select_file key t q)
  | inr given ↦ rw given (transaction-DeletesOrSame f fid t q)
]

-- A delete request, whichever statement fails, either is answered with an error (400 or more), and
-- then changes nothing and publishes nothing, or is answered with 200: the places of the file that it
-- asks for, by its fid or by its key, are gone and each is published as a delete task, while the
-- places of other files stay and are not published.
pub delete_request-DeletesOrSame :
    (f : Faults) (post : Bool) (fid : ℤ) (key : Option ℕ) (t : Tables) (q : Place)
    → DeletesOrSame (target fid key t) q t (delete_request f post fid key t)
unfolding delete_request
delete_request-DeletesOrSame f false fid key t q = inl (omega arith, refl, refl)
delete_request-DeletesOrSame f true fid key t q =
    elim (Bool-cases (is_none key && (fid ==ℤ pos 0))) [
      | inl nothing ↦ rw nothing (inl (omega arith, refl, refl))
      | inr given ↦ rw given (elim (Bool-cases f.begin) [
        | inl fails ↦ rw fails (inl (omega arith, refl, refl))
        | inr begun ↦ simp begun (begun-DeletesOrSame f fid key t q)
      ])
    ]
