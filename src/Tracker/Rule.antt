-- ===== src/Tracker/Rule.antt =====
-- Reasoning about a transaction of tracker.go statement by statement.
use efes.Prelude.{
  ℕ, ◌≤◌, arith, ◌≡◌, refl, Bool, true, false, Option, none, some, List, ◌∷◌, not, ◌||◌, ◌&&◌,
  if◌then◌else◌,
}
use efes.Prelude.Int.{ℤ}
use efes.Tracker.{
  Place, Tables, Step, next, stop, Tx, ◌>>=◌, pure, exec, devid_of, fid_of, delete_file, places_of,
  delete_places, has, has_device, has_file, held, without_conflicts, replace_into, insert_place,
}
use efes.Tracker.Handlers.{
  Faults, found_tempfile, select_tempfile, select_file, get_devices_of_fid, delete_fid_on_db,
  select_host, commit,
}

module _ {B : Type 0} (P : Step B → Type 0) (stops : (status : ℕ) → 400 ≤ status → P (stop status))
    (t : Tables) where
  pub exec_rule :
      (fails : Bool) (change : Tables → Tables) (k : Tx B)
      → P (k (change t))
      → P ((exec fails change >>= λ _. k) t)
  unfolding exec
  exec_rule true change k h = stops 500 (omega arith)
  exec_rule false change k h = h

  pub select_tempfile_rule :
      (fails : Bool) (fid : ℤ) (k : ℤ → Tx B)
      → ((devid : ℤ) → devid_of fid t.tempfiles ≡ some devid → P (k devid t))
      → P ((select_tempfile fails fid >>= k) t)
  unfolding select_tempfile found_tempfile
  select_tempfile_rule true fid k h = stops 409 (omega arith)
  select_tempfile_rule false fid k h = row (devid_of fid t.tempfiles) refl
    where
      row : (o : Option ℤ) → devid_of fid t.tempfiles ≡ o → P ((found_tempfile o >>= k) t)
      row none e = stops 404 (omega arith)
      row (some devid) e = h devid e

  pub select_file_rule :
      (fails : Bool) (key : ℕ) (k : Option ℤ → Tx B)
      → P (k (fid_of key t.files) t)
      → P ((select_file fails key >>= k) t)
  unfolding select_file
  select_file_rule true key k h = stops 500 (omega arith)
  select_file_rule false key k h = h

  -- A statement that the database refuses, or that leaves the tables `t'`.
  refused_or :
      (b : Bool) (t' : Tables) (k : Tx B)
      → P (k t')
      → P (((λ _. if b then stop 500 else next tt t') >>= λ _. k) t)
  refused_or true t' k h = stops 500 (omega arith)
  refused_or false t' k h = h

  pub replace_into_rule :
      (fails : Bool) (fid : ℤ) (key : ℕ) (k : Tx B)
      → P (
          k (record t {
            files = record { fid = fid; dkey = key } ∷ without_conflicts fid key t.files;
          }))
      → P ((replace_into fails fid key >>= λ _. k) t)
  unfolding replace_into
  replace_into_rule fails fid key k h = refused_or (fails || held fid key t.files t.places) _ k h

  pub insert_place_rule :
      (fails : Bool) (p : Place) (k : Tx B)
      → P (k (record t { places = p ∷ t.places }))
      → P ((insert_place fails p >>= λ _. k) t)
  unfolding insert_place
  insert_place_rule fails p k h =
      refused_or
        (fails || has p t.places || not (has_file p.fid t.files && has_device p.devid t.devices)) _
        k h

  pub select_host_rule :
      (fails : Bool) (devid : ℤ) (k : Tx B) → P (k t) → P ((select_host fails devid >>= λ _. k) t)
  unfolding select_host
  select_host_rule true devid k h = stops 500 (omega arith)
  select_host_rule false devid k h = row (has_device devid t.devices)
    where
      row : (b : Bool) → P (((λ _. if b then next tt t else stop 500) >>= λ _. k) t)
      row true = h
      row false = stops 500 (omega arith)

  pub commit_rule : (fails : Bool) (k : Tx B) → P (k t) → P ((commit fails >>= λ _. k) t)
  unfolding commit
  commit_rule true k h = stops 500 (omega arith)
  commit_rule false k h = h

  pub delete_fid_on_db_rule :
      (f : Faults) (fid : ℤ) (k : List Place → Tx B)
      → P (
          k
            (places_of fid t.places)
            (record t { places = delete_places fid t.places; files = delete_file fid t.files }))
      → P ((delete_fid_on_db f fid >>= k) t)
  unfolding delete_fid_on_db get_devices_of_fid exec
  delete_fid_on_db_rule f fid k h = go f.select_places f.delete_places f.delete_file
    where
      go :
          (a b c : Bool)
          → P (
              ((get_devices_of_fid a fid >>= λ devids.
              exec b (λ t. record t { places = delete_places fid t.places }) >>= λ _.
              exec c (λ t. record t { files = delete_file fid t.files }) >>= λ _. pure devids)
                  >>= k)
                t)
      go true b c = stops 500 (omega arith)
      go false true c = stops 500 (omega arith)
      go false false true = stops 500 (omega arith)
      go false false false = h
