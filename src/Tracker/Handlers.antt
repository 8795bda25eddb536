-- ===== src/Tracker/Handlers.antt =====
-- tracker.go: `createClose` and `deleteFile`. An early return rolls the transaction back.
use efes.Prelude.{ℕ, Bool, true, false, Option, none, some, List, [], ◌&&◌, if◌then◌else◌}
use efes.Prelude.Int.{ℤ, pos, ◌==ℤ◌}
use efes.Tracker.{
  Place, Tables, Step, next, stop, Tx, ◌>>=◌, ◌>>◌, pure, exec, devid_of, delete_tempfile, fid_of,
  delete_file, places_of, delete_places, has_device, replace_into, insert_place,
}

-- The statements that fail.
pub record Faults : Type 0 where
  pub begin : Bool
  pub select_tempfile : Bool
  pub delete_tempfile : Bool
  pub select_file : Bool
  pub select_places : Bool
  pub delete_places : Bool
  pub delete_file : Bool
  pub replace_file : Bool
  pub insert_place : Bool
  pub select_host : Bool
  pub commit : Bool

-- The status of the response, the tables, and the delete tasks that are published.
pub record Outcome : Type 0 where
  pub status : ℕ
  pub tables : Tables
  pub tasks : List Place

-- The row that is there, or 404; any other error of the query is 409.
unfoldable pub found_tempfile : Option ℤ → Tx ℤ
found_tempfile none t = stop 404
found_tempfile (some devid) t = next devid t

unfoldable pub select_tempfile : Bool → ℤ → Tx ℤ
unfolding found_tempfile
select_tempfile fails fid t =
    if fails then stop 409 else found_tempfile (devid_of fid t.tempfiles) t

unfoldable pub select_file : Bool → ℕ → Tx (Option ℤ)
select_file fails key t = if fails then stop 500 else next (fid_of key t.files) t

-- getDevicesOfFid
unfoldable pub get_devices_of_fid : Bool → ℤ → Tx (List Place)
get_devices_of_fid fails fid t = if fails then stop 500 else next (places_of fid t.places) t

-- deleteFidOnDB
unfoldable pub delete_fid_on_db : Faults → ℤ → Tx (List Place)
delete_fid_on_db f fid = do
  devids ← get_devices_of_fid f.select_places fid
  exec f.delete_places (λ t. record t { places = delete_places fid t.places })
  exec f.delete_file (λ t. record t { files = delete_file fid t.files })
  pure devids

-- `switch err` after the query for the old file of the key.
unfoldable pub delete_old : Faults → Option ℤ → Tx (List Place)
delete_old f none = pure []
delete_old f (some oldfid) = delete_fid_on_db f oldfid

-- select h.hostname, d.read_port from device d join host h ... where d.devid=?
unfoldable pub select_host : Bool → ℤ → Tx (Unit {0})
select_host fails devid t =
    if fails then stop 500 else if has_device devid t.devices then next tt t else stop 500

unfoldable pub commit : Bool → Tx (Unit {0})
commit fails t = if fails then stop 500 else next tt t

-- The transaction of createClose; its result is the delete tasks.
unfoldable pub close_transaction : Faults → ℤ → ℕ → Tx (List Place)
close_transaction f fid key = do
  devid ← select_tempfile f.select_tempfile fid
  exec f.delete_tempfile (λ t. record t { tempfiles = delete_tempfile fid t.tempfiles })
  old ← select_file f.select_file key
  tasks ← delete_old f old
  replace_into f.replace_file fid key
  insert_place f.insert_place (record { fid = fid; devid = devid })
  select_host f.select_host devid
  commit f.commit
  pure tasks

-- The deferred Rollback, or the publication of the tasks.
unfoldable pub conclude : Tables → Step (List Place) → Outcome
conclude t (next tasks t') = record { status = 200; tables = t'; tasks = tasks }
conclude t (stop status) = record { status = status; tables = t; tasks = [] }

abbrev pub refuse : Tables → ℕ → Outcome
refuse t status = record { status = status; tables = t; tasks = [] }

-- createClose: `fid` if it parses, `key` if it is not empty.
unfoldable pub create_close : Faults → Bool → Option ℤ → Option ℕ → Tables → Outcome
unfolding conclude
create_close f false fid key t = refuse t 405
create_close f true none key t = refuse t 400
create_close f true (some fid) none t = refuse t 400
create_close f true (some fid) (some key) t =
    if f.begin then refuse t 500 else conclude t (close_transaction f fid key t)

-- The transaction of deleteFile once the file is known.
unfoldable pub delete_transaction : Faults → ℤ → Tx (List Place)
delete_transaction f fid = do tasks ← delete_fid_on_db f fid; commit f.commit; pure tasks

-- A key without a file is no error.
unfoldable pub delete_found : Faults → Tables → Step (Option ℤ) → Outcome
unfolding conclude
delete_found f t (next none t') = refuse t 200
delete_found f t (next (some fid) t') = conclude t (delete_transaction f fid t')
delete_found f t (stop status) = refuse t status

-- The query for the fid, if none was given.
unfoldable pub delete_begun : Faults → ℤ → Option ℕ → Tables → Outcome
unfolding conclude delete_found
delete_begun f fid none t = conclude t (delete_transaction f fid t)
delete_begun f fid (some key) t =
    if fid ==ℤ pos 0
    then delete_found f t (select_file f.select_file key t)
    else conclude t (delete_transaction f fid t)

unfoldable pub is_none : Option ℕ → Bool
is_none none = true
is_none (some key) = false

-- Tracker.deleteFile: `fid` is what strconv.ParseInt returns, `key` is `none` if it is empty.
unfoldable pub delete_request : Faults → Bool → ℤ → Option ℕ → Tables → Outcome
unfolding delete_begun
delete_request f false fid key t = refuse t 405
delete_request f true fid key t =
    if is_none key && (fid ==ℤ pos 0)
    then refuse t 400
    else if f.begin
    then refuse t 500
    else delete_begun f fid key t
