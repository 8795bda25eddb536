-- ===== src/Tests/Reading.antt =====
-- Where files can be read, after a close and after a deletion, and the pages of all files.
use efes.Prelude.{inr, ◌≡◌, ◌<◌, ◌++◌, refl, arith, true, false, some, [], ◌∷◌, ℕ, ◌+◌, List}
use efes.Prelude.Int.{pos}
use efes.Prelude.Members.{In}
use efes.Tracker.{File, devid_of, exec, fid_of}
use efes.Tracker.Devices.{alive, drain}
use efes.Tracker.Handlers.{
  delete_request, delete_begun, delete_found, select_file, delete_transaction, delete_fid_on_db,
  get_devices_of_fid, is_none, conclude, commit,
}
use efes.Tracker.Succeeding.{sound, create_close-succeeds}
use efes.Tracker.Paths.{
  ReadDevice, read_url, read_device, get_path, get_paths, denied, answer_close,
}
use efes.Tracker.Paths.Named.{IsUp, Named, paths_in, get_paths-Named}
use efes.Tracker.Paths.Opened.{create_close-get_paths}
use efes.Tracker.Paths.Deleted.{delete_request-get_path}
use efes.Tracker.Devices.{given}
use efes.Tracker.Iterating.{iter_files, number}
use efes.Tracker.Iterating.Pages.{HasKey, last_fid, files_in, iter_files-pages}
use efes.Tests.Closing.{tables, only_file, tables-IsClosable}

abbrev device : ReadDevice
device = record {
  devid = pos 11;
  host_status = alive;
  status = drain;
  hostname = b'h' ∷ [];
  read_port = pos 8500;
}

devices_lem : read_device (device ∷ []) (pos 11) ≡ some device
unfolding read_device
devices_lem = refl

device-IsUp : IsUp device
device-IsUp = (refl, inr refl)

known : devid_of (pos 2) tables.tempfiles ≡ some (pos 11)
unfolding devid_of
known = refl

closed : (answer_close sound (device ∷ []) true (some (pos 2)) (some 7) tables).outcome.status ≡ 200
unfolding answer_close
closed = create_close-succeeds (pos 2) (pos 11) 7 tables tables-IsClosable

create_close-get_paths_example :
    ((answer_close sound (device ∷ []) true (some (pos 2)) (some 7) tables).path
      ≡ some (read_url device (pos 2)))
    × In (read_url device (pos 2)) (
        paths_in (
          get_paths false
            (device ∷ [])
            (answer_close sound (device ∷ []) true (some (pos 2)) (some 7) tables).outcome.tables
            7))
create_close-get_paths_example =
    create_close-get_paths sound (pos 2) (pos 11) 7 tables (device ∷ []) device closed known
      devices_lem device-IsUp

get_paths-Named_example :
    (In (read_url device (pos 1)) (paths_in (get_paths false (device ∷ []) tables 7))
      → Named (device ∷ []) tables.places 7 tables.files (read_url device (pos 1)))
    × (Named (device ∷ []) tables.places 7 tables.files (read_url device (pos 1))
        → In (read_url device (pos 1)) (paths_in (get_paths false (device ∷ []) tables 7)))
get_paths-Named_example = get_paths-Named (device ∷ []) tables 7 (read_url device (pos 1))

accepted : (delete_request sound true (pos 0) (some 7) tables).status < 400
unfolding delete_request delete_begun delete_found select_file delete_transaction delete_fid_on_db
    get_devices_of_fid is_none conclude commit exec fid_of
accepted = omega arith

delete_request-get_path_example :
    get_path false (device ∷ []) (delete_request sound true (pos 0) (some 7) tables).tables 7
    ≡ denied 404
delete_request-get_path_example =
    delete_request-get_path sound 7 tables (device ∷ []) only_file accepted

abbrev file : ℕ → File
file n = record { fid = pos n; dkey = n }

abbrev files : List File
files = file 3 ∷ file 1 ∷ file 2 ∷ []

files-HasKey : HasKey files
unfolding number
files-HasKey = ((λ e. cc, (λ e. cc, tt)), ((λ e. cc, tt), (tt, tt)))

iter_files-pages_example :
    files_in (iter_files false files (given 1) (given (1 + 1)))
    ≡ files_in (iter_files false files (given 1) (given 1))
      ++ files_in (
          iter_files false files
            (given (last_fid 1 (files_in (iter_files false files (given 1) (given 1)))))
            (given 1))
iter_files-pages_example = iter_files-pages files 1 1 1 files-HasKey
