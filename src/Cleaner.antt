-- ===== src/Cleaner.antt =====
-- cleandevice.go: `checkFid` compares the rows of `file_on` for a file with the disk of this server.
pub mod Accounts
pub mod Checking
pub mod Walk
use efes.Prelude.{ℕ, Bool, true, false, List, [], ◌∷◌, not, ◌||◌, ◌&&◌, if◌then◌else◌}
use efes.Prelude.Int.{ℤ, ◌==ℤ◌}
use efes.Tracker.{Place}

-- inList
unfoldable pub in_list : ℤ → List ℤ → Bool
in_list value [] = false
in_list value (current ∷ list) = (current ==ℤ value) || in_list value list

-- removeItem: the first occurrence.
unfoldable pub remove_item : ℤ → List ℤ → List ℤ
remove_item value [] = []
remove_item value (current ∷ list) =
    let rest = remove_item value list in if current ==ℤ value then list else current ∷ rest

-- getAllDevidsForFid
unfoldable pub all_devids : ℤ → List Place → List ℤ
all_devids fid [] = []
all_devids fid (p ∷ ps) =
    let rest = all_devids fid ps in if p.fid ==ℤ fid then p.devid ∷ rest else rest

-- delete from file_on where fid=? and devid in (...)
unfoldable pub delete_on : ℤ → List ℤ → List Place → List Place
delete_on fid devids [] = []
delete_on fid devids (p ∷ ps) =
    let rest = delete_on fid devids ps in
    if (p.fid ==ℤ fid) && in_list p.devid devids then rest else p ∷ rest

-- publishDeleteTask, for each device.
unfoldable pub delete_tasks : ℤ → List ℤ → List Place
delete_tasks fid [] = []
delete_tasks fid (devid ∷ devids) = record { fid = fid; devid = devid } ∷ delete_tasks fid devids

-- os.Stat
pub data Stat : Type 0 where
  exists missing stat_fails : Stat

pub record Faults : Type 0 where
  pub begin : Bool
  pub select : Bool
  pub exec : Bool
  pub commit : Bool

-- Whether the call returned no error, the rows of `file_on`, and the delete tasks.
pub record Checked : Type 0 where
  pub ok : Bool
  pub places : List Place
  pub tasks : List Place

abbrev rolled_back : Bool → List Place → Checked
rolled_back ok ps = record { ok = ok; places = ps; tasks = [] }

-- deleteFidFromOtherDevices
unfoldable pub delete_from_others : Bool → Faults → List ℤ → ℤ → List Place → Checked
delete_from_others dry_run f others fid ps =
    if dry_run
    then rolled_back true ps
    else if f.exec || f.commit
    then rolled_back false ps
    else record { ok = true; places = delete_on fid others ps; tasks = delete_tasks fid others }

-- deleteFidFromCurrentDevice
unfoldable pub delete_from_current : Bool → Faults → ℤ → ℤ → List Place → Checked
delete_from_current dry_run f devid fid ps =
    if dry_run
    then rolled_back true ps
    else if f.exec || f.commit
    then rolled_back false ps
    else record { ok = true; places = delete_on fid (devid ∷ []) ps; tasks = [] }

-- The file is on this disk: no other device may have it.
unfoldable pub check_others : Bool → Faults → List ℤ → ℤ → List Place → Checked
check_others dry_run f [] fid ps = rolled_back (not f.commit) ps
check_others dry_run f (d ∷ ds) fid ps = delete_from_others dry_run f (d ∷ ds) fid ps

-- From `os.Stat` on.
unfoldable pub check_disk : Bool → Stat → Faults → ℤ → ℤ → List Place → Checked
check_disk dry_run exists f devid fid ps =
    check_others dry_run f (remove_item devid (all_devids fid ps)) fid ps
check_disk dry_run missing f devid fid ps = delete_from_current dry_run f devid fid ps
check_disk dry_run stat_fails f devid fid ps = rolled_back false ps

-- checkFid
unfoldable pub check_fid : Bool → Stat → Faults → ℤ → ℤ → List Place → Checked
check_fid dry_run stat f devid fid ps =
    if f.begin || f.select
    then rolled_back false ps
    else if not (in_list devid (all_devids fid ps))
    then rolled_back true ps
    else check_disk dry_run stat f devid fid ps
