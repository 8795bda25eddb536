-- ===== src/Cleaner/Walk.antt =====
-- cleandevice.go: the walk over the files of a device, and the tick that starts it.
pub mod Keys
pub mod Single
pub mod Cleaned
pub mod Settled
use efes.Prelude.{ℕ, ◌+◌, Bool, true, false, List, [], ◌∷◌, ◌++◌, if◌then◌else◌, ltb}
use efes.Prelude.Int.{ℤ, ◌==ℤ◌}
use efes.Tracker.{Place}
use efes.Cleaner.{Stat, Faults, check_fid}

-- The device that is cleaned, and whether only to log what would be deleted.
pub record Config : Type 0 where
  pub devid : ℤ
  pub dry_run : Bool
  pub period : ℕ

-- What a check meets: the answer of `os.Stat`, and the calls that fail.
pub record Meets : Type 0 where
  pub disk : ℤ → Stat
  pub fails : ℤ → Faults

-- getDeviceFids: select fid from file_on where devid=?
unfoldable pub device_fids : ℤ → List Place → List ℤ
device_fids devid [] = []
device_fids devid (p ∷ ps) =
    let rest = device_fids devid ps in if p.devid ==ℤ devid then p.fid ∷ rest else rest

-- The rows of `file_on`, and the delete tasks that were published.
pub record Walked : Type 0 where
  pub places : List Place
  pub tasks : List Place

-- The loop of walkOnDeviceFiles: a check that fails is logged.
unfoldable pub check_fids : Config → Meets → List ℤ → List Place → Walked
unfolding check_fid
check_fids c m [] ps = record { places = ps; tasks = [] }
check_fids c m (fid ∷ fids) ps =
    let o = check_fid c.dry_run (m.disk fid) (m.fails fid) c.devid fid ps in
    let rest = check_fids c m fids o.places in
    record { places = rest.places; tasks = o.tasks ++ rest.tasks }

-- walkOnDeviceFiles
unfoldable pub walk_on_device_files : Config → Bool → Meets → List Place → Walked
unfolding device_fids check_fids
walk_on_device_files c query m ps =
    if query then record { places = ps; tasks = [] } else check_fids c m (device_fids c.devid ps) ps

-- The statements of a tick that fail; `query` is that of getDeviceFids.
pub record TickFaults : Type 0 where
  pub update : Bool
  pub affected : Bool
  pub query : Bool
  pub last_update : Bool

-- The device's row has the time of its last cleaning.
pub record Ticked : Type 0 where
  pub last_clean : ℕ
  pub walked : Walked

-- One tick of cleanDevice: `now` is its time and `later` that of the end of the walk.
unfoldable pub clean_device : Config → TickFaults → Meets → ℕ → ℕ → ℕ → List Place → Ticked
unfolding walk_on_device_files
clean_device c f m now later last_clean ps =
    if f.update
    then record { last_clean = last_clean; walked = record { places = ps; tasks = [] } }
    else if ltb (last_clean + c.period) now
    then (if f.affected
        then record { last_clean = now; walked = record { places = ps; tasks = [] } }
        else record {
          last_clean = if f.last_update then now else later;
          walked = walk_on_device_files c f.query m ps;
        })
    else record { last_clean = last_clean; walked = record { places = ps; tasks = [] } }
