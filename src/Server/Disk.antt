-- ===== src/Server/Disk.antt =====
-- cleandisk.go: the disk cleaner.
pub mod Kept
use efes.Prelude.{
  ℕ, zero, suc, ◌+◌, Bool, true, false, Option, none, some, List, [], ◌∷◌, ◌||◌, ltb, if◌then◌else◌,
}
use efes.Prelude.Int.{ℤ, ◌==ℤ◌}
use efes.Prelude.Text.{equal_bytes}
use efes.Tracker.{Place, Tempfile, Tables, has}
use efes.Server.{FilePath, fid_ext, info_ext}
use efes.Server.Names.{extension, file_id}

-- What os.Lstat says of a path; `age` is the time since its modification.
pub record Entry : Type 0 where
  pub path : FilePath
  pub is_dir : Bool
  pub is_symlink : Bool
  pub age : ℕ

-- What a visit meets: a shutdown, an error of the walk, and calls that fail.
pub record Meets : Type 0 where
  pub shutdown : Bool
  pub walk_error : Bool
  pub select_place_fails : Bool
  pub select_tempfile_fails : Bool
  pub remove_fails : Bool

pub record Config : Type 0 where
  pub devid : ℤ
  pub ttl : ℕ
  pub dry_run : Bool
  -- seconds between two runs
  pub period : ℕ

-- select fid from tempfile where fid=? and devid=?
unfoldable pub has_tempfile : ℤ → ℤ → List Tempfile → Bool
has_tempfile fid devid [] = false
has_tempfile fid devid (r ∷ rs) =
    let rest = has_tempfile fid devid rs in
    if r.fid ==ℤ fid then (r.devid ==ℤ devid) || rest else rest

-- fidExistsOnDatabase: `none` is an error.
unfoldable pub fid_exists_on_database : Config → Meets → Tables → ℤ → Option Bool
unfolding has_tempfile
fid_exists_on_database c m t fid =
    if m.select_place_fails
    then none
    else if has (record { fid = fid; devid = c.devid }) t.places
    then some true
    else if m.select_tempfile_fails
    then none
    else some (has_tempfile fid c.devid t.tempfiles)

pub data Visited : Type 0 where
  -- io.EOF, which ends the walk
  stopped : Visited
  kept : Visited
  removed : Visited

unfoldable pub delete_path : Config → Meets → Visited
delete_path c m = if c.dry_run then kept else if m.remove_fails then kept else removed

-- f.Name()
unfoldable pub base : FilePath → List ℕ
base [] = []
base (x ∷ []) = x
base (x ∷ y ∷ path) = base (y ∷ path)

unfoldable pub visit_unless : Config → Meets → Option Bool → Visited
unfolding delete_path
visit_unless c m none = kept
visit_unless c m (some true) = kept
visit_unless c m (some false) = delete_path c m

unfoldable pub visit_fid : Config → Meets → Tables → Option ℤ → Visited
unfolding visit_unless fid_exists_on_database
visit_fid c m t none = kept
visit_fid c m t (some fid) = visit_unless c m (fid_exists_on_database c m t fid)

unfoldable pub is_known : List ℕ → Bool
is_known ext = equal_bytes ext (b'.' ∷ fid_ext) || equal_bytes ext (b'.' ∷ info_ext)

-- From the test of the extension on.
unfoldable pub visit_name : Config → Meets → Tables → List ℕ → Visited
unfolding is_known visit_fid delete_path
visit_name c m t name =
    if is_known (extension name) then visit_fid c m t (file_id name) else delete_path c m

unfoldable pub visit_file : Config → Meets → Tables → Entry → Visited
unfolding visit_name base
visit_file c m t f =
    if m.shutdown
    then stopped
    else if m.walk_error
    then kept
    else if f.is_dir
    then kept
    else if f.is_symlink
    then kept
    else if ltb f.age c.ttl
    then kept
    else visit_name c m t (base f.path)

-- filepath.Walk: the entries that are left. `meets` tells what each visit meets.
unfoldable pub walk : Config → (ℕ → Meets) → Tables → ℕ → List Entry → List Entry
unfolding visit_file
walk c meets t i [] = []
walk c meets t i (f ∷ fs) = elim (visit_file c (meets i) t f) [
  | stopped ↦ f ∷ fs
  | kept ↦ f ∷ walk c meets t (suc i) fs
  | removed ↦ walk c meets t (suc i) fs
]

-- The device's `last_disk_clean_time`, and what is on its disk.
pub record Device : Type 0 where
  pub last_clean : ℕ
  pub entries : List Entry

-- The statements of a tick that fail.
pub record TickFaults : Type 0 where
  pub update : Bool
  pub affected : Bool
  pub last_update : Bool

-- One tick of cleanDisk: `now` is its time and `later` that of the end of the walk.
unfoldable pub clean_disk : Config → TickFaults → (ℕ → Meets) → Tables → ℕ → ℕ → Device → Device
unfolding walk
clean_disk c f meets t now later d =
    if f.update
    then d
    else if ltb (d.last_clean + c.period) now
    then (if f.affected then record d { last_clean = now } else record {
      last_clean = if f.last_update then now else later;
      entries = walk c meets t 0 d.entries;
    })
    else d
