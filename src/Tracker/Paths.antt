-- ===== src/Tracker/Paths.antt =====
-- tracker.go: where a file can be read (`getPath`, `getPaths`), and the path that `createClose`
-- answers with. The creation time of the answer is left out.
pub mod Named
pub mod Opened
pub mod Deleted
use efes.Prelude.{
  ℕ, Bool, true, false, Option, none, some, List, [], ◌∷◌, ◌++◌, ◌&&◌, ◌==◌, if◌then◌else◌,
}
use efes.Prelude.Int.{ℤ, ◌==ℤ◌}
use efes.Encoding.Decimal.{format_int}
use efes.Server.{FilePath, vivify}
use efes.Tracker.{Place, File, Tables, devid_of}
use efes.Tracker.Handlers.{Faults, Outcome, create_close}
use efes.Tracker.Devices.{Status, is_alive, is_alive_or_drain}

-- A row of device, joined with its host.
pub record ReadDevice : Type 0 where
  pub devid : ℤ
  pub host_status : Status
  pub status : Status
  pub hostname : List ℕ
  pub read_port : ℤ

unfoldable pub join_path : FilePath → List ℕ
join_path [] = []
join_path (p ∷ []) = p
join_path (p ∷ q ∷ ps) = p ++ b'/' ∷ join_path (q ∷ ps)

-- "http://%s:%d/dev%d/%s"
unfoldable pub read_url : ReadDevice → ℤ → List ℕ
unfolding join_path vivify
read_url d fid =
    (b'h' ∷ b't' ∷ b't' ∷ b'p' ∷ b':' ∷ b'/' ∷ b'/' ∷ [])
    ++ d.hostname
    ++ b':' ∷ format_int d.read_port
    ++ (b'/' ∷ b'd' ∷ b'e' ∷ b'v' ∷ [])
    ++ format_int d.devid
    ++ b'/' ∷ join_path (vivify fid)

-- `h.status='alive' and d.status in ('alive', 'drain')`
unfoldable pub serves : ReadDevice → Bool
unfolding is_alive is_alive_or_drain
serves d = is_alive d.host_status && is_alive_or_drain d.status

-- The rows of the query, each as the path that is made from it: those of a place,
unfoldable pub urls_on : Place → List ReadDevice → List (List ℕ)
unfolding serves read_url
urls_on p [] = []
urls_on p (d ∷ ds) =
    let rest = urls_on p ds in
    if (d.devid ==ℤ p.devid) && serves d then read_url d p.fid ∷ rest else rest

-- those of a file,
unfoldable pub urls_of : List ReadDevice → ℤ → List Place → List (List ℕ)
unfolding urls_on
urls_of ds fid [] = []
urls_of ds fid (p ∷ ps) =
    let rest = urls_of ds fid ps in if p.fid ==ℤ fid then urls_on p ds ++ rest else rest

-- and those of a key.
unfoldable pub urls_for : List ReadDevice → List Place → ℕ → List File → List (List ℕ)
unfolding urls_of
urls_for ds ps key [] = []
urls_for ds ps key (r ∷ rs) =
    let rest = urls_for ds ps key rs in if r.dkey == key then urls_of ds r.fid ps ++ rest else rest

-- The path, or the status of an error.
pub data GotPath : Type 0 where
  found_at : List ℕ → GotPath
  denied : ℕ → GotPath

unfoldable pub first_url : List (List ℕ) → GotPath
first_url [] = denied 404
first_url (u ∷ us) = found_at u

-- getPath
unfoldable pub get_path : Bool → List ReadDevice → Tables → ℕ → GotPath
unfolding urls_for first_url
get_path fails ds t key = if fails then denied 500 else first_url (urls_for ds t.places key t.files)

-- The paths, or the status of an error.
pub data GotPaths : Type 0 where
  listed : List (List ℕ) → GotPaths
  not_listed : ℕ → GotPaths

-- getPaths
unfoldable pub get_paths : Bool → List ReadDevice → Tables → ℕ → GotPaths
unfolding urls_for
get_paths fails ds t key =
    if fails then not_listed 500 else listed (urls_for ds t.places key t.files)

-- select h.hostname, d.read_port from device d join host h ... where d.devid=?
unfoldable pub read_device : List ReadDevice → ℤ → Option ReadDevice
read_device [] devid = none
read_device (d ∷ ds) devid =
    let rest = read_device ds devid in if d.devid ==ℤ devid then some d else rest

-- The status of createClose, and with 200 the path of the answer.
pub record CloseAnswer : Type 0 where
  pub outcome : Outcome
  pub path : Option (List ℕ)

-- "http://%s:%d/dev%d/%s" of the row that was selected.
unfoldable pub close_url : List ReadDevice → ℤ → Option ℤ → Option (List ℕ)
unfolding read_device read_url
close_url ds fid none = none
close_url ds fid (some devid) = elim (read_device ds devid) [
  | none ↦ none
  | some d ↦ some (read_url d fid)
]

-- createClose with its answer: the device is that of the temporary row.
unfoldable pub answer_close :
    Faults → List ReadDevice → Bool → Option ℤ → Option ℕ → Tables → CloseAnswer
unfolding create_close close_url
answer_close f ds post fid key t =
    let o = create_close f post fid key t in
    record {
      outcome = o;
      path =
          if o.status == 200
          then elim fid [ none ↦ none | some n ↦ close_url ds n (devid_of n t.tempfiles) ]
          else none;
    }
