-- ===== src/Tracker.antt =====
-- tracker.go: the tables of the tracker (Docker/mysql/init/schema.sql), and its SQL statements as
-- functions on them. A key stands for its class under the database's equality of keys.
pub mod Handlers
pub mod Places
pub mod Rule
pub mod Deleting
pub mod Closing
pub mod Devices
pub mod Tempfiles
pub mod Succeeding
pub mod Paths
pub mod Lists
pub mod Iterating
pub mod Publishing
use efes.Prelude.{
  ℕ, Bool, true, false, Option, none, some, List, [], ◌∷◌, ◌++◌, not, ◌||◌, ◌&&◌, if◌then◌else◌,
  ◌==◌,
}
use efes.Prelude.Int.{ℤ, ◌==ℤ◌}

-- A row of `file_on`; a delete task for a server has the same fields.
pub record Place : Type 0 where
  pub fid : ℤ
  pub devid : ℤ

-- A row of `tempfile`.
pub record Tempfile : Type 0 where
  pub fid : ℤ
  pub devid : ℤ

-- A row of `file`.
pub record File : Type 0 where
  pub fid : ℤ
  pub dkey : ℕ

-- The tables, with the ids of the devices, each of which has a host.
pub record Tables : Type 0 where
  pub tempfiles : List Tempfile
  pub files : List File
  pub places : List Place
  pub devices : List ℤ

-- The next statement's tables, or an early return with a status.
pub data Step (A : Type 0) : Type 0 where
  next : A → Tables → Step A
  stop : ℕ → Step A

abbrev pub Tx : Type 0 → Type 0
Tx A = Tables → Step A

infixl 5 ◌>>=◌ ◌>>◌
abbrev pub ◌>>=◌ : {A B : Type 0} → Tx A → (A → Tx B) → Tx B
◌>>=◌ m f t = elim (m t) [ next a t' ↦ f a t' | stop status ↦ stop status ]

abbrev pub ◌>>◌ : {A B : Type 0} → Tx A → Tx B → Tx B
m >> k = m >>= λ _. k

abbrev pub pure : {A : Type 0} → A → Tx A
pure a t = next a t

-- A statement that changes the tables.
unfoldable pub exec : Bool → (Tables → Tables) → Tx (Unit {0})
exec fails change t = if fails then stop 500 else next tt (change t)

-- select devid from tempfile where fid=?
unfoldable pub devid_of : ℤ → List Tempfile → Option ℤ
devid_of fid [] = none
devid_of fid (r ∷ rs) = let rest = devid_of fid rs in if r.fid ==ℤ fid then some r.devid else rest

-- delete from tempfile where fid=?
unfoldable pub delete_tempfile : ℤ → List Tempfile → List Tempfile
delete_tempfile fid [] = []
delete_tempfile fid (r ∷ rs) =
    let rest = delete_tempfile fid rs in if r.fid ==ℤ fid then rest else r ∷ rest

-- select fid from file where dkey=?
unfoldable pub fid_of : ℕ → List File → Option ℤ
fid_of key [] = none
fid_of key (r ∷ rs) = let rest = fid_of key rs in if r.dkey == key then some r.fid else rest

-- delete from file where fid=?
unfoldable pub delete_file : ℤ → List File → List File
delete_file fid [] = []
delete_file fid (r ∷ rs) = let rest = delete_file fid rs in if r.fid ==ℤ fid then rest else r ∷ rest

-- select devid from file_on where fid=?, each with its fid.
unfoldable pub places_of : ℤ → List Place → List Place
places_of fid [] = []
places_of fid (p ∷ ps) = let rest = places_of fid ps in if p.fid ==ℤ fid then p ∷ rest else rest

-- delete from file_on where fid=?
unfoldable pub delete_places : ℤ → List Place → List Place
delete_places fid [] = []
delete_places fid (p ∷ ps) =
    let rest = delete_places fid ps in if p.fid ==ℤ fid then rest else p ∷ rest

-- Whether a file has a place.
unfoldable pub is_placed : ℤ → List Place → Bool
is_placed fid [] = false
is_placed fid (p ∷ ps) = (p.fid ==ℤ fid) || is_placed fid ps

unfoldable pub same_place : Place → Place → Bool
same_place p q = (p.fid ==ℤ q.fid) && (p.devid ==ℤ q.devid)

unfoldable pub has : Place → List Place → Bool
unfolding same_place
has q [] = false
has q (p ∷ ps) = same_place p q || has q ps

unfoldable pub has_device : ℤ → List ℤ → Bool
has_device devid [] = false
has_device devid (d ∷ ds) = (d ==ℤ devid) || has_device devid ds

unfoldable pub has_file : ℤ → List File → Bool
has_file fid [] = false
has_file fid (r ∷ rs) = (r.fid ==ℤ fid) || has_file fid rs

-- The rows that REPLACE takes away: those with the same primary key or the same unique key.
unfoldable pub conflicts : ℤ → ℕ → File → Bool
conflicts fid key r = (r.fid ==ℤ fid) || (r.dkey == key)

unfoldable pub without_conflicts : ℤ → ℕ → List File → List File
unfolding conflicts
without_conflicts fid key [] = []
without_conflicts fid key (r ∷ rs) =
    let rest = without_conflicts fid key rs in if conflicts fid key r then rest else r ∷ rest

-- A row that has places cannot be taken away: `file_on` refers to it.
unfoldable pub held : ℤ → ℕ → List File → List Place → Bool
unfolding conflicts
held fid key [] ps = false
held fid key (r ∷ rs) ps = (conflicts fid key r && is_placed r.fid ps) || held fid key rs ps

-- replace into file(fid, dkey, created_at) values(?,?,now())
unfoldable pub replace_into : Bool → ℤ → ℕ → Tx (Unit {0})
replace_into fails fid key t =
    if fails || held fid key t.files t.places
    then stop 500
    else next tt
        (record t { files = record { fid = fid; dkey = key } ∷ without_conflicts fid key t.files })

-- insert into file_on(fid, devid) values(?, ?), with its primary key and its foreign keys.
unfoldable pub insert_place : Bool → Place → Tx (Unit {0})
insert_place fails p t =
    if fails || has p t.places || not (has_file p.fid t.files && has_device p.devid t.devices)
    then stop 500
    else next tt (record t { places = p ∷ t.places })
