-- ===== src/Tracker/Iterating.antt =====
-- iterfiles.go: the files of the tracker, page by page. The times of creation are left out.
pub mod Pages
use efes.Prelude.{
  ℕ, Bool, true, false, Option, none, some, List, [], ◌∷◌, ltb, leb, if◌then◌else◌, take,
}
use efes.Prelude.Int.{ℤ, pos, negsuc}
use efes.Prelude.Members.{select}
use efes.Tracker.{File}
use efes.Tracker.Devices.{Size, absent, malformed, given}

-- A fid is unsigned.
unfoldable pub number : File → ℕ
number r = elim r.fid [ pos n ↦ n | negsuc n ↦ 0 ]

-- order by fid
unfoldable pub insert_file : File → List File → List File
unfolding number
insert_file r [] = r ∷ []
insert_file r (x ∷ xs) =
    let rest = insert_file r xs in if leb (number r) (number x) then r ∷ x ∷ xs else x ∷ rest

unfoldable pub order_by_fid : List File → List File
unfolding insert_file
order_by_fid [] = []
order_by_fid (r ∷ rs) = insert_file r (order_by_fid rs)

-- where fid > ?
unfoldable pub above : ℕ → File → Bool
unfolding number
above from r = ltb from (number r)

-- select fid, dkey, created_at from file where fid > ? order by fid limit ?
unfoldable pub select_files : ℕ → ℕ → List File → List File
unfolding above order_by_fid
select_files from count rs = take count (order_by_fid (select (above from) rs))

-- A parameter, with its default: `none` is an error.
unfoldable pub number_of : ℕ → Size → Option ℕ
number_of default absent = some default
number_of default malformed = none
number_of default (given n) = some n

-- The files, or the status of an error.
pub data Iterated : Type 0 where
  iterated : List File → Iterated
  refused : ℕ → Iterated

-- From the query on.
unfoldable pub iterate_from : Bool → List File → ℕ → Option ℕ → Iterated
unfolding select_files
iterate_from fails rs from none = refused 400
iterate_from fails rs from (some count) =
    if fails then refused 500 else iterated (select_files from count rs)

unfoldable pub iterate_with : Bool → List File → Option ℕ → Option ℕ → Iterated
unfolding iterate_from
iterate_with fails rs none count = refused 400
iterate_with fails rs (some from) count = iterate_from fails rs from count

-- iterFiles
unfoldable pub iter_files : Bool → List File → Size → Size → Iterated
unfolding number_of iterate_with
iter_files fails rs from count = iterate_with fails rs (number_of 0 from) (number_of 1000 count)
