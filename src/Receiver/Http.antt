-- ===== src/Receiver/Http.antt =====
-- filereceiver.go: `ServeHTTP` and `tempfileExists`. Requests carry what the code reads of them.
use efes.Prelude.{ℕ, Bool, true, false, Option, none, some, List, [], if◌then◌else◌}
use mathlib.Core.Option
use efes.Prelude.Int.{ℤ, negsuc}
use efes.Encoding.{hex_encode}
use efes.Sha1
use efes.Sha1.Digest.{Sha1Digest}
use efes.Crc32
use efes.Crc32.Digest.{Crc32Digest}
use efes.FileInfo.{FileInfo}
use efes.Receiver.Disk.{
  other, not_exist, offset_mismatch, Result, ok, err, panic, Slot, Faults, M, read_file_info,
  read_existing_file_info, delete_file_info, delete_file, create_file,
}
use efes.Receiver.Copy.{Piece}
use efes.Receiver.Save.{Saved, save_file}

pub data Method : Type 0 where
  post head patch delete unknown : Method

-- "efes-file-length": not there, not a number, or a number.
pub data Length : Type 0 where
  absent malformed : Length
  given : ℤ → Length

-- `offset` is the number in "efes-file-offset", if it parses; `drain` says that "efes-drain" is set;
-- `fid` is the number at the front of the file's name, if it parses.
pub record Request : Type 0 where
  pub method : Method
  pub offset : Option ℤ
  pub length : Length
  pub drain : Bool
  pub fid : Option ℤ
  pub body : List Piece

-- The status, the header "efes-file-offset", and "efes-file-sha1" with "efes-file-crc32"; a panic
-- is caught by net/http, which drops the connection.
pub data Response : Type 0 where
  response : ℕ → Option ℤ → Option (List ℕ × List ℕ) → Response
  dropped : Response

-- The answer of "select fid from tempfile where fid=?".
pub data Query : Type 0 where
  found no_rows failed : Query

-- A receiver without a database takes every file.
abbrev pub Database : Type 0
Database = Option (ℤ → Query)

abbrev plain : ℕ → Response
plain status = response status none none

unfoldable pub answer : Query → Result Bool
answer found = ok true
answer no_rows = ok false
answer failed = err other

-- tempfileExists
unfoldable pub tempfile_exists : Database → Option ℤ → Result Bool
unfolding answer
tempfile_exists none fid = ok true
tempfile_exists (some db) none = err other
tempfile_exists (some db) (some fid) = answer (db fid)

unfoldable pub sum_headers : Option (Sha1Digest × Crc32Digest) → Option (Option (List ℕ × List ℕ))
sum_headers none = some none
sum_headers (some (sha1, crc32)) =
    Option.map (λ hash. some (hex_encode hash, hex_encode (Crc32.Digest.sum crc32 [])))
      (Sha1.Sum.sum sha1 [])

unfoldable pub with_sums : ℤ → Option (Option (List ℕ × List ℕ)) → Response
with_sums offset none = dropped
with_sums offset (some sums) = response 200 (some offset) sums

-- The response to a PATCH request that was let through.
unfoldable pub saved_response : Result Saved → Response
unfolding sum_headers with_sums
saved_response (ok r) = with_sums r.offset (sum_headers r.digest)
saved_response (err (offset_mismatch g required)) = response 409 (some required) none
saved_response (err not_exist) = plain 500
saved_response (err other) = plain 500
saved_response panic = dropped

unfoldable pub patch_checked : Result Bool → M Saved → Slot → Response × Slot
unfolding saved_response
patch_checked (ok true) save s = let (r, s') = save s in (saved_response r, s')
patch_checked (ok false) save s = (plain 404, s)
patch_checked (err e) save s = (plain 500, s)
patch_checked panic save s = (dropped, s)

-- The length is -1 without a header; `none` is a bad request.
unfoldable pub length_of : Length → Option ℤ
length_of absent = some (negsuc 0)
length_of malformed = none
length_of (given n) = some n

unfoldable pub patch_parsed :
    Database → Faults → Request → Option ℤ → Option ℤ → Slot → Response × Slot
unfolding tempfile_exists patch_checked
patch_parsed db f q none length s = (plain 400, s)
patch_parsed db f q (some offset) none s = (plain 400, s)
patch_parsed db f q (some offset) (some length) s =
    patch_checked (if q.drain then ok true else tempfile_exists db q.fid)
      (save_file f offset length q.body) s

unfoldable pub unit_response : Result (Unit {0}) → Response
unit_response (ok u) = plain 200
unit_response (err e) = plain 500
unit_response panic = dropped

unfoldable pub head_response : Result FileInfo → Response
head_response (ok fi) = response 200 (some fi.offset) none
head_response (err e) = plain 500
head_response panic = dropped

-- After the info file was read and deleted: `deleteFile`.
unfoldable pub delete_rest : Faults → Result (Unit {0}) → Slot → Response × Slot
unfolding unit_response
delete_rest f (ok u) s = let (r, s') = delete_file f s in (unit_response r, s')
delete_rest f (err e) s = (plain 500, s)
delete_rest f panic s = (dropped, s)

unfoldable pub delete_existing : Faults → Result FileInfo → Slot → Response × Slot
unfolding delete_rest
delete_existing f (ok fi) s = let (r, s') = delete_file_info f s in delete_rest f r s'
delete_existing f (err not_exist) s = (plain 404, s)
delete_existing f (err (offset_mismatch g r)) s = (plain 500, s)
delete_existing f (err other) s = (plain 500, s)
delete_existing f panic s = (dropped, s)

unfoldable pub serve_method : Method → Database → Faults → Request → Slot → Response × Slot
unfolding unit_response head_response delete_existing length_of patch_parsed
serve_method post db f q s = let (r, s') = create_file f s in (unit_response r, s')
serve_method head db f q s = let (r, s') = read_file_info f s in (head_response r, s')
serve_method patch db f q s = patch_parsed db f q q.offset (length_of q.length) s
serve_method delete db f q s = let (r, s') = read_existing_file_info f s in delete_existing f r s'
serve_method unknown db f q s = (plain 405, s)

unfoldable pub serve_http : Database → Faults → Request → Slot → Response × Slot
unfolding serve_method
serve_http db f q s = serve_method q.method db f q s
