-- ===== src/Receiver/Serving.antt =====
-- filereceiver.go: the requests of `ServeHTTP`, and what a response with digests means.
use efes.Prelude.{
  ℕ, ◌≤◌, ◌≡◌, ◌≢◌, refl, ap, sym, subst, ◌∙◌, Bool, true, false, Option, none, some, List, [],
  length as file_length, take, Bool-cases, inl, inr, if◌then◌else◌,
}
use mathlib.Core.Option
use efes.Prelude.Int.{ℤ, pos}
use efes.Encoding.{hex_encode, big_endian}
use efes.Sha1
use efes.Sha1.Digest.{Sha1Digest}
use efes.Sha1.Sum.{sha1, check_sum, check_sum_lem}
use efes.Crc32
use efes.Crc32.{ieee}
use efes.Crc32.Update.{crc_of}
use efes.Crc32.Digest.{Crc32Digest, sum-big_endian}
use efes.FileInfo.{FileInfo}
use efes.Receiver.Disk.{
  other, not_exist, offset_mismatch, Result, ok, err, panic, Slot, Faults, M, read_file_info,
  read_existing_file_info, delete_file_info, remove_file, delete_file, create_file,
}
use efes.Receiver.Save.{Saved, save_file}
use efes.Receiver.Http.{
  Method, post, head, patch, delete, unknown, Length, absent, malformed, given, Request, Response,
  response, dropped, Database, Query, found, no_rows, failed, answer, tempfile_exists, sum_headers,
  with_sums, saved_response, patch_checked, length_of, patch_parsed, unit_response, head_response,
  delete_rest, delete_existing, serve_method, serve_http,
}
use efes.Receiver.Invariant.{IsConsistent, IsWhole}
use efes.Receiver.Invariant.Kept.{Careful, IsFresh, create_file-IsFresh}
use efes.Receiver.Invariant.Started.{
  read_file_info-same, read_file_info-returns, read_existing_file_info-returns,
}
use efes.Receiver.Invariant.Recorded.{
  Reported, SaveDone, Deleted, delete_file_info-Deleted, no_info-IsConsistent,
}
use efes.Receiver.Invariant.Saving.{save_file_done}

-- A response with digests: the stored file has the announced length, the info file is gone, and
-- the headers are the hexadecimal SHA-1 and CRC-32 of the file's bytes.
pub record Finished (l : Length) (status : ℕ) (offset : Option ℤ) (sums : List ℕ × List ℕ)
    (s : Slot) : Type 0 where
  pub file : List ℕ
  pub stored : s.file ≡ some file
  pub info_gone : s.info ≡ none
  pub at : ℕ
  pub status_ok : status ≡ 200
  pub offset_is : offset ≡ some (pos at)
  pub announced : l ≡ given (pos at)
  pub within : at ≤ file_length file
  pub sha1_is : sums.0 ≡ hex_encode (sha1 (take at file))
  pub crc32_is : sums.1 ≡ hex_encode (big_endian 4 (crc_of ieee 0 (take at file)))

-- The files are consistent, the connection is not dropped, and digests are only reported of a
-- finished file.
abbrev pub Served : Length → Response × Slot → Type 0
Served l (response status offset none, s) = IsConsistent s
Served l (response status offset (some sums), s) = IsConsistent s × Finished l status offset sums s
Served l (dropped, s) = ⊥

pub sha1_sum :
    (d : Sha1Digest) (m : List ℕ) → Sha1.Buffer.Represents d m → Sha1.Sum.sum d [] ≡ some (sha1 m)
unfolding Sha1.Sum.sum
sha1_sum d m r = ap (Option.map (λ hash. hash)) (check_sum_lem d m r)

announced_length :
    (l : Length) (n : ℤ) (at : ℕ) → length_of l ≡ some n → n ≡ pos at → l ≡ given (pos at)
unfolding length_of
announced_length absent n at e h = cc
announced_length malformed n at e h = cc
announced_length (given k) n at e h = cc

with_sums-Served :
    (l : Length) (n : ℤ) (r : Saved) (o : Option (Sha1Digest × Crc32Digest)) (s : Slot)
    → length_of l ≡ some n
    → IsConsistent s
    → Reported n r o s
    → Served l (with_sums r.offset (sum_headers o), s)
unfolding with_sums sum_headers
with_sums-Served l n r none s e h d = h
with_sums-Served l n r (some (s1, c32)) s e h d =
    let m = take d.at d.file in
    let crc : Crc32.Digest.sum c32 [] ≡ big_endian 4 (crc_of ieee 0 m) =
      sum-big_endian c32 ∙ ap (big_endian 4) d.digests.crc32_of.value in
    rw (sha1_sum s1 m d.digests.sha1_of) (
      h,
      record {
        file = d.file;
        stored = d.stored;
        info_gone = d.info_gone;
        at = d.at;
        status_ok = refl;
        offset_is = ap some d.offset;
        announced = announced_length l n d.at e d.announced;
        within = d.within;
        sha1_is = refl;
        crc32_is = ap hex_encode crc;
      },
    )

saved_response-Served :
    (l : Length) (n : ℤ) (o : Result Saved × Slot)
    → length_of l ≡ some n
    → SaveDone n o
    → Served l (saved_response o.0, o.1)
unfolding saved_response
saved_response-Served l n (ok r, s) e d = with_sums-Served l n r r.digest s e d.0 d.1
saved_response-Served l n (err (offset_mismatch g q), s) e d = d
saved_response-Served l n (err not_exist, s) e d = d
saved_response-Served l n (err other, s) e d = d
saved_response-Served l n (panic, s) e d = d

patch_checked-Served :
    (l : Length) (n : ℤ) (r : Result Bool) (save : M Saved) (s : Slot)
    → r ≢ panic
    → length_of l ≡ some n
    → IsConsistent s
    → SaveDone n (save s)
    → Served l (patch_checked r save s)
unfolding patch_checked
patch_checked-Served l n (ok true) save s p e h d = saved_response-Served l n (save s) e d
patch_checked-Served l n (ok false) save s p e h d = h
patch_checked-Served l n (err x) save s p e h d = h
patch_checked-Served l n panic save s p e h d = absurd (p refl)

tempfile_exists-returns : (db : Database) (fid : Option ℤ) → tempfile_exists db fid ≢ panic
unfolding tempfile_exists answer
tempfile_exists-returns none fid e = cc
tempfile_exists-returns (some db) none e = cc
tempfile_exists-returns (some db) (some fid) e = answered (db fid) e
  where
    answered : (a : Query) → answer a ≢ panic
    answered found e = cc
    answered no_rows e = cc
    answered failed e = cc

let_through-returns :
    (drain : Bool) (db : Database) (fid : Option ℤ)
    → (if drain then ok true else tempfile_exists db fid) ≢ panic
let_through-returns true db fid e = cc
let_through-returns false db fid e = tempfile_exists-returns db fid e

patch_parsed-Served :
    (db : Database) (f : Faults) (q : Request) (offset length : Option ℤ) (s : Slot)
    → length_of q.length ≡ length
    → Careful f
    → IsWhole q.body
    → IsConsistent s
    → Served q.length (patch_parsed db f q offset length s)
unfolding patch_parsed
patch_parsed-Served db f q none length s e c w h = h
patch_parsed-Served db f q (some offset) none s e c w h = h
patch_parsed-Served db f q (some offset) (some length) s e c w h =
    patch_checked-Served q.length length (if q.drain then ok true else tempfile_exists db q.fid)
      (save_file f offset length q.body) s (let_through-returns q.drain db q.fid) e h
      (save_file_done f offset length q.body s c w h)

unit_response-Served :
    (l : Length) (o : Result (Unit {0}) × Slot) → IsFresh o → Served l (unit_response o.0, o.1)
unfolding unit_response
unit_response-Served l (ok u, s) d = d.0
unit_response-Served l (err e, s) d = d
unit_response-Served l (panic, s) d = d

head_response-Served :
    (l : Length) (r : Result FileInfo) (s : Slot)
    → r ≢ panic
    → IsConsistent s
    → Served l (head_response r, s)
unfolding head_response
head_response-Served l (ok fi) s p h = h
head_response-Served l (err e) s p h = h
head_response-Served l panic s p h = absurd (p refl)

no_info_Served :
    (l : Length) (o : Result (Unit {0}) × Slot)
    → o.1.info ≡ none
    → o.0 ≢ panic
    → Served l (unit_response o.0, o.1)
unfolding unit_response
no_info_Served l (ok u, s) e p = no_info-IsConsistent s e
no_info_Served l (err x, s) e p = no_info-IsConsistent s e
no_info_Served l (panic, s) e p = absurd (p refl)

remove_file-info :
    (o : Option (List ℕ)) (s : Slot)
    → ((remove_file o s).1.info ≡ s.info) × ((remove_file o s).0 ≢ panic)
unfolding remove_file
remove_file-info none s = (refl, λ e. cc)
remove_file-info (some b) s = (refl, λ e. cc)

delete_file-info :
    (f : Faults) (s : Slot) → ((delete_file f s).1.info ≡ s.info) × ((delete_file f s).0 ≢ panic)
unfolding delete_file
delete_file-info f s = elim (Bool-cases f.remove) [
  | inl fails ↦ rw fails (refl, λ e. cc)
  | inr works ↦ rw works (remove_file-info s.file s)
]

delete_rest-Served :
    (l : Length) (f : Faults) (s : Slot) (o : Result (Unit {0}) × Slot)
    → IsConsistent s
    → Deleted s o
    → Served l (delete_rest f o.0 o.1)
unfolding delete_rest
delete_rest-Served l f s (ok u, t) h d =
    let (same, returns) = delete_file-info f t in
    no_info_Served l (delete_file f t) (same ∙ d.1) returns
delete_rest-Served l f s (err x, t) h d = subst IsConsistent (sym d) h
delete_rest-Served l f s (panic, t) h d = absurd d

delete_existing-Served :
    (l : Length) (f : Faults) (r : Result FileInfo) (s : Slot)
    → r ≢ panic
    → IsConsistent s
    → Served l (delete_existing f r s)
unfolding delete_existing
delete_existing-Served l f (ok fi) s p h =
    delete_rest-Served l f s (delete_file_info f s) h (delete_file_info-Deleted f s)
delete_existing-Served l f (err not_exist) s p h = h
delete_existing-Served l f (err (offset_mismatch g r)) s p h = h
delete_existing-Served l f (err other) s p h = h
delete_existing-Served l f panic s p h = absurd (p refl)

serve_method-Served :
    (m : Method) (db : Database) (f : Faults) (q : Request) (s : Slot)
    → Careful f
    → IsWhole q.body
    → IsConsistent s
    → Served q.length (serve_method m db f q s)
unfolding serve_method read_existing_file_info
serve_method-Served post db f q s c w h =
    unit_response-Served q.length (create_file f s) (create_file-IsFresh f s c h)
serve_method-Served head db f q s c w h =
    head_response-Served q.length (read_file_info f s).0 (read_file_info f s).1
      (read_file_info-returns f s) (subst IsConsistent (sym (read_file_info-same f s)) h)
serve_method-Served patch db f q s c w h =
    patch_parsed-Served db f q q.offset (length_of q.length) s refl c w h
serve_method-Served delete db f q s c w h =
    delete_existing-Served q.length f (read_existing_file_info f s).0 s
      (read_existing_file_info-returns f s) h
serve_method-Served unknown db f q s c w h = h

pub serve_http-Served :
    (db : Database) (f : Faults) (q : Request) (s : Slot)
    → Careful f
    → IsWhole q.body
    → IsConsistent s
    → Served q.length (serve_http db f q s)
unfolding serve_http
serve_http-Served db f q s c w h = serve_method-Served q.method db f q s c w h
