-- ===== src/Client.antt =====
-- write.go, sha1file.go, readcounter.go: how a client reads the file that it uploads.
pub mod Reading
pub mod Send
pub mod Requests
pub mod Safety
pub mod Calls
pub mod Enough
pub mod ChunkSize
use efes.Prelude.{
  ℕ, zero, suc, ◌+◌, ◌-◌, Bool, true, false, Option, none, some, List, [], ◌∷◌, ◌++◌, ltb, ◌==◌,
  if◌then◌else◌, length, take, drop, min,
}
use mathlib.Core.Option
use efes.Sha1
use efes.Sha1.Digest.{Sha1Digest, new_sha1}

-- Sha1File over a file: `content` and `at` are the bytes and the position of the io.ReadSeeker.
pub record Sha1File : Type 0 where
  pub content : List ℕ
  pub at : ℕ
  pub position : ℕ
  pub calculated : ℕ
  pub digest : Sha1Digest

-- NewSha1File on a file that was just opened.
unfoldable pub new_sha1_file : List ℕ → Sha1File
new_sha1_file content = record {
  content = content;
  at = 0;
  position = 0;
  calculated = 0;
  digest = new_sha1;
}

-- The outcome of Read, or of a loop of reads; a digest may panic.
pub data ReadResult : Type 0 where
  bytes : List ℕ → Sha1File → ReadResult
  -- "missing data for sha1"
  missing_data : ReadResult
  panicked : ReadResult

-- What Read does with the bytes `p` that the file gave: `crop` is where the new ones begin.
unfoldable pub digest_new : Sha1File → List ℕ → ReadResult
digest_new f p =
    let moved = record f { at = f.at + length p; position = f.position + length p } in
    let c = drop (f.calculated - f.position) p in
    if ltb f.calculated moved.position
    then elim (Sha1.Digest.write f.digest c) [
      | none ↦ panicked
      | some digest ↦
          bytes p (record moved { digest = digest; calculated = f.calculated + length c })
    ]
    else bytes p moved

-- Read into a buffer of `n` bytes.
unfoldable pub read : Sha1File → ℕ → ReadResult
unfolding digest_new
read f n =
    if ltb f.calculated f.position
    then missing_data
    else digest_new f (take n (drop f.at f.content))

-- Seek from the start: the file, and whether there was no error. The io.ReadSeeker has moved
-- also if it is refused.
unfoldable pub seek : Sha1File → ℕ → Sha1File × Bool
seek f offset =
    if ltb f.position offset
    then (record f { at = offset }, false)
    else (record f { at = offset; position = offset }, true)

-- Sum
unfoldable pub sum : Sha1File → List ℕ → Option (List ℕ)
sum f b = Sha1.Sum.sum f.digest b

unfoldable pub and_then : List ℕ → (Sha1File → ReadResult) → Sha1File → ReadResult
and_then p k f = elim (k f) [
  | bytes q g ↦ bytes (p ++ q) g
  | missing_data ↦ missing_data
  | panicked ↦ panicked
]

-- The body of a request, io.LimitReader over the file: net/http reads it into a buffer of `buffer`
-- bytes up to `limit` or the end of the file. The fuel is the number of reads.
unfoldable pub read_limited : ℕ → ℕ → ℕ → Sha1File → ReadResult
unfolding and_then
read_limited buffer zero limit f = missing_data
read_limited buffer (suc fuel) limit f = elim (limit == 0) [
  | true ↦ bytes [] f
  | false ↦ elim (read f (min buffer limit)) [
    | missing_data ↦ missing_data
    | panicked ↦ panicked
    | bytes p g ↦ elim (length p == 0) [
      | true ↦ bytes [] g
      | false ↦ and_then p (read_limited buffer fuel (limit - length p)) g
    ]
  ]
]
