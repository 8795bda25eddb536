-- ===== src/Receiver/Copy.antt =====
-- filereceiver.go: `io.Copy` of the request's body into the file and the two digests.
use efes.Prelude.{ℕ, ◌+◌, none, some, List, [], ◌∷◌, length, take, min}
use efes.Sha1
use efes.Sha1.Digest.{Sha1Digest}
use efes.Crc32
use efes.Crc32.Digest.{Crc32Digest}
use efes.Receiver.Disk.{write_at}

-- What one read of the body gave, and whether the file took all of it or only the first bytes.
-- The body ends with the list: at its end, or where reading fails.
pub data Piece : Type 0 where
  whole : List ℕ → Piece
  short : List ℕ → ℕ → Piece

-- The file, the digests and the count of bytes that `io.Copy` returns.
pub record Copied : Type 0 where
  pub file : List ℕ
  pub sha1 : Sha1Digest
  pub crc32 : Crc32Digest
  pub n : ℕ

pub data Outcome : Type 0 where
  copied : Copied → Outcome
  -- a digest panics
  crashed : List ℕ → Outcome

-- io.MultiWriter writes to the file, to the CRC-32 and to the SHA-1, and stops at the first that
-- does not take everything; io.Copy counts what that one took, and ends.
unfoldable pub copy : ℕ → List Piece → Copied → Outcome
copy offset [] c = copied c
copy offset (short p k ∷ ps) c =
    copied
      (record c { file = write_at c.file (offset + c.n) (take k p); n = c.n + min k (length p) })
copy offset (whole p ∷ ps) c = elim (Sha1.Digest.write c.sha1 p) [
  | none ↦ crashed (write_at c.file (offset + c.n) p)
  | some sha1 ↦ copy offset ps (record {
    file = write_at c.file (offset + c.n) p;
    sha1 = sha1;
    crc32 = (Crc32.Digest.write c.crc32 p).0;
    n = c.n + length p;
  })
]
