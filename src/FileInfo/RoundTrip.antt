-- ===== src/FileInfo/RoundTrip.antt =====
-- fileinfo.go: saving and reading an info file.
use efes.Prelude.{ℕ, ◌≡◌, some, List, []}
use efes.Sha1
use efes.Sha1.Digest.{Sha1Digest, new_sha1}
use efes.Sha1.Buffer.{new_sha1-Represents}
use efes.Sha1.Text.RoundTrip.{IsSized}
use efes.Sha1.Text.Sized.{new_sha1-IsSized}
use efes.Crc32
use efes.Crc32.Digest.{Crc32Digest, new_crc32_ieee, new_crc32_ieee-Represents}
use efes.FileInfo.{FileInfo, encode, decode, with_digests}

-- Both digests are those of the message `m`.
pub record DigestsOf (sha1 : Sha1Digest) (crc32 : Crc32Digest) (m : List ℕ) : Type 0 where
  pub sha1_of : Sha1.Buffer.Represents sha1 m
  pub sized : IsSized sha1
  pub crc32_of : Crc32.Digest.Represents crc32 m

pub new-DigestsOf : DigestsOf new_sha1 new_crc32_ieee []
new-DigestsOf = record {
  sha1_of = new_sha1-Represents;
  sized = new_sha1-IsSized;
  crc32_of = new_crc32_ieee-Represents;
}

-- A file info whose digests are those of some message is read back as it was saved.
pub decode-encode :
    (fi : FileInfo) (m : List ℕ) → DigestsOf fi.sha1 fi.crc32 m → decode (encode fi) ≡ some fi
unfolding decode encode with_digests
decode-encode fi m d =
    rw ((Sha1.Text.RoundTrip.sha1_text_round_trip fi.sha1 d.sized).0)
      (rw ((Crc32.Text.crc32_text_round_trip fi.crc32 m d.crc32_of).0))
