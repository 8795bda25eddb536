-- ===== src/FileInfo.antt =====
-- fileinfo.go: how far an upload has come, and its digests, kept in an info file beside the data file.
-- encoding/json writes the struct and reads it back; the texts of the digests are those of
-- `MarshalText`. An info file that does not decode is `broken`.
pub mod RoundTrip
use efes.Prelude.{ℕ, Option, none, some, List}
use efes.Prelude.Int.{ℤ, pos}
use efes.Sha1.Digest.{Sha1Digest, new_sha1}
use efes.Sha1
use efes.Crc32.Digest.{Crc32Digest, new_crc32_ieee}
use efes.Crc32

pub record FileInfo : Type 0 where
  pub offset : ℤ
  pub sha1 : Sha1Digest
  pub crc32 : Crc32Digest

unfoldable pub new_file_info : FileInfo
new_file_info = record { offset = pos 0; sha1 = new_sha1; crc32 = new_crc32_ieee }

-- What stands in an info file.
pub data InfoFile : Type 0 where
  encoded : ℤ → List ℕ → List ℕ → InfoFile
  broken : InfoFile

-- json.Encode
unfoldable pub encode : FileInfo → InfoFile
encode fi = encoded fi.offset (Sha1.Text.marshal_text fi.sha1) (Crc32.Text.marshal_text fi.crc32)

unfoldable pub with_digests : ℤ → Option Sha1Digest → Option Crc32Digest → Option FileInfo
with_digests offset (some sha1) (some crc32) =
    some (record { offset = offset; sha1 = sha1; crc32 = crc32 })
with_digests offset (some sha1) none = none
with_digests offset none crc32 = none

-- json.Decode; `none` is an error.
unfoldable pub decode : InfoFile → Option FileInfo
decode (encoded offset sha1 crc32) =
    with_digests offset (Sha1.Text.unmarshal_text sha1) (Crc32.Text.unmarshal_text crc32)
decode broken = none
