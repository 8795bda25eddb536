-- ===== src/Crc32/Text.antt =====
-- crc32_efes.go: the text in which the info file keeps a CRC-32 digest.
use efes.Prelude.{
  ℕ, ◌*◌, ◌^◌, ◌<◌, ◌≡◌, ap, sym, arith, Option, none, some, List, ◌==◌, if◌then◌else◌, length,
}
use efes.Encoding.{hex_encode, hex_decode, big_endian, from_big_endian}
use efes.Encoding.Hex.{hex_decode-hex_encode, length-hex_encode}
use efes.Encoding.BigEndian.{length-big_endian, big_endian-IsByte, from_big_endian-big_endian}
use efes.Crc32.{ieee}
use efes.Crc32.Digest.{Crc32Digest, Represents, ieee_table}
use efes.Crc32.Update.Slicing.{crc_of-lt}

abbrev pub crc32_digest_size : ℕ
crc32_digest_size = 4

-- MarshalText
unfoldable pub marshal_text : Crc32Digest → List ℕ
marshal_text d = hex_encode (big_endian crc32_digest_size d.crc)

abbrev record_of : ℕ → Crc32Digest
record_of crc = record { crc = crc; tab = ieee_table }

-- What UnmarshalText makes of the decoded bytes.
unfoldable pub read_fields : Option (List ℕ) → Option Crc32Digest
read_fields none = none
read_fields (some b) = some (record_of (from_big_endian b))

-- UnmarshalText; `none` is errInvalidDigest.
unfoldable pub unmarshal_text : List ℕ → Option Crc32Digest
unfolding read_fields
unmarshal_text text =
    if length text == 2 * crc32_digest_size then read_fields (hex_decode text) else none

length-marshal_text : (d : Crc32Digest) → length (marshal_text d) ≡ 8
unfolding marshal_text
length-marshal_text d =
    omega (arith, length-hex_encode (big_endian 4 d.crc), length-big_endian 4 d.crc)

-- A digest of a message is written as a text of 8 characters, from which the same digest is read back.
pub crc32_text_round_trip :
    (d : Crc32Digest) (m : List ℕ)
    → Represents d m
    → (unmarshal_text (marshal_text d) ≡ some d) × (length (marshal_text d) ≡ 8)
unfolding unmarshal_text marshal_text
crc32_text_round_trip d m r =
    let decoded = hex_decode-hex_encode (big_endian 4 d.crc) (big_endian-IsByte 4 d.crc) in
    let small : d.crc < 2 ^ 32 =
      rw (r.value) (crc_of-lt ieee (omega arith) 0 m (omega arith) r.is_bytes) in
    let same : record_of (from_big_endian (big_endian 4 d.crc)) ≡ d =
      λ i. record { crc = from_big_endian-big_endian 4 d.crc small i; tab = sym r.by_table i } in
    (rw (length-marshal_text d) (rw decoded (ap some same)), length-marshal_text d)
