-- ===== src/Sha1/Text.antt =====
-- sha1_efes.go: the text in which the info file keeps a SHA-1 digest, buffer included.
pub mod RoundTrip
pub mod Sized
use efes.Prelude.{
  ℕ, zero, suc, ◌+◌, ◌-◌, ◌*◌, ◌^◌, Option, none, some, List, [], ◌∷◌, ◌++◌, ltb, ◌==◌, ◌&&◌,
  if◌then◌else◌, length, take, drop,
}
use efes.Encoding.{hex_encode, hex_decode, big_endian, from_big_endian}
use efes.Sha1.{Words}
use efes.Sha1.Digest.{Sha1Digest}

abbrev pub sha1_digest_size : ℕ
sha1_digest_size = 100

-- `int(MaxUint >> 1)` on a machine of 64 bits
abbrev pub max_int : ℕ
max_int = 2 ^ 63 - 1

-- The bytes that MarshalText writes, field after field.
unfoldable pub fields : Sha1Digest → List ℕ
fields d =
    big_endian 4 d.h.a
    ++ (big_endian 4 d.h.b
        ++ (big_endian 4 d.h.c
            ++ (big_endian 4 d.h.d
                ++ (big_endian 4 d.h.e ++ (d.x ++ (big_endian 8 d.nx ++ big_endian 8 d.len))))))

unfoldable pub marshal_text : Sha1Digest → List ℕ
marshal_text d = hex_encode (fields d)

-- The next `n` bytes of a reader, and the reader behind them.
unfoldable pub read : ℕ → List ℕ → List ℕ × List ℕ
read n r = (take n r, drop n r)

-- The reads of UnmarshalText; an int64 is its pattern of 64 bits, and `nx > MaxInt` is signed.
unfoldable pub read_fields : List ℕ → Option Sha1Digest
read_fields r =
    let (a, r) = read 4 r in
    let (b, r) = read 4 r in
    let (c, r) = read 4 r in
    let (d, r) = read 4 r in
    let (e, r) = read 4 r in
    let (x, r) = read 64 r in
    let (nx, r) = read 8 r in
    let (len, r) = read 8 r in
    let count = from_big_endian nx in
    if ltb count (2 ^ 63) && ltb max_int count
    then none
    else some (record {
      h = record {
        a = from_big_endian a;
        b = from_big_endian b;
        c = from_big_endian c;
        d = from_big_endian d;
        e = from_big_endian e;
      };
      x = x;
      nx = count;
      len = from_big_endian len;
    })

unfoldable pub read_decoded : Option (List ℕ) → Option Sha1Digest
read_decoded none = none
read_decoded (some b) = read_fields b

-- UnmarshalText; `none` is errInvalidDigest.
unfoldable pub unmarshal_text : List ℕ → Option Sha1Digest
unmarshal_text text =
    if length text == 2 * sha1_digest_size then read_decoded (hex_decode text) else none
