-- ===== src/Encoding.antt =====
-- What the program uses of Go's encoding/hex, encoding/binary (big endian) and strconv, on lists of bytes.
pub mod Hex
pub mod BigEndian
pub mod Decimal
use efes.Prelude.{
  ℕ, zero, suc, ◌+◌, ◌-◌, ◌*◌, ◌/◌, ◌%◌, ◌^◌, ◌&&◌, Option, none, some, List, [], ◌∷◌, foldl, ltb,
  leb, if◌then◌else◌,
}

-- `"0123456789abcdef"[v]`
unfoldable pub hex_digit : ℕ → ℕ
hex_digit v = if ltb v 10 then b'0' + v else b'a' + (v - 10)

-- hex.Encode
unfoldable pub hex_encode : List ℕ → List ℕ
hex_encode [] = []
hex_encode (b ∷ bs) = hex_digit (b / 16) ∷ hex_digit (b % 16) ∷ hex_encode bs

-- A character in lower or upper case.
unfoldable pub from_hex_char : ℕ → Option ℕ
from_hex_char c =
    if leb b'0' c && leb c b'9'
    then some (c - b'0')
    else if leb b'a' c && leb c b'f'
    then some (c - b'a' + 10)
    else if leb b'A' c && leb c b'F'
    then some (c - b'A' + 10)
    else none

unfoldable pub cons_byte : Option ℕ → Option ℕ → Option (List ℕ) → Option (List ℕ)
cons_byte (some hi) (some lo) (some bs) = some ((hi * 16 + lo) ∷ bs)
cons_byte (some hi) (some lo) none = none
cons_byte (some hi) none rest = none
cons_byte none lo rest = none

-- hex.Decode; `none` is an error.
unfoldable pub hex_decode : List ℕ → Option (List ℕ)
hex_decode [] = some []
hex_decode (c ∷ []) = none
hex_decode (c ∷ d ∷ t) = cons_byte (from_hex_char c) (from_hex_char d) (hex_decode t)

-- binary.Write of a word of `k` bytes: the most significant byte first.
unfoldable pub big_endian : ℕ → ℕ → List ℕ
big_endian zero x = []
big_endian (suc k) x = (x / 256 ^ k % 256) ∷ big_endian k x

-- binary.Read
unfoldable pub from_big_endian : List ℕ → ℕ
from_big_endian = foldl (λ acc b. acc * 256 + b) 0
