-- ===== src/Encoding/Hex.antt =====
-- encoding/hex as crc32_efes.go and sha1_efes.go use it.
use efes.Prelude.{
  ℕ, ◌+◌, ◌*◌, ◌/◌, ◌%◌, ◌<◌, ◌≡◌, refl, ap, arith, some, List, [], ◌∷◌, length, All,
}
use efes.Encoding.{hex_digit, hex_encode, from_hex_char, cons_byte, hex_decode}

from_hex_char-hex_digit : (v : ℕ) → v < 16 → from_hex_char (hex_digit v) ≡ some v
unfolding from_hex_char hex_digit
from_hex_char-hex_digit v h = ground arith

-- Every list of bytes is read back from its text.
pub hex_decode-hex_encode :
    (bs : List ℕ) → All (λ b. b < 256) bs → hex_decode (hex_encode bs) ≡ some bs
unfolding hex_encode hex_decode
hex_decode-hex_encode [] h = refl
hex_decode-hex_encode (b ∷ bs) (hb, hs) =
    let high = from_hex_char-hex_digit (b / 16) (omega arith) in
    let low = from_hex_char-hex_digit (b % 16) (omega arith) in
    let whole : b / 16 * 16 + b % 16 ≡ b = omega arith in
    rw (high, low, hex_decode-hex_encode bs hs) (unfold cons_byte in ap (λ t. some (t ∷ bs)) whole)

pub length-hex_encode : (bs : List ℕ) → length (hex_encode bs) ≡ 2 * length bs
unfolding hex_encode
length-hex_encode [] = refl
length-hex_encode (b ∷ bs) = omega (arith, length-hex_encode bs)
