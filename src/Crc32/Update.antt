-- ===== src/Crc32/Update.antt =====
-- crc32.go: the shift register of CRC-32, which the updates by tables are measured against.
pub mod Table
pub mod Rounds
pub mod Slicing
use efes.Prelude.{ℕ, List, [], ◌∷◌, bit_xor}
use efes.Crc32.{shift_bits, complement}

-- CRC-32 by its definition: each byte goes into the low end of the register, eight rounds follow.
unfoldable pub register : ℕ → ℕ → List ℕ → ℕ
register poly crc [] = crc
register poly crc (v ∷ p) = register poly (shift_bits poly 8 (bit_xor crc v)) p

pub crc_of : ℕ → ℕ → List ℕ → ℕ
crc_of poly crc p = complement (register poly (complement crc) p)
