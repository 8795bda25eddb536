-- ===== src/Crc32.antt =====
-- crc32.go: CRC-32 with a 256-entry table (`simpleUpdate`) and by slicing-by-8 (`slicingUpdate`).
-- A uint32 is a natural below 2 ^ 32, `x >> k` is a division by 2 ^ k, `x & 0xFF` a remainder by
-- 256, and `^x` the exclusive or with 2 ^ 32 - 1. A byte is a natural below 256.
pub mod Step
pub mod Update
pub mod Digest
pub mod Text
use efes.Prelude.{
  ℕ, zero, suc, ◌+◌, ◌*◌, ◌/◌, ◌%◌, ◌^◌, Bool, true, false, List, [], ◌∷◌, map, bit_or, bit_xor,
  leb, ◌==◌, if◌then◌else◌, length, get_or,
}

-- Polynomials are in LSB-first form.
abbrev pub ieee : ℕ
ieee = 0xedb88320

-- `^crc`
unfoldable pub complement : ℕ → ℕ
complement crc = bit_xor crc 0xffffffff

-- One round of the inner loop of `simplePopulateTable`.
unfoldable pub shift_bit : ℕ → ℕ → ℕ
shift_bit poly crc = if crc % 2 == 1 then bit_xor (crc / 2) poly else crc / 2

-- `for j := 0; j < n; j++`
unfoldable pub shift_bits : ℕ → ℕ → ℕ → ℕ
shift_bits poly zero crc = crc
shift_bits poly (suc n) crc = shift_bits poly n (shift_bit poly crc)

-- `for i := i; i < i + n; i++ { t[i] = ... }`, from the entry at `i` on.
unfoldable pub populate : ℕ → ℕ → ℕ → List ℕ
populate poly zero i = []
populate poly (suc n) i = shift_bits poly 8 i ∷ populate poly n (i + 1)

unfoldable pub simple_make_table : ℕ → List ℕ
simple_make_table poly = populate poly 256 0

-- `tab[byte(crc)^v] ^ (crc >> 8)`
unfoldable pub update_byte : List ℕ → ℕ → ℕ → ℕ
update_byte tab crc v = bit_xor (get_or tab (bit_xor (crc % 256) v) 0) (crc / 2 ^ 8)

unfoldable pub update_bytes : List ℕ → ℕ → List ℕ → ℕ
update_bytes tab crc [] = crc
update_bytes tab crc (v ∷ p) = update_bytes tab (update_byte tab crc v) p

unfoldable pub simple_update : ℕ → List ℕ → List ℕ → ℕ
simple_update crc tab p = complement (update_bytes tab (complement crc) p)

abbrev pub slicing8_cutoff : ℕ
slicing8_cutoff = 16

-- The inner loop of `slicingMakeTable`: the entries `t[j][i]` of one `i`, for `n` values of `j`.
unfoldable pub column : List ℕ → ℕ → ℕ → List ℕ
column tab0 zero crc = []
column tab0 (suc n) crc =
    let next = bit_xor (get_or tab0 (crc % 256) 0) (crc / 2 ^ 8) in next ∷ column tab0 n next

-- The table holds for each `i` the eight entries `t[0][i]`, ..., `t[7][i]`.
unfoldable pub slicing_make_table : ℕ → List (List ℕ)
slicing_make_table poly =
    let tab0 = simple_make_table poly in map (λ crc. crc ∷ column tab0 7 crc) tab0

-- `tab[j][i]`
unfoldable pub entry : List (List ℕ) → ℕ → ℕ → ℕ
entry tab j i = get_or (get_or tab i []) j 0

-- `uint32(p[0]) | uint32(p[1])<<8 | uint32(p[2])<<16 | uint32(p[3])<<24`
unfoldable pub little_endian : ℕ → ℕ → ℕ → ℕ → ℕ
little_endian p0 p1 p2 p3 = bit_or (bit_or (bit_or p0 (p1 * 2 ^ 8)) (p2 * 2 ^ 16)) (p3 * 2 ^ 24)

-- The look-ups of a round of the slicing loop, from `crc` with the first four bytes in it.
unfoldable pub look_up : List (List ℕ) → ℕ → ℕ → ℕ → ℕ → ℕ → ℕ
look_up tab crc p4 p5 p6 p7 =
    bit_xor
      (bit_xor
        (bit_xor
          (bit_xor
            (bit_xor (bit_xor (bit_xor (entry tab 0 p7) (entry tab 1 p6)) (entry tab 2 p5))
              (entry tab 3 p4))
            (entry tab 4 (crc / 2 ^ 24)))
          (entry tab 5 (crc / 2 ^ 16 % 256)))
        (entry tab 6 (crc / 2 ^ 8 % 256)))
      (entry tab 7 (crc % 256))

-- `for len(p) > 8`: the loop takes eight bytes a round and leaves one to eight of them.
unfoldable pub slicing_loop : List (List ℕ) → ℕ → List ℕ → ℕ × List ℕ
slicing_loop tab crc (p0 ∷ p1 ∷ p2 ∷ p3 ∷ p4 ∷ p5 ∷ p6 ∷ p7 ∷ p8 ∷ p) =
    slicing_loop tab (look_up tab (bit_xor crc (little_endian p0 p1 p2 p3)) p4 p5 p6 p7) (p8 ∷ p)
slicing_loop tab crc p = (crc, p)

-- The end of `slicingUpdate`.
unfoldable pub slicing_rest : List (List ℕ) → ℕ → List ℕ → ℕ
slicing_rest tab crc [] = crc
slicing_rest tab crc (v ∷ p) = simple_update crc (map (λ row. get_or row 0 0) tab) (v ∷ p)

unfoldable pub slicing_update : ℕ → List (List ℕ) → List ℕ → ℕ
slicing_update crc tab p =
    if leb slicing8_cutoff (length p)
    then (let (crc', rest) = slicing_loop tab (complement crc) p in
        slicing_rest tab (complement crc') rest)
    else slicing_rest tab crc p
