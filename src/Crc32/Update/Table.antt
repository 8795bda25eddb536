-- ===== src/Crc32/Update/Table.antt =====
-- crc32.go: the 256-entry table (`simpleMakeTable`) and the update by it.
use efes.Prelude.{
  ℕ, zero, suc, ◌+◌, ◌/◌, ◌%◌, ◌<◌, ◌≡◌, refl, ap, sym, ◌∙◌, arith, List, [], ◌∷◌, All, bit_xor,
  get_or, length,
}
use efes.Prelude.Xor.{bit_xor-lt, bit_xor_assoc, bit_xor_comm}
use efes.Crc32.{
  shift_bits, populate, simple_make_table, update_byte, update_bytes, simple_update, complement,
}
use efes.Crc32.Step.{shift_bits-bit_xor, shift_bits_byte}
use efes.Crc32.Update.{register, crc_of}

abbrev pub IsByte : ℕ → Type 0
IsByte v = v < 256

module _ (poly : ℕ) where
  get_or-populate : (n i j : ℕ) → j < n → get_or (populate poly n i) j 0 ≡ shift_bits poly 8 (i + j)
  unfolding populate
  get_or-populate zero i j h = elim h [ ]
  get_or-populate (suc n) i zero h = ap (shift_bits poly 8) (omega arith)
  get_or-populate (suc n) i (suc j) h =
      get_or-populate n (i + 1) j (omega arith) ∙ ap (shift_bits poly 8) (omega arith)

  pub get_or-simple_make_table :
      (v : ℕ) → v < 256 → get_or (simple_make_table poly) v 0 ≡ shift_bits poly 8 v
  unfolding simple_make_table
  get_or-simple_make_table v h = get_or-populate 256 0 v h ∙ ap (shift_bits poly 8) (omega arith)

  length-populate : (n i : ℕ) → length (populate poly n i) ≡ n
  unfolding populate
  length-populate zero i = refl
  length-populate (suc n) i = ap suc (length-populate n (i + 1))

  pub length-simple_make_table : length (simple_make_table poly) ≡ 256
  unfolding simple_make_table
  length-simple_make_table = length-populate 256 0

  pub update_byte_lem :
      (crc v : ℕ)
      → v < 256
      → update_byte (simple_make_table poly) crc v ≡ shift_bits poly 8 (bit_xor crc v)
  unfolding update_byte
  update_byte_lem crc v h =
      let U = shift_bits poly 8 in
      ap (λ t. bit_xor t (crc / 256))
        (get_or-simple_make_table (bit_xor (crc % 256) v)
            (bit_xor-lt 8 (crc % 256) v (omega arith) h)
          ∙ shift_bits-bit_xor poly 8 (crc % 256) v
          ∙ bit_xor_comm (U (crc % 256)) (U v))
      ∙ bit_xor_assoc (U v) (U (crc % 256)) (crc / 256)
      ∙ ap (bit_xor (U v)) (sym (shift_bits_byte poly crc))
      ∙ bit_xor_comm (U v) (U crc)
      ∙ sym (shift_bits-bit_xor poly 8 crc v)

  pub update_bytes_lem :
      (crc : ℕ) (p : List ℕ)
      → All IsByte p
      → update_bytes (simple_make_table poly) crc p ≡ register poly crc p
  unfolding update_bytes register
  update_bytes_lem crc [] h = refl
  update_bytes_lem crc (v ∷ p) h =
      ap (λ t. update_bytes (simple_make_table poly) t p) (update_byte_lem crc v h.0)
      ∙ update_bytes_lem (shift_bits poly 8 (bit_xor crc v)) p h.1

  -- For bytes, the update by the table made for a polynomial is the CRC of the shift register.
  pub simple_update_lem :
      (crc : ℕ) (p : List ℕ)
      → All IsByte p
      → simple_update crc (simple_make_table poly) p ≡ crc_of poly crc p
  unfolding simple_update crc_of
  simple_update_lem crc p h = ap complement (update_bytes_lem (complement crc) p h)
