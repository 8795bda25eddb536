-- ===== src/Crc32/Update/Slicing.antt =====
-- crc32.go: slicing-by-8 (`slicingUpdate`) and the shift register.
use efes.Prelude.{
  ℕ, ◌^◌, ◌<◌, ◌≡◌, refl, ap, sym, ◌∙◌, arith, List, [], ◌∷◌, ◌++◌, All, bit_xor, length, leb,
  Bool-cases, inl, inr,
}
use efes.Prelude.Xor.{bit_xor-lt, bit_xor_cancel}
use efes.Crc32.{
  slicing_make_table, little_endian, look_up, slicing_loop, slicing_rest, slicing_update,
  slicing8_cutoff, simple_update, complement, shift_bits,
}
use efes.Crc32.Step.{shift_bits-lt}
use efes.Crc32.Update.{register, crc_of}
use efes.Crc32.Update.Table.{IsByte, simple_update_lem}
use efes.Crc32.Update.Rounds.{round_lem, first_entries}

module _ (poly : ℕ) where
  register-lt :
      poly < 2 ^ 32
      → (crc : ℕ) (p : List ℕ) → crc < 2 ^ 32
      → All IsByte p
      → register poly crc p < 2 ^ 32
  unfolding register
  register-lt fits crc [] h hp = h
  register-lt fits crc (v ∷ p) h hp =
      register-lt fits (shift_bits poly 8 (bit_xor crc v)) p
        (shift_bits-lt poly fits 8 (bit_xor crc v) (bit_xor-lt 32 crc v h (omega (arith, hp.0))))
        hp.1

  -- The loop and the bytes that it leaves together are the register over all of the data.
  slicing_loop_lem :
      poly < 2 ^ 32
      → (crc : ℕ) (p : List ℕ) → crc < 2 ^ 32
      → All IsByte p
      → let (crc', rest) = slicing_loop (slicing_make_table poly) crc p in
        (register poly crc' rest ≡ register poly crc p) × All IsByte rest
  unfolding slicing_loop register
  slicing_loop_lem fits crc (p0 ∷ p1 ∷ p2 ∷ p3 ∷ p4 ∷ p5 ∷ p6 ∷ p7 ∷ p8 ∷ p) h
        (h0, (h1, (h2, (h3, (h4, (h5, (h6, (h7, (h8, hp))))))))) =
      let bytes : All IsByte (p0 ∷ p1 ∷ p2 ∷ p3 ∷ p4 ∷ p5 ∷ p6 ∷ p7 ∷ []) =
        (h0, (h1, (h2, (h3, (h4, (h5, (h6, (h7, tt)))))))) in
      let crc' =
        look_up (slicing_make_table poly) (bit_xor crc (little_endian p0 p1 p2 p3)) p4 p5 p6 p7 in
      let same = round_lem poly crc p0 p1 p2 p3 p4 p5 p6 p7 h bytes in
      let small = register-lt fits crc (p0 ∷ p1 ∷ p2 ∷ p3 ∷ p4 ∷ p5 ∷ p6 ∷ p7 ∷ []) h bytes in
      let rest = slicing_loop_lem fits crc' (p8 ∷ p) (rw same small) (h8, hp) in
      (rest.0 ∙ ap (λ t. register poly t (p8 ∷ p)) same, rest.1)
  slicing_loop_lem fits crc p h hp = (refl, hp)

  complement_twice : (crc : ℕ) → complement (complement crc) ≡ crc
  unfolding complement
  complement_twice crc = bit_xor_cancel crc 0xffffffff

  complement-lt : (crc : ℕ) → crc < 2 ^ 32 → complement crc < 2 ^ 32
  unfolding complement
  complement-lt crc h = bit_xor-lt 32 crc 0xffffffff h (omega arith)

  pub crc_of-lt :
      poly < 2 ^ 32
      → (crc : ℕ) (p : List ℕ) → crc < 2 ^ 32
      → All IsByte p
      → crc_of poly crc p < 2 ^ 32
  unfolding crc_of
  crc_of-lt fits crc p h hp =
      complement-lt _ (register-lt fits (complement crc) p (complement-lt crc h) hp)

  slicing_rest_lem :
      (crc : ℕ) (p : List ℕ)
      → All IsByte p
      → slicing_rest (slicing_make_table poly) crc p ≡ crc_of poly crc p
  unfolding slicing_rest crc_of register
  slicing_rest_lem crc [] hp = sym (complement_twice crc)
  slicing_rest_lem crc (v ∷ p) hp =
      ap (λ t. simple_update crc t (v ∷ p)) (first_entries poly)
      ∙ simple_update_lem poly crc (v ∷ p) hp

  crc_of-complement :
      (crc : ℕ) (p : List ℕ) → crc_of poly (complement crc) p ≡ complement (register poly crc p)
  unfolding crc_of
  crc_of-complement crc p = ap (λ t. complement (register poly t p)) (complement_twice crc)

  -- For every polynomial and register of 32 bits and all bytes, whether below the cutoff or above,
  -- the update by slicing-by-8 is the CRC of the shift register.
  pub slicing_update_lem :
      poly < 2 ^ 32
      → (crc : ℕ) (p : List ℕ) → crc < 2 ^ 32
      → All IsByte p
      → slicing_update crc (slicing_make_table poly) p ≡ crc_of poly crc p
  unfolding slicing_update crc_of
  slicing_update_lem fits crc p h hp = elim (Bool-cases (leb slicing8_cutoff (length p))) [
    | inl long ↦ rw long (
        let crc' = complement crc in
        let (out, rest) = slicing_loop (slicing_make_table poly) crc' p in
        let loop = slicing_loop_lem fits crc' p (complement-lt crc h) hp in
        slicing_rest_lem (complement out) rest loop.1
        ∙ crc_of-complement out rest
        ∙ ap complement loop.0)
    | inr short ↦ rw short (slicing_rest_lem crc p hp)
  ]

  register-append :
      (crc : ℕ) (p q : List ℕ) → register poly crc (p ++ q) ≡ register poly (register poly crc p) q
  unfolding register
  register-append crc [] q = refl
  register-append crc (v ∷ p) q = register-append (shift_bits poly 8 (bit_xor crc v)) p q

  -- The CRC of a message in two parts is that of the second part, from that of the first.
  pub crc_of-append :
      (crc : ℕ) (p q : List ℕ) → crc_of poly crc (p ++ q) ≡ crc_of poly (crc_of poly crc p) q
  unfolding crc_of
  crc_of-append crc p q = ap complement (
      register-append (complement crc) p q
      ∙ ap (λ t. register poly t q) (sym (complement_twice (register poly (complement crc) p))))

  pub crc_of-nil : (crc : ℕ) → crc_of poly crc [] ≡ crc
  unfolding crc_of register
  crc_of-nil crc = complement_twice crc
