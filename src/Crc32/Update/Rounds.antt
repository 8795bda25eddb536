-- ===== src/Crc32/Update/Rounds.antt =====
-- crc32.go: one round of slicing-by-8, eight bytes at a time.
use efes.Prelude.{
  ℕ, zero, suc, ◌+◌, ◌*◌, ◌/◌, ◌%◌, ◌^◌, ◌<◌, ◌≡◌, refl, ap, sym, ◌∙◌, arith, List, [], ◌∷◌, All,
  bit_xor, bit_or, get_or, map, length,
}
use efes.Prelude.Xor.{bit_xor-lt, bit_xor_assoc, bit_xor_comm, bit_xor_fields, bit_or_fields}
use efes.Crc32.{
  shift_bits, simple_make_table, column, slicing_make_table, entry, little_endian, look_up,
}
use efes.Crc32.Step.{shift_bits-bit_xor, shift_bits_byte, shift_bits_whole}
use efes.Crc32.Update.{register}
use efes.Crc32.Update.Table.{IsByte, get_or-simple_make_table, length-simple_make_table}

-- `n` bytes of zeros through the register.
abbrev bytes_through : ℕ → ℕ → ℕ → ℕ
bytes_through poly zero crc = crc
bytes_through poly (suc n) crc = bytes_through poly n (shift_bits poly 8 crc)

-- The order in which the source adds the look-ups up, and the order of the register.
xor_chain :
    {a b c d e f g h a' b' c' d' e' f' g' h' : ℕ}
    → a ≡ a'
    → b ≡ b'
    → c ≡ c'
    → d ≡ d'
    → e ≡ e'
    → f ≡ f'
    → g ≡ g'
    → h ≡ h'
    → bit_xor (bit_xor (bit_xor (bit_xor (bit_xor (bit_xor (bit_xor a b) c) d) e) f) g) h
      ≡ bit_xor a' (bit_xor b' (bit_xor c' (bit_xor d' (bit_xor (bit_xor (bit_xor e' f') g') h'))))
xor_chain pa pb pc pd pe pf pg ph = rw (pa, pb, pc, pd, pe, pf, pg, ph) (simp bit_xor_assoc)

module _ (poly : ℕ) where
  pub through-bit_xor :
      (n a b : ℕ)
      → bytes_through poly n (bit_xor a b)
        ≡ bit_xor (bytes_through poly n a) (bytes_through poly n b)
  through-bit_xor zero a b = refl
  through-bit_xor (suc n) a b =
      ap (bytes_through poly n) (shift_bits-bit_xor poly 8 a b)
      ∙ through-bit_xor n (shift_bits poly 8 a) (shift_bits poly 8 b)

  table_round :
      (crc : ℕ)
      → bit_xor (get_or (simple_make_table poly) (crc % 256) 0) (crc / 256) ≡ shift_bits poly 8 crc
  table_round crc =
      ap (λ t. bit_xor t (crc / 256)) (get_or-simple_make_table poly (crc % 256) (omega arith))
      ∙ sym (shift_bits_byte poly crc)

  get_or-column :
      (n crc j : ℕ)
      → j < n
      → get_or (column (simple_make_table poly) n crc) j 0 ≡ bytes_through poly (suc j) crc
  unfolding column
  get_or-column zero crc j h = elim h [ ]
  get_or-column (suc n) crc zero h = table_round crc
  get_or-column (suc n) crc (suc j) h =
      ap (λ t. get_or (column (simple_make_table poly) n t) j 0) (table_round crc)
      ∙ get_or-column n (shift_bits poly 8 crc) j (omega arith)

  get_or-map :
      (f : ℕ → List ℕ) (xs : List ℕ) (i : ℕ)
      → i < length xs
      → get_or (map f xs) i [] ≡ f (get_or xs i 0)
  get_or-map f [] i h = elim h [ ]
  get_or-map f (x ∷ xs) zero h = refl
  get_or-map f (x ∷ xs) (suc i) h = get_or-map f xs i (omega arith)

  -- `tab[j][i]` is `i` followed by `j` bytes of zeros, through the register.
  entry_lem :
      (j i : ℕ)
      → j < 8
      → i < 256
      → entry (slicing_make_table poly) j i ≡ bytes_through poly (suc j) i
  unfolding entry slicing_make_table
  entry_lem j i hj hi =
      ap (λ t. get_or t j 0)
        (get_or-map _ (simple_make_table poly) i (rw length-simple_make_table hi)
          ∙ ap (λ t. t ∷ column (simple_make_table poly) 7 t) (get_or-simple_make_table poly i hi))
      ∙ tail j hj
    where
      tail :
          (j : ℕ)
          → j < 8
          → get_or
              (shift_bits poly 8 i ∷ column (simple_make_table poly) 7 (shift_bits poly 8 i))
              j
              0
            ≡ bytes_through poly (suc j) i
      tail zero h = refl
      tail (suc j) h = get_or-column 7 (shift_bits poly 8 i) j (omega arith)

  -- The first column is the plain table.
  pub first_entries : map (λ row. get_or row 0 0) (slicing_make_table poly) ≡ simple_make_table poly
  unfolding slicing_make_table
  first_entries = heads (simple_make_table poly)
    where
      heads :
          (xs : List ℕ)
          → map
              (λ row. get_or row 0 0)
              (map (λ crc. crc ∷ column (simple_make_table poly) 7 crc) xs)
            ≡ xs
      heads [] = refl
      heads (x ∷ xs) = ap (λ t. x ∷ t) (heads xs)

  -- The low byte of a register needs one round more than the rest.
  through_split :
      (n d : ℕ)
      → bytes_through poly (suc n) d
        ≡ bit_xor (bytes_through poly n (d / 256)) (bytes_through poly (suc n) (d % 256))
  through_split n d =
      ap (bytes_through poly n) (shift_bits_byte poly d)
      ∙ through-bit_xor n (shift_bits poly 8 (d % 256)) (d / 256)
      ∙ bit_xor_comm (bytes_through poly (suc n) (d % 256)) (bytes_through poly n (d / 256))

  -- Four rounds from a register of 32 bits: its bytes go through separately.
  four_bytes :
      (d : ℕ)
      → bytes_through poly 4 d
        ≡ bit_xor
            (bit_xor
              (bit_xor
                (bytes_through poly 1 (d / 2 ^ 24))
                (bytes_through poly 2 (d / 2 ^ 16 % 256)))
              (bytes_through poly 3 (d / 2 ^ 8 % 256)))
            (bytes_through poly 4 (d % 256))
  four_bytes d =
      let two : d / 256 / 256 ≡ d / 2 ^ 16 = omega arith in
      let three : d / 2 ^ 16 / 256 ≡ d / 2 ^ 24 = omega arith in
      through_split 3 d
      ∙ ap (λ t. bit_xor t (bytes_through poly 4 (d % 256)))
          (through_split 2 (d / 256)
            ∙ ap (λ t. bit_xor (bytes_through poly 2 t) (bytes_through poly 3 (d / 256 % 256))) two
            ∙ ap (λ t. bit_xor t (bytes_through poly 3 (d / 256 % 256)))
                (through_split 1 (d / 2 ^ 16)
                  ∙ ap
                      (λ t.
                        bit_xor (bytes_through poly 1 t) (bytes_through poly 2 (d / 2 ^ 16 % 256)))
                      three))

  -- Data above the low byte meets the register one round later.
  absorb :
      (x v m : ℕ)
      → v < 256
      → shift_bits poly 8 (bit_xor x (v + m * 2 ^ 8)) ≡ bit_xor (shift_bits poly 8 (bit_xor x v)) m
  absorb x v m h =
      ap (λ t. shift_bits poly 8 (bit_xor x t)) (sym (bit_xor_fields 8 v m h))
      ∙ ap (shift_bits poly 8) (sym (bit_xor_assoc x v (m * 2 ^ 8)))
      ∙ shift_bits-bit_xor poly 8 (bit_xor x v) (m * 2 ^ 8)
      ∙ ap (bit_xor (shift_bits poly 8 (bit_xor x v))) (shift_bits_whole poly 8 m)

  little_endian_lem :
      (p0 p1 p2 p3 : ℕ)
      → p0 < 256
      → p1 < 256
      → p2 < 256
      → little_endian p0 p1 p2 p3 ≡ p0 + (p1 + (p2 + p3 * 2 ^ 8) * 2 ^ 8) * 2 ^ 8
  unfolding little_endian
  little_endian_lem p0 p1 p2 p3 h0 h1 h2 =
      ap (λ t. bit_or (bit_or t (p2 * 2 ^ 16)) (p3 * 2 ^ 24)) (bit_or_fields 8 p0 p1 h0)
      ∙ ap (λ t. bit_or t (p3 * 2 ^ 24)) (bit_or_fields 16 (p0 + p1 * 2 ^ 8) p2 (omega arith))
      ∙ bit_or_fields 24 (p0 + p1 * 2 ^ 8 + p2 * 2 ^ 16) p3 (omega arith)
      ∙ omega arith

  first_half :
      (crc p0 p1 p2 p3 : ℕ)
      → p0 < 256
      → p1 < 256
      → p2 < 256
      → p3 < 256
      → bytes_through poly 4 (bit_xor crc (little_endian p0 p1 p2 p3))
        ≡ register poly crc (p0 ∷ p1 ∷ p2 ∷ p3 ∷ [])
  unfolding register
  first_half crc p0 p1 p2 p3 h0 h1 h2 h3 =
      let U = shift_bits poly 8 in
      let c1 = U (bit_xor crc p0) in
      let c2 = U (bit_xor c1 p1) in
      let c3 = U (bit_xor c2 p2) in
      ap (λ t. bytes_through poly 4 (bit_xor crc t)) (little_endian_lem p0 p1 p2 p3 h0 h1 h2)
      ∙ ap (bytes_through poly 3) (absorb crc p0 (p1 + (p2 + p3 * 2 ^ 8) * 2 ^ 8) h0)
      ∙ ap (bytes_through poly 2) (absorb c1 p1 (p2 + p3 * 2 ^ 8) h1)
      ∙ ap (bytes_through poly 1) (absorb c2 p2 p3 h2)

  second_half :
      (e p4 p5 p6 p7 : ℕ)
      → register poly e (p4 ∷ p5 ∷ p6 ∷ p7 ∷ [])
        ≡ bit_xor (bytes_through poly 1 p7) (
            bit_xor (bytes_through poly 2 p6) (
              bit_xor
                (bytes_through poly 3 p5)
                (bit_xor (bytes_through poly 4 p4) (bytes_through poly 4 e))))
  unfolding register
  second_half e p4 p5 p6 p7 =
      let U = shift_bits poly 8 in
      let swap = λ (n : ℕ) (x p : ℕ).
        through-bit_xor n x p ∙ bit_xor_comm (bytes_through poly n x) (bytes_through poly n p) in
      let c1 = U (bit_xor e p4) in
      let c2 = U (bit_xor c1 p5) in
      let c3 = U (bit_xor c2 p6) in
      swap 1 c3 p7
      ∙ ap (bit_xor (bytes_through poly 1 p7)) (
          swap 2 c2 p6
          ∙ ap (bit_xor (bytes_through poly 2 p6))
              (swap 3 c1 p5 ∙ ap (bit_xor (bytes_through poly 3 p5)) (swap 4 e p4)))

  eight_bytes :
      (d : ℕ)
      → bytes_through poly 4 (bytes_through poly 4 d)
        ≡ bit_xor
            (bit_xor
              (bit_xor
                (bytes_through poly 5 (d / 2 ^ 24))
                (bytes_through poly 6 (d / 2 ^ 16 % 256)))
              (bytes_through poly 7 (d / 2 ^ 8 % 256)))
            (bytes_through poly 8 (d % 256))
  eight_bytes d =
      let T = bytes_through poly in
      let a = T 1 (d / 2 ^ 24) in
      let b = T 2 (d / 2 ^ 16 % 256) in
      let c = T 3 (d / 2 ^ 8 % 256) in
      let e = T 4 (d % 256) in
      ap (T 4) (four_bytes d)
      ∙ through-bit_xor 4 (bit_xor (bit_xor a b) c) e
      ∙ ap (λ t. bit_xor t (T 4 e)) (through-bit_xor 4 (bit_xor a b) c)
      ∙ ap (λ t. bit_xor (bit_xor t (T 4 c)) (T 4 e)) (through-bit_xor 4 a b)

  -- One round of the slicing loop is eight bytes of the register.
  look_up_lem :
      (d p4 p5 p6 p7 : ℕ)
      → d < 2 ^ 32
      → p4 < 256
      → p5 < 256
      → p6 < 256
      → p7 < 256
      → look_up (slicing_make_table poly) d p4 p5 p6 p7
        ≡ register poly (bytes_through poly 4 d) (p4 ∷ p5 ∷ p6 ∷ p7 ∷ [])
  unfolding look_up
  look_up_lem d p4 p5 p6 p7 hd h4 h5 h6 h7 =
      xor_chain (entry_lem 0 p7 (omega arith) h7) (entry_lem 1 p6 (omega arith) h6)
        (entry_lem 2 p5 (omega arith) h5) (entry_lem 3 p4 (omega arith) h4)
        (entry_lem 4 (d / 2 ^ 24) (omega arith) (omega arith))
        (entry_lem 5 (d / 2 ^ 16 % 256) (omega arith) (omega arith))
        (entry_lem 6 (d / 2 ^ 8 % 256) (omega arith) (omega arith))
        (entry_lem 7 (d % 256) (omega arith) (omega arith))
      ∙ ap
          (λ t. bit_xor (bytes_through poly 1 p7) (
            bit_xor (bytes_through poly 2 p6)
              (bit_xor (bytes_through poly 3 p5) (bit_xor (bytes_through poly 4 p4) t))))
          (sym (eight_bytes d))
      ∙ sym (second_half (bytes_through poly 4 d) p4 p5 p6 p7)

  pub round_lem :
      (crc p0 p1 p2 p3 p4 p5 p6 p7 : ℕ)
      → crc < 2 ^ 32
      → All IsByte (p0 ∷ p1 ∷ p2 ∷ p3 ∷ p4 ∷ p5 ∷ p6 ∷ p7 ∷ [])
      → look_up (slicing_make_table poly) (bit_xor crc (little_endian p0 p1 p2 p3)) p4 p5 p6 p7
        ≡ register poly crc (p0 ∷ p1 ∷ p2 ∷ p3 ∷ p4 ∷ p5 ∷ p6 ∷ p7 ∷ [])
  unfolding register
  round_lem crc p0 p1 p2 p3 p4 p5 p6 p7 h (h0, (h1, (h2, (h3, (h4, (h5, (h6, (h7, _)))))))) =
      look_up_lem (bit_xor crc (little_endian p0 p1 p2 p3)) p4 p5 p6 p7
        (bit_xor-lt 32 crc (little_endian p0 p1 p2 p3) h
          (omega (arith, little_endian_lem p0 p1 p2 p3 h0 h1 h2)))
        h4 h5 h6 h7
      ∙ ap (λ t. register poly t (p4 ∷ p5 ∷ p6 ∷ p7 ∷ [])) (first_half crc p0 p1 p2 p3 h0 h1 h2 h3)
