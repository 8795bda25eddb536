-- ===== src/Crc32/Step.antt =====
-- crc32.go: the step of `simplePopulateTable` and exclusive or.
use efes.Prelude.{
  ℕ, zero, suc, ◌*◌, ◌/◌, ◌%◌, ◌^◌, ◌<◌, ◌≡◌, refl, ap, sym, ◌∙◌, Bool, true, false, arith, bit_xor,
  ◌==◌, if◌then◌else◌,
}
use native.Mathlib.Nat.{pow-suc}
use efes.Prelude.Xor.{
  bit_xor-half, bit_xor-parity, bit_xor_assoc, bit_xor_comm, bit_xor_self, bit_xor_fields,
  bit_xor-lt, bit_xor-zero,
}
use efes.Crc32.{shift_bit, shift_bits}

-- The inner factors of a sum of two pairs change places.
pub bit_xor_middle :
    (a b c d : ℕ) → bit_xor (bit_xor a b) (bit_xor c d) ≡ bit_xor (bit_xor a c) (bit_xor b d)
bit_xor_middle a b c d =
    bit_xor_assoc a b (bit_xor c d)
    ∙ ap (bit_xor a)
        (sym (bit_xor_assoc b c d) ∙ ap (λ t. bit_xor t d) (bit_xor_comm b c) ∙ bit_xor_assoc c b d)
    ∙ sym (bit_xor_assoc a c (bit_xor b d))

module _ (poly : ℕ) where
  pub shift_bit_even : (crc : ℕ) → crc % 2 ≡ 0 → shift_bit poly crc ≡ crc / 2
  unfolding shift_bit
  shift_bit_even crc h = ground arith

  shift_bit_odd : (crc : ℕ) → crc % 2 ≡ 1 → shift_bit poly crc ≡ bit_xor (crc / 2) poly
  unfolding shift_bit
  shift_bit_odd crc h = ground arith

  parity_cases : (a : ℕ) → (b : Bool) → (a % 2 == 1) ≡ b → a % 2 ≡ (if b then 1 else 0)
  parity_cases a true h = ground arith
  parity_cases a false h = ground arith

  shift_bit-bit_xor :
      (a b : ℕ) → shift_bit poly (bit_xor a b) ≡ bit_xor (shift_bit poly a) (shift_bit poly b)
  shift_bit-bit_xor a b =
      go (a % 2 == 1) (b % 2 == 1) (parity_cases a _ refl) (parity_cases b _ refl)
    where
      go :
          (p q : Bool)
          → a % 2 ≡ (if p then 1 else 0)
          → b % 2 ≡ (if q then 1 else 0)
          → shift_bit poly (bit_xor a b) ≡ bit_xor (shift_bit poly a) (shift_bit poly b)
      go true true h k =
          shift_bit_even (bit_xor a b) (omega (arith, bit_xor-parity a b))
          ∙ bit_xor-half a b
          ∙ sym (bit_xor-zero _)
          ∙ ap (bit_xor (bit_xor (a / 2) (b / 2))) (sym (bit_xor_self poly))
          ∙ bit_xor_middle (a / 2) (b / 2) poly poly
          ∙ ap (λ t. bit_xor t (bit_xor (b / 2) poly)) (sym (shift_bit_odd a h))
          ∙ ap (bit_xor (shift_bit poly a)) (sym (shift_bit_odd b k))
      go true false h k =
          shift_bit_odd (bit_xor a b) (omega (arith, bit_xor-parity a b))
          ∙ ap (λ t. bit_xor t poly) (bit_xor-half a b ∙ bit_xor_comm (a / 2) (b / 2))
          ∙ bit_xor_assoc (b / 2) (a / 2) poly
          ∙ bit_xor_comm (b / 2) (bit_xor (a / 2) poly)
          ∙ ap (λ t. bit_xor t (b / 2)) (sym (shift_bit_odd a h))
          ∙ ap (bit_xor (shift_bit poly a)) (sym (shift_bit_even b k))
      go false true h k =
          shift_bit_odd (bit_xor a b) (omega (arith, bit_xor-parity a b))
          ∙ ap (λ t. bit_xor t poly) (bit_xor-half a b)
          ∙ bit_xor_assoc (a / 2) (b / 2) poly
          ∙ ap (λ t. bit_xor t (bit_xor (b / 2) poly)) (sym (shift_bit_even a h))
          ∙ ap (bit_xor (shift_bit poly a)) (sym (shift_bit_odd b k))
      go false false h k =
          shift_bit_even (bit_xor a b) (omega (arith, bit_xor-parity a b))
          ∙ bit_xor-half a b
          ∙ ap (λ t. bit_xor t (b / 2)) (sym (shift_bit_even a h))
          ∙ ap (bit_xor (shift_bit poly a)) (sym (shift_bit_even b k))

  pub shift_bits-bit_xor :
      (n a b : ℕ)
      → shift_bits poly n (bit_xor a b) ≡ bit_xor (shift_bits poly n a) (shift_bits poly n b)
  unfolding shift_bits
  shift_bits-bit_xor zero a b = refl
  shift_bits-bit_xor (suc n) a b =
      ap (shift_bits poly n) (shift_bit-bit_xor a b)
      ∙ shift_bits-bit_xor n (shift_bit poly a) (shift_bit poly b)

  -- Zero bits fall out at the low end.
  pub shift_bits_whole : (n k : ℕ) → shift_bits poly n (k * 2 ^ n) ≡ k
  unfolding shift_bits
  shift_bits_whole zero k = omega arith
  shift_bits_whole (suc n) k =
      let twice : k * 2 ^ suc n ≡ 2 * (k * 2 ^ n) =
        omega (arith, ap (λ (t : ℕ). k * t) (pow-suc 2 n)) in
      let half : k * 2 ^ suc n / 2 ≡ k * 2 ^ n = omega (arith, twice) in
      ap (shift_bits poly n) (shift_bit_even (k * 2 ^ suc n) (omega (arith, twice)) ∙ half)
      ∙ shift_bits_whole n k

  -- Eight rounds: the low byte goes through the register, the rest moves down.
  pub shift_bits_byte :
      (crc : ℕ) → shift_bits poly 8 crc ≡ bit_xor (shift_bits poly 8 (crc % 256)) (crc / 256)
  shift_bits_byte crc =
      ap (shift_bits poly 8) split
      ∙ shift_bits-bit_xor 8 (crc % 256) (crc / 256 * 2 ^ 8)
      ∙ ap (bit_xor (shift_bits poly 8 (crc % 256))) (shift_bits_whole 8 (crc / 256))
    where
      split : crc ≡ bit_xor (crc % 256) (crc / 256 * 2 ^ 8)
      split = omega (arith, bit_xor_fields 8 (crc % 256) (crc / 256) (omega arith))

  module _ (fits : poly < 2 ^ 32) where
    shift_bit-lt : (crc : ℕ) → crc < 2 ^ 32 → shift_bit poly crc < 2 ^ 32
    unfolding shift_bit
    shift_bit-lt crc h = ground (arith, bit_xor-lt 32 (crc / 2) poly)

    pub shift_bits-lt : (n crc : ℕ) → crc < 2 ^ 32 → shift_bits poly n crc < 2 ^ 32
    unfolding shift_bits
    shift_bits-lt zero crc h = h
    shift_bits-lt (suc n) crc h = shift_bits-lt n _ (shift_bit-lt crc h)
