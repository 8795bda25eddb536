-- ===== src/Prelude/Xor.antt =====
-- Exclusive or of native numbers: its laws at variables, from the recursion on binary digits that
-- the native operation stands for. `bit_or` and `bit_xor` of numbers that share no digit are sums.
use Prim.Native.Nat.{
  ℕ, zero, suc, ◌+◌, ◌*◌, ◌/◌, ◌%◌, ◌≤◌, ◌<◌, ◌^◌, max, bit_or, bit_xor, digits, differ,
  bit_or-bitwise, bit_xor-bitwise,
}
use mathlib.Core.Path.{◌≡◌, refl, ap, ◌∙◌}
use native.Mathlib.Nat.{le_refl, pow-suc}
use native.Mathlib.Omega.{arith}

-- The fuel of the digit recursion does not matter once it covers the first number.
fuel_free :
    (z : ℕ → ℕ) (f : ℕ → ℕ → ℕ) (k l a b : ℕ) → a ≤ k → a ≤ l → digits z f k a b ≡ digits z f l a b
fuel_free z f zero zero zero b p q = refl
fuel_free z f zero (suc l) zero b p q = refl
fuel_free z f (suc k) zero zero b p q = refl
fuel_free z f (suc k) (suc l) zero b p q = refl
fuel_free z f zero l (suc a) b p q = elim p [ ]
fuel_free z f (suc k) zero (suc a) b p q = elim q [ ]
fuel_free z f (suc k) (suc l) (suc a) b p q =
    rw (fuel_free z f k l (suc a / 2) (b / 2) (omega arith) (omega arith))

digit_sum : (x y : ℕ) → x < 2 → y < 2 → differ x y ≡ (x + y) % 2
digit_sum zero y p q = omega arith
digit_sum (suc zero) zero p q = refl
digit_sum (suc zero) (suc zero) p q = refl
digit_sum (suc zero) (suc (suc y)) p q = absurd (omega arith)
digit_sum (suc (suc x)) y p q = absurd (omega arith)

-- One equation for the lowest digit.
pub bit_xor_step : (a b : ℕ) → bit_xor a b ≡ bit_xor (a / 2) (b / 2) * 2 + (a + b) % 2
bit_xor_step zero b = omega (arith, bit_xor-bitwise zero b, bit_xor-bitwise zero (b / 2))
bit_xor_step (suc a) b = omega (
  arith,
  bit_xor-bitwise (suc a) b,
  bit_xor-bitwise (suc a / 2) (b / 2),
  fuel_free (λ y. y) differ a (suc a / 2) (suc a / 2) (b / 2) (omega arith) (le_refl _),
  digit_sum (suc a % 2) (b % 2) (omega arith) (omega arith),
)

pub bit_or_step : (a b : ℕ) → bit_or a b ≡ bit_or (a / 2) (b / 2) * 2 + max (a % 2) (b % 2)
bit_or_step zero b = omega (arith, bit_or-bitwise zero b, bit_or-bitwise zero (b / 2))
bit_or_step (suc a) b = omega (
  arith,
  bit_or-bitwise (suc a) b,
  bit_or-bitwise (suc a / 2) (b / 2),
  fuel_free (λ y. y) max a (suc a / 2) (suc a / 2) (b / 2) (omega arith) (le_refl _),
)

pub zero-bit_xor : (b : ℕ) → bit_xor 0 b ≡ b
zero-bit_xor b = bit_xor-bitwise 0 b

zero-bit_or : (b : ℕ) → bit_or 0 b ≡ b
zero-bit_or b = bit_or-bitwise 0 b

-- The laws, by induction on a bound for every argument.
comm_below : (n a b : ℕ) → a ≤ n → b ≤ n → bit_xor a b ≡ bit_xor b a
comm_below zero zero zero p q = refl
comm_below zero (suc a) b p q = elim p [ ]
comm_below zero zero (suc b) p q = elim q [ ]
comm_below (suc n) a b p q = omega (
  arith,
  bit_xor_step a b,
  bit_xor_step b a,
  comm_below n (a / 2) (b / 2) (omega arith) (omega arith),
)

pub bit_xor_comm : (a b : ℕ) → bit_xor a b ≡ bit_xor b a
bit_xor_comm a b = comm_below (a + b) a b (omega arith) (omega arith)

pub bit_xor-zero : (a : ℕ) → bit_xor a 0 ≡ a
bit_xor-zero a = bit_xor_comm a 0 ∙ zero-bit_xor a

-- The higher digits of an exclusive or.
pub bit_xor-half : (a b : ℕ) → bit_xor a b / 2 ≡ bit_xor (a / 2) (b / 2)
bit_xor-half a b = omega (arith, bit_xor_step a b)

pub bit_xor-parity : (a b : ℕ) → bit_xor a b % 2 ≡ (a + b) % 2
bit_xor-parity a b = omega (arith, bit_xor_step a b)

assoc_below :
    (n a b c : ℕ) → a ≤ n → b ≤ n → c ≤ n → bit_xor (bit_xor a b) c ≡ bit_xor a (bit_xor b c)
assoc_below zero zero b c p q r = rw zero-bit_xor (rw zero-bit_xor)
assoc_below zero (suc a) b c p q r = elim p [ ]
assoc_below (suc n) a b c p q r =
    let ih = assoc_below n (a / 2) (b / 2) (c / 2) (omega arith) (omega arith) (omega arith) in
    let left = ap (λ t. bit_xor t (c / 2)) (bit_xor-half a b) in
    let right = ap (λ t. bit_xor (a / 2) t) (bit_xor-half b c) in
    omega (
      arith,
      bit_xor_step (bit_xor a b) c,
      bit_xor_step a (bit_xor b c),
      bit_xor-parity a b,
      bit_xor-parity b c,
      left,
      right,
      ih,
    )

pub bit_xor_assoc : (a b c : ℕ) → bit_xor (bit_xor a b) c ≡ bit_xor a (bit_xor b c)
bit_xor_assoc a b c = assoc_below (a + b + c) a b c (omega arith) (omega arith) (omega arith)

self_below : (n a : ℕ) → a ≤ n → bit_xor a a ≡ 0
self_below zero zero p = refl
self_below zero (suc a) p = elim p [ ]
self_below (suc n) a p = omega (arith, bit_xor_step a a, self_below n (a / 2) (omega arith))

pub bit_xor_self : (a : ℕ) → bit_xor a a ≡ 0
bit_xor_self a = self_below a a (le_refl a)

-- Exclusive or twice with the same number cancels.
pub bit_xor_cancel : (a b : ℕ) → bit_xor (bit_xor a b) b ≡ a
bit_xor_cancel a b = bit_xor_assoc a b b ∙ ap (bit_xor a) (bit_xor_self b) ∙ bit_xor-zero a

pub bit_xor-lt : (k a b : ℕ) → a < 2 ^ k → b < 2 ^ k → bit_xor a b < 2 ^ k
bit_xor-lt zero zero zero p q = p
bit_xor-lt zero (suc a) b p q = absurd (omega arith)
bit_xor-lt zero zero (suc b) p q = absurd (omega arith)
bit_xor-lt (suc k) a b p q = omega (
  arith,
  pow-suc 2 k,
  bit_xor_step a b,
  bit_xor-lt k (a / 2) (b / 2) (omega (arith, pow-suc 2 k)) (omega (arith, pow-suc 2 k)),
)

-- Numbers with no digit in common: the operations are the sum.
pub bit_xor_fields : (k a b : ℕ) → a < 2 ^ k → bit_xor a (b * 2 ^ k) ≡ a + b * 2 ^ k
bit_xor_fields zero zero b p = zero-bit_xor _ ∙ omega arith
bit_xor_fields zero (suc a) b p = absurd (omega arith)
bit_xor_fields (suc k) a b p =
    let twice : b * 2 ^ suc k ≡ 2 * (b * 2 ^ k) =
      omega (arith, ap (λ (t : ℕ). b * t) (pow-suc 2 k)) in
    let halved : b * 2 ^ suc k / 2 ≡ b * 2 ^ k = omega (arith, twice) in
    let rest = ap (bit_xor (a / 2)) halved in
    omega (
      arith,
      bit_xor_step a (b * 2 ^ suc k),
      twice,
      rest,
      bit_xor_fields k (a / 2) b (omega (arith, pow-suc 2 k)),
    )

pub bit_or_fields : (k a b : ℕ) → a < 2 ^ k → bit_or a (b * 2 ^ k) ≡ a + b * 2 ^ k
bit_or_fields zero zero b p = zero-bit_or _ ∙ omega arith
bit_or_fields zero (suc a) b p = absurd (omega arith)
bit_or_fields (suc k) a b p =
    let twice : b * 2 ^ suc k ≡ 2 * (b * 2 ^ k) =
      omega (arith, ap (λ (t : ℕ). b * t) (pow-suc 2 k)) in
    let halved : b * 2 ^ suc k / 2 ≡ b * 2 ^ k = omega (arith, twice) in
    let rest = ap (bit_or (a / 2)) halved in
    omega (
      arith,
      bit_or_step a (b * 2 ^ suc k),
      twice,
      rest,
      bit_or_fields k (a / 2) b (omega (arith, pow-suc 2 k)),
    )
