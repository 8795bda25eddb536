-- ===== src/Encoding/BigEndian.antt =====
-- encoding/binary as crc32_efes.go and sha1_efes.go use it.
use efes.Prelude.{
  ℕ, zero, suc, ◌+◌, ◌*◌, ◌/◌, ◌%◌, ◌^◌, ◌<◌, ◌≡◌, refl, ap, ◌∙◌, arith, List, foldl, length, All,
}
use native.Mathlib.Nat.{pow-suc, one-le-pow, div-add-mod, mul-add-mod_self_left, mod-eq_of_lt}
use efes.Encoding.{big_endian, from_big_endian}

pub length-big_endian : (k x : ℕ) → length (big_endian k x) ≡ k
unfolding big_endian
length-big_endian zero x = refl
length-big_endian (suc k) x = ap suc (length-big_endian k x)

pub big_endian-IsByte : (k x : ℕ) → All (λ b. b < 256) (big_endian k x)
unfolding big_endian
big_endian-IsByte zero x = tt
big_endian-IsByte (suc k) x = (omega arith, big_endian-IsByte k x)

abbrev accumulate : ℕ → List ℕ → ℕ
accumulate = foldl (λ acc b. acc * 256 + b)

-- The remainder by 256 times `p` is a byte above the remainder by `p`.
mod_byte : (p x : ℕ) → 0 < p → x % (p * 256) ≡ x / p % 256 * p + x % p
mod_byte p x h =
    let small : x / p % 256 * p + x % p < p * 256 = grind arith in
    let parts : x ≡ p * 256 * (x / p / 256) + (x / p % 256 * p + x % p) =
      omega (arith, div-add-mod x p, ap (λ (t : ℕ). p * t) (div-add-mod (x / p) 256)) in
    ap (λ t. t % (p * 256)) parts
    ∙ mul-add-mod_self_left (p * 256) (x / p / 256) (x / p % 256 * p + x % p)
    ∙ mod-eq_of_lt small

accumulate-big_endian :
    (k x acc : ℕ) → accumulate acc (big_endian k x) ≡ acc * 256 ^ k + x % 256 ^ k
unfolding big_endian
accumulate-big_endian zero x acc = omega arith
accumulate-big_endian (suc k) x acc =
    accumulate-big_endian k x (acc * 256 + x / 256 ^ k % 256)
    ∙ omega (
      arith,
      mod_byte (256 ^ k) x (one-le-pow k 256 (omega arith)),
      ap (λ (t : ℕ). acc * t) (pow-suc 256 k),
      ap (λ (t : ℕ). x % t) (pow-suc 256 k),
    )

pub from_big_endian-big_endian : (k x : ℕ) → x < 256 ^ k → from_big_endian (big_endian k x) ≡ x
unfolding from_big_endian
from_big_endian-big_endian k x h = omega (arith, accumulate-big_endian k x 0, mod-eq_of_lt h)
