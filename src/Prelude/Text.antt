-- ===== src/Prelude/Text.antt =====
-- Texts as lists of bytes: their comparison.
use Prim.Native.Nat.{ℕ}
use mathlib.Core.Path.{◌≡◌, refl}
use mathlib.Core.Logic.{inl, inr}
use mathlib.Core.Bool.{Bool, true, false, ◌&&◌}
use mathlib.Core.List.{List, [], ◌∷◌}
use efes.Prelude.Tests.{◌==◌, ==_iff, Bool-cases}

-- bytes.Equal, and == on strings
unfoldable pub equal_bytes : List ℕ → List ℕ → Bool
equal_bytes [] [] = true
equal_bytes [] (y ∷ ys) = false
equal_bytes (x ∷ xs) [] = false
equal_bytes (x ∷ xs) (y ∷ ys) = (x == y) && equal_bytes xs ys

pub equal_bytes-eq : (xs ys : List ℕ) → equal_bytes xs ys ≡ true → xs ≡ ys
unfolding equal_bytes
equal_bytes-eq [] [] h = refl
equal_bytes-eq [] (y ∷ ys) h = cc
equal_bytes-eq (x ∷ xs) [] h = cc
equal_bytes-eq (x ∷ xs) (y ∷ ys) h = elim (Bool-cases (x == y)) [
  | inl same ↦
      (let e = (==_iff x y).0 same in
        let rest = equal_bytes-eq xs ys (rw same at h) in λ i. e i ∷ rest i)
  | inr differ ↦ cc (rw differ at h)
]

pub equal_bytes_refl : (xs : List ℕ) → equal_bytes xs xs ≡ true
unfolding equal_bytes
equal_bytes_refl [] = refl
equal_bytes_refl (x ∷ xs) = rw ((==_iff x x).1 refl) (equal_bytes_refl xs)

-- The components of a path.
unfoldable pub equal_paths : List (List ℕ) → List (List ℕ) → Bool
equal_paths [] [] = true
equal_paths [] (y ∷ ys) = false
equal_paths (x ∷ xs) [] = false
equal_paths (x ∷ xs) (y ∷ ys) = equal_bytes x y && equal_paths xs ys

pub equal_paths-eq : (xs ys : List (List ℕ)) → equal_paths xs ys ≡ true → xs ≡ ys
unfolding equal_paths
equal_paths-eq [] [] h = refl
equal_paths-eq [] (y ∷ ys) h = cc
equal_paths-eq (x ∷ xs) [] h = cc
equal_paths-eq (x ∷ xs) (y ∷ ys) h = elim (Bool-cases (equal_bytes x y)) [
  | inl same ↦
      (let e = equal_bytes-eq x y same in
        let rest = equal_paths-eq xs ys (rw same at h) in λ i. e i ∷ rest i)
  | inr differ ↦ cc (rw differ at h)
]

pub equal_paths_refl : (xs : List (List ℕ)) → equal_paths xs xs ≡ true
unfolding equal_paths
equal_paths_refl [] = refl
equal_paths_refl (x ∷ xs) = rw (equal_bytes_refl x) (equal_paths_refl xs)
