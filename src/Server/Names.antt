-- ===== src/Server/Names.antt =====
-- server.go, cleandisk.go: the name of a file on disk is read back as its number.
use efes.Prelude.{
  ℕ, zero, suc, ◌+◌, ◌-◌, ◌/◌, ◌%◌, ◌^◌, ◌<◌, ◌≡◌, refl, ap, ◌∙◌, arith, true, false, ◌||◌, Option,
  some, List, [], ◌∷◌, ◌++◌, ltb, ◌==◌, if◌then◌else◌, length, replicate, Bool-cases, inl, inr, All,
  All-append,
}
use efes.Prelude.Int.{ℤ, pos}
use efes.Encoding.Decimal.{
  is_digit, digits, digits-small, digits-large, parse_digits-digits, parse_int, parse_int-unsigned,
  StartsWithDigit,
}
use efes.Server.{pad, file_number}

-- `strings.Split(name, ".")[0]`
unfoldable pub before_dot : List ℕ → List ℕ
before_dot [] = []
before_dot (c ∷ cs) = let rest = before_dot cs in if c == b'.' then [] else c ∷ rest

-- `strings.TrimLeft(s, "0,")`
unfoldable pub trim_left : List ℕ → List ℕ
trim_left [] = []
trim_left (c ∷ cs) = let rest = trim_left cs in if (c == b'0') || (c == b',') then rest else c ∷ cs

-- The file id of a name.
unfoldable pub file_id : List ℕ → Option ℤ
unfolding before_dot trim_left
file_id name = parse_int (trim_left (before_dot name))

-- The extension: what begins with the last dot.
unfoldable pub extension : List ℕ → List ℕ
extension [] = []
extension (c ∷ cs) = elim (extension cs) [ [] ↦ if c == b'.' then c ∷ cs else [] | x ∷ xs ↦ x ∷ xs ]

extension-cons :
    (c : ℕ) (cs : List ℕ) (x : ℕ) (zs : List ℕ)
    → extension cs ≡ x ∷ zs
    → extension (c ∷ cs) ≡ x ∷ zs
unfolding extension
extension-cons c cs x zs h = rw (h, extension) refl

pub extension-append :
    (xs ys : List ℕ) (x : ℕ) (zs : List ℕ) → extension ys ≡ x ∷ zs → extension (xs ++ ys) ≡ x ∷ zs
extension-append [] ys x zs h = h
extension-append (c ∷ cs) ys x zs h =
    extension-cons c (cs ++ ys) x zs (extension-append cs ys x zs h)

-- The extension of a name, whatever stands before the dot.
pub extension-dot :
    (xs : List ℕ) (x : ℕ) (zs : List ℕ)
    → extension (x ∷ zs) ≡ x ∷ zs
    → extension (xs ++ x ∷ zs) ≡ x ∷ zs
extension-dot xs x zs h = extension-append xs (x ∷ zs) x zs h

abbrev AreDigits : List ℕ → Type 0
AreDigits = All (λ c. is_digit c ≡ true)

digits-AreDigits : (fuel n : ℕ) → AreDigits (digits fuel n)
digits-AreDigits zero n = unfold digits in tt
digits-AreDigits (suc fuel) n = elim (Bool-cases (ltb n 10)) [
  | inl small ↦
      rw (digits-small fuel n small) (let lt : n < 10 = ground arith in (ground (arith, lt), tt))
  | inr large ↦ rw (digits-large fuel n large) (
      All-append (λ c. is_digit c ≡ true) (digits fuel (n / 10)) ((b'0' + n % 10) ∷ [])
        (digits-AreDigits fuel (n / 10)) (last (n % 10) (omega arith), tt))
]
  where
    last : (d : ℕ) → d < 10 → is_digit (b'0' + d) ≡ true
    last d lt = ground arith

zeros-AreDigits : (k : ℕ) → AreDigits (replicate k b'0')
zeros-AreDigits zero = tt
zeros-AreDigits (suc k) = (refl, zeros-AreDigits k)

before_dot-digits : (xs ext : List ℕ) → AreDigits xs → before_dot (xs ++ b'.' ∷ ext) ≡ xs
unfolding before_dot
before_dot-digits [] ext h = refl
before_dot-digits (c ∷ cs) ext (d, h) =
    let other : (c == b'.') ≡ false = ground (arith, d) in
    rw other (ap (λ t. c ∷ t) (before_dot-digits cs ext h))

-- The first digit is not zero.
abbrev StartsNonzero : List ℕ → Type 0
StartsNonzero [] = ⊥
StartsNonzero (c ∷ cs) = (is_digit c ≡ true) × (b'0' < c)

StartsNonzero-append : (xs ys : List ℕ) → StartsNonzero xs → StartsNonzero (xs ++ ys)
StartsNonzero-append [] ys h = absurd h
StartsNonzero-append (c ∷ cs) ys h = h

digits-StartsNonzero : (fuel n : ℕ) → n < fuel → 0 < n → StartsNonzero (digits fuel n)
digits-StartsNonzero zero n lt positive = absurd (omega arith)
digits-StartsNonzero (suc fuel) n lt positive = elim (Bool-cases (ltb n 10)) [
  | inl small ↦ rw (digits-small fuel n small) (first n (ground arith) positive)
  | inr large ↦
      (let tenth : n / 10 < fuel = ground arith in
        let left : 0 < n / 10 = ground arith in
        rw (digits-large fuel n large) (
          StartsNonzero-append (digits fuel (n / 10)) _
            (digits-StartsNonzero fuel (n / 10) tenth left)))
]
  where
    first : (n : ℕ) → n < 10 → 0 < n → (is_digit (b'0' + n) ≡ true) × (b'0' < b'0' + n)
    first n lt positive = (ground arith, omega arith)

StartsNonzero-StartsWithDigit : (s : List ℕ) → StartsNonzero s → StartsWithDigit s
StartsNonzero-StartsWithDigit [] h = h
StartsNonzero-StartsWithDigit (c ∷ cs) h = h.0

trim_left-nonzero : (s : List ℕ) → StartsNonzero s → trim_left s ≡ s
unfolding trim_left
trim_left-nonzero [] h = refl
trim_left-nonzero (c ∷ cs) (d, h) =
    let zero_not : (c == b'0') ≡ false = ground (arith, h) in
    let comma_not : (c == b',') ≡ false = ground (arith, d) in rw zero_not (rw comma_not refl)

trim_left-zeros : (k : ℕ) (s : List ℕ) → StartsNonzero s → trim_left (replicate k b'0' ++ s) ≡ s
unfolding trim_left
trim_left-zeros zero s h = trim_left-nonzero s h
trim_left-zeros (suc k) s h = trim_left-zeros k s h

file_number-AreDigits : (n : ℕ) → AreDigits (file_number (pos n))
unfolding file_number pad
file_number-AreDigits n =
    All-append (λ c. is_digit c ≡ true) (replicate (10 - length (digits (suc n) n)) b'0')
      (digits (suc n) n) (zeros-AreDigits (10 - length (digits (suc n) n)))
      (digits-AreDigits (suc n) n)

trim_left-file_number : (n : ℕ) → 0 < n → trim_left (file_number (pos n)) ≡ digits (suc n) n
unfolding file_number pad
trim_left-file_number n positive =
    trim_left-zeros (10 - length (digits (suc n) n)) (digits (suc n) n)
      (digits-StartsNonzero (suc n) n (omega arith) positive)

-- The cleaner reads the number of a file from its name, padding and extension included.
pub file_id-file_number :
    (n : ℕ) (ext : List ℕ)
    → 0 < n
    → n < 2 ^ 63
    → file_id (file_number (pos n) ++ b'.' ∷ ext) ≡ some (pos n)
unfolding file_id
file_id-file_number n ext positive fits =
    ap (λ t. parse_int (trim_left t))
      (before_dot-digits (file_number (pos n)) ext (file_number-AreDigits n))
    ∙ ap parse_int (trim_left-file_number n positive)
    ∙ parse_int-unsigned (digits (suc n) n) n
        (StartsNonzero-StartsWithDigit (digits (suc n) n)
          (digits-StartsNonzero (suc n) n (omega arith) positive))
        (parse_digits-digits (suc n) n (omega arith)) fits
