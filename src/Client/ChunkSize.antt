-- ===== src/Client/ChunkSize.antt =====
-- chunksize.go: chunk sizes as text.
use efes.Prelude.{
  ℕ, zero, suc, ◌+◌, ◌-◌, ◌*◌, ◌/◌, ◌%◌, ◌^◌, ◌≤◌, ◌<◌, ◌≡◌, refl, ap, ◌∙◌, arith, Bool, true,
  false, Option, none, some, List, [], ◌∷◌, ◌++◌, ltb, ◌==◌, ==_iff, if◌then◌else◌, Bool-cases, inl,
  inr,
}
use native.Mathlib.Nat.{div-add-mod', div-le_self}
use efes.Prelude.Int.{ℤ, pos, negsuc}
use efes.Encoding.Decimal.{
  positive, unsigned, parse_digits, is_digit, digits, digits-small, digits-large, parse_int,
  format_int, IsInt64, parse_int-format_int,
}

abbrev pub kilo : ℕ
kilo = 1024

abbrev pub mega : ℕ
mega = 1024 * 1024

abbrev pub giga : ℕ
giga = 1024 * 1024 * 1024

-- What Set does: a new value, an error, or an index out of range.
pub data Parsed : Type 0 where
  set_to : ℤ → Parsed
  parse_error : Parsed
  set_panics : Parsed

-- `value[:len(value)-1]` and `value[len(value)-1]`
unfoldable pub split_last : List ℕ → Option (List ℕ × ℕ)
split_last [] = none
split_last (c ∷ cs) = elim (split_last cs) [
  | none ↦ some ([], c)
  | some (front, last) ↦ some (c ∷ front, last)
]

abbrev pub negate : ℕ → ℤ
negate zero = pos 0
negate (suc n) = negsuc n

-- An int64 from the low 64 bits.
unfoldable pub to_signed : ℕ → ℤ
to_signed m = if ltb m (2 ^ 63) then pos m else negsuc (2 ^ 64 - 1 - m)

-- `i *= k` on an int64.
unfoldable pub times : ℕ → ℤ → ℤ
unfolding to_signed
times k (pos n) = to_signed (n * k % 2 ^ 64)
times k (negsuc n) = to_signed ((2 ^ 64 - suc n * k % 2 ^ 64) % 2 ^ 64)

unfoldable pub scaled : ℕ → Option ℤ → Parsed
unfolding times
scaled k none = parse_error
scaled k (some i) = set_to (times k i)

unfoldable pub plain : Option ℤ → Parsed
plain none = parse_error
plain (some i) = set_to i

unfoldable pub set_by : List ℕ → Option (List ℕ × ℕ) → Parsed
unfolding scaled plain
set_by value none = set_panics
set_by value (some (front, last)) =
    if last == b'K'
    then scaled kilo (parse_int front)
    else if last == b'M'
    then scaled mega (parse_int front)
    else if last == b'G'
    then scaled giga (parse_int front)
    else plain (parse_int value)

-- Set
unfoldable pub set : List ℕ → Parsed
unfolding set_by split_last
set value = set_by value (split_last value)

-- `i%k == 0` and `i /= k`, which cut towards zero.
unfoldable pub is_multiple : ℕ → ℤ → Bool
is_multiple k (pos n) = n % k == 0
is_multiple k (negsuc n) = suc n % k == 0

unfoldable pub quotient : ℕ → ℤ → ℤ
quotient k (pos n) = pos (n / k)
quotient k (negsuc n) = negate (suc n / k)

unfoldable pub string_of : ℤ → List ℕ
unfolding is_multiple quotient
string_of i =
    if is_multiple giga i
    then format_int (quotient giga i) ++ b'G' ∷ []
    else if is_multiple mega i
    then format_int (quotient mega i) ++ b'M' ∷ []
    else if is_multiple kilo i
    then format_int (quotient kilo i) ++ b'K' ∷ []
    else format_int i

-- String
unfoldable pub string : ℤ → List ℕ
unfolding string_of
string (pos zero) = b'0' ∷ []
string (pos (suc n)) = string_of (pos (suc n))
string (negsuc n) = string_of (negsuc n)

split_last-cons :
    (c d : ℕ) (cs ds : List ℕ)
    → split_last cs ≡ some (ds, d)
    → split_last (c ∷ cs) ≡ some (c ∷ ds, d)
unfolding split_last
split_last-cons c d cs ds e = rw (e, split_last) refl

split_last-append : (xs : List ℕ) (c : ℕ) → split_last (xs ++ c ∷ []) ≡ some (xs, c)
split_last-append [] c = unfold split_last in refl
split_last-append (x ∷ xs) c = split_last-cons x c (xs ++ c ∷ []) xs (split_last-append xs c)

-- A text whose last character is a digit.
abbrev EndsWithDigit : List ℕ → Type 0
EndsWithDigit s =
    (front : List ℕ) × ((d : ℕ) × (split_last s ≡ some (front, d)) × (is_digit d ≡ true))

digits-EndsWithDigit : (fuel n : ℕ) → EndsWithDigit (digits (suc fuel) n)
digits-EndsWithDigit fuel n = elim (Bool-cases (ltb n 10)) [
  | inl small ↦ (
    [],
    (
      b'0' + n,
      ap split_last (digits-small fuel n small) ∙ split_last-append [] (b'0' + n),
      digit n (ground arith),
    ),
  )
  | inr large ↦ (
    digits fuel (n / 10),
    (
      b'0' + n % 10,
      ap split_last (digits-large fuel n large)
          ∙ split_last-append (digits fuel (n / 10)) (b'0' + n % 10),
      digit (n % 10) (omega arith),
    ),
  )
]
  where
    digit : (d : ℕ) → d < 10 → is_digit (b'0' + d) ≡ true
    digit d lt = ground arith

format_int-EndsWithDigit : (i : ℤ) → EndsWithDigit (format_int i)
unfolding format_int
format_int-EndsWithDigit (pos n) = digits-EndsWithDigit n n
format_int-EndsWithDigit (negsuc n) =
    let (front, (d, e, h)) = digits-EndsWithDigit (suc n) (suc n) in
    (b'-' ∷ front, (d, split_last-cons b'-' d (digits (suc (suc n)) (suc n)) front e, h))

set-plain : (s : List ℕ) → EndsWithDigit s → set s ≡ plain (parse_int s)
unfolding set
set-plain s (front, (d, e, h)) =
    let k : (d == b'K') ≡ false = ground (arith, h) in
    let m : (d == b'M') ≡ false = ground (arith, h) in
    let g : (d == b'G') ≡ false = ground (arith, h) in
    ap (set_by s) e ∙ (unfold set_by in rw k (rw m (rw g refl)))

to_signed-small : (n : ℕ) → n < 2 ^ 63 → to_signed n ≡ pos n
unfolding to_signed
to_signed-small n lt = let small : ltb n (2 ^ 63) ≡ true = ground arith in rw small refl

to_signed-large : (n : ℕ) → n < 2 ^ 63 → to_signed (2 ^ 64 - suc n) ≡ negsuc n
unfolding to_signed
to_signed-large n lt =
    let large : ltb (2 ^ 64 - suc n) (2 ^ 63) ≡ false = ground arith in
    rw large (ap negsuc (omega (arith, lt)))

module _ (k : ℕ) (some_k : 0 < k) where
  exact : (n : ℕ) → (n % k == 0) ≡ true → n / k * k ≡ n
  exact n e = omega (arith, div-add-mod' n k, (==_iff (n % k) 0).0 e)

  times-quotient : (i : ℤ) → IsInt64 i → is_multiple k i ≡ true → times k (quotient k i) ≡ i
  unfolding times quotient is_multiple
  times-quotient (pos n) lt e =
      ap to_signed (ap (λ t. t % 2 ^ 64) (exact n e) ∙ omega (arith, lt)) ∙ to_signed-small n lt
  times-quotient (negsuc n) lt e = go (suc n / k) (exact (suc n) e)
    where
      go : (q : ℕ) → q * k ≡ suc n → times k (negate q) ≡ negsuc n
      go zero h = absurd (omega arith)
      go (suc q) h =
          ap to_signed (ap (λ t. (2 ^ 64 - t % 2 ^ 64) % 2 ^ 64) h ∙ omega (arith, lt))
          ∙ to_signed-large n lt

  quotient-IsInt64 : (i : ℤ) → IsInt64 i → IsInt64 (quotient k i)
  unfolding quotient
  quotient-IsInt64 (pos n) lt = omega (arith, lt, div-le_self n k)
  quotient-IsInt64 (negsuc n) lt = go (suc n / k) (div-le_self (suc n) k)
    where
      go : (q : ℕ) → q ≤ suc n → IsInt64 (negate q)
      go zero le = omega arith
      go (suc q) le = omega (arith, lt, le)

  scaled-quotient :
      (i : ℤ)
      → IsInt64 i
      → is_multiple k i ≡ true
      → scaled k (parse_int (format_int (quotient k i))) ≡ set_to i
  unfolding scaled
  scaled-quotient i lt e =
      ap (scaled k) (parse_int-format_int (quotient k i) (quotient-IsInt64 i lt))
      ∙ ap set_to (times-quotient i lt e)

set-append : (s : List ℕ) (c : ℕ) → set (s ++ c ∷ []) ≡ set_by (s ++ c ∷ []) (some (s, c))
unfolding set
set-append s c = ap (set_by (s ++ c ∷ [])) (split_last-append s c)

set-string_of : (i : ℤ) → IsInt64 i → set (string_of i) ≡ set_to i
unfolding string_of set_by
set-string_of i lt = elim (Bool-cases (is_multiple giga i)) [
  | inl g ↦
      rw g
        (set-append (format_int (quotient giga i)) b'G' ∙ scaled-quotient giga (omega arith) i lt g)
  | inr not_g ↦ elim (Bool-cases (is_multiple mega i)) [
    | inl m ↦ rw not_g (
        rw m (
          set-append (format_int (quotient mega i)) b'M'
          ∙ scaled-quotient mega (omega arith) i lt m))
    | inr not_m ↦ elim (Bool-cases (is_multiple kilo i)) [
      | inl k ↦ rw not_g (
          rw not_m (
            rw k (
              set-append (format_int (quotient kilo i)) b'K'
              ∙ scaled-quotient kilo (omega arith) i lt k)))
      | inr not_k ↦ rw not_g (
          rw not_m (
            rw not_k (
              set-plain (format_int i) (format_int-EndsWithDigit i)
              ∙ (unfold plain in ap plain (parse_int-format_int i lt)))))
    ]
  ]
]

-- Set reads back what String writes, for every value of an int64.
pub set-string : (i : ℤ) → IsInt64 i → set (string i) ≡ set_to i
unfolding string
set-string (pos zero) lt =
    unfold set set_by split_last plain parse_int positive unsigned parse_digits in refl
set-string (pos (suc n)) lt = set-string_of (pos (suc n)) lt
set-string (negsuc n) lt = set-string_of (negsuc n) lt
