-- ===== src/Encoding/Decimal.antt =====
-- What the program uses of Go's strconv: `FormatInt` and `ParseInt` in base 10 for 64 bits.
use efes.Prelude.{
  ℕ, zero, suc, ◌+◌, ◌-◌, ◌*◌, ◌/◌, ◌%◌, ◌^◌, ◌<◌, ◌≡◌, refl, ap, sym, ◌∙◌, arith, Bool, true,
  false, ◌&&◌, Option, none, some, List, [], ◌∷◌, ◌++◌, ltb, leb, ◌==◌, if◌then◌else◌, Bool-cases,
  inl, inr,
}
use efes.Prelude.Int.{ℤ, pos, negsuc}

abbrev pub is_digit : ℕ → Bool
is_digit c = leb b'0' c && leb c b'9'

-- The digits of a number, on fuel beyond the number.
unfoldable pub digits : ℕ → ℕ → List ℕ
digits zero n = []
digits (suc fuel) n = elim (ltb n 10) [
  | true ↦ (b'0' + n) ∷ []
  | false ↦ digits fuel (n / 10) ++ (b'0' + n % 10) ∷ []
]

-- The value of a list of digits that follow the number `acc`.
unfoldable pub parse_digits : ℕ → List ℕ → Option ℕ
parse_digits acc [] = some acc
parse_digits acc (c ∷ cs) = elim (is_digit c) [
  | true ↦ parse_digits (acc * 10 + (c - b'0')) cs
  | false ↦ none
]

unfoldable pub unsigned : List ℕ → Option ℕ
unfolding parse_digits
unsigned [] = none
unsigned (c ∷ cs) = parse_digits 0 (c ∷ cs)

unfoldable pub positive : Option ℕ → Option ℤ
positive none = none
positive (some n) = if ltb n (2 ^ 63) then some (pos n) else none

unfoldable pub negative : Option ℕ → Option ℤ
negative none = none
negative (some zero) = some (pos 0)
negative (some (suc n)) = if ltb n (2 ^ 63) then some (negsuc n) else none

-- strconv.ParseInt(s, 10, 64)
unfoldable pub parse_int : List ℕ → Option ℤ
unfolding positive negative unsigned
parse_int [] = none
parse_int (c ∷ cs) =
    if c == b'-'
    then negative (unsigned cs)
    else if c == b'+'
    then positive (unsigned cs)
    else positive (unsigned (c ∷ cs))

-- strconv.FormatInt(i, 10)
unfoldable pub format_int : ℤ → List ℕ
unfolding digits
format_int (pos n) = digits (suc n) n
format_int (negsuc n) = b'-' ∷ digits (suc (suc n)) (suc n)

abbrev pub IsInt64 : ℤ → Type 0
IsInt64 (pos n) = n < 2 ^ 63
IsInt64 (negsuc n) = n < 2 ^ 63

pub parse_digits-digit :
    (acc c : ℕ) (cs : List ℕ)
    → is_digit c ≡ true
    → parse_digits acc (c ∷ cs) ≡ parse_digits (acc * 10 + (c - b'0')) cs
unfolding parse_digits
parse_digits-digit acc c cs h = rw (h, parse_digits) refl

pub parse_digits-other :
    (acc c : ℕ) (cs : List ℕ) → is_digit c ≡ false → parse_digits acc (c ∷ cs) ≡ none
unfolding parse_digits
parse_digits-other acc c cs h = rw (h, parse_digits) refl

-- One more digit.
parse_digits-append_digit :
    (acc : ℕ) (xs : List ℕ) (c v : ℕ)
    → parse_digits acc xs ≡ some v
    → is_digit c ≡ true
    → parse_digits acc (xs ++ c ∷ []) ≡ some (v * 10 + (c - b'0'))
parse_digits-append_digit acc [] c v h d =
    parse_digits-digit acc c [] d
    ∙ (unfold parse_digits in
        ap (λ t. some (t * 10 + (c - b'0'))) (some_eq (unfold parse_digits in h)))
  where
    some_eq : some acc ≡ some v → acc ≡ v
    some_eq e = cc
parse_digits-append_digit acc (x ∷ xs) c v h d = elim (Bool-cases (is_digit x)) [
  | inl dx ↦
      parse_digits-digit acc x (xs ++ c ∷ []) dx
      ∙ parse_digits-append_digit (acc * 10 + (x - b'0')) xs c v
          (sym (parse_digits-digit acc x xs dx) ∙ h) d
  | inr nx ↦ absurd (no_value (sym (parse_digits-other acc x xs nx) ∙ h))
]
  where
    no_value : none ≡ some v → ⊥
    no_value e = cc

pub digits-small : (fuel n : ℕ) → ltb n 10 ≡ true → digits (suc fuel) n ≡ (b'0' + n) ∷ []
unfolding digits
digits-small fuel n h = rw (h, digits) refl

pub digits-large :
    (fuel n : ℕ)
    → ltb n 10 ≡ false
    → digits (suc fuel) n ≡ digits fuel (n / 10) ++ (b'0' + n % 10) ∷ []
unfolding digits
digits-large fuel n h = rw (h, digits) refl

digit_of : (n : ℕ) → n < 10 → is_digit (b'0' + n) ≡ true
digit_of n lt = ground arith

-- The digits of a number are read as the number.
pub parse_digits-digits : (fuel n : ℕ) → n < fuel → parse_digits 0 (digits fuel n) ≡ some n
parse_digits-digits zero n lt = absurd (omega arith)
parse_digits-digits (suc fuel) n lt = elim (Bool-cases (ltb n 10)) [
  | inl small ↦
      ap (parse_digits 0) (digits-small fuel n small)
      ∙ parse_digits-digit 0 (b'0' + n) [] (digit_of n (ground arith))
      ∙ (unfold parse_digits in ap some (omega arith))
  | inr large ↦
      (let tenth : n / 10 < fuel = ground arith in
        ap (parse_digits 0) (digits-large fuel n large)
        ∙ parse_digits-append_digit 0 (digits fuel (n / 10)) (b'0' + n % 10) (n / 10)
            (parse_digits-digits fuel (n / 10) tenth) (digit_of (n % 10) (omega arith))
        ∙ ap some (omega arith))
]

abbrev pub StartsWithDigit : List ℕ → Type 0
StartsWithDigit [] = ⊥
StartsWithDigit (c ∷ cs) = is_digit c ≡ true

StartsWithDigit-append : (xs ys : List ℕ) → StartsWithDigit xs → StartsWithDigit (xs ++ ys)
StartsWithDigit-append [] ys h = absurd h
StartsWithDigit-append (c ∷ cs) ys h = h

pub digits-StartsWithDigit : (fuel n : ℕ) → n < fuel → StartsWithDigit (digits fuel n)
digits-StartsWithDigit zero n lt = absurd (omega arith)
digits-StartsWithDigit (suc fuel) n lt = elim (Bool-cases (ltb n 10)) [
  | inl small ↦ rw (digits-small fuel n small) (digit_of n (ground arith))
  | inr large ↦
      (let tenth : n / 10 < fuel = ground arith in
        rw (digits-large fuel n large) (
          StartsWithDigit-append (digits fuel (n / 10)) _
            (digits-StartsWithDigit fuel (n / 10) tenth)))
]

-- A text that begins with a digit has no sign.
pub parse_int-unsigned :
    (s : List ℕ) (n : ℕ)
    → StartsWithDigit s
    → parse_digits 0 s ≡ some n
    → n < 2 ^ 63
    → parse_int s ≡ some (pos n)
parse_int-unsigned [] n h e lt = absurd h
parse_int-unsigned (c ∷ cs) n h e lt =
    let minus : (c == b'-') ≡ false = ground arith in
    let plus : (c == b'+') ≡ false = ground arith in
    let fits : ltb n (2 ^ 63) ≡ true = ground arith in
    unfold parse_int positive unsigned in rw minus (rw plus (rw e (rw fits refl)))

unsigned-digits : (s : List ℕ) → StartsWithDigit s → unsigned s ≡ parse_digits 0 s
unfolding unsigned
unsigned-digits [] h = absurd h
unsigned-digits (c ∷ cs) h = refl

parse_int-minus : (s : List ℕ) → parse_int (b'-' ∷ s) ≡ negative (unsigned s)
unfolding parse_int
parse_int-minus s = refl

negative-suc : (n : ℕ) → n < 2 ^ 63 → negative (some (suc n)) ≡ some (negsuc n)
unfolding negative
negative-suc n lt = rw (ltb_true n lt) refl
  where
    ltb_true : (n : ℕ) → n < 2 ^ 63 → ltb n (2 ^ 63) ≡ true
    ltb_true n lt = ground arith

pub parse_int-format_int : (z : ℤ) → IsInt64 z → parse_int (format_int z) ≡ some z
unfolding format_int
parse_int-format_int (pos n) lt =
    parse_int-unsigned (digits (suc n) n) n (digits-StartsWithDigit (suc n) n (omega arith))
      (parse_digits-digits (suc n) n (omega arith)) lt
parse_int-format_int (negsuc n) lt =
    let s = digits (suc (suc n)) (suc n) in
    parse_int-minus s
    ∙ ap negative (
        unsigned-digits s (digits-StartsWithDigit (suc (suc n)) (suc n) (omega arith))
        ∙ parse_digits-digits (suc (suc n)) (suc n) (omega arith))
    ∙ negative-suc n lt
