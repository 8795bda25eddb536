-- ===== src/Prelude/Members.antt =====
-- Lists filtered by a test, their members, and an order by a key.
use Prim.Native.Nat.{ℕ, zero, suc, ◌<◌}
use mathlib.Core.Path.{◌≡◌, refl, sym, ap, ◌∙◌}
use mathlib.Core.Logic.{◌⊎◌, inl, inr}
use mathlib.Core.Bool.{Bool, true}
use mathlib.Core.Option.{Option, none, some}
use mathlib.Core.List.{List, [], ◌∷◌}
use native.Mathlib.Omega.{arith}
use efes.Prelude.Tests.{if◌then◌else◌, Bool-cases, leb}
use efes.Prelude.Lists.{length, take}

pub either : {A B C : Type 0} → (A → C) → (B → C) → A ⊎ B → C
either f g (inl a) = f a
either f g (inr b) = g b

module _ {A : Type 0} where
  abbrev pub In : A → List A → Type 0
  In a [] = ⊥
  In a (x ∷ xs) = (a ≡ x) ⊎ In a xs

  -- The elements that pass a test, in their order.
  abbrev pub select : (A → Bool) → List A → List A
  select p [] = []
  select p (x ∷ xs) = let rest = select p xs in if p x then x ∷ rest else rest

  abbrev pub get_elem? : List A → ℕ → Option A
  get_elem? [] i = none
  get_elem? (x ∷ xs) zero = some x
  get_elem? (x ∷ xs) (suc i) = get_elem? xs i

  -- Put before the first element with a smaller key.
  abbrev pub insert_desc : (A → ℕ) → A → List A → List A
  insert_desc key a [] = a ∷ []
  insert_desc key a (x ∷ xs) =
      let rest = insert_desc key a xs in if leb (key x) (key a) then a ∷ x ∷ xs else x ∷ rest

  abbrev pub order_desc : (A → ℕ) → List A → List A
  order_desc key [] = []
  order_desc key (x ∷ xs) = insert_desc key x (order_desc key xs)

module _ {A : Type 0} where
  pub In-select : (p : A → Bool) (a : A) (xs : List A) → In a (select p xs) → In a xs × (p a ≡ true)
  In-select p a [] h = absurd h
  In-select p a (x ∷ xs) h = elim (Bool-cases (p x)) [
    | inl passes ↦
        either (λ e. (inl e, ap p e ∙ passes))
          (λ m. let (there, test) = In-select p a xs m in (inr there, test)) (rw passes at h)
    | inr fails ↦ (let (there, test) = In-select p a xs (rw fails at h) in (inr there, test))
  ]

  pub In-of_select :
      (p : A → Bool) (a : A) (xs : List A) → In a xs → p a ≡ true → In a (select p xs)
  In-of_select p a [] h test = absurd h
  In-of_select p a (x ∷ xs) (inl e) test = rw (ap p (sym e) ∙ test) (inl e)
  In-of_select p a (x ∷ xs) (inr m) test = elim (Bool-cases (p x)) [
    | inl passes ↦ rw passes (inr (In-of_select p a xs m test))
    | inr fails ↦ rw fails (In-of_select p a xs m test)
  ]

  pub In-take : (n : ℕ) (a : A) (xs : List A) → In a (take n xs) → In a xs
  In-take zero a xs h = absurd h
  In-take (suc n) a [] h = absurd h
  In-take (suc n) a (x ∷ xs) (inl e) = inl e
  In-take (suc n) a (x ∷ xs) (inr m) = inr (In-take n a xs m)

  pub In-get_elem? : (xs : List A) (i : ℕ) (a : A) → get_elem? xs i ≡ some a → In a xs
  In-get_elem? [] i a h = cc
  In-get_elem? (x ∷ xs) zero a h = inl (cc)
  In-get_elem? (x ∷ xs) (suc i) a h = inr (In-get_elem? xs i a h)

  pub get_elem?-lt : (xs : List A) (i : ℕ) → i < length xs → (a : A) × (get_elem? xs i ≡ some a)
  get_elem?-lt [] i h = absurd (omega arith)
  get_elem?-lt (x ∷ xs) zero h = (x, refl)
  get_elem?-lt (x ∷ xs) (suc i) h = get_elem?-lt xs i (omega arith)

  pub In-insert_desc :
      (key : A → ℕ) (b a : A) (xs : List A) → In b (insert_desc key a xs) → In b (a ∷ xs)
  In-insert_desc key b a [] h = h
  In-insert_desc key b a (x ∷ xs) h = elim (Bool-cases (leb (key x) (key a))) [
    | inl here ↦ rw here at h
    | inr later ↦
        either (λ e. inr (inl e))
          (λ m. either (λ e. inl e) (λ n. inr (inr n)) (In-insert_desc key b a xs m))
          (rw later at h)
  ]

  pub In-of_insert_desc :
      (key : A → ℕ) (b a : A) (xs : List A) → In b (a ∷ xs) → In b (insert_desc key a xs)
  In-of_insert_desc key b a [] h = h
  In-of_insert_desc key b a (x ∷ xs) h = elim (Bool-cases (leb (key x) (key a))) [
    | inl here ↦ rw here h
    | inr later ↦ rw later (
        either (λ e. inr (In-of_insert_desc key b a xs (inl e)))
          (either (λ e. inl e) (λ m. inr (In-of_insert_desc key b a xs (inr m)))) h)
  ]

  pub In-order_desc : (key : A → ℕ) (a : A) (xs : List A) → In a (order_desc key xs) → In a xs
  In-order_desc key a [] h = h
  In-order_desc key a (x ∷ xs) h =
      either (λ e. inl e) (λ m. inr (In-order_desc key a xs m))
        (In-insert_desc key a x (order_desc key xs) h)

  pub In-of_order_desc : (key : A → ℕ) (a : A) (xs : List A) → In a xs → In a (order_desc key xs)
  In-of_order_desc key a [] h = h
  In-of_order_desc key a (x ∷ xs) (inl e) = In-of_insert_desc key a x (order_desc key xs) (inl e)
  In-of_order_desc key a (x ∷ xs) (inr m) =
      In-of_insert_desc key a x (order_desc key xs) (inr (In-of_order_desc key a xs m))

  -- Two tests that agree on the members.
  pub select-agree :
      (p q : A → Bool) (xs : List A) → ((a : A) → In a xs → p a ≡ q a) → select p xs ≡ select q xs
  select-agree p q [] h = refl
  select-agree p q (x ∷ xs) h =
      let rest = select-agree p q xs (λ a m. h a (inr m)) in
      rw (h x (inl refl)) (ap (λ t. if q x then x ∷ t else t) rest)
