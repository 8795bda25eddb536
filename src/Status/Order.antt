-- ===== src/Status/Order.antt =====
-- statussort.go: the comparisons by name are strict orders.
use efes.Prelude.{
  ℕ, ◌≡◌, ◌⊎◌, ◌<◌, refl, ap, sym, ◌∙◌, arith, Bool, true, false, List, [], ◌∷◌, ltb, ◌==◌, ==_iff,
  if◌then◌else◌, Bool-cases, inl, inr,
}
use efes.Prelude.Text.{equal_bytes, equal_bytes-eq, equal_bytes_refl}
use efes.Status.{less_text, by_devid, by_hostname, by_rack_name, by_zone_name}

-- A comparison that sort.Sort can use: nothing is less than itself, and it is transitive. Two elements
-- of which neither is less are equal in a sense.
pub record IsStrictOrder {A : Type 0} (less : A → A → Bool) (Same : A → A → Type 0) : Type 0 where
  pub irreflexive : (a : A) → less a a ≡ false
  pub transitive : (a b c : A) → less a b ≡ true → less b c ≡ true → less a c ≡ true
  pub compares : (a b : A) → less a b ≡ false → less b a ≡ false → Same a b

if_true : {A : Type 0} (b : Bool) (x y : A) → b ≡ true → (if b then x else y) ≡ x
if_true b x y e = rw e refl

if_false : {A : Type 0} (b : Bool) (x y : A) → b ≡ false → (if b then x else y) ≡ y
if_false b x y e = rw e refl

contra : {A : Type 0} {b : Bool} → b ≡ true → b ≡ false → A
contra {b = true} e h = cc
contra {b = false} e h = cc

less_text-irreflexive : (xs : List ℕ) → less_text xs xs ≡ false
unfolding less_text
less_text-irreflexive [] = refl
less_text-irreflexive (x ∷ xs) =
    if_true (x == x) _ _ ((==_iff x x).1 refl) ∙ less_text-irreflexive xs

less_text-cons_same :
    (x y : ℕ) (xs ys : List ℕ) → x ≡ y → less_text (x ∷ xs) (y ∷ ys) ≡ less_text xs ys
unfolding less_text
less_text-cons_same x y xs ys e = if_true (x == y) _ _ ((==_iff x y).1 e)

less_text-cons_other :
    (x y : ℕ) (xs ys : List ℕ) → (x == y) ≡ false → less_text (x ∷ xs) (y ∷ ys) ≡ ltb x y
unfolding less_text
less_text-cons_other x y xs ys e = if_false (x == y) _ _ e

-- Either the heads are in order, or they are the same and the tails are in order.
less_text-cons :
    (x y : ℕ) (xs ys : List ℕ)
    → less_text (x ∷ xs) (y ∷ ys) ≡ true
    → (x < y) ⊎ ((x ≡ y) × (less_text xs ys ≡ true))
less_text-cons x y xs ys h = elim (Bool-cases (x == y)) [
  | inl same ↦ (let e = (==_iff x y).0 same in inr (e, sym (less_text-cons_same x y xs ys e) ∙ h))
  | inr other ↦ inl (let lt = sym (less_text-cons_other x y xs ys other) ∙ h in ground (arith, lt))
]

less_text-lt : (x y : ℕ) (xs ys : List ℕ) → x < y → less_text (x ∷ xs) (y ∷ ys) ≡ true
less_text-lt x y xs ys lt =
    let other : (x == y) ≡ false = ground (arith, lt) in
    less_text-cons_other x y xs ys other ∙ ground (arith, lt)

less_text-transitive :
    (xs ys zs : List ℕ) → less_text xs ys ≡ true → less_text ys zs ≡ true → less_text xs zs ≡ true
less_text-transitive [] [] zs h k = k
less_text-transitive [] (y ∷ ys) [] h k = contra k (unfold less_text in refl)
less_text-transitive [] (y ∷ ys) (z ∷ zs) h k = unfold less_text in refl
less_text-transitive (x ∷ xs) [] zs h k = contra h (unfold less_text in refl)
less_text-transitive (x ∷ xs) (y ∷ ys) [] h k = contra k (unfold less_text in refl)
less_text-transitive (x ∷ xs) (y ∷ ys) (z ∷ zs) h k =
    go (less_text-cons x y xs ys h) (less_text-cons y z ys zs k) (less_text-transitive xs ys zs)
  where
    go :
        (x < y) ⊎ ((x ≡ y) × (less_text xs ys ≡ true))
        → (y < z) ⊎ ((y ≡ z) × (less_text ys zs ≡ true))
        → (less_text xs ys ≡ true → less_text ys zs ≡ true → less_text xs zs ≡ true)
        → less_text (x ∷ xs) (z ∷ zs) ≡ true
    go (inl a) (inl b) rest = less_text-lt x z xs zs (omega (arith, a, b))
    go (inl a) (inr (e, b)) rest = less_text-lt x z xs zs (omega (arith, a, e))
    go (inr (e, a)) (inl b) rest = less_text-lt x z xs zs (omega (arith, e, b))
    go (inr (e, a)) (inr (f, b)) rest = less_text-cons_same x z xs zs (e ∙ f) ∙ rest a b

less_text-compares : (xs ys : List ℕ) → less_text xs ys ≡ false → less_text ys xs ≡ false → xs ≡ ys
less_text-compares [] [] h k = refl
less_text-compares [] (y ∷ ys) h k = contra {b = less_text [] (y ∷ ys)} (unfold less_text in refl) h
less_text-compares (x ∷ xs) [] h k = contra {b = less_text [] (x ∷ xs)} (unfold less_text in refl) k
less_text-compares (x ∷ xs) (y ∷ ys) h k = elim (Bool-cases (x == y)) [
  | inl same ↦
      (let e = (==_iff x y).0 same in
        let rest =
          less_text-compares xs ys (sym (less_text-cons_same x y xs ys e) ∙ h)
            (sym (less_text-cons_same y x ys xs (sym e)) ∙ k) in
        λ i. e i ∷ rest i)
  | inr other ↦
      (let other' : (y == x) ≡ false = ground (arith, other) in
        let not_less = sym (less_text-cons_other x y xs ys other) ∙ h in
        let not_more = sym (less_text-cons_other y x ys xs other') ∙ k in
        absurd (ground (arith, other, not_less, not_more)))
]

-- First by a name, and by another comparison if the names are the same.
module _ {A : Type 0} (name : A → List ℕ) (next : A → A → Bool) (Same : A → A → Type 0)
    (order : IsStrictOrder next Same) where
  abbrev then_by : A → A → Bool
  then_by a b = if equal_bytes (name a) (name b) then next a b else less_text (name a) (name b)

  then_by-same : (a b : A) → name a ≡ name b → then_by a b ≡ next a b
  then_by-same a b e =
      if_true (equal_bytes (name a) (name b)) _ _
        (ap (λ t. equal_bytes t (name b)) e ∙ equal_bytes_refl (name b))

  then_by-other :
      (a b : A) → equal_bytes (name a) (name b) ≡ false → then_by a b ≡ less_text (name a) (name b)
  then_by-other a b e = if_false (equal_bytes (name a) (name b)) _ _ e

  differs-of_less : (xs ys : List ℕ) → less_text xs ys ≡ true → equal_bytes xs ys ≡ false
  differs-of_less xs ys h = elim (Bool-cases (equal_bytes xs ys)) [
    | inl same ↦
        contra h (ap (λ t. less_text t ys) (equal_bytes-eq xs ys same) ∙ less_text-irreflexive ys)
    | inr other ↦ other
  ]

  then_by-cases :
      (a b : A)
      → then_by a b ≡ true
      → (less_text (name a) (name b) ≡ true) ⊎ ((name a ≡ name b) × (next a b ≡ true))
  then_by-cases a b h = elim (Bool-cases (equal_bytes (name a) (name b))) [
    | inl same ↦
        (let e = equal_bytes-eq (name a) (name b) same in inr (e, sym (then_by-same a b e) ∙ h))
    | inr other ↦ inl (sym (then_by-other a b other) ∙ h)
  ]

  then_by-less : (a b : A) → less_text (name a) (name b) ≡ true → then_by a b ≡ true
  then_by-less a b h = then_by-other a b (differs-of_less (name a) (name b) h) ∙ h

  then_by-transitive : (a b c : A) → then_by a b ≡ true → then_by b c ≡ true → then_by a c ≡ true
  then_by-transitive a b c h k = go (then_by-cases a b h) (then_by-cases b c k)
    where
      go :
          (less_text (name a) (name b) ≡ true) ⊎ ((name a ≡ name b) × (next a b ≡ true))
          → (less_text (name b) (name c) ≡ true) ⊎ ((name b ≡ name c) × (next b c ≡ true))
          → then_by a c ≡ true
      go (inl x) (inl y) = then_by-less a c (less_text-transitive (name a) (name b) (name c) x y)
      go (inl x) (inr (e, y)) = then_by-less a c (ap (less_text (name a)) (sym e) ∙ x)
      go (inr (e, x)) (inl y) = then_by-less a c (ap (λ t. less_text t (name c)) e ∙ y)
      go (inr (e, x)) (inr (f, y)) = then_by-same a c (e ∙ f) ∙ order.transitive a b c x y

  then_by-compares :
      (a b : A) → then_by a b ≡ false → then_by b a ≡ false → (name a ≡ name b) × Same a b
  then_by-compares a b h k = elim (Bool-cases (equal_bytes (name a) (name b))) [
    | inl same ↦
        (let e = equal_bytes-eq (name a) (name b) same in
          (
            e,
            order.compares a b (sym (then_by-same a b e) ∙ h) (sym (then_by-same b a (sym e)) ∙ k),
          ))
    | inr other ↦ elim (Bool-cases (less_text (name b) (name a))) [
      | inl more ↦ contra (then_by-less b a more) k
      | inr not_more ↦
          (let e =
              less_text-compares (name a) (name b) (sym (then_by-other a b other) ∙ h) not_more in
            contra (ap (λ t. equal_bytes t (name b)) e ∙ equal_bytes_refl (name b)) other)
    ]
  ]

  then_by-IsStrictOrder : IsStrictOrder then_by (λ a b. (name a ≡ name b) × Same a b)
  then_by-IsStrictOrder = record {
    irreflexive = λ a. then_by-same a a refl ∙ order.irreflexive a;
    transitive = then_by-transitive;
    compares = then_by-compares;
  }

by_devid-IsStrictOrder : IsStrictOrder by_devid (λ a b. a.devid ≡ b.devid)
unfolding by_devid
by_devid-IsStrictOrder = record {
  irreflexive = λ a. ground arith;
  transitive = λ a b c h k. ground (arith, h, k);
  compares = λ a b h k. ground (arith, h, k);
}

-- The comparison by zone is a strict order: no device is less than itself, it is transitive, and if
-- neither of two devices is less than the other, they have the same zone, rack, host and number.
pub by_zone_name-IsStrictOrder : IsStrictOrder by_zone_name (λ a b.
    (a.zone_name ≡ b.zone_name)
    × ((a.rack_name ≡ b.rack_name) × ((a.hostname ≡ b.hostname) × (a.devid ≡ b.devid))))
unfolding by_zone_name by_rack_name by_hostname
by_zone_name-IsStrictOrder =
    then_by-IsStrictOrder (λ a. a.zone_name) by_rack_name _
      (then_by-IsStrictOrder (λ a. a.rack_name) by_hostname _
        (then_by-IsStrictOrder (λ a. a.hostname) by_devid _ by_devid-IsStrictOrder))
