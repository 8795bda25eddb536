-- ===== src/Drainer/Moving.antt =====
-- drain.go: what a move changes on the disks and in file_on.
use efes.Prelude.{
  ◌≤◌, All, ap, arith, length, take, take_all, ℕ, ◌≡◌, refl, sym, ◌∙◌, Bool, true, false, Option,
  some, List, [], ◌∷◌, ◌||◌, ◌&&◌, if◌then◌else◌, map, Bool-cases, inl, inr,
}
use efes.Prelude.Int.{ℤ, ◌==ℤ◌, ==ℤ_iff}
use efes.Crc32.Update.Table.{IsByte}
use efes.Sha1.Sum.{sha1}
use efes.Tracker.{Place, has, same_place}
use efes.Drainer.{World, set_file}

abbrev pub at_device : ℤ → ℤ → Place
at_device fid devid = record { fid = fid; devid = devid }

-- The table says that the device has the file, and its disk has a file of bytes with that SHA-1.
abbrev pub HasOn : World → ℤ → ℤ → List ℕ → Type 0
HasOn w devid fid sum =
    (has (at_device fid devid) w.places ≡ true)
    × ((content : List ℕ) × (w.files devid fid ≡ some content)
        × (All IsByte content)
        × (sha1 content ≡ sum))

-- Begins with bytes that have that SHA-1.
abbrev pub Begins : Option (List ℕ) → List ℕ → Type 0
Begins o sum =
    (file : List ℕ) × ((at : ℕ) × (o ≡ some file)
      × (at ≤ length file)
      × (sha1 (take at file) ≡ sum))

-- The table says that the device has the file, and the file on its disk begins with the bytes.
abbrev pub HoldsOn : World → ℤ → ℤ → List ℕ → Type 0
HoldsOn w devid fid sum =
    (has (at_device fid devid) w.places ≡ true) × Begins (w.files devid fid) sum

pub HasOn-HoldsOn :
    (w : World) (devid fid : ℤ) (sum : List ℕ) → HasOn w devid fid sum → HoldsOn w devid fid sum
HasOn-HoldsOn w devid fid sum (placed, (content, file, of_bytes, same)) = (
  placed,
  (
    content,
    (
      length content,
      file,
      omega arith,
      ap sha1 (take_all (length content) content (omega arith)) ∙ same,
    ),
  ),
)

-- Some device does.
abbrev pub Holds : World → ℤ → List ℕ → Type 0
Holds w fid sum = (devid : ℤ) × HoldsOn w devid fid sum

==ℤ-refl : (a : ℤ) → (a ==ℤ a) ≡ true
==ℤ-refl a = (==ℤ_iff a a).1 refl

==ℤ-differ : (a b : ℤ) → (a ≡ b → ⊥) → (a ==ℤ b) ≡ false
==ℤ-differ a b n = elim (Bool-cases (a ==ℤ b)) [
  | inl same ↦ absurd (n ((==ℤ_iff a b).0 same))
  | inr other ↦ other
]

and_false : (a : Bool) → (a && false) ≡ false
and_false true = refl
and_false false = refl

pub set_file-same :
    (devid fid : ℤ) (o : Option (List ℕ)) (w : World) → (set_file devid fid o w).files devid fid ≡ o
unfolding set_file
set_file-same devid fid o w = rw (==ℤ-refl devid) (rw (==ℤ-refl fid) refl)

pub set_file-other_device :
    (devid fid d f : ℤ) (o : Option (List ℕ)) (w : World)
    → (d ≡ devid → ⊥)
    → (set_file devid fid o w).files d f ≡ w.files d f
unfolding set_file
set_file-other_device devid fid d f o w n = rw (==ℤ-differ d devid n) refl

pub set_file-other_fid :
    (devid fid d f : ℤ) (o : Option (List ℕ)) (w : World)
    → (f ≡ fid → ⊥)
    → (set_file devid fid o w).files d f ≡ w.files d f
unfolding set_file
set_file-other_fid devid fid d f o w n = rw (==ℤ-differ f fid n) (rw (and_false (d ==ℤ devid)) refl)

false_of_and : (a b : Bool) → a ≡ false → (a && b) ≡ false
false_of_and a b e = rw e refl

-- The row of a file on its device, and the row after the update.
abbrev pub updated : ℤ → ℤ → ℤ → Place → Place
updated new old fid p =
    if same_place p (record { fid = fid; devid = old })
    then record { fid = fid; devid = new }
    else p

same_place-fid : (p q : Place) → (p.fid ≡ q.fid → ⊥) → same_place p q ≡ false
unfolding same_place
same_place-fid p q n = false_of_and _ _ (==ℤ-differ p.fid q.fid n)

same_place_refl : (p : Place) → same_place p p ≡ true
unfolding same_place
same_place_refl p = rw (==ℤ-refl p.fid) (==ℤ-refl p.devid)

same_place-IsSame : (p q : Place) → same_place p q ≡ true → p.fid ≡ q.fid
unfolding same_place
same_place-IsSame p q h = elim (Bool-cases (p.fid ==ℤ q.fid)) [
  | inl same ↦ (==ℤ_iff p.fid q.fid).0 same
  | inr other ↦ cc (rw other at h)
]

updated-other :
    (new old fid f d : ℤ) (p : Place)
    → (f ≡ fid → ⊥)
    → same_place (updated new old fid p) (at_device f d) ≡ same_place p (at_device f d)
updated-other new old fid f d p n = elim (Bool-cases (same_place p (at_device fid old))) [
  | inl same ↦
      (let number = same_place-IsSame p (at_device fid old) same in
        rw same (
          same_place-fid (at_device fid new) (at_device f d) (λ e. n (sym e))
          ∙ sym (same_place-fid p (at_device f d) (λ e. n (sym e ∙ number)))))
  | inr differs ↦ rw differs refl
]

-- The update leaves the rows of other files.
pub has-update_other :
    (new old fid f d : ℤ) (ps : List Place)
    → (f ≡ fid → ⊥)
    → has (at_device f d) (map (updated new old fid) ps) ≡ has (at_device f d) ps
unfolding has
has-update_other new old fid f d [] n = refl
has-update_other new old fid f d (p ∷ ps) n =
    let rest = has-update_other new old fid f d ps n in
    rw (updated-other new old fid f d p n) (rw rest refl)

or_true : (a : Bool) → (a || true) ≡ true
or_true true = refl
or_true false = refl

-- The row of the file names the new device afterwards.
pub has-update_same :
    (new old fid : ℤ) (ps : List Place)
    → has (at_device fid old) ps ≡ true
    → has (at_device fid new) (map (updated new old fid) ps) ≡ true
unfolding has
has-update_same new old fid [] h = cc
has-update_same new old fid (p ∷ ps) h = elim (Bool-cases (same_place p (at_device fid old))) [
  | inl same ↦ rw same (rw (same_place_refl (at_device fid new)) refl)
  | inr differs ↦ rw (has-update_same new old fid ps (rw differs at h)) (or_true _)
]
