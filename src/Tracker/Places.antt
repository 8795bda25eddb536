-- ===== src/Tracker/Places.antt =====
-- tracker.go: the places of a file and the others, for `deleteFidOnDB`.
use efes.Prelude.{
  ◌≡◌, refl, ap, sym, ◌∙◌, Bool, true, false, List, [], ◌∷◌, not, ◌||◌, ◌&&◌, Bool-cases, inl, inr,
}
use efes.Prelude.Int.{ℤ, ◌==ℤ◌, ==ℤ_iff}
use efes.Tracker.{Place, places_of, delete_places, same_place, has}

same_place-fid : (p q : Place) (fid : ℤ) → same_place p q ≡ true → (q.fid ==ℤ fid) ≡ (p.fid ==ℤ fid)
unfolding same_place
same_place-fid p q fid h = elim (Bool-cases (p.fid ==ℤ q.fid)) [
  | inl same ↦ ap (λ t. t ==ℤ fid) (sym ((==ℤ_iff p.fid q.fid).0 same))
  | inr differs ↦ cc (rw differs at h)
]

pub taken : (s h c : Bool) → (s ≡ true → c ≡ true) → (s || (h && c)) ≡ ((s || h) && c)
taken true h c e = sym (e refl)
taken false h c e = refl

pub passed : (s h c : Bool) → (s ≡ true → c ≡ false) → (h && c) ≡ ((s || h) && c)
passed true true c e = refl
passed true false c e = sym (e refl)
passed false h c e = refl

delete_places-same :
    (fid : ℤ) (p : Place) (ps : List Place)
    → (p.fid ==ℤ fid) ≡ true
    → delete_places fid (p ∷ ps) ≡ delete_places fid ps
unfolding delete_places
delete_places-same fid p ps e = rw e refl

delete_places-other :
    (fid : ℤ) (p : Place) (ps : List Place)
    → (p.fid ==ℤ fid) ≡ false
    → delete_places fid (p ∷ ps) ≡ p ∷ delete_places fid ps
unfolding delete_places
delete_places-other fid p ps e = rw e refl

places_of-same :
    (fid : ℤ) (p : Place) (ps : List Place)
    → (p.fid ==ℤ fid) ≡ true
    → places_of fid (p ∷ ps) ≡ p ∷ places_of fid ps
unfolding places_of
places_of-same fid p ps e = rw e refl

places_of-other :
    (fid : ℤ) (p : Place) (ps : List Place)
    → (p.fid ==ℤ fid) ≡ false
    → places_of fid (p ∷ ps) ≡ places_of fid ps
unfolding places_of
places_of-other fid p ps e = rw e refl

-- The deletion keeps the places of the other files.
pub has-delete_places :
    (q : Place) (fid : ℤ) (ps : List Place)
    → has q (delete_places fid ps) ≡ (has q ps && not (q.fid ==ℤ fid))
unfolding has
has-delete_places q fid [] = unfold delete_places in refl
has-delete_places q fid (p ∷ ps) = elim (Bool-cases (p.fid ==ℤ fid)) [
  | inl gone ↦
      ap (has q) (delete_places-same fid p ps gone)
      ∙ has-delete_places q fid ps
      ∙ passed (same_place p q) (has q ps) (not (q.fid ==ℤ fid))
          (λ e. ap not (same_place-fid p q fid e ∙ gone))
  | inr kept ↦
      ap (has q) (delete_places-other fid p ps kept)
      ∙ ap (λ t. same_place p q || t) (has-delete_places q fid ps)
      ∙ taken (same_place p q) (has q ps) (not (q.fid ==ℤ fid))
          (λ e. ap not (same_place-fid p q fid e ∙ kept))
]

-- The tasks are the places of the file.
pub has-places_of :
    (q : Place) (fid : ℤ) (ps : List Place)
    → has q (places_of fid ps) ≡ (has q ps && (q.fid ==ℤ fid))
unfolding has
has-places_of q fid [] = unfold places_of in refl
has-places_of q fid (p ∷ ps) = elim (Bool-cases (p.fid ==ℤ fid)) [
  | inl taken_place ↦
      ap (has q) (places_of-same fid p ps taken_place)
      ∙ ap (λ t. same_place p q || t) (has-places_of q fid ps)
      ∙ taken (same_place p q) (has q ps) (q.fid ==ℤ fid)
          (λ e. same_place-fid p q fid e ∙ taken_place)
  | inr other ↦
      ap (has q) (places_of-other fid p ps other)
      ∙ has-places_of q fid ps
      ∙ passed (same_place p q) (has q ps) (q.fid ==ℤ fid) (λ e. same_place-fid p q fid e ∙ other)
]

split : (a b : Bool) → a ≡ ((a && not b) || (a && b))
split true true = refl
split true false = refl
split false b = refl

apart : (a b : Bool) → ((a && not b) && (a && b)) ≡ false
apart true true = refl
apart true false = refl
apart false b = refl

-- Each place of `before` either stays in `after` or is among the tasks, never both, and nothing
-- else is.
abbrev pub IsAccounted : Place → List Place → List Place → List Place → Type 0
IsAccounted q before after tasks =
    (has q before ≡ (has q after || has q tasks)) × ((has q after && has q tasks) ≡ false)

pub delete_places-IsAccounted :
    (q : Place) (fid : ℤ) (ps : List Place)
    → IsAccounted q ps (delete_places fid ps) (places_of fid ps)
delete_places-IsAccounted q fid ps = rw (has-delete_places q fid ps) (
    rw (has-places_of q fid ps)
      (split (has q ps) (q.fid ==ℤ fid), apart (has q ps) (q.fid ==ℤ fid)))

or_false : (a : Bool) → a ≡ (a || false)
or_false true = refl
or_false false = refl

and_false : (a : Bool) → (a && false) ≡ false
and_false true = refl
and_false false = refl

pub unchanged-IsAccounted : (q : Place) (ps : List Place) → IsAccounted q ps ps []
unfolding has
unchanged-IsAccounted q ps = (or_false (has q ps), and_false (has q ps))
