-- ===== src/Cleaner/Walk/Keys.antt =====
-- cleandevice.go: `file_on` has no row twice (its primary key), and a deletion keeps that.
use efes.Prelude.{
  if◌then◌else◌, ◌≡◌, refl, ap, ◌∙◌, Bool, true, false, List, [], ◌∷◌, not, ◌&&◌, Bool-cases, inl,
  inr, if◌then◌else◌,
}
use efes.Prelude.Int.{ℤ, ◌==ℤ◌, ==ℤ_iff}
use efes.Tracker.{Place, has}
use efes.Cleaner.{in_list, remove_item, all_devids, delete_on}
use efes.Cleaner.Accounts.{selects, has-delete_on, listed-has}

-- No row stands twice.
abbrev pub IsKeyed : List Place → Type 0
IsKeyed [] = Unit
IsKeyed (p ∷ ps) = (has p ps ≡ false) × IsKeyed ps

and_false : (a b : Bool) → a ≡ false → (a && b) ≡ false
and_false a b e = rw e refl

pub delete_on-IsKeyed :
    (fid : ℤ) (devids : List ℤ) (ps : List Place) → IsKeyed ps → IsKeyed (delete_on fid devids ps)
unfolding delete_on
delete_on-IsKeyed fid devids [] k = tt
delete_on-IsKeyed fid devids (p ∷ ps) (fresh, k) =
    go (selects fid devids p) (delete_on-IsKeyed fid devids ps k)
  where
    go :
        (b : Bool)
        → IsKeyed (delete_on fid devids ps)
        → IsKeyed (if b then delete_on fid devids ps else p ∷ delete_on fid devids ps)
    go true r = r
    go false r =
        (has-delete_on p fid devids ps ∙ and_false (has p ps) (not (selects fid devids p)) fresh, r)

unlisted :
    (fid devid : ℤ) (p : Place) (ps : List Place)
    → p.fid ≡ fid
    → p.devid ≡ devid
    → has p ps ≡ false
    → in_list devid (all_devids fid ps) ≡ false
unlisted fid devid p ps e d fresh = elim (Bool-cases (in_list devid (all_devids fid ps))) [
  | inl listed ↦
      (let found : has p ps ≡ true =
          listed-has p fid ps ((==ℤ_iff p.fid fid).1 e)
            (ap (λ t. in_list t (all_devids fid ps)) d ∙ listed) in
        cc)
  | inr absent ↦ absent
]

-- So a file has a device only once.
pub IsKeyed-once :
    (devid fid : ℤ) (ps : List Place)
    → IsKeyed ps
    → in_list devid (remove_item devid (all_devids fid ps)) ≡ false
unfolding in_list remove_item all_devids
IsKeyed-once devid fid [] k = refl
IsKeyed-once devid fid (p ∷ ps) (fresh, k) = elim (Bool-cases (p.fid ==ℤ fid)) [
  | inl same ↦ elim (Bool-cases (p.devid ==ℤ devid)) [
    | inl here ↦ rw same (
        rw here (
          unlisted fid devid p ps ((==ℤ_iff p.fid fid).0 same) ((==ℤ_iff p.devid devid).0 here)
            fresh))
    | inr there ↦ rw same (rw there (rw there (IsKeyed-once devid fid ps k)))
  ]
  | inr other ↦ rw other (IsKeyed-once devid fid ps k)
]
