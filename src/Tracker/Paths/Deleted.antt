-- ===== src/Tracker/Paths/Deleted.antt =====
-- tracker.go: after deleteFile the key leads nowhere.
use efes.Prelude.{
  ℕ, ◌≡◌, ◌⊎◌, ◌≤◌, ◌<◌, refl, ap, sym, ◌∙◌, subst, Bool, true, false, Option, none, some, List, [],
  ◌∷◌, ◌==◌, arith, inl, inr, Bool-cases, ==_iff,
}
use efes.Prelude.Int.{ℤ, pos, ◌==ℤ◌, ==ℤ_iff}
use efes.Prelude.Members.{In}
use efes.Tracker.{File, Tables, next, fid_of, delete_file}
use efes.Tracker.Handlers.{
  Faults, Outcome, conclude, select_file, delete_transaction, delete_found, delete_begun, is_none,
  delete_request,
}
use efes.Tracker.Rule.{delete_fid_on_db_rule, commit_rule}
use efes.Tracker.Succeeding.{fid_of-In, fid_of-none}
use efes.Tracker.Paths.{ReadDevice, urls_for, first_url, get_path, denied}

-- No file has the key.
abbrev IsFree : ℕ → List File → Type 0
IsFree key rs = (r : File) → In r rs → r.dkey ≡ key → ⊥

urls_for-none :
    (ds : List ReadDevice) (t : Tables) (key : ℕ) (rs : List File)
    → IsFree key rs
    → urls_for ds t.places key rs ≡ []
unfolding urls_for
urls_for-none ds t key [] free = refl
urls_for-none ds t key (r ∷ rs) free = elim (Bool-cases (r.dkey == key)) [
  | inl same ↦ absurd (free r (inl refl) ((==_iff r.dkey key).0 same))
  | inr other ↦ rw other (urls_for-none ds t key rs (λ x m. free x (inr m)))
]

delete_file-In :
    (fid : ℤ) (rs : List File) (r : File)
    → In r (delete_file fid rs)
    → In r rs × ((r.fid ==ℤ fid) ≡ false)
unfolding delete_file
delete_file-In fid [] r m = absurd m
delete_file-In fid (x ∷ rs) r m = elim (Bool-cases (x.fid ==ℤ fid)) [
  | inl gone ↦ later (delete_file-In fid rs r (rw gone at m))
  | inr stays ↦ elim (rw stays at m) [
    | inl e ↦ (inl e, ap (λ t. t.fid ==ℤ fid) e ∙ stays)
    | inr rest ↦ later (delete_file-In fid rs r rest)
  ]
]
  where
    later : In r rs × ((r.fid ==ℤ fid) ≡ false) → In r (x ∷ rs) × ((r.fid ==ℤ fid) ≡ false)
    later (i, e) = (inr i, e)

-- The request is refused, or the file is gone.
abbrev Deletes : ℤ → Tables → Outcome → Type 0
Deletes fid t o = (400 ≤ o.status) ⊎ (o.tables.files ≡ delete_file fid t.files)

transaction-Deletes :
    (f : Faults) (fid : ℤ) (t : Tables) → Deletes fid t (conclude t (delete_transaction f fid t))
unfolding delete_transaction conclude
transaction-Deletes f fid t =
    delete_fid_on_db_rule (λ r. Deletes fid t (conclude t r)) (λ status le. inl le) t f fid _
      (commit_rule (λ r. Deletes fid t (conclude t r)) (λ status le. inl le) _ f.commit _
        (inr refl))

-- The request is refused, or no file has the key.
abbrev Frees : ℕ → Outcome → Type 0
Frees key o = (400 ≤ o.status) ⊎ IsFree key o.tables.files

deleted-Frees :
    (key : ℕ) (fid : ℤ) (t : Tables) (o : Outcome)
    → ((x y : File) → In x t.files → In y t.files → x.dkey ≡ y.dkey → x.fid ≡ y.fid)
    → fid_of key t.files ≡ some fid
    → Deletes fid t o
    → Frees key o
deleted-Frees key fid t o unique leads (inl le) = inl le
deleted-Frees key fid t o unique leads (inr gone) = inr (λ r m e.
    let (was, differs) = delete_file-In fid t.files r (subst (λ rs. In r rs) gone m) in
    let (y, there, same, number) = fid_of-In key fid t.files leads in
    let equal : (r.fid ==ℤ fid) ≡ true =
      (==ℤ_iff r.fid fid).1 (unique r y was there (e ∙ sym same) ∙ number) in
    true_false (sym equal ∙ differs))
  where
    true_false : true ≡ false → ⊥
    true_false e = cc

found-Frees :
    (f : Faults) (fails : Bool) (key : ℕ) (t : Tables)
    → ((x y : File) → In x t.files → In y t.files → x.dkey ≡ y.dkey → x.fid ≡ y.fid)
    → Frees key (delete_found f t (select_file fails key t))
unfolding select_file delete_found
found-Frees f true key t unique = inl (omega arith)
found-Frees f false key t unique = found (fid_of key t.files) refl
  where
    found : (o : Option ℤ) → fid_of key t.files ≡ o → Frees key (delete_found f t (next o t))
    found none e = inr (λ r m. fid_of-none key t.files r e m)
    found (some fid) e =
        deleted-Frees key fid t (conclude t (delete_transaction f fid t)) unique e
          (transaction-Deletes f fid t)

request-Frees :
    (f : Faults) (key : ℕ) (t : Tables)
    → ((x y : File) → In x t.files → In y t.files → x.dkey ≡ y.dkey → x.fid ≡ y.fid)
    → Frees key (delete_request f true (pos 0) (some key) t)
unfolding delete_request delete_begun is_none
request-Frees f key t unique = elim (Bool-cases f.begin) [
  | inl fails ↦ rw fails (inl (omega arith))
  | inr begun ↦ simp begun (found-Frees f f.select_file key t unique)
]

-- After a deleteFile of a key that was not answered with an error, whichever statements may fail in
-- others, getPath of the key is answered with 404, if each key belongs to one file at most.
pub delete_request-get_path :
    (f : Faults) (key : ℕ) (t : Tables) (ds : List ReadDevice)
    → ((x y : File) → In x t.files → In y t.files → x.dkey ≡ y.dkey → x.fid ≡ y.fid)
    → (delete_request f true (pos 0) (some key) t).status < 400
    → get_path false ds (delete_request f true (pos 0) (some key) t).tables key ≡ denied 404
delete_request-get_path f key t ds unique ok =
    go (delete_request f true (pos 0) (some key) t) (request-Frees f key t unique) ok
  where
    go : (o : Outcome) → Frees key o → o.status < 400 → get_path false ds o.tables key ≡ denied 404
    go o (inl le) ok = absurd (omega (arith, le, ok))
    go o (inr free) ok =
        unfold get_path in
        unfold first_url in rw (urls_for-none ds o.tables key o.tables.files free) refl
