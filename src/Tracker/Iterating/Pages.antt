-- ===== src/Tracker/Iterating/Pages.antt =====
-- iterfiles.go: one page goes on where the other ended.
use efes.Prelude.{
  ℕ, zero, suc, ◌+◌, ◌≤◌, ◌<◌, ◌≡◌, ◌≢◌, refl, ap, sym, ◌∙◌, arith, Bool, true, false, List, [],
  ◌∷◌, ◌++◌, ltb, leb, if◌then◌else◌, take, All, Bool-cases, inl, inr,
}
use efes.Prelude.Members.{select}
use efes.Tracker.{File}
use efes.Tracker.Devices.{given}
use efes.Tracker.Iterating.{
  number, insert_file, order_by_fid, above, select_files, number_of, Iterated, iterated, refused,
  iterate_from, iterate_with, iter_files,
}

-- No two rows have the same fid.
abbrev pub HasKey : List File → Type 0
HasKey [] = Unit
HasKey (r ∷ rs) = All (λ x. number r ≢ number x) rs × HasKey rs

abbrev Ascending : List File → Type 0
Ascending [] = Unit
Ascending (r ∷ rs) = All (λ x. number r < number x) rs × Ascending rs

abbrev AllAbove : ℕ → List File → Type 0
AllAbove n rs = All (λ x. n < number x) rs

AllAbove-mono : (n k : ℕ) (rs : List File) → k ≤ n → AllAbove n rs → AllAbove k rs
AllAbove-mono n k [] le h = tt
AllAbove-mono n k (r ∷ rs) le (h, hs) = (omega (arith, le, h), AllAbove-mono n k rs le hs)

insert_file-AllAbove :
    (n : ℕ) (r : File) (rs : List File)
    → n < number r
    → AllAbove n rs
    → AllAbove n (insert_file r rs)
unfolding insert_file
insert_file-AllAbove n r [] lt h = (lt, tt)
insert_file-AllAbove n r (x ∷ rs) lt (h, hs) =
    go (leb (number r) (number x)) (insert_file-AllAbove n r rs lt hs)
  where
    go :
        (b : Bool)
        → AllAbove n (insert_file r rs)
        → AllAbove n (if b then r ∷ x ∷ rs else x ∷ insert_file r rs)
    go true rest = (lt, (h, hs))
    go false rest = (h, rest)

insert_file-Ascending :
    (r : File) (rs : List File)
    → All (λ x. number r ≢ number x) rs
    → Ascending rs
    → Ascending (insert_file r rs)
unfolding insert_file
insert_file-Ascending r [] d a = (tt, tt)
insert_file-Ascending r (x ∷ rs) (d, ds) (above_x, a) =
    elim (Bool-cases (leb (number r) (number x))) [
      | inl le ↦
          (let lt : number r < number x = ground (arith, le, d) in
            rw le (
              (lt, AllAbove-mono (number x) (number r) rs (omega (arith, lt)) above_x),
              (above_x, a),
            ))
      | inr more ↦
          (let lt : number x < number r = ground (arith, more) in
            rw more
              (insert_file-AllAbove (number x) r rs lt above_x, insert_file-Ascending r rs ds a))
    ]

insert_file-differs :
    (n : ℕ) (r : File) (rs : List File)
    → n ≢ number r
    → All (λ x. n ≢ number x) rs
    → All (λ x. n ≢ number x) (insert_file r rs)
unfolding insert_file
insert_file-differs n r [] d h = (d, tt)
insert_file-differs n r (x ∷ rs) d (h, hs) =
    go (leb (number r) (number x)) (insert_file-differs n r rs d hs)
  where
    go :
        (b : Bool)
        → All (λ x. n ≢ number x) (insert_file r rs)
        → All (λ x. n ≢ number x) (if b then r ∷ x ∷ rs else x ∷ insert_file r rs)
    go true rest = (d, (h, hs))
    go false rest = (h, rest)

order_by_fid-differs :
    (n : ℕ) (rs : List File)
    → All (λ x. n ≢ number x) rs
    → All (λ x. n ≢ number x) (order_by_fid rs)
unfolding order_by_fid
order_by_fid-differs n [] h = tt
order_by_fid-differs n (r ∷ rs) (h, hs) =
    insert_file-differs n r (order_by_fid rs) h (order_by_fid-differs n rs hs)

order_by_fid-Ascending : (rs : List File) → HasKey rs → Ascending (order_by_fid rs)
unfolding order_by_fid
order_by_fid-Ascending [] k = tt
order_by_fid-Ascending (r ∷ rs) (d, k) =
    insert_file-Ascending r (order_by_fid rs) (order_by_fid-differs (number r) rs d)
      (order_by_fid-Ascending rs k)

-- The rows above a number, in their order, are the ordered rows above it.
select-insert_file :
    (n : ℕ) (r : File) (rs : List File)
    → select (above n) (insert_file r rs)
      ≡ (if above n r then insert_file r (select (above n) rs) else select (above n) rs)
unfolding insert_file above
select-insert_file n r [] = refl
select-insert_file n r (x ∷ rs) = elim (Bool-cases (leb (number r) (number x))) [
  | inl le ↦ elim (Bool-cases (ltb n (number x))) [
    | inl up ↦ rw le (rw up (rw le refl))
    | inr low ↦
        (let out : ltb n (number r) ≡ false = ground (arith, le, low) in
          rw le (rw low (rw out refl)))
  ]
  | inr more ↦ elim (Bool-cases (ltb n (number x))) [
    | inl up ↦
        (let same : ltb n (number r) ≡ true = ground (arith, more, up) in
          rw more (rw up (rw (select-insert_file n r rs) (rw same (rw more refl)))))
    | inr low ↦ rw more (rw low (select-insert_file n r rs))
  ]
]

select-order_by_fid :
    (n : ℕ) (rs : List File)
    → order_by_fid (select (above n) rs) ≡ select (above n) (order_by_fid rs)
unfolding order_by_fid
select-order_by_fid n [] = refl
select-order_by_fid n (r ∷ rs) = elim (Bool-cases (above n r)) [
  | inl up ↦ rw up (
      ap (insert_file r) (select-order_by_fid n rs)
      ∙ sym (select-insert_file n r (order_by_fid rs) ∙ rw up refl))
  | inr low ↦
      rw low
        (select-order_by_fid n rs ∙ sym (select-insert_file n r (order_by_fid rs) ∙ rw low refl))
]

select-all : (n : ℕ) (rs : List File) → AllAbove n rs → select (above n) rs ≡ rs
unfolding above
select-all n [] h = refl
select-all n (r ∷ rs) (h, hs) =
    let up : ltb n (number r) ≡ true = ground (arith, h) in
    rw up (ap (λ t. r ∷ t) (select-all n rs hs))

select-AllAbove : (n k : ℕ) (rs : List File) → AllAbove k rs → AllAbove k (select (above n) rs)
select-AllAbove n k [] h = tt
select-AllAbove n k (r ∷ rs) (h, hs) = go (above n r) (select-AllAbove n k rs hs)
  where
    go :
        (b : Bool)
        → AllAbove k (select (above n) rs)
        → AllAbove k (if b then r ∷ select (above n) rs else select (above n) rs)
    go true rest = (h, rest)
    go false rest = rest

select-Ascending : (n : ℕ) (rs : List File) → Ascending rs → Ascending (select (above n) rs)
select-Ascending n [] a = tt
select-Ascending n (r ∷ rs) (h, a) = go (above n r) (select-Ascending n rs a)
  where
    go :
        (b : Bool)
        → Ascending (select (above n) rs)
        → Ascending (if b then r ∷ select (above n) rs else select (above n) rs)
    go true rest = (select-AllAbove n (number r) rs h, rest)
    go false rest = rest

select-above : (n : ℕ) (rs : List File) → AllAbove n (select (above n) rs)
unfolding above
select-above n [] = tt
select-above n (r ∷ rs) = elim (Bool-cases (ltb n (number r))) [
  | inl up ↦ rw up (ground (arith, up), select-above n rs)
  | inr low ↦ rw low (select-above n rs)
]

select-select :
    (n k : ℕ) (rs : List File)
    → n ≤ k
    → select (above k) (select (above n) rs) ≡ select (above k) rs
unfolding above
select-select n k [] le = refl
select-select n k (r ∷ rs) le = elim (Bool-cases (ltb n (number r))) [
  | inl up ↦ rw up (ap (λ t. if ltb k (number r) then r ∷ t else t) (select-select n k rs le))
  | inr low ↦
      (let out : ltb k (number r) ≡ false = ground (arith, low, le) in
        rw low (rw out (select-select n k rs le)))
]

-- The fid that a client gives for the next page: that of the last row, or the one it gave.
abbrev pub last_fid : ℕ → List File → ℕ
last_fid from [] = from
last_fid from (r ∷ rs) = last_fid (number r) rs

last_fid-above :
    (n : ℕ) (from : ℕ) (rs : List File) → n ≤ from → AllAbove n rs → n ≤ last_fid from rs
last_fid-above n from [] le h = le
last_fid-above n from (r ∷ rs) le (h, hs) = last_fid-above n (number r) rs (omega (arith, h)) hs

take-AllAbove : (k n : ℕ) (rs : List File) → AllAbove n rs → AllAbove n (take k rs)
take-AllAbove zero n rs h = tt
take-AllAbove (suc k) n [] h = tt
take-AllAbove (suc k) n (r ∷ rs) (h, hs) = (h, take-AllAbove k n rs hs)

abbrev no_files : List File
no_files = []

take_nil : (k : ℕ) → take k no_files ≡ no_files
take_nil zero = refl
take_nil (suc k) = refl

goes_on :
    (n m from : ℕ) (rs : List File)
    → Ascending rs
    → AllAbove from rs
    → take (n + m) rs ≡ take n rs ++ take m (select (above (last_fid from (take n rs))) rs)
goes_on zero m from rs a h =
    let e : 0 + m ≡ m = omega arith in
    ap (λ k. take k rs) e ∙ ap (take m) (sym (select-all from rs h))
goes_on (suc n) m from [] a h = take_nil (suc n + m) ∙ sym (take_nil m)
goes_on (suc n) m from (r ∷ rs) (h, a) hs =
    let l = last_fid (number r) (take n rs) in
    let le : number r ≤ l =
      last_fid-above (number r) (number r) (take n rs) (omega arith)
        (take-AllAbove n (number r) rs h) in
    let out : above l r ≡ false = unfold above in ground (arith, le) in
    let e : suc n + m ≡ suc (n + m) = omega arith in
    ap (λ k. take k (r ∷ rs)) e ∙ rw out (ap (λ t. r ∷ t) (goes_on n m (number r) rs a h))

-- The files of an answer.
abbrev pub files_in : Iterated → List File
files_in (iterated rs) = rs
files_in (refused status) = []

-- If its query works and no two files have the same fid, iterFiles gives in two pages, the second
-- from the last fid of the first, what it gives in one page of their sizes.
pub iter_files-pages :
    (rs : List File) (from n m : ℕ)
    → HasKey rs
    → files_in (iter_files false rs (given from) (given (n + m)))
      ≡ files_in (iter_files false rs (given from) (given n))
        ++ files_in (
            iter_files false rs
              (given (last_fid from (files_in (iter_files false rs (given from) (given n)))))
              (given m))
unfolding iter_files iterate_with iterate_from number_of select_files
iter_files-pages rs from n m k =
    let all = order_by_fid rs in
    let a = order_by_fid-Ascending rs k in
    let here = select (above from) all in
    let l = last_fid from (take n here) in
    let le : from ≤ l =
      last_fid-above from from (take n here) (omega arith)
        (take-AllAbove n from here (select-above from all)) in
    let next : select (above l) here ≡ order_by_fid (select (above l) rs) =
      select-select from l all le ∙ sym (select-order_by_fid l rs) in
    rw (select-order_by_fid from rs) (
      goes_on n m from here (select-Ascending from all a) (select-above from all)
      ∙ ap (λ t. take n here ++ take m t) next)
