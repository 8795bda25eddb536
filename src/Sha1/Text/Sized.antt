-- ===== src/Sha1/Text/Sized.antt =====
-- sha1.go: the range of a digest's fields under `Write`.
use efes.Prelude.{
  ℕ, zero, suc, ◌+◌, ◌%◌, ◌^◌, ◌≡◌, refl, arith, Bool, true, false, some, List, [], ◌∷◌, ◌++◌, ltb,
  leb, if◌then◌else◌, length, take, drop, All, All-append, All-take, All-drop, Bool-cases,
  Option-cases, eq_of_some_eq, inl, inr, subst,
}
use efes.Crc32.Update.Table.{IsByte}
use efes.Sha1.{Words, chunk, add_words, compress, block_loop, block}
use efes.Sha1.Digest.{Sha1Digest, new_sha1, copy, positive, Feed, top_up, fill, bulk, keep, write}
use efes.Sha1.Buffer.{Represents}
use efes.Sha1.Stream.{write-Represents}
use efes.Sha1.Text.RoundTrip.{IsWords, IsSized}

add_words-IsWords : (h s : Words) → IsWords (add_words h s)
unfolding add_words
add_words-IsWords h s = omega arith

compress-IsWords : (h : Words) (p : List ℕ) → IsWords (compress h p)
unfolding compress
compress-IsWords h p = add_words-IsWords h _

block_loop-IsWords : (f : ℕ) (h : Words) (p : List ℕ) → IsWords h → IsWords (block_loop f h p)
unfolding block_loop
block_loop-IsWords zero h p v = v
block_loop-IsWords (suc f) h p v =
    elim (leb chunk (length p))
      as (λ b.
        IsWords
          (elim b [ true ↦ block_loop f (compress h (take chunk p)) (drop chunk p) | false ↦ h ])) [
            | true ↦ block_loop-IsWords f _ _ (compress-IsWords h (take chunk p))
            | false ↦ v
          ]

block-IsWords : (h : Words) (p : List ℕ) → IsWords h → IsWords (block h p)
unfolding block
block-IsWords h p v = block_loop-IsWords (length p) h p v

copy-IsByte : (dst src : List ℕ) → All IsByte dst → All IsByte src → All IsByte (copy dst src)
unfolding copy
copy-IsByte [] src h k = h
copy-IsByte (d ∷ dst) [] h k = h
copy-IsByte (d ∷ dst) (s ∷ src) h k = (k.0, copy-IsByte dst src h.1 k.1)

-- The hash is made of words, and buffer and data are bytes.
abbrev Typed : Feed → Type 0
Typed f = IsWords f.digest.h × All IsByte f.digest.x × All IsByte f.rest

if-IsWords : (b : Bool) (h g : Words) → IsWords h → IsWords g → IsWords (if b then h else g)
if-IsWords true h g v w = v
if-IsWords false h g v w = w

top_up-Typed :
    (d : Sha1Digest) (p : List ℕ) → IsWords d.h → All IsByte d.x → All IsByte p → Typed (top_up d p)
unfolding top_up
top_up-Typed d p v hx hp = (
  if-IsWords _ _ _ (block-IsWords d.h _ v) v,
  All-append IsByte (take d.nx d.x) (copy (drop d.nx d.x) p) (All-take IsByte d.nx d.x hx)
      (copy-IsByte (drop d.nx d.x) p (All-drop IsByte d.nx d.x hx) hp),
  All-drop IsByte _ p hp,
)

fill-Typed :
    (d : Sha1Digest) (p : List ℕ) (f : Feed)
    → fill d p ≡ some f
    → IsWords d.h
    → All IsByte d.x
    → All IsByte p
    → Typed f
unfolding fill
fill-Typed d p f e v hx hp = elim (Bool-cases (positive d.nx)) [
  | inl held ↦
      (let e' = rw held at e in
        elim (Bool-cases (ltb chunk d.nx)) [
          | inl outside ↦ cc (rw outside at e')
          | inr inside ↦
              (let same : top_up d p ≡ f = eq_of_some_eq (rw inside at e') in
                subst Typed same (top_up-Typed d p v hx hp))
        ])
  | inr empty ↦
      (let same : record { digest = d; rest = p } ≡ f = eq_of_some_eq (rw empty at e) in
        subst Typed same (v, hx, hp))
]

bulk-Typed : (f : Feed) → Typed f → Typed (bulk f)
unfolding bulk
bulk-Typed f t = elim (Bool-cases (leb chunk (length f.rest))) [
  | inl long ↦ rw long (block-IsWords f.digest.h _ t.0, t.1, All-drop IsByte _ f.rest t.2)
  | inr short ↦ rw short t
]

keep-Typed : (f : Feed) → Typed f → IsWords (keep f).h × All IsByte (keep f).x
unfolding keep
keep-Typed f t = elim (Bool-cases (ltb 0 (length f.rest))) [
  | inl some_data ↦ rw some_data (t.0, copy-IsByte f.digest.x f.rest t.1 t.2)
  | inr no_data ↦ rw no_data (t.0, t.1)
]

write-Typed :
    (d : Sha1Digest) (p : List ℕ) (d' : Sha1Digest)
    → write d p ≡ some d'
    → IsWords d.h
    → All IsByte d.x
    → All IsByte p
    → IsWords d'.h × All IsByte d'.x
unfolding write
write-Typed d p d' e v hx hp = elim (Option-cases (fill d1 p)) [
  | inl panic ↦ cc (rw panic at e)
  | inr (f, filled) ↦
      (let same : keep (bulk f) ≡ d' = eq_of_some_eq (rw filled at e) in
        subst (λ t. IsWords t.h × All IsByte t.x) same
          (keep-Typed (bulk f) (bulk-Typed f (fill-Typed d1 p f filled v hx hp))))
]
  where
    d1 : Sha1Digest
    d1 = record d { len = (d.len + length p) % 2 ^ 64 }

-- A digest in range that stands for `m` and takes the bytes `p` is in range again, and stands for
-- `m` followed by `p`.
pub write-IsSized :
    (d : Sha1Digest) (m p : List ℕ)
    → Represents d m
    → IsSized d
    → All IsByte p
    → (d' : Sha1Digest) × (write d p ≡ some d') × Represents d' (m ++ p) × IsSized d'
write-IsSized d m p r v hp =
    let (d', written, r') = write-Represents d m p r in
    let typed = write-Typed d p d' written v.words v.bytes hp in
    (
      d',
      written,
      r',
      record {
        words = typed.0;
        size = r'.holds.size;
        bytes = typed.1;
        room = omega (arith, r'.holds.room);
        count = omega (arith, r'.counted);
      },
    )

pub new_sha1-IsSized : IsSized new_sha1
unfolding new_sha1
new_sha1-IsSized = record {
  words = omega arith;
  size = refl;
  bytes = omega arith;
  room = omega arith;
  count = omega arith;
}
