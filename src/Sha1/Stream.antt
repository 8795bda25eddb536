-- ===== src/Sha1/Stream.antt =====
-- sha1.go: `Write` and the message that a digest stands for.
use efes.Prelude.{
  ℕ, ◌+◌, ◌-◌, ◌*◌, ◌/◌, ◌%◌, ◌^◌, ◌≤◌, ◌<◌, ◌≡◌, refl, ap, sym, subst, ◌∙◌, arith, true, false,
  some, List, [], ◌∷◌, ◌++◌, ◌⊎◌, ltb, leb, length, min, take, drop, inl, inr, length-append,
  length-drop, length-take, take-append-drop, take_all,
}
use native.Mathlib.Decide.{dec_lt}
use mathlib.Core.List.{append_assoc, append-nil}
use mathlib.Core.Option
use efes.Sha1.{init, chunk, block}
use efes.Sha1.Blocks.{block-append}
use efes.Sha1.Buffer.{
  Holds, Represents, top_up_short, short-Holds, top_up_full, full-Holds, length-copy, take-copy,
}
use efes.Sha1.Digest.{Sha1Digest, positive, Feed, top_up, fill, bulk, keep, write}

-- The bytes that were taken, and what is left once the buffer is empty or the data is used up.
record Progress (f : Feed) (m p : List ℕ) : Type 0 where
  taken : List ℕ
  split : p ≡ taken ++ f.rest
  so_far : Holds f.digest (m ++ taken)
  ready : (f.digest.nx ≡ 0) ⊎ (f.rest ≡ [])

top_up-Progress : (d : Sha1Digest) (m p : List ℕ) → Holds d m → Progress (top_up d p) m p
top_up-Progress d m p r = elim (dec_lt (d.nx + length p) chunk) [
  | yes h ↦ rw (top_up_short d m p r h) (record {
    taken = p;
    split = sym (append-nil p);
    so_far = short-Holds d m p r h;
    ready = inr refl;
  })
  | no h ↦ rw (top_up_full d m p r (omega arith)) (record {
    taken = take (chunk - d.nx) p;
    split = sym (take-append-drop (chunk - d.nx) p);
    so_far = full-Holds d m p r (omega arith);
    ready = inl refl;
  })
]

fill-Progress :
    (d : Sha1Digest) (m p : List ℕ) → Holds d m → (f : Feed) × (fill d p ≡ some f) × Progress f m p
fill-Progress d m p r = elim (dec_lt 0 d.nx) [
  | yes h ↦ (
    top_up d p,
    (let pos : positive d.nx ≡ true = unfold positive in ground (arith, r.room) in
        let inside : ltb chunk d.nx ≡ false = ground (arith, r.room) in
        unfold fill in rw pos (rw inside)),
    top_up-Progress d m p r,
  )
  | no h ↦ (
    record { digest = d; rest = p },
    (let zero_nx : positive d.nx ≡ false = unfold positive in ground arith in
        unfold fill in rw zero_nx),
    record { taken = []; split = refl; so_far = rw append-nil r; ready = inl (omega arith) },
  )
]

pub nil_of_length : (l : List ℕ) → length l ≡ 0 → l ≡ []
nil_of_length [] e = refl
nil_of_length (x ∷ l) e = absurd (omega arith)

-- The last, short piece goes into the empty buffer.
keep-Holds :
    (d : Sha1Digest) (m q : List ℕ)
    → Holds d m
    → d.nx ≡ 0
    → length q < chunk
    → Holds (keep (record { digest = d; rest = q })) (m ++ q)
unfolding keep
keep-Holds d m [] r e h = rw append-nil r
keep-Holds d m (y ∷ q) r e h =
    let fits : min (length d.x) (length (y ∷ q)) ≡ length (y ∷ q) = omega (arith, r.size) in
    let empty = nil_of_length r.rest (r.rest_length ∙ e) in
    let some_data : ltb 0 (length (y ∷ q)) ≡ true = ground arith in
    rw fits (
      rw some_data (record {
        chunks = r.chunks;
        whole = r.whole;
        rest = y ∷ q;
        message =
            ap (λ t. t ++ y ∷ q) (r.message ∙ ap (λ t. r.whole ++ t) empty ∙ append-nil r.whole);
        whole_length = r.whole_length;
        rest_length = refl;
        hashed = r.hashed;
        buffered =
            take-copy (length (y ∷ q)) d.x (y ∷ q) (omega (arith, r.size)) (omega arith)
            ∙ take_all (length (y ∷ q)) (y ∷ q) (omega arith);
        room = h;
        size = length-copy d.x (y ∷ q) ∙ r.size;
      }))

-- Whole chunks of the data are hashed where they stand.
hashed-Holds :
    (d : Sha1Digest) (m q : List ℕ) (k : ℕ)
    → Holds d m
    → d.nx ≡ 0
    → k * chunk ≤ length q
    → Holds (record d { h = block d.h (take (k * chunk) q) }) (m ++ take (k * chunk) q)
hashed-Holds d m q k r e h =
    let t = take (k * chunk) q in
    let empty = nil_of_length r.rest (r.rest_length ∙ e) in
    record {
      chunks = r.chunks + k;
      whole = r.whole ++ t;
      rest = [];
      message =
          ap (λ u. u ++ t) (r.message ∙ ap (λ u. r.whole ++ u) empty ∙ append-nil r.whole)
          ∙ sym (append-nil (r.whole ++ t));
      whole_length =
          omega (arith, length-append r.whole t, length-take (k * chunk) q, r.whole_length);
      rest_length = sym e;
      hashed =
          ap (λ u. block u t) r.hashed ∙ sym (block-append r.chunks init r.whole t r.whole_length);
      buffered = ap (λ n. take n d.x) e;
      room = r.room;
      size = r.size;
    }

finish-Holds :
    (d : Sha1Digest) (m q : List ℕ)
    → Holds d m
    → (d.nx ≡ 0) ⊎ (q ≡ [])
    → Holds (keep (bulk (record { digest = d; rest = q }))) (m ++ q)
unfolding bulk
finish-Holds d m q r (inl e) = elim (dec_lt (length q) chunk) [
  | yes h ↦
      (let few : leb chunk (length q) ≡ false = ground arith in rw few (keep-Holds d m q r e h))
  | no h ↦
      (let k = length q / chunk in
        let many : leb chunk (length q) ≡ true = ground arith in
        let whole = hashed-Holds d m q k r e (omega arith) in
        let d' = record d { h = block d.h (take (k * chunk) q) } in
        let tail =
          keep-Holds d' (m ++ take (k * chunk) q) (drop (k * chunk) q) whole e
            (omega (arith, length-drop (k * chunk) q)) in
        rw many (
          subst (Holds _)
            (append_assoc m (take (k * chunk) q) (drop (k * chunk) q)
              ∙ ap (λ t. m ++ t) (take-append-drop (k * chunk) q))
            tail))
]
finish-Holds d m q r (inr e) = rw e (unfold keep in rw append-nil r)

finish-Progress : (f : Feed) (m p : List ℕ) → Progress f m p → Holds (keep (bulk f)) (m ++ p)
finish-Progress f m p g = rw (g.split) (
    rw (← append_assoc m g.taken f.rest)
      (finish-Holds f.digest (m ++ g.taken) f.rest g.so_far g.ready))

len-fill : (d : Sha1Digest) (p : List ℕ) (f : Feed) → fill d p ≡ some f → f.digest.len ≡ d.len
unfolding fill top_up
len-fill d p f e = ground arith

len-finish : (f : Feed) → (keep (bulk f)).len ≡ f.digest.len
unfolding keep bulk
len-finish f = ground arith

-- A digest that stands for `m` and is given the bytes `p` does not panic, and stands for `m`
-- followed by `p`: its hash is over the whole chunks of both, its buffer holds the rest.
pub write-Represents :
    (d : Sha1Digest) (m p : List ℕ)
    → Represents d m
    → (d' : Sha1Digest) × (write d p ≡ some d') × Represents d' (m ++ p)
unfolding write
write-Represents d m p r =
    let d1 = record d { len = (d.len + length p) % 2 ^ 64 } in
    let h1 : Holds d1 m = record {
      chunks = r.holds.chunks;
      whole = r.holds.whole;
      rest = r.holds.rest;
      message = r.holds.message;
      whole_length = r.holds.whole_length;
      rest_length = r.holds.rest_length;
      hashed = r.holds.hashed;
      buffered = r.holds.buffered;
      room = r.holds.room;
      size = r.holds.size;
    } in
    let (f, filled_up, progress) = fill-Progress d1 m p h1 in
    (
      keep (bulk f),
      ap (Option.map (λ s. keep (bulk s))) filled_up,
      record {
        holds = finish-Progress f m p progress;
        counted =
            omega (arith, len-finish f, len-fill d1 p f filled_up, r.counted, length-append m p);
      },
    )
