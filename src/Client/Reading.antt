-- ===== src/Client/Reading.antt =====
-- sha1file.go: the digest of what was read.
use efes.Prelude.{
  ℕ, zero, suc, ◌+◌, ◌-◌, ◌≤◌, ◌<◌, ◌≡◌, refl, ap, sym, subst, ◌∙◌, arith, true, false, List, [],
  ◌∷◌, ◌++◌, ltb, ◌==◌, length, take, drop, min, take-append-drop, length-take, length-drop,
  length-append, take_add, take-take_le, drop-append_add, drop-drop, ==_iff, take-length_append,
  Bool-cases, inl, inr,
}
use mathlib.Core.List.{append_assoc, append-nil}
use efes.Sha1.Buffer.{Represents, new_sha1-Represents}
use efes.Sha1.Stream.{write-Represents, nil_of_length}
use efes.Client.{
  Sha1File, new_sha1_file, ReadResult, bytes, digest_new, read, seek, and_then, read_limited,
}

-- The digest is that of the first `calculated` bytes, and the position is at or before their end.
pub record Follows (f : Sha1File) : Type 0 where
  pub digested : Represents f.digest (take f.calculated f.content)
  pub behind : f.position ≤ f.calculated
  pub within : f.calculated ≤ length f.content
  pub same_place : f.at ≡ f.position

pub new_sha1_file-Follows : (content : List ℕ) → Follows (new_sha1_file content)
unfolding new_sha1_file
new_sha1_file-Follows content = record {
  digested = new_sha1-Represents;
  behind = omega arith;
  within = omega arith;
  same_place = refl;
}

-- A seek that is not refused goes back.
pub seek-Follows : (f : Sha1File) (n : ℕ) → Follows f → n ≤ f.position → Follows (seek f n).0
unfolding seek
seek-Follows f n h le =
    let back : ltb f.position n ≡ false = ground arith in
    rw back (record {
      digested = h.digested;
      behind = omega (arith, h.behind);
      within = h.within;
      same_place = refl;
    })

-- What a read of the next bytes comes to.
pub record ReadDone (f : Sha1File) (p : List ℕ) (g : Sha1File) : Type 0 where
  pub follows : Follows g
  pub same_content : g.content ≡ f.content
  pub moved : g.position ≡ f.position + length p
  pub front : take f.position f.content ++ p ≡ take (f.position + length p) f.content
  pub covers : f.calculated ≤ g.calculated

module _ (content : List ℕ) (pos n : ℕ) (within : pos ≤ length content) where
  abbrev piece : List ℕ
  piece = take n (drop pos content)

  -- The bytes in front of a piece, and the piece.
  front-piece : take pos content ++ piece ≡ take (pos + length piece) content
  front-piece =
      ap (λ t. take pos content ++ t)
        (sym (take-length_append piece (drop n (drop pos content)))
          ∙ ap (take (length piece)) (take-append-drop n (drop pos content)))
      ∙ sym (take_add pos (length piece) content)

  length-piece : pos + length piece ≤ length content
  length-piece = omega (arith, length-take n (drop pos content), length-drop pos content)

  -- The part of a piece behind the first `c` bytes of the file.
  new_part :
      (c : ℕ)
      → pos ≤ c
      → c ≤ pos + length piece
      → take c content ++ drop (c - pos) piece ≡ take (pos + length piece) content
  new_part c le ge =
      let front = take pos content in
      let size : c ≡ length front + (c - pos) = omega (arith, length-take pos content) in
      let total : length (front ++ piece) ≡ pos + length piece =
        omega (arith, length-append front piece, length-take pos content) in
      let first : take c content ≡ take c (front ++ piece) =
        sym (take-take_le c (pos + length piece) content ge) ∙ ap (take c) (sym front-piece) in
      ap (λ t. t ++ drop (c - pos) piece) first
      ∙ ap (λ t. take c (front ++ piece) ++ t) (sym (drop-append_add front piece c (c - pos) size))
      ∙ take-append-drop c (front ++ piece)
      ∙ front-piece

module _ (f : Sha1File) (n : ℕ) (h : Follows f) where
  abbrev next : List ℕ
  next = take n (drop f.position f.content)

  fits : f.position ≤ length f.content
  fits = omega (arith, h.behind, h.within)

  -- A read does not panic, and gives the next bytes of the file.
  digest_new-done : (g : Sha1File) × (digest_new f next ≡ bytes next g) × ReadDone f next g
  unfolding digest_new
  digest_new-done = elim (Bool-cases (ltb f.calculated (f.position + length next))) [
    | inl beyond ↦
        (let le : f.calculated ≤ f.position + length next = ground arith in
          let c = drop (f.calculated - f.position) next in
          let joined = new_part f.content f.position n fits f.calculated h.behind le in
          let reached : f.calculated + length c ≡ f.position + length next =
            omega (arith, length-drop (f.calculated - f.position) next, h.behind) in
          let (d, written, rep) =
            write-Represents f.digest (take f.calculated f.content) c h.digested in
          (
            record f {
              at = f.at + length next;
              position = f.position + length next;
              digest = d;
              calculated = f.calculated + length c;
            },
            rw beyond (rw written refl),
            record {
              follows = record {
                digested =
                    subst (Represents d) (joined ∙ ap (λ t. take t f.content) (sym reached)) rep;
                behind = omega (arith, reached);
                within = omega (arith, reached, length-piece f.content f.position n fits);
                same_place = ap (λ t. t + length next) h.same_place;
              };
              same_content = refl;
              moved = refl;
              front = front-piece f.content f.position n fits;
              covers = omega arith;
            },
          ))
    | inr known ↦ (
      record f { at = f.at + length next; position = f.position + length next },
      rw known refl,
      record {
        follows = record {
          digested = h.digested;
          behind = ground arith;
          within = h.within;
          same_place = ap (λ t. t + length next) h.same_place;
        };
        same_content = refl;
        moved = refl;
        front = front-piece f.content f.position n fits;
        covers = omega arith;
      },
    )
  ]

  -- A read by a Sha1File whose digest is that of the file's first bytes gives the next bytes of the
  -- file, without an error or a panic, and its digest is that of the file's first bytes again.
  pub read-done : (g : Sha1File) × (read f n ≡ bytes next g) × ReadDone f next g
  unfolding read
  read-done =
      let (g, done, r) = digest_new-done in
      let ready : ltb f.calculated f.position ≡ false = ground (arith, h.behind) in
      (g, rw ready (ap (λ t. digest_new f (take n (drop t f.content))) h.same_place ∙ done), r)

-- One read after the other.
ReadDone-trans :
    {f g k : Sha1File} {p q : List ℕ} → ReadDone f p g → ReadDone g q k → ReadDone f (p ++ q) k
ReadDone-trans {f} {g} {k} {p} {q} r s = record {
  follows = s.follows;
  same_content = s.same_content ∙ r.same_content;
  moved = omega (arith, s.moved, r.moved, length-append p q);
  front =
      sym (append_assoc (take f.position f.content) p q)
      ∙ ap (λ t. t ++ q) (r.front ∙ same_front)
      ∙ s.front
      ∙ ap (take (g.position + length q)) r.same_content
      ∙ ap (λ t. take t f.content) (omega (arith, r.moved, length-append p q));
  covers = omega (arith, r.covers, s.covers);
}
  where
    same_front : take (f.position + length p) f.content ≡ take g.position g.content
    same_front =
        ap (λ t. take t f.content) (sym r.moved) ∙ ap (take g.position) (sym r.same_content)

ReadDone-refl : (f : Sha1File) → Follows f → ReadDone f [] f
ReadDone-refl f h = record {
  follows = h;
  same_content = refl;
  moved = omega arith;
  front = append-nil (take f.position f.content) ∙ ap (λ t. take t f.content) (omega arith);
  covers = omega arith;
}

take_zero : (n : ℕ) (xs : List ℕ) → n ≡ 0 → take n xs ≡ []
take_zero n xs e = ap (λ t. take t xs) e

-- A first piece of at most `n` bytes, and the rest of `limit` bytes behind it.
pieces-join :
    (n limit pos : ℕ) (content : List ℕ)
    → n ≤ limit
    → take n (drop pos content)
        ++ take
            (limit - length (take n (drop pos content)))
            (drop (pos + length (take n (drop pos content))) content)
      ≡ take limit (drop pos content)
pieces-join n limit pos content le =
    let rest = drop pos content in
    let q = take n rest in
    let size : length q ≤ limit = omega (arith, length-take n rest) in
    ap (λ t. t ++ take (limit - length q) (drop (pos + length q) content))
      (sym (take-length_append q (drop n rest)) ∙ ap (take (length q)) (take-append-drop n rest))
    ∙ ap (λ t. take (length q) rest ++ take (limit - length q) t)
        (sym (drop-drop pos (length q) content))
    ∙ sym (take_add (length q) (limit - length q) rest)
    ∙ ap (λ t. take t rest) (omega (arith, size))

nothing_left : (n limit : ℕ) (xs : List ℕ) → 0 < n → length (take n xs) ≡ 0 → take limit xs ≡ []
nothing_left n zero xs lt e = refl
nothing_left n (suc limit) [] lt e = refl
nothing_left zero (suc limit) (x ∷ xs) lt e = absurd (omega arith)
nothing_left (suc n) (suc limit) (x ∷ xs) lt e = absurd (omega arith)

and_then-bytes :
    (p q : List ℕ) (k : Sha1File → ReadResult) (f g : Sha1File)
    → k f ≡ bytes q g
    → and_then p k f ≡ bytes (p ++ q) g
unfolding and_then
and_then-bytes p q k f g e = rw (e, and_then) refl

module _ (buffer fuel limit : ℕ) (f : Sha1File) where
  limited-full : (limit == 0) ≡ true → read_limited buffer (suc fuel) limit f ≡ bytes [] f
  unfolding read_limited
  limited-full e = rw (e, read_limited) refl

  limited-read :
      (p : List ℕ) (g : Sha1File)
      → (limit == 0) ≡ false
      → read f (min buffer limit) ≡ bytes p g
      → read_limited buffer (suc fuel) limit f ≡ elim (length p == 0) [
        | true ↦ bytes [] g
        | false ↦ and_then p (read_limited buffer fuel (limit - length p)) g
      ]
  unfolding read_limited
  limited-read p g e done = rw (e, read_limited) (rw (done, read_limited) refl)

  limited-end :
      (p : List ℕ) (g : Sha1File)
      → (limit == 0) ≡ false
      → read f (min buffer limit) ≡ bytes p g
      → (length p == 0) ≡ true
      → read_limited buffer (suc fuel) limit f ≡ bytes [] g
  limited-end p g e done none_left = limited-read p g e done ∙ rw none_left refl

  limited-more :
      (p : List ℕ) (g : Sha1File)
      → (limit == 0) ≡ false
      → read f (min buffer limit) ≡ bytes p g
      → (length p == 0) ≡ false
      → read_limited buffer (suc fuel) limit f
        ≡ and_then p (read_limited buffer fuel (limit - length p)) g
  limited-more p g e done some_left = limited-read p g e done ∙ rw some_left refl

module _ (buffer : ℕ) (some_room : 0 < buffer) where
  -- With more fuel than the limit, the body of a request is the next bytes of the file up to the
  -- limit, and the digest has followed.
  pub read_limited-done :
      (fuel limit : ℕ) (f : Sha1File)
      → limit < fuel
      → Follows f
      → (g : Sha1File) × (read_limited buffer fuel limit f
          ≡ bytes (take limit (drop f.position f.content)) g)
        × ReadDone f (take limit (drop f.position f.content)) g
  read_limited-done zero limit f lt h = absurd (omega arith)
  read_limited-done (suc fuel) limit f lt h = elim (Bool-cases (limit == 0)) [
    | inl full ↦
        (let empty = take_zero limit (drop f.position f.content) ((==_iff limit 0).0 full) in
          (
            f,
            limited-full buffer fuel limit f full ∙ ap (λ t. bytes t f) (sym empty),
            subst (λ t. ReadDone f t f) (sym empty) (ReadDone-refl f h),
          ))
    | inr wanted ↦
        (let n = min buffer limit in
          let q = take n (drop f.position f.content) in
          let positive : 0 < n = ground arith in
          let (g, done, r) = read-done f n h in
          elim (Bool-cases (length q == 0)) [
            | inl at_end ↦
                (let none_left = (==_iff (length q) 0).0 at_end in
                  let empty = nothing_left n limit (drop f.position f.content) positive none_left in
                  (
                    g,
                    limited-end buffer fuel limit f q g wanted done at_end
                        ∙ ap (λ t. bytes t g) (sym empty),
                    subst (λ t. ReadDone f t g) (nil_of_length q none_left ∙ sym empty) r,
                  ))
            | inr more ↦
                (let some_read : 0 < length q = ground arith in
                  let left : limit - length q < fuel = omega (arith, some_read, lt) in
                  let (k, last, s) = read_limited-done fuel (limit - length q) g left r.follows in
                  let place : take (limit - length q) (drop g.position g.content)
                      ≡ take (limit - length q) (drop (f.position + length q) f.content) =
                    ap (λ t. take (limit - length q) (drop t g.content)) r.moved
                    ∙ ap (λ t. take (limit - length q) (drop (f.position + length q) t))
                        r.same_content in
                  let whole =
                    ap (λ t. q ++ t) place
                    ∙ pieces-join n limit f.position f.content (omega arith) in
                  (
                    k,
                    limited-more buffer fuel limit f q g wanted done more
                        ∙ and_then-bytes q _ (read_limited buffer fuel (limit - length q)) g k last
                        ∙ ap (λ t. bytes t k) whole,
                    subst (λ t. ReadDone f t k) whole (ReadDone-trans r s),
                  ))
          ])
  ]
