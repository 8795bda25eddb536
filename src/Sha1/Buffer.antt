-- ===== src/Sha1/Buffer.antt =====
-- sha1.go: what the buffer and the hash of a digest hold, and the two ways to go on filling the buffer.
use efes.Prelude.{
  ℕ, zero, suc, ◌+◌, ◌-◌, ◌*◌, ◌%◌, ◌^◌, ◌≤◌, ◌<◌, ◌≡◌, refl, ap, sym, ◌∙◌, arith, true, false,
  List, [], ◌∷◌, ◌++◌, ◌==◌, length, min, take, drop, length-append, length-drop, length-take,
  take-append_add, take_all, drop_all,
}
use mathlib.Core.List.{append_assoc, append-nil}
use efes.Sha1.{init, chunk, block}
use efes.Sha1.Blocks.{block-short, block-append}
use efes.Sha1.Digest.{Sha1Digest, new_sha1, copy, top_up}

pub length-copy : (dst src : List ℕ) → length (copy dst src) ≡ length dst
unfolding copy
length-copy [] src = refl
length-copy (d ∷ dst) [] = refl
length-copy (d ∷ dst) (s ∷ src) = ap suc (length-copy dst src)

-- The first bytes of the buffer after a copy of data that fits.
pub take-copy :
    (n : ℕ) (dst src : List ℕ)
    → n ≤ length dst
    → n ≤ length src
    → take n (copy dst src) ≡ take n src
unfolding copy
take-copy zero dst src h k = refl
take-copy (suc n) [] src h k = elim h [ ]
take-copy (suc n) (d ∷ dst) [] h k = elim k [ ]
take-copy (suc n) (d ∷ dst) (s ∷ src) h k =
    ap (λ t. s ∷ t) (take-copy n dst src (omega arith) (omega arith))

-- The buffered digest without its count of bytes: whole chunks are in `h`, the rest in the buffer.
pub record Holds (d : Sha1Digest) (m : List ℕ) : Type 0 where
  pub chunks : ℕ
  pub whole : List ℕ
  pub rest : List ℕ
  pub message : m ≡ whole ++ rest
  pub whole_length : length whole ≡ chunks * chunk
  pub rest_length : length rest ≡ d.nx
  pub hashed : d.h ≡ block init whole
  pub buffered : take d.nx d.x ≡ rest
  pub room : d.nx < chunk
  pub size : length d.x ≡ chunk

pub record Represents (d : Sha1Digest) (m : List ℕ) : Type 0 where
  pub holds : Holds d m
  pub counted : d.len ≡ length m % 2 ^ 64

pub new_sha1-Represents : Represents new_sha1 []
unfolding new_sha1
new_sha1-Represents = record {
  holds = record {
    chunks = 0;
    whole = [];
    rest = [];
    message = refl;
    whole_length = omega arith;
    rest_length = refl;
    hashed = sym (block-short init [] (omega arith));
    buffered = refl;
    room = omega arith;
    size = refl;
  };
  counted = refl;
}

-- The buffer after a copy behind the bytes that it holds.
abbrev pub filled : Sha1Digest → List ℕ → List ℕ
filled d p = take d.nx d.x ++ copy (drop d.nx d.x) p

module _ (d : Sha1Digest) (m p : List ℕ) (r : Holds d m) where
  length-filled : length (filled d p) ≡ chunk
  length-filled = omega (
    arith,
    length-append (take d.nx d.x) (copy (drop d.nx d.x) p),
    length-copy (drop d.nx d.x) p,
    length-take d.nx d.x,
    length-drop d.nx d.x,
    r.size,
    r.room,
  )

  take-filled :
      (k n : ℕ) → k ≡ d.nx + n → n ≤ length p → k ≤ chunk → take k (filled d p) ≡ r.rest ++ take n p
  take-filled k n e fits h =
      let held = r.rest_length in
      take-append_add (take d.nx d.x) (copy (drop d.nx d.x) p) k n
        (omega (arith, length-take d.nx d.x, r.size, r.room))
      ∙ ap (λ t. t ++ take n (copy (drop d.nx d.x) p)) r.buffered
      ∙ ap (λ t. r.rest ++ t)
          (take-copy n (drop d.nx d.x) p (omega (arith, length-drop d.nx d.x, r.size)) fits)

  -- Too little data to fill the buffer: it is kept behind what is there.
  pub top_up_short :
      d.nx + length p < chunk
      → top_up d p
        ≡ record { digest = record d { x = filled d p; nx = d.nx + length p }; rest = [] }
  unfolding top_up
  top_up_short h =
      let all : min (chunk - d.nx) (length p) ≡ length p = omega arith in
      let below : (d.nx + length p == chunk) ≡ false = ground arith in
      rw all (rw below (rw (drop_all (length p) p (omega arith))))

  pub short-Holds :
      d.nx + length p < chunk → Holds (record d { x = filled d p; nx = d.nx + length p }) (m ++ p)
  short-Holds h = record {
    chunks = r.chunks;
    whole = r.whole;
    rest = r.rest ++ p;
    message = ap (λ t. t ++ p) r.message ∙ append_assoc r.whole r.rest p;
    whole_length = r.whole_length;
    rest_length = omega (arith, length-append r.rest p, r.rest_length);
    hashed = r.hashed;
    buffered =
        take-filled (d.nx + length p) (length p) refl (omega arith) (omega arith)
        ∙ ap (λ t. r.rest ++ t) (take_all (length p) p (omega arith));
    room = h;
    size = length-filled;
  }

  -- The buffer is filled and hashed.
  pub top_up_full :
      chunk ≤ d.nx + length p
      → top_up d p ≡ record {
        digest = record d { h = block d.h (filled d p); x = filled d p; nx = 0 };
        rest = drop (chunk - d.nx) p;
      }
  unfolding top_up
  top_up_full h =
      let fits : min (chunk - d.nx) (length p) ≡ chunk - d.nx = omega (arith, r.room) in
      let full : (d.nx + (chunk - d.nx) == chunk) ≡ true = ground (arith, r.room) in
      rw fits (rw full)

  pub full-Holds :
      chunk ≤ d.nx + length p
      → Holds
          (record d { h = block d.h (filled d p); x = filled d p; nx = 0 })
          (m ++ take (chunk - d.nx) p)
  full-Holds h =
      let n = chunk - d.nx in
      let buffer : filled d p ≡ r.rest ++ take n p =
        sym (take_all chunk (filled d p) (omega (arith, length-filled)))
        ∙ take-filled chunk n (omega (arith, r.room)) (omega arith) (omega arith) in
      record {
        chunks = r.chunks + 1;
        whole = r.whole ++ (r.rest ++ take n p);
        rest = [];
        message =
            ap (λ t. t ++ take n p) r.message
            ∙ append_assoc r.whole r.rest (take n p)
            ∙ sym (append-nil (r.whole ++ (r.rest ++ take n p)));
        whole_length = omega (
          arith,
          length-append r.whole (r.rest ++ take n p),
          length-append r.rest (take n p),
          length-take n p,
          r.whole_length,
          r.rest_length,
          r.room,
        );
        rest_length = refl;
        hashed =
            ap (λ t. block t (filled d p)) r.hashed
            ∙ ap (block (block init r.whole)) buffer
            ∙ sym (block-append r.chunks init r.whole (r.rest ++ take n p) r.whole_length);
        buffered = refl;
        room = omega arith;
        size = length-filled;
      }
