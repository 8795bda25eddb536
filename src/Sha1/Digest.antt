-- ===== src/Sha1/Digest.antt =====
-- sha1.go: `sha1digest`, its buffer and `Write`. An int is its pattern of 64 bits.
use efes.Prelude.{
  ℕ, ◌+◌, ◌-◌, ◌*◌, ◌/◌, ◌%◌, ◌^◌, Bool, ◌&&◌, Option, none, some, List, [], ◌∷◌, ◌++◌, ltb, leb,
  ◌==◌, if◌then◌else◌, length, min, take, drop, replicate,
}
use mathlib.Core.Option
use efes.Sha1.{Words, init, chunk, block}

pub record Sha1Digest : Type 0 where
  pub h : Words
  pub x : List ℕ
  pub nx : ℕ
  pub len : ℕ

-- NewSha1: a zero value that is reset.
unfoldable pub new_sha1 : Sha1Digest
new_sha1 = record { h = init; x = replicate chunk 0; nx = 0; len = 0 }

-- `Reset` leaves the buffer's bytes.
unfoldable pub reset : Sha1Digest → Sha1Digest
reset d = record d { h = init; nx = 0; len = 0 }

-- Go's `copy(dst, src)`: as many as fit.
unfoldable pub copy : List ℕ → List ℕ → List ℕ
copy [] src = []
copy (d ∷ dst) [] = d ∷ dst
copy (d ∷ dst) (s ∷ src) = s ∷ copy dst src

-- `d.nx > 0` of a signed int.
unfoldable pub positive : ℕ → Bool
positive n = ltb 0 n && ltb n (2 ^ 63)

-- The digest so far, and the bytes that are still to be taken.
pub record Feed : Type 0 where
  pub digest : Sha1Digest
  pub rest : List ℕ

-- `n := copy(d.x[d.nx:], p); d.nx += n; if d.nx == chunk { block(d, d.x[:]); d.nx = 0 }; p = p[n:]`
unfoldable pub top_up : Sha1Digest → List ℕ → Feed
top_up d p =
    let n = min (chunk - d.nx) (length p) in
    let x = take d.nx d.x ++ copy (drop d.nx d.x) p in
    let full = d.nx + n == chunk in
    record {
      digest = record d {
        h = if full then block d.h x else d.h;
        x = x;
        nx = if full then 0 else d.nx + n;
      };
      rest = drop n p;
    }

-- `if d.nx > 0`; `none` is the panic of a slice out of bounds.
unfoldable pub fill : Sha1Digest → List ℕ → Option Feed
fill d p =
    if positive d.nx
    then (if ltb chunk d.nx then none else some (top_up d p))
    else some (record { digest = d; rest = p })

-- `if len(p) >= chunk { n := len(p) &^ (chunk - 1); block(d, p[:n]); p = p[n:] }`
unfoldable pub bulk : Feed → Feed
bulk s =
    let n = length s.rest / chunk * chunk in
    if leb chunk (length s.rest)
    then record {
      digest = record s.digest { h = block s.digest.h (take n s.rest) };
      rest = drop n s.rest;
    }
    else s

-- `if len(p) > 0 { d.nx = copy(d.x[:], p) }`
unfoldable pub keep : Feed → Sha1Digest
keep s =
    if ltb 0 (length s.rest)
    then record s.digest {
      x = copy s.digest.x s.rest;
      nx = min (length s.digest.x) (length s.rest);
    }
    else s.digest

unfoldable pub write : Sha1Digest → List ℕ → Option Sha1Digest
unfolding fill
write d p =
    Option.map (λ s. keep (bulk s)) (fill (record d { len = (d.len + length p) % 2 ^ 64 }) p)
