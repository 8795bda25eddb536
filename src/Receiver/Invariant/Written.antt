-- ===== src/Receiver/Invariant/Written.antt =====
-- filereceiver.go: `io.Copy`, the file and the digests.
use efes.Prelude.{
  ℕ, ◌+◌, ◌-◌, ◌≤◌, ◌≡◌, refl, ap, sym, subst, ◌∙◌, arith, some, List, [], ◌∷◌, ◌++◌, length, take,
  drop, replicate, length-append, length-take, take-append_le, take-append_add, take-length_append,
}
use mathlib.Core.List.{append_assoc, append-nil}
use efes.Sha1
use efes.Sha1.Digest.{Sha1Digest}
use efes.Sha1.Text.Sized.{write-IsSized}
use efes.Crc32
use efes.FileInfo.RoundTrip.{DigestsOf}
use efes.Receiver.Disk.{write_at}
use efes.Receiver.Copy.{Piece, whole, short, Copied, copied, copy}
use efes.Receiver.Invariant.{body_bytes, IsWhole}

pub take-write_at :
    (b : List ℕ) (n : ℕ) (p : List ℕ)
    → n ≤ length b
    → (take (n + length p) (write_at b n p) ≡ take n b ++ p)
      × (n + length p ≤ length (write_at b n p))
unfolding write_at
take-write_at b n p h =
    let zeros : List ℕ = replicate (n - length b) 0 in
    let tail = drop (n + length p) b in
    let front : take n (b ++ zeros) ≡ take n b = take-append_le n b zeros h in
    let size : length (take n b) ≡ n = omega (arith, length-take n b) in
    rw front (
      take-append_add (take n b) (p ++ tail) (n + length p) (length p) (omega (arith, size))
          ∙ ap (λ t. take n b ++ t) (take-length_append p tail),
      omega (arith, size, length-append (take n b) (p ++ tail), length-append p tail),
    )

-- What a copy has done when it ends.
pub record CopyDone (offset : ℕ) (body : List Piece) (c c' : Copied) : Type 0 where
  pub count : c'.n ≡ c.n + length (body_bytes body)
  pub within : offset + c'.n ≤ length c'.file
  pub content : take (offset + c'.n) c'.file ≡ take (offset + c.n) c.file ++ body_bytes body
  pub digests : DigestsOf c'.sha1 c'.crc32 (take (offset + c'.n) c'.file)

copy_whole :
    (offset : ℕ) (p : List ℕ) (ps : List Piece) (c : Copied) (sha1 : Sha1Digest)
    → Sha1.Digest.write c.sha1 p ≡ some sha1
    → copy offset (whole p ∷ ps) c
      ≡ copy offset ps (record {
        file = write_at c.file (offset + c.n) p;
        sha1 = sha1;
        crc32 = (Crc32.Digest.write c.crc32 p).0;
        n = c.n + length p;
      })
unfolding copy
copy_whole offset p ps c sha1 written = rw (written, copy)

-- A body that the file takes whole is copied with no panic, and the digests of the bytes before
-- the offset become those of the bytes up to the new offset.
pub copy_lem :
    (offset : ℕ) (body : List Piece) (c : Copied)
    → IsWhole body
    → offset + c.n ≤ length c.file
    → DigestsOf c.sha1 c.crc32 (take (offset + c.n) c.file)
    → (c' : Copied) × (copy offset body c ≡ copied c') × CopyDone offset body c c'
unfolding copy
copy_lem offset [] c w h d =
    (c, refl, record { count = omega arith; within = h; content = sym (append-nil _); digests = d })
copy_lem offset (short p k ∷ ps) c w h d = elim w [ ]
copy_lem offset (whole p ∷ ps) c (hp, w) h d =
    let m = take (offset + c.n) c.file in
    let (sha1, written, represents, sized) = write-IsSized c.sha1 m p d.sha1_of d.sized hp in
    let (content, within) = take-write_at c.file (offset + c.n) p h in
    let c1 : Copied = record {
      file = write_at c.file (offset + c.n) p;
      sha1 = sha1;
      crc32 = (Crc32.Digest.write c.crc32 p).0;
      n = c.n + length p;
    } in
    let place : offset + c1.n ≡ offset + c.n + length p = omega arith in
    let content1 : take (offset + c1.n) c1.file ≡ m ++ p =
      ap (λ t. take t c1.file) place ∙ content in
    let digests1 : DigestsOf c1.sha1 c1.crc32 (m ++ p) = record {
      sha1_of = represents;
      sized = sized;
      crc32_of = Crc32.Digest.write-Represents c.crc32 m p d.crc32_of hp;
    } in
    let (c', copied', done) =
      copy_lem offset ps c1 w (omega (arith, within))
        (subst (DigestsOf c1.sha1 c1.crc32) (sym content1) digests1) in
    (
      c',
      copy_whole offset p ps c sha1 written ∙ copied',
      record {
        count = omega (arith, done.count, length-append p (body_bytes ps));
        within = done.within;
        content =
            done.content ∙ ap (λ t. t ++ body_bytes ps) content1 ∙ append_assoc m p (body_bytes ps);
        digests = done.digests;
      },
    )
