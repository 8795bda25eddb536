-- ===== src/Sha1/Sum.antt =====
-- sha1.go: `Sum` and `checkSum`, against SHA-1 of a whole message with the padding of RFC 3174.
use efes.Prelude.{
  ℕ, suc, ◌+◌, ◌-◌, ◌*◌, ◌%◌, ◌^◌, ◌≡◌, refl, ap, sym, subst, ◌∙◌, arith, true, Option, none, some,
  List, ◌∷◌, ◌++◌, ltb, ◌==◌, if◌then◌else◌, length, take, replicate, length-append,
  length-replicate, take-replicate, All, All-append, ◌<◌,
}
use mathlib.Core.List.{append_assoc, append-nil}
use mathlib.Core.Option
use efes.Encoding.{big_endian}
use efes.Encoding.BigEndian.{length-big_endian, big_endian-IsByte}
use efes.Sha1.{Words, init, block}
use efes.Sha1.Digest.{Sha1Digest, write}
use efes.Sha1.Buffer.{Holds, Represents}
use efes.Sha1.Stream.{write-Represents, nil_of_length}

-- `tmp[0] = 0x80`, and zeros.
abbrev tmp : List ℕ
tmp = 0x80 ∷ replicate 63 0

-- `if len%64 < 56 { 56-len%64 } else { 64+56-len%64 }`
unfoldable pub pad_length : ℕ → ℕ
pad_length len = if ltb (len % 64) 56 then 56 - len % 64 else 64 + 56 - len % 64

-- The loop that lays the words of `d.h` out, high byte first.
unfoldable pub digest_bytes : Words → List ℕ
digest_bytes h =
    big_endian 4 h.a
    ++ (big_endian 4 h.b ++ (big_endian 4 h.c ++ (big_endian 4 h.d ++ big_endian 4 h.e)))

-- `if d.nx != 0 { panic }`
unfoldable pub finish : Sha1Digest → Option (List ℕ)
finish d = if d.nx == 0 then some (digest_bytes d.h) else none

infixl 5 ◌>>=◌
abbrev ◌>>=◌ : {A B : Type 0} → Option A → (A → Option B) → Option B
none >>= f = none
some a >>= f = f a

-- `checkSum`; `none` is a panic.
unfoldable pub check_sum : Sha1Digest → Option (List ℕ)
check_sum d = do
  padded ← write d (take (pad_length d.len) tmp)
  full ← write padded (big_endian 8 (d.len * 2 ^ 3 % 2 ^ 64))
  finish full

-- `Sum` works on a copy of the digest and appends to its argument.
unfoldable pub sum : Sha1Digest → List ℕ → Option (List ℕ)
sum d input = Option.map (λ hash. input ++ hash) (check_sum d)

-- The padding of a message of `n` bytes: a one bit, zeros, and the length in bits.
unfoldable pub padding : ℕ → List ℕ
padding n = (0x80 ∷ replicate ((119 - n % 64) % 64) 0) ++ big_endian 8 (n * 8 % 2 ^ 64)

-- SHA-1 of a whole message.
unfoldable pub sha1 : List ℕ → List ℕ
sha1 m = digest_bytes (block init (m ++ padding (length m)))

-- A hash is a list of bytes.
pub sha1-IsByte : (m : List ℕ) → All (λ b. b < 256) (sha1 m)
unfolding sha1 digest_bytes
sha1-IsByte m =
    let h = block init (m ++ padding (length m)) in
    All-append _ (big_endian 4 h.a) _ (big_endian-IsByte 4 h.a) (
      All-append _ (big_endian 4 h.b) _ (big_endian-IsByte 4 h.b) (
        All-append _ (big_endian 4 h.c) _ (big_endian-IsByte 4 h.c) (
          All-append _ (big_endian 4 h.d) (big_endian 4 h.e) (big_endian-IsByte 4 h.d)
            (big_endian-IsByte 4 h.e))))

pub length-sha1 : (m : List ℕ) → length (sha1 m) ≡ 20
unfolding sha1 digest_bytes
length-sha1 m =
    let h = block init (m ++ padding (length m)) in
    omega (
      arith,
      length-append (big_endian 4 h.a)
          (big_endian 4 h.b ++ (big_endian 4 h.c ++ (big_endian 4 h.d ++ big_endian 4 h.e))),
      length-append (big_endian 4 h.b) (big_endian 4 h.c ++ (big_endian 4 h.d ++ big_endian 4 h.e)),
      length-append (big_endian 4 h.c) (big_endian 4 h.d ++ big_endian 4 h.e),
      length-append (big_endian 4 h.d) (big_endian 4 h.e),
      length-big_endian 4 h.a,
      length-big_endian 4 h.b,
      length-big_endian 4 h.c,
      length-big_endian 4 h.d,
      length-big_endian 4 h.e,
    )

-- The number of zeros behind the one bit.
abbrev zeros : ℕ → ℕ
zeros n = (119 - n % 64) % 64

pad_length_lem : (n : ℕ) → pad_length (n % 2 ^ 64) ≡ suc (zeros n)
unfolding pad_length
pad_length_lem n = ground arith

first_padding : (n : ℕ) → take (pad_length (n % 2 ^ 64)) tmp ≡ 0x80 ∷ replicate (zeros n) 0
first_padding n =
    ap (λ t. take t tmp) (pad_length_lem n)
    ∙ ap (λ t. 0x80 ∷ t) (take-replicate (zeros n) 63 0 (omega arith))

finish_lem :
    (d : Sha1Digest) (m : List ℕ)
    → Holds d m
    → length m % 64 ≡ 0
    → finish d ≡ some (digest_bytes (block init m))
unfolding finish
finish_lem d m r e =
    let total : length m ≡ length r.whole + length r.rest =
      ap length r.message ∙ length-append r.whole r.rest in
    let none_left : d.nx ≡ 0 = omega (arith, r.whole_length, r.rest_length, r.room, total) in
    let empty = nil_of_length r.rest (r.rest_length ∙ none_left) in
    let whole : r.whole ≡ m = sym (r.message ∙ ap (λ t. r.whole ++ t) empty ∙ append-nil r.whole) in
    let done : (d.nx == 0) ≡ true = ground arith in
    rw done (ap (λ t. some (digest_bytes t)) (r.hashed ∙ ap (block init) whole))

padded_length :
    (m : List ℕ) (z bits : ℕ)
    → z ≡ zeros (length m)
    → length ((m ++ 0x80 ∷ replicate z 0) ++ big_endian 8 bits) % 64 ≡ 0
padded_length m z bits e = omega (
  arith,
  length-append (m ++ 0x80 ∷ replicate z 0) (big_endian 8 bits),
  length-append m (0x80 ∷ replicate z 0),
  length-replicate z (let a : ℕ = 0 in a),
  length-big_endian 8 bits,
)

-- `checkSum` of a digest that stands for `m` does not panic, and is SHA-1 of the whole of `m`.
pub check_sum_lem : (d : Sha1Digest) (m : List ℕ) → Represents d m → check_sum d ≡ some (sha1 m)
unfolding check_sum sha1 padding
check_sum_lem d m r =
    let bits = length m * 8 % 2 ^ 64 in
    let pad = 0x80 ∷ replicate (zeros (length m)) 0 in
    let (d1, w1, r1) = write-Represents d m (take (pad_length d.len) tmp) r in
    let (d2, w2, r2) =
      write-Represents d1 (m ++ take (pad_length d.len) tmp) (big_endian 8 (d.len * 2 ^ 3 % 2 ^ 64))
        r1 in
    let message : (m ++ take (pad_length d.len) tmp) ++ big_endian 8 (d.len * 2 ^ 3 % 2 ^ 64)
        ≡ (m ++ pad) ++ big_endian 8 bits =
      ap (λ t. (m ++ take (pad_length t) tmp) ++ big_endian 8 (t * 2 ^ 3 % 2 ^ 64)) r.counted
      ∙ ap (λ t. (m ++ t) ++ big_endian 8 (length m % 2 ^ 64 * 2 ^ 3 % 2 ^ 64))
          (first_padding (length m))
      ∙ ap (λ t. (m ++ pad) ++ big_endian 8 t) (omega arith) in
    let full =
      finish_lem d2 ((m ++ pad) ++ big_endian 8 bits) (subst (Holds d2) message r2.holds)
        (padded_length m (zeros (length m)) bits refl) in
    ap (λ t. t >>= λ padded. write padded (big_endian 8 (d.len * 2 ^ 3 % 2 ^ 64)) >>= finish) w1
    ∙ ap (λ t. t >>= finish) w2
    ∙ full
    ∙ ap (λ t. some (digest_bytes (block init t))) (append_assoc m pad (big_endian 8 bits))
