-- ===== src/Sha1/Text/RoundTrip.antt =====
-- sha1_efes.go: `MarshalText` and `UnmarshalText` together.
use efes.Prelude.{
  ℕ, ◌^◌, ◌≤◌, ◌<◌, ◌≡◌, arith, false, some, List, [], ◌++◌, ltb, ◌&&◌, length, All, All-append,
  length-append, take_all, drop_all, take-length_append, drop-length_append,
}
use efes.Encoding.{hex_encode, big_endian}
use efes.Encoding.Hex.{hex_decode-hex_encode, length-hex_encode}
use efes.Encoding.BigEndian.{length-big_endian, big_endian-IsByte, from_big_endian-big_endian}
use efes.Crc32.Update.Table.{IsByte}
use efes.Sha1.{Words}
use efes.Sha1.Digest.{Sha1Digest}
use efes.Sha1.Text.{fields, marshal_text, read, read_fields, read_decoded, unmarshal_text, max_int}

abbrev pub IsWords : Words → Type 0
IsWords h = (h.a < 2 ^ 32) × (h.b < 2 ^ 32) × (h.c < 2 ^ 32) × (h.d < 2 ^ 32) × (h.e < 2 ^ 32)

-- The fields are in the range of their Go types, and the buffer holds at most a chunk.
pub record IsSized (d : Sha1Digest) : Type 0 where
  pub words : IsWords d.h
  pub size : length d.x ≡ 64
  pub bytes : All IsByte d.x
  pub room : d.nx ≤ 64
  pub count : d.len < 2 ^ 64

read-append : (n : ℕ) (xs r : List ℕ) → length xs ≡ n → read n (xs ++ r) ≡ (xs, r)
unfolding read
read-append n xs r e = rw (← e) (λ i. (take-length_append xs r i, drop-length_append xs r i))

fields-IsByte : (d : Sha1Digest) → IsSized d → All IsByte (fields d)
unfolding fields
fields-IsByte d v =
    let word = λ (x : ℕ) (r : List ℕ) (h : All IsByte r).
      All-append IsByte (big_endian 4 x) r (big_endian-IsByte 4 x) h in
    word d.h.a _ (
      word d.h.b _ (
        word d.h.c _ (
          word d.h.d _ (
            word d.h.e _ (
              All-append IsByte d.x _ v.bytes (
                All-append IsByte (big_endian 8 d.nx) _ (big_endian-IsByte 8 d.nx)
                  (big_endian-IsByte 8 d.len)))))))

length-fields : (d : Sha1Digest) → IsSized d → length (fields d) ≡ 100
unfolding fields
length-fields d v =
    let tail8 = big_endian 8 d.nx ++ big_endian 8 d.len in
    let t5 = big_endian 4 d.h.e ++ (d.x ++ tail8) in
    let t4 = big_endian 4 d.h.d ++ t5 in
    let t3 = big_endian 4 d.h.c ++ t4 in
    let t2 = big_endian 4 d.h.b ++ t3 in
    omega (
      arith,
      length-append (big_endian 4 d.h.a) t2,
      length-append (big_endian 4 d.h.b) t3,
      length-append (big_endian 4 d.h.c) t4,
      length-append (big_endian 4 d.h.d) t5,
      length-append (big_endian 4 d.h.e) (d.x ++ tail8),
      length-append d.x tail8,
      length-append (big_endian 8 d.nx) (big_endian 8 d.len),
      length-big_endian,
      v.size,
    )

read_word : (k x : ℕ) (r : List ℕ) → read k (big_endian k x ++ r) ≡ (big_endian k x, r)
read_word k x r = read-append k (big_endian k x) r (length-big_endian k x)

read_last : (k x : ℕ) → read k (big_endian k x) ≡ (big_endian k x, [])
unfolding read
read_last k x =
    let fits : length (big_endian k x) ≤ k = omega (arith, length-big_endian k x) in
    λ i. (take_all k (big_endian k x) fits i, drop_all k (big_endian k x) fits i)

read_fields-fields : (d : Sha1Digest) → IsSized d → read_fields (fields d) ≡ some d
unfolding fields read_fields
read_fields-fields d v =
    let (wa, wb, wc, wd, we) = v.words in
    let fits : (ltb d.nx (2 ^ 63) && ltb max_int d.nx) ≡ false = ground (arith, v.room) in
    rw (read_word 4 d.h.a) (
      rw (read_word 4 d.h.b) (
        rw (read_word 4 d.h.c) (
          rw (read_word 4 d.h.d) (
            rw (read_word 4 d.h.e) (
              rw (read-append 64 d.x _ v.size) (
                rw (read_word 8 d.nx) (
                  rw (read_last 8 d.len) (
                    rw (from_big_endian-big_endian 4 d.h.a wa) (
                      rw (from_big_endian-big_endian 4 d.h.b wb) (
                        rw (from_big_endian-big_endian 4 d.h.c wc) (
                          rw (from_big_endian-big_endian 4 d.h.d wd) (
                            rw (from_big_endian-big_endian 4 d.h.e we) (
                              rw (from_big_endian-big_endian 8 d.nx (omega (arith, v.room))) (
                                rw (from_big_endian-big_endian 8 d.len v.count)
                                  (rw fits)))))))))))))))

-- A digest whose fields are in range is written as a text of 200 characters, from which the same
-- digest is read back.
pub sha1_text_round_trip :
    (d : Sha1Digest)
    → IsSized d
    → (unmarshal_text (marshal_text d) ≡ some d) × (length (marshal_text d) ≡ 200)
unfolding unmarshal_text marshal_text
sha1_text_round_trip d v =
    let decoded = hex_decode-hex_encode (fields d) (fields-IsByte d v) in
    let size : length (hex_encode (fields d)) ≡ 200 =
      omega (arith, length-hex_encode (fields d), length-fields d v) in
    (rw size (rw decoded (unfold read_decoded in read_fields-fields d v)), size)
