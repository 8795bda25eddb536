-- ===== src/Sha1.antt =====
-- sha1.go: the block function. A uint32 is a natural below 2 ^ 32; sums wrap by `% 2 ^ 32`, shifts
-- are products and quotients by powers of two, `i&0xf` is a remainder by 16.
pub mod Blocks
pub mod Digest
pub mod Buffer
pub mod Stream
pub mod Sum
pub mod Text
use efes.Prelude.{
  ℕ, zero, suc, ◌+◌, ◌-◌, ◌*◌, ◌/◌, ◌%◌, ◌^◌, true, false, List, [], ◌∷◌, bit_and, bit_or, bit_xor,
  leb, length, get_or, set, take, drop,
}

abbrev pub chunk : ℕ
chunk = 64

-- `h [5]uint32`, and the variables a, b, c, d, e of a block.
pub record Words : Type 0 where
  pub a : ℕ
  pub b : ℕ
  pub c : ℕ
  pub d : ℕ
  pub e : ℕ

-- init0 to init4
abbrev pub init : Words
init = record { a = 0x67452301; b = 0xEFCDAB89; c = 0x98BADCFE; d = 0x10325476; e = 0xC3D2E1F0 }

-- `x<<n | x>>(32-n)`
unfoldable pub rotate_left : ℕ → ℕ → ℕ
rotate_left n x = bit_or (x * 2 ^ n % 2 ^ 32) (x / 2 ^ (32 - n))

-- The functions of the rounds: `b&c | (^b)&d`, `b ^ c ^ d` and `((b | c) & d) | (b & c)`.
unfoldable pub choose : ℕ → ℕ → ℕ → ℕ
choose b c d = bit_or (bit_and b c) (bit_and (bit_xor b 0xffffffff) d)

unfoldable pub parity : ℕ → ℕ → ℕ → ℕ
parity b c d = bit_xor (bit_xor b c) d

unfoldable pub majority : ℕ → ℕ → ℕ → ℕ
majority b c d = bit_or (bit_and (bit_or b c) d) (bit_and b c)

-- `w[i] = uint32(p[j])<<24 | uint32(p[j+1])<<16 | uint32(p[j+2])<<8 | uint32(p[j+3])`, for `n` words.
unfoldable pub load_words : ℕ → List ℕ → List ℕ
load_words zero p = []
load_words (suc n) p =
    bit_or (bit_or (bit_or (get_or p 0 0 * 2 ^ 24) (get_or p 1 0 * 2 ^ 16)) (get_or p 2 0 * 2 ^ 8))
      (get_or p 3 0)
    ∷ load_words n (drop 4 p)

-- `tmp := w[(i-3)&0xf] ^ w[(i-8)&0xf] ^ w[(i-14)&0xf] ^ w[(i)&0xf]; w[i&0xf] = tmp<<1 | tmp>>(32-1)`
unfoldable pub expand : List ℕ → ℕ → List ℕ
expand w i =
    let tmp =
      bit_xor
        (bit_xor (bit_xor (get_or w ((i - 3) % 16) 0) (get_or w ((i - 8) % 16) 0))
          (get_or w ((i - 14) % 16) 0))
        (get_or w (i % 16) 0) in
    set w (i % 16) (rotate_left 1 tmp)

-- `t := a5 + f + e + w[i&0xf] + _K; a, b, c, d, e = t, a, b30, c, d`
unfoldable pub round : (ℕ → ℕ → ℕ → ℕ) → ℕ → ℕ → Words → Words
round f k wi s = record {
  a = (rotate_left 5 s.a + f s.b s.c s.d + s.e + wi + k) % 2 ^ 32;
  b = s.a;
  c = rotate_left 30 s.b;
  d = s.c;
  e = s.d;
}

-- `for ; i < i + n; i++` without and with the expansion of the message words.
unfoldable pub plain_rounds : ℕ → (ℕ → ℕ → ℕ → ℕ) → ℕ → ℕ → List ℕ → Words → Words
plain_rounds zero f k i w s = s
plain_rounds (suc n) f k i w s = plain_rounds n f k (i + 1) w (round f k (get_or w (i % 16) 0) s)

unfoldable pub rounds : ℕ → (ℕ → ℕ → ℕ → ℕ) → ℕ → ℕ → List ℕ × Words → List ℕ × Words
rounds zero f k i (w, s) = (w, s)
rounds (suc n) f k i (w, s) =
    let w' = expand w i in rounds n f k (i + 1) (w', round f k (get_or w' (i % 16) 0) s)

-- `h0 += a`, and so on.
unfoldable pub add_words : Words → Words → Words
add_words h s = record {
  a = (h.a + s.a) % 2 ^ 32;
  b = (h.b + s.b) % 2 ^ 32;
  c = (h.c + s.c) % 2 ^ 32;
  d = (h.d + s.d) % 2 ^ 32;
  e = (h.e + s.e) % 2 ^ 32;
}

-- The body of the loop of `block`: one chunk of 64 bytes.
unfoldable pub compress : Words → List ℕ → Words
compress h p =
    let w = load_words 16 p in
    let s = plain_rounds 16 choose 0x5A827999 0 w h in
    let r = rounds 4 choose 0x5A827999 16 (w, s) in
    let r = rounds 20 parity 0x6ED9EBA1 20 r in
    let r = rounds 20 majority 0x8F1BBCDC 40 r in
    let r = rounds 20 parity 0xCA62C1D6 60 r in add_words h r.1

-- `for len(p) >= chunk`, on fuel: each round takes 64 bytes.
unfoldable pub block_loop : ℕ → Words → List ℕ → Words
block_loop zero h p = h
block_loop (suc fuel) h p = elim (leb chunk (length p)) [
  | true ↦ block_loop fuel (compress h (take chunk p)) (drop chunk p)
  | false ↦ h
]

-- The length of the data is fuel enough.
unfoldable pub block : Words → List ℕ → Words
block h p = block_loop (length p) h p
