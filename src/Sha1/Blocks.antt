-- ===== src/Sha1/Blocks.antt =====
-- sha1.go: `block` on chunks one after the other, and its fuel.
use efes.Prelude.{
  ℕ, zero, suc, ◌*◌, ◌≤◌, ◌<◌, ◌≡◌, refl, ap, sym, ◌∙◌, arith, true, false, List, [], ◌∷◌, ◌++◌,
  leb, length, take, drop, length-append, length-drop, take-append_le, drop-append_le,
}
use native.Mathlib.Decide.{dec_lt}
use efes.Sha1.{Words, chunk, compress, block_loop, block}

loop_stops : (f : ℕ) (h : Words) (p : List ℕ) → length p < chunk → block_loop f h p ≡ h
unfolding block_loop
loop_stops zero h p s = refl
loop_stops (suc f) h p s =
    let short : leb chunk (length p) ≡ false = ground arith in rw (short, block_loop)

loop_goes_on :
    (f : ℕ) (h : Words) (p : List ℕ)
    → chunk ≤ length p
    → block_loop (suc f) h p ≡ block_loop f (compress h (take chunk p)) (drop chunk p)
unfolding block_loop
loop_goes_on f h p s =
    let long : leb chunk (length p) ≡ true = ground arith in rw (long, block_loop)

-- Any fuel that covers the data gives the same.
block_loop_fuel :
    (f g : ℕ) (h : Words) (p : List ℕ)
    → length p ≤ f
    → length p ≤ g
    → block_loop f h p ≡ block_loop g h p
block_loop_fuel zero g h p hf hg =
    loop_stops 0 h p (omega arith) ∙ sym (loop_stops g h p (omega arith))
block_loop_fuel (suc f) zero h p hf hg =
    loop_stops (suc f) h p (omega arith) ∙ sym (loop_stops 0 h p (omega arith))
block_loop_fuel (suc f) (suc g) h p hf hg = elim (dec_lt (length p) chunk) [
  | yes s ↦ loop_stops (suc f) h p s ∙ sym (loop_stops (suc g) h p s)
  | no s ↦
      loop_goes_on f h p (omega arith)
      ∙ block_loop_fuel f g (compress h (take chunk p)) (drop chunk p)
          (omega (arith, length-drop 64 p)) (omega (arith, length-drop 64 p))
      ∙ sym (loop_goes_on g h p (omega arith))
]

pub block-short : (h : Words) (p : List ℕ) → length p < chunk → block h p ≡ h
unfolding block
block-short h p s = loop_stops (length p) h p s

pub block_step :
    (h : Words) (p : List ℕ)
    → chunk ≤ length p
    → block h p ≡ block (compress h (take chunk p)) (drop chunk p)
unfolding block
block_step h p s =
    block_loop_fuel (length p) (suc (length p)) h p (omega arith) (omega arith)
    ∙ loop_goes_on (length p) h p s
    ∙ block_loop_fuel (length p) (length (drop chunk p)) (compress h (take chunk p)) (drop chunk p)
        (omega (arith, length-drop 64 p)) (omega arith)

-- Whole chunks first, then the rest.
pub block-append :
    (k : ℕ) (h : Words) (p q : List ℕ)
    → length p ≡ k * chunk
    → block h (p ++ q) ≡ block (block h p) q
block-append zero h [] q e = ap (λ t. block t q) (sym (block-short h [] (omega arith)))
block-append zero h (x ∷ p) q e = absurd (omega arith)
block-append (suc k) h p q e =
    block_step h (p ++ q) (omega (arith, length-append p q))
    ∙ rw (take-append_le 64 p q (omega arith)) (
        rw (drop-append_le 64 p q (omega arith)) (
          block-append k (compress h (take chunk p)) (drop chunk p) q
            (omega (arith, length-drop 64 p))
          ∙ ap (λ t. block t q) (sym (block_step h p (omega arith)))))
