-- ===== src/IoStat/Mounts.antt =====
-- iostat.go: findLongestPrefix finds the longest prefix.
use efes.Prelude.{
  ℕ, suc, ◌+◌, ◌≤◌, ◌<◌, ◌≡◌, ◌⊎◌, refl, ap, sym, subst, ◌∙◌, arith, Bool, true, false, Option,
  none, some, List, [], ◌∷◌, leb, length, Bool-cases, inl, inr,
}
use efes.Prelude.Members.{In, get_elem?, either}
use efes.IoStat.{has_prefix, Best, better, prefix_loop, find_longest_prefix}

module _ (s : List ℕ) where
  -- An element of the list that is a prefix, by its index.
  abbrev pub IsAt : ℕ → List (List ℕ) → List ℕ → Type 0
  IsAt k prefixes p = (get_elem? prefixes k ≡ some p) × (has_prefix s p ≡ true)

  -- What the loop makes of its variables.
  record Looped (i : ℕ) (prefixes : List (List ℕ)) (b r : Best) : Type 0 where
    grows : b.len_found ≤ r.len_found
    longest : (q : List ℕ) → In q prefixes → has_prefix s q ≡ true → length q ≤ r.len_found
    source :
        (r ≡ b)
        ⊎ ((k : ℕ) × ((p : List ℕ) × (r.found ≡ some (i + k))
              × (length p ≡ r.len_found)
              × IsAt k prefixes p))

  better-cases :
      (i : ℕ) (pfx : List ℕ) (b : Best)
      → ((better s i pfx b ≡ b) × (has_prefix s pfx ≡ true → length pfx ≤ b.len_found))
        ⊎ ((better s i pfx b ≡ record { found = some i; len_found = length pfx })
            × (has_prefix s pfx ≡ true)
            × (b.len_found < length pfx))
  unfolding better
  better-cases i pfx b = elim (Bool-cases (has_prefix s pfx)) [
    | inr other ↦ inl (rw other refl, λ h. absurd (clash (has_prefix s pfx) other h))
    | inl matches ↦ elim (Bool-cases (leb (length pfx) b.len_found)) [
      | inl short ↦ inl (rw matches (rw short refl), λ h. ground (arith, short))
      | inr long ↦ inr (rw matches (rw long refl), matches, ground (arith, long))
    ]
  ]
    where
      clash : (a : Bool) → a ≡ false → a ≡ true → ⊥
      clash true e h = cc
      clash false e h = cc

  prefix_loop-Looped :
      (i : ℕ) (prefixes : List (List ℕ)) (b : Best)
      → Looped i prefixes b (prefix_loop s i prefixes b)
  unfolding prefix_loop
  prefix_loop-Looped i [] b = record {
    grows = omega arith;
    longest = λ q m h. absurd m;
    source = inl refl;
  }
  prefix_loop-Looped i (pfx ∷ prefixes) b =
      go (better-cases i pfx b) (prefix_loop-Looped (suc i) prefixes (better s i pfx b))
    where
      later :
          (b' r : Best)
          → (r ≡ b')
            ⊎ ((k : ℕ) × ((p : List ℕ) × (r.found ≡ some (suc i + k))
                  × (length p ≡ r.len_found)
                  × IsAt k prefixes p))
          → (r ≡ b')
            ⊎ ((k : ℕ) × ((p : List ℕ) × (r.found ≡ some (i + k))
                  × (length p ≡ r.len_found)
                  × IsAt k (pfx ∷ prefixes) p))
      later b' r (inl e) = inl e
      later b' r (inr (k, (p, found, size, there))) =
          inr (suc k, (p, found ∙ ap some (omega arith), size, there))

      go :
          {r : Best}
          → ((better s i pfx b ≡ b) × (has_prefix s pfx ≡ true → length pfx ≤ b.len_found))
            ⊎ ((better s i pfx b ≡ record { found = some i; len_found = length pfx })
                × (has_prefix s pfx ≡ true)
                × (b.len_found < length pfx))
          → Looped (suc i) prefixes (better s i pfx b) r
          → Looped i (pfx ∷ prefixes) b r
      go {r} (inl (same, short)) h = record {
        grows = omega (arith, h.grows, ap (λ t. t.len_found) same);
        longest = λ q m test.
            either
              (λ e.
                (let le = short (ap (has_prefix s) (sym e) ∙ test) in
                  omega (arith, le, ap length e, h.grows, ap (λ t. t.len_found) same)))
              (λ there. h.longest q there test) m;
        source = either (λ e. inl (e ∙ same)) inr (later (better s i pfx b) r h.source);
      }
      go {r} (inr (new, matches, long)) h = record {
        grows = omega (arith, h.grows, long, ap (λ t. t.len_found) new);
        longest = λ q m test.
            either (λ e. omega (arith, ap length e, h.grows, ap (λ t. t.len_found) new))
              (λ there. h.longest q there test) m;
        source =
            either
              (λ e. inr (
                0,
                (
                  pfx,
                  ap (λ t. t.found) (e ∙ new) ∙ ap some (omega arith),
                  sym (ap (λ t. t.len_found) (e ∙ new)),
                  (refl, matches),
                ),
              ))
              inr (later (better s i pfx b) r h.source);
      }

  -- The index that is found, or none.
  abbrev pub FindsLongest : List (List ℕ) → Option ℕ → Type 0
  FindsLongest prefixes none = (q : List ℕ) → In q prefixes → has_prefix s q ≡ true → q ≡ []
  FindsLongest prefixes (some k) =
      (p : List ℕ) × IsAt k prefixes p
      × ((q : List ℕ) → In q prefixes → has_prefix s q ≡ true → length q ≤ length p)

  -- findLongestPrefix returns the index of a prefix that is at least as long as every other prefix
  -- in the list, or -1 if there is none but the empty one.
  pub find_longest_prefix-FindsLongest :
      (prefixes : List (List ℕ)) → FindsLongest prefixes (find_longest_prefix s prefixes)
  unfolding find_longest_prefix
  find_longest_prefix-FindsLongest prefixes =
      go _ (prefix_loop-Looped 0 prefixes (record { found = none; len_found = 0 }))
    where
      empty : (q : List ℕ) → length q ≤ 0 → q ≡ []
      empty [] h = refl
      empty (x ∷ xs) h = absurd (omega arith)

      go :
          (r : Best)
          → Looped 0 prefixes (record { found = none; len_found = 0 }) r
          → FindsLongest prefixes r.found
      go r h =
          either
            (λ e.
              subst (λ t. FindsLongest prefixes t.found) (sym e)
                (λ q m test. empty q (subst (λ t. length q ≤ t.len_found) e (h.longest q m test))))
            (λ (k, (p, found, size, there)).
              subst (FindsLongest prefixes) (sym (found ∙ ap some (omega arith)))
                (p, there, λ q m test. omega (arith, h.longest q m test, size)))
            h.source
