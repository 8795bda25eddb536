-- ===== src/Client/Enough.antt =====
-- write.go: the fuel of the loop of `send`.
use efes.Prelude.{
  ℕ, zero, suc, ◌+◌, ◌-◌, ◌≤◌, ◌<◌, ◌≡◌, refl, ap, sym, subst, ◌∙◌, arith, Bool, true, false,
  Option, List, ltb, ◌==◌, length, take, drop, Bool-cases, inl, inr,
}
use efes.Receiver.Disk.{Slot}
use efes.Receiver.Http.{Request}
use efes.Client.{Sha1File, bytes, new_sha1_file, read_limited}
use efes.Client.Reading.{Follows, new_sha1_file-Follows, ReadDone, read_limited-done}
use efes.Client.Send.{
  Upload, Sent, sent, failed, crashed, Exchange, Config, limit_of, patch_at, finish_file, is_size,
  send, Offset, at_offset, no_offset, get_offset, Attempt, finished, again, permanent, crash,
  after_send, sought, resume, attempt, retry, conclude, send_file,
}
use efes.Client.Requests.{Digests, Digests-Follows, KeepsFile, IsRefusal, seek-forward, seek-back}
use efes.Client.Safety.{
  IsSizeOf, AttemptSafe, after_send-Safe, OffsetSafe, offset_of-Safe, resume-Safe,
  patch_at-KeepsFile, send-Safe,
}

-- The two tests of the loop of `send`: only the rest may differ.
tests-same :
    (now finish : Sent) {rest other : Sent} (at_size at_end : Bool)
    → (at_end ≡ false → rest ≡ other)
    → elim at_size [ true ↦ now | false ↦ elim at_end [ true ↦ finish | false ↦ rest ] ]
      ≡ elim at_size [ true ↦ now | false ↦ elim at_end [ true ↦ finish | false ↦ other ] ]
tests-same now finish true at_end h = refl
tests-same now finish false true h = refl
tests-same now finish false false h = h refl

module _ (exchange : Exchange) (c : Config) (content : List ℕ) (some_chunk : 0 < c.chunk_size)
    (some_buffer : 0 < c.buffer)
    (reads : (i : ℕ) (q : Request) (s : Slot) → c.takes i ≡ 0 → IsRefusal (exchange i q s).0) where
  -- With a chunk size and a buffer that are not 0, and no success for a request of whose body nothing
  -- was taken, the loop of `send` ends whatever the server and the network do: from any offset at which
  -- the reader stands, with any fuels that exceed the number of bytes left, it comes to the same end.
  -- How often the caller tries again is left to backoff.
  pub send-ends :
      (k l offset : ℕ) (size : Option ℕ) (u : Upload)
      → length content - offset < k
      → length content - offset < l
      → Follows u.file
      → u.file.content ≡ content
      → u.file.position ≡ offset
      → send exchange c k offset size u ≡ send exchange c l offset size u
  unfolding send
  send-ends zero l offset size u lt lt' h e place = absurd (omega arith)
  send-ends (suc k) zero offset size u lt lt' h e place = absurd (omega arith)
  send-ends (suc k) (suc l) offset size u lt lt' h e place =
      rw (got, send)
        (after (patch_at exchange c offset size (c.cut p) (record u { file = f }))
          (patch_at-KeepsFile exchange c content some_chunk some_buffer reads offset size (c.cut p)
            (record u { file = f }))
          (λ u' kept more.
            send-ends k l (offset + length p) size u' (less k lt more) (less l lt' more)
              (subst Follows (sym kept) r.follows) (ap (λ t. t.content) kept ∙ r.same_content ∙ e)
              (ap (λ t. t.position) kept ∙ moved)))
    where
      found :
          (g : Sha1File) × (read_limited c.buffer (suc c.chunk_size) (limit_of c u) u.file
            ≡ bytes (take (limit_of c u) (drop u.file.position u.file.content)) g)
          × ReadDone u.file (take (limit_of c u) (drop u.file.position u.file.content)) g
      found =
          read_limited-done c.buffer some_buffer (suc c.chunk_size) (limit_of c u) u.file
            (omega arith) h

      f : Sha1File
      f = found.0

      p : List ℕ
      p = take (limit_of c u) (drop u.file.position u.file.content)

      got : read_limited c.buffer (suc c.chunk_size) (limit_of c u) u.file ≡ bytes p f
      got = found.1

      r : ReadDone u.file p f
      r = found.2

      moved : f.position ≡ offset + length p
      moved = r.moved ∙ ap (λ t. t + length p) place

      in_file : f.position ≤ length content
      in_file =
          subst (λ t. f.position ≤ length t) (r.same_content ∙ e)
            (omega (arith, r.follows.behind, r.follows.within))

      less :
          (n : ℕ)
          → length content - offset < suc n
          → (length p == 0) ≡ false
          → length content - (offset + length p) < n
      less n lt more = ground (arith, lt, more, in_file, moved)

      after :
          (o : Sent)
          → KeepsFile f o
          → ((u' : Upload)
              → u'.file ≡ f
              → (length p == 0) ≡ false
              → send exchange c k (offset + length p) size u'
                ≡ send exchange c l (offset + length p) size u')
          → elim o [
            | crashed ↦ crashed
            | failed x u' ↦ failed x u'
            | sent sums u' ↦ elim (is_size size (offset + length p)) [
              | true ↦ sent sums u'
              | false ↦ elim (length p == 0) [
                | true ↦ finish_file exchange c offset u'
                | false ↦ send exchange c k (offset + length p) size u'
              ]
            ]
          ]
            ≡ elim o [
              | crashed ↦ crashed
              | failed x u' ↦ failed x u'
              | sent sums u' ↦ elim (is_size size (offset + length p)) [
                | true ↦ sent sums u'
                | false ↦ elim (length p == 0) [
                  | true ↦ finish_file exchange c offset u'
                  | false ↦ send exchange c l (offset + length p) size u'
                ]
              ]
            ]
      after crashed kept rest = refl
      after (failed x u') kept rest = refl
      after (sent sums u') kept rest =
          tests-same (sent sums u') (finish_file exchange c offset u')
            (is_size size (offset + length p)) (length p == 0) (rest u' kept)

  module _ (k l : ℕ) (enough : length content < k) (enough' : length content < l) (size : Option ℕ)
      (fits : IsSizeOf exchange c content some_chunk some_buffer reads size) where
    resume-same :
        (o : Offset)
        → OffsetSafe exchange c content some_chunk some_buffer reads o
        → resume exchange c k size o ≡ resume exchange c l size o
    unfolding resume sought
    resume-same (no_offset u) h = refl
    resume-same (at_offset n u) h = elim (Bool-cases (ltb u.file.position n)) [
      | inl forward ↦ rw (seek-forward u.file n forward) refl
      | inr back ↦ rw (seek-back u.file n back) (
          ap after_send (
            send-ends k l n size (record u { file = record u.file { at = n; position = n } })
              (omega (arith, enough)) (omega (arith, enough'))
              (Digests-Follows content (record u.file { at = n; position = n })
                (record {
                  same_content = h.same_content;
                  digested = h.digested;
                  behind = ground (arith, h.behind, back);
                  within = h.within;
                })
                refl)
              h.same_content refl))
    ]

    -- After a try with the same outcome, tries with the same outcomes.
    tries-same :
        (tries : ℕ) (a : Attempt)
        → AttemptSafe exchange c content some_chunk some_buffer reads a
        → ((u : Upload)
            → Digests content u.file
            → retry exchange c k size tries false u ≡ retry exchange c l size tries false u)
        → elim a [
          | finished sums remote u' ↦ finished sums remote u'
          | again u' ↦ elim (c.gives_up u'.calls) [
            | true ↦ again u'
            | false ↦ retry exchange c k size tries false u'
          ]
          | permanent u' ↦ permanent u'
          | crash ↦ crash
        ]
          ≡ elim a [
            | finished sums remote u' ↦ finished sums remote u'
            | again u' ↦ elim (c.gives_up u'.calls) [
              | true ↦ again u'
              | false ↦ retry exchange c l size tries false u'
            ]
            | permanent u' ↦ permanent u'
            | crash ↦ crash
          ]
    tries-same tries (finished sums remote u) h rest = refl
    tries-same tries (again u) h rest =
        ap (λ a. elim (c.gives_up u.calls) as (λ x. Attempt) [ true ↦ again u | false ↦ a ])
          (rest u h)
    tries-same tries (permanent u) h rest = refl
    tries-same tries crash h rest = refl

    retry-same :
        (tries : ℕ) (u : Upload)
        → Digests content u.file
        → retry exchange c k size tries false u ≡ retry exchange c l size tries false u
    unfolding retry attempt get_offset
    retry-same zero u h = refl
    retry-same (suc tries) u h =
        let asked = offset_of-Safe exchange c content some_chunk some_buffer reads u _ h in
        rw (resume-same (get_offset exchange c u) asked, retry, attempt)
          (tries-same tries (resume exchange c l size (get_offset exchange c u))
            (resume-Safe exchange c content some_chunk some_buffer reads l size
              (get_offset exchange c u) fits asked)
            (λ u' h'. retry-same tries u' h'))

    first-same :
        (tries : ℕ) (u : Upload)
        → Follows u.file
        → u.file.content ≡ content
        → u.file.position ≡ 0
        → retry exchange c k size tries true u ≡ retry exchange c l size tries true u
    unfolding retry attempt
    first-same zero u h e place = refl
    first-same (suc tries) u h e place =
        rw
          (
            send-ends k l 0 size u (omega (arith, enough)) (omega (arith, enough')) h e place,
            retry,
            attempt,
          )
          (tries-same tries (after_send (send exchange c l 0 size u))
            (after_send-Safe exchange c content some_chunk some_buffer reads
              (send exchange c l 0 size u)
              (send-Safe exchange c content some_chunk some_buffer reads l 0 size u fits h e place))
            (λ u' h'. retry-same tries u' h'))

    -- So the fuel for requests does not matter in the tries of sendFile that are looked at.
    send_file-ends :
        (tries : ℕ) (s : Slot)
        → send_file exchange c k tries size content s ≡ send_file exchange c l tries size content s
    unfolding send_file new_sha1_file
    send_file-ends tries s = ap conclude (
        first-same tries (record { file = new_sha1_file content; slot = s; calls = 0 })
          (new_sha1_file-Follows content) refl refl)
