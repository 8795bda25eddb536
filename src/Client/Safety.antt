-- ===== src/Client/Safety.antt =====
-- write.go: what `sendFile` has made sure of when it succeeds, whatever the network and the server do.
use efes.Prelude.{
  ℕ, zero, suc, ◌+◌, ◌≤◌, ◌<◌, ◌≡◌, refl, ap, sym, subst, ◌∙◌, arith, Bool, true, false, Option,
  none, some, List, [], ltb, ◌==◌, ==_iff, length, take, drop, take_all, length-take, length-drop,
  Bool-cases, inl, inr,
}
use efes.Prelude.Text.{equal_bytes, equal_bytes-eq}
use efes.Prelude.Int.{pos, negsuc}
use efes.Encoding.{hex_decode}
use efes.Receiver.Disk.{Slot}
use efes.Receiver.Copy.{Piece}
use efes.Receiver.Http.{Request, Response, response, dropped}
use efes.Sha1
use efes.Sha1.Buffer.{Represents}
use efes.Sha1.Sum.{sha1, check_sum_lem}
use efes.Client.{Sha1File, bytes, new_sha1_file, read_limited, sum}
use efes.Client.Reading.{Follows, new_sha1_file-Follows, ReadDone, read_limited-done}
use efes.Client.Send.{
  Checksums, client_error, other_error, Upload, Sent, sent, failed, crashed, Exchange, Config,
  limit_of, patch_at, patch_request, finish_file, is_size, send, Offset, at_offset, no_offset,
  offset_of, get_offset, Attempt, finished, again, permanent, crash, decode_remote, after_send,
  sought, resume, attempt, retry, Uploaded, uploaded, not_uploaded, upload_crashed, compare_sums,
  conclude, send_file,
}
use efes.Client.Requests.{
  Digests, IsFull, Follows-Digests, Digests-Follows, KeepsFile, checked-KeepsFile, IsRefusal,
  NotSent, checked-NotSent, seek-forward, seek-back,
}

module _ (exchange : Exchange) (c : Config) (content : List ℕ) (some_chunk : 0 < c.chunk_size)
    (some_buffer : 0 < c.buffer)
    (reads : (i : ℕ) (q : Request) (s : Slot) → c.takes i ≡ 0 → IsRefusal (exchange i q s).0) where
  -- The size is that of the file, or it is not known.
  abbrev pub IsSizeOf : Option ℕ → Type 0
  IsSizeOf none = Unit
  IsSizeOf (some n) = n ≡ length content

  abbrev pub SendSafe : Sent → Type 0
  SendSafe (sent sums u) = IsFull content u.file
  SendSafe (failed e u) = Digests content u.file
  SendSafe crashed = ⊥

  pub patch_at-KeepsFile :
      (offset : ℕ) (size : Option ℕ) (body : List Piece) (u : Upload)
      → KeepsFile u.file (patch_at exchange c offset size body u)
  unfolding patch_at
  patch_at-KeepsFile offset size body u =
      checked-KeepsFile u (exchange u.calls (patch_request c offset size body) u.slot)

  pub patch_at-NotSent :
      (offset : ℕ) (size : Option ℕ) (body : List Piece) (u : Upload)
      → c.takes u.calls ≡ 0
      → NotSent (patch_at exchange c offset size body u)
  unfolding patch_at
  patch_at-NotSent offset size body u z =
      checked-NotSent u (exchange u.calls (patch_request c offset size body) u.slot)
        (reads u.calls (patch_request c offset size body) u.slot z)

  positive_of : (n : ℕ) → (n ≡ 0 → ⊥) → 0 < n
  positive_of zero h = absurd (h refl)
  positive_of (suc n) h = omega arith

  kept-Digests : (f : Sha1File) (r : Sent) → IsFull content f → KeepsFile f r → SendSafe r
  kept-Digests f (sent sums u) h e = subst (IsFull content) (sym e) h
  kept-Digests f (failed x u) h e = subst (Digests content) (sym e) h.digests
  kept-Digests f crashed h e = absurd e

  -- The two tests of the loop of `send`.
  choose :
      (at_size at_end : Bool) (now finish rest : Sent)
      → (at_size ≡ true → SendSafe now)
      → (at_end ≡ true → SendSafe finish)
      → SendSafe rest
      → SendSafe
          (elim at_size [ true ↦ now | false ↦ elim at_end [ true ↦ finish | false ↦ rest ] ])
  choose true at_end now finish rest h k r = h refl
  choose false true now finish rest h k r = k refl
  choose false false now finish rest h k r = r

  is_size-eq :
      (size : Option ℕ) (n : ℕ) → IsSizeOf size → is_size size n ≡ true → n ≡ length content
  unfolding is_size
  is_size-eq none n s h = cc
  is_size-eq (some m) n s h = (==_iff n m).0 h ∙ s

  -- At the end of the file the digest has seen all of it.
  at_end-IsFull :
      (f : Sha1File) → Digests content f → f.position ≡ length content → IsFull content f
  at_end-IsFull f d e = record { digests = d; all = omega (arith, d.behind, d.within, e) }

  pub no_more :
      (n place : ℕ)
      → 0 < n
      → place ≤ length content
      → length (take n (drop place content)) ≡ 0
      → place ≡ length content
  no_more n place lt le e =
      omega (arith, length-take n (drop place content), length-drop place content)

  pub send-Safe :
      (fuel offset : ℕ) (size : Option ℕ) (u : Upload)
      → IsSizeOf size
      → Follows u.file
      → u.file.content ≡ content
      → u.file.position ≡ offset
      → SendSafe (send exchange c fuel offset size u)
  unfolding send
  send-Safe zero offset size u s h e place = Follows-Digests content u.file h e
  send-Safe (suc fuel) offset size u s h e place =
      rw (got, send)
        (after (patch_at exchange c offset size (c.cut p) (record u { file = f }))
          (patch_at-KeepsFile offset size (c.cut p) (record u { file = f }))
          (patch_at-NotSent offset size (c.cut p) (record u { file = f }))
          (λ u' k.
            send-Safe fuel (offset + length p) size u' s (subst Follows (sym k) r.follows)
              (ap (λ t. t.content) k ∙ same) (ap (λ t. t.position) k ∙ moved)))
    where
      found :
          (g : Sha1File) × (read_limited c.buffer (suc c.chunk_size) (limit_of c u) u.file
            ≡ bytes (take (limit_of c u) (drop u.file.position u.file.content)) g)
          × ReadDone u.file (take (limit_of c u) (drop u.file.position u.file.content)) g
      found =
          read_limited-done c.buffer some_buffer (suc c.chunk_size) (limit_of c u) u.file
            (omega arith) h

      f : Sha1File
      f = found.0

      p : List ℕ
      p = take (limit_of c u) (drop u.file.position u.file.content)

      got : read_limited c.buffer (suc c.chunk_size) (limit_of c u) u.file ≡ bytes p f
      got = found.1

      r : ReadDone u.file p f
      r = found.2

      same : f.content ≡ content
      same = r.same_content ∙ e

      moved : f.position ≡ offset + length p
      moved = r.moved ∙ ap (λ t. t + length p) place

      digests : Digests content f
      digests = Follows-Digests content f r.follows same

      finished_at : 0 < c.takes u.calls → (length p == 0) ≡ true → f.position ≡ length content
      finished_at some_read t =
          let empty : length p ≡ 0 = (==_iff (length p) 0).0 t in
          let at : u.file.position ≡ length content =
            no_more (limit_of c u) u.file.position (omega (arith, some_chunk, some_read))
              (subst (λ t. u.file.position ≤ length t) e (omega (arith, h.behind, h.within)))
              (ap (λ t. length (take (limit_of c u) (drop u.file.position t))) (sym e) ∙ empty) in
          omega (arith, r.moved, empty, at)

      after :
          (o : Sent)
          → KeepsFile f o
          → (c.takes u.calls ≡ 0 → NotSent o)
          → ((u' : Upload)
              → u'.file ≡ f
              → SendSafe (send exchange c fuel (offset + length p) size u'))
          → SendSafe (elim o [
            | crashed ↦ crashed
            | failed x u' ↦ failed x u'
            | sent sums u' ↦ elim (is_size size (offset + length p)) [
              | true ↦ sent sums u'
              | false ↦ elim (length p == 0) [
                | true ↦ finish_file exchange c offset u'
                | false ↦ send exchange c fuel (offset + length p) size u'
              ]
            ]
          ])
      after crashed k refused rest = absurd k
      after (failed x u') k refused rest = subst (Digests content) (sym k) digests
      after (sent sums u') k refused rest =
          choose (is_size size (offset + length p)) (length p == 0) (sent sums u')
            (finish_file exchange c offset u') _
            (λ t.
              subst (IsFull content) (sym k)
                (at_end-IsFull f digests (moved ∙ is_size-eq size (offset + length p) s t)))
            (λ t.
              kept-Digests f (finish_file exchange c offset u')
                (at_end-IsFull f digests (finished_at (positive_of (c.takes u.calls) refused) t))
                (unfold finish_file in
                  (subst (λ g. KeepsFile g (patch_at exchange c offset (some offset) [] u')) k
                    (patch_at-KeepsFile offset (some offset) [] u'))))
            (rest u' k)

  -- One try, and what is left after a failed one.
  abbrev pub AttemptSafe : Attempt → Type 0
  AttemptSafe (finished sums remote u) =
      IsFull content u.file × (hex_decode sums.sha1 ≡ some remote)
  AttemptSafe (again u) = Digests content u.file
  AttemptSafe (permanent u) = Unit
  AttemptSafe crash = ⊥

  -- After a failed try either that was the last, or there are more.
  again_or :
      (b : Bool) (u : Upload) (more : Attempt)
      → AttemptSafe (again u)
      → AttemptSafe more
      → AttemptSafe (elim b [ true ↦ again u | false ↦ more ])
  again_or true u more h k = h
  again_or false u more h k = k

  decode_remote-Safe :
      (sums : Checksums) (u : Upload) → IsFull content u.file → AttemptSafe (decode_remote sums u)
  unfolding decode_remote
  decode_remote-Safe sums u h = go (hex_decode sums.sha1) refl
    where
      go :
          (o : Option (List ℕ))
          → hex_decode sums.sha1 ≡ o
          → AttemptSafe (elim o [ none ↦ again u | some remote ↦ finished sums remote u ])
      go none e = h.digests
      go (some remote) e = (h, e)

  pub after_send-Safe : (r : Sent) → SendSafe r → AttemptSafe (after_send r)
  unfolding after_send
  after_send-Safe (sent sums u) h = decode_remote-Safe sums u h
  after_send-Safe (failed other_error u) h = h
  after_send-Safe (failed (client_error code) u) h = elim (Bool-cases (code == 404)) [
    | inl gone ↦ rw gone tt
    | inr other ↦ rw other h
  ]
  after_send-Safe crashed h = h

  abbrev pub OffsetSafe : Offset → Type 0
  OffsetSafe (at_offset n u) = Digests content u.file
  OffsetSafe (no_offset u) = Digests content u.file

  pub offset_of-Safe :
      (u : Upload) (o : Option Response × Slot)
      → Digests content u.file
      → OffsetSafe (offset_of u o)
  unfolding offset_of
  offset_of-Safe u (some (response status (some (pos n)) sums), s) h = h
  offset_of-Safe u (some (response status (some (negsuc n)) sums), s) h = h
  offset_of-Safe u (some (response status none sums), s) h = h
  offset_of-Safe u (some dropped, s) h = h
  offset_of-Safe u (none, s) h = h

  pub resume-Safe :
      (fuel : ℕ) (size : Option ℕ) (o : Offset)
      → IsSizeOf size
      → OffsetSafe o
      → AttemptSafe (resume exchange c fuel size o)
  unfolding resume sought
  resume-Safe fuel size (no_offset u) s h = h
  resume-Safe fuel size (at_offset n u) s h = elim (Bool-cases (ltb u.file.position n)) [
    | inl forward ↦ rw (seek-forward u.file n forward) (record {
      same_content = h.same_content;
      digested = h.digested;
      behind = h.behind;
      within = h.within;
    })
    | inr back ↦ rw (seek-back u.file n back) (
        after_send-Safe _ (
          send-Safe fuel n size (record u { file = record u.file { at = n; position = n } }) s
            (Digests-Follows content (record u.file { at = n; position = n })
              (record {
                same_content = h.same_content;
                digested = h.digested;
                behind = ground (arith, h.behind);
                within = h.within;
              })
              refl)
            h.same_content refl))
  ]

  retry-Safe :
      (fuel tries : ℕ) (size : Option ℕ) (u : Upload)
      → IsSizeOf size
      → Digests content u.file
      → AttemptSafe (retry exchange c fuel size tries false u)
  unfolding retry attempt get_offset
  retry-Safe fuel zero size u s h = h
  retry-Safe fuel (suc tries) size u s h =
      go (resume exchange c fuel size (get_offset exchange c u))
        (resume-Safe fuel size (get_offset exchange c u) s (offset_of-Safe u _ h))
        (λ u' k. retry-Safe fuel tries size u' s k)
    where
      go :
          (a : Attempt)
          → AttemptSafe a
          → ((u' : Upload)
              → Digests content u'.file
              → AttemptSafe (retry exchange c fuel size tries false u'))
          → AttemptSafe (elim a [
            | finished sums remote u' ↦ finished sums remote u'
            | again u' ↦ elim (c.gives_up u'.calls) [
              | true ↦ again u'
              | false ↦ retry exchange c fuel size tries false u'
            ]
            | permanent u' ↦ permanent u'
            | crash ↦ crash
          ])
      go (finished sums remote u') k rest = k
      go (again u') k rest = again_or (c.gives_up u'.calls) u' _ k (rest u' k)
      go (permanent u') k rest = tt
      go crash k rest = k

  abbrev pub UploadSafe : Uploaded → Type 0
  UploadSafe (uploaded sums u) = hex_decode sums.sha1 ≡ some (sha1 content)
  UploadSafe not_uploaded = Unit
  UploadSafe upload_crashed = ⊥

  conclude-Safe : (a : Attempt) → AttemptSafe a → UploadSafe (conclude a)
  unfolding conclude compare_sums sum Sha1.Sum.sum
  conclude-Safe (finished sums remote u) (full, decoded) =
      let whole : Represents u.file.digest content =
        subst (Represents u.file.digest)
          (take_all u.file.calculated content (omega (arith, full.all))) full.digests.digested in
      rw (check_sum_lem u.file.digest content whole)
        (elim (Bool-cases (equal_bytes remote (sha1 content))) [
          | inl same ↦ rw same (decoded ∙ ap some (equal_bytes-eq remote (sha1 content) same))
          | inr differ ↦ rw differ tt
        ])
  conclude-Safe (again u) h = tt
  conclude-Safe (permanent u) h = tt
  conclude-Safe crash h = h

  -- `op` for the first time, then again as long as it is allowed.
  first-Safe :
      (fuel tries : ℕ) (size : Option ℕ) (u : Upload)
      → IsSizeOf size
      → Follows u.file
      → u.file.content ≡ content
      → u.file.position ≡ 0
      → AttemptSafe (retry exchange c fuel size tries true u)
  unfolding retry attempt
  first-Safe fuel zero size u s h e place = Follows-Digests content u.file h e
  first-Safe fuel (suc tries) size u s h e place =
      go (after_send (send exchange c fuel 0 size u))
        (after_send-Safe (send exchange c fuel 0 size u) (send-Safe fuel 0 size u s h e place))
    where
      go :
          (a : Attempt)
          → AttemptSafe a
          → AttemptSafe (elim a [
            | finished sums remote u' ↦ finished sums remote u'
            | again u' ↦ elim (c.gives_up u'.calls) [
              | true ↦ again u'
              | false ↦ retry exchange c fuel size tries false u'
            ]
            | permanent u' ↦ permanent u'
            | crash ↦ crash
          ])
      go (finished sums remote u') k = k
      go (again u') k = again_or (c.gives_up u'.calls) u' _ k (retry-Safe fuel tries size u' s k)
      go (permanent u') k = tt
      go crash k = k

  -- With a chunk size and a buffer that are not 0, for a size that is that of the file or is not known,
  -- and if a request of whose body nothing was taken is not answered with a success: whatever else
  -- the server and the network do, however much of each body is taken before the response counts, and
  -- however often the upload is tried again, sendFile does not panic, and it succeeds only if the
  -- SHA-1 that the server reported is that of the whole file.
  pub send_file-Safe :
      (fuel tries : ℕ) (size : Option ℕ) (s : Slot)
      → IsSizeOf size
      → UploadSafe (send_file exchange c fuel tries size content s)
  unfolding send_file new_sha1_file
  send_file-Safe fuel tries size s fits = conclude-Safe _ (
      first-Safe fuel tries size (record { file = new_sha1_file content; slot = s; calls = 0 }) fits
        (new_sha1_file-Follows content) refl refl)
