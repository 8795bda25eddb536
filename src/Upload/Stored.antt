-- ===== src/Upload/Stored.antt =====
-- write.go and filereceiver.go: what a successful upload has stored.
use efes.Prelude.{
  ℕ, zero, suc, ◌+◌, ◌≤◌, ◌<◌, ◌≡◌, ap, sym, ◌∙◌, arith, Bool, true, false, Option, none, some,
  List, [], ltb, ◌==◌, if◌then◌else◌, length, take, Bool-cases, inl, inr, eq_of_some_eq, All,
}
use efes.Prelude.Text.{equal_bytes}
use efes.Encoding.{hex_decode}
use efes.Encoding.Hex.{hex_decode-hex_encode}
use efes.Sha1.Sum.{sha1, sha1-IsByte, length-sha1}
use efes.Crc32.Update.Table.{IsByte}
use efes.Receiver.Disk.{Slot}
use efes.Receiver.Copy.{Piece}
use efes.Receiver.Http.{Request, Database}
use efes.Receiver.Invariant.{IsConsistent, IsWhole}
use efes.Client.{ReadResult, bytes, missing_data, panicked, new_sha1_file, read_limited, sum}
use efes.Client.Requests.{IsRefusal, seek-forward, seek-back}
use efes.Client.Safety.{IsSizeOf, UploadSafe, send_file-Safe}
use efes.Client.Send.{
  Checksums, client_error, other_error, Upload, Sent, sent, failed, crashed, Exchange, Config,
  limit_of, patch_at, patch_request, finish_file, is_size, send, Offset, at_offset, no_offset,
  get_offset, head_request, Attempt, finished, again, permanent, crash, decode_remote, after_send,
  sought, resume, attempt, retry, Uploaded, uploaded, not_uploaded, upload_crashed, compare_sums,
  conclude, send_file,
}
use efes.Upload.{Fate, over_network}
use efes.Upload.Requests.{
  HasSums, IsGood, SentGood, IsFair, patched-Good, OffsetGood, asked-Good, ReadBytes,
  read_limited-ReadBytes,
}

module _ (fates : ℕ → Fate) (fair : (i : ℕ) → IsFair (fates i)) (db : Database) (c : Config)
    (cuts : (p : List ℕ) → All IsByte p → IsWhole (c.cut p)) where
  abbrev pub network : Exchange
  network = over_network fates db

  patch_at-Good :
      (offset : ℕ) (size : Option ℕ) (body : List Piece) (u : Upload)
      → IsWhole body
      → IsGood u
      → SentGood (patch_at network c offset size body u)
  unfolding patch_at over_network patch_request
  patch_at-Good offset size body u w g =
      patched-Good (fates u.calls) db (patch_request c offset size body) u (fair u.calls) w g

  send-Good :
      (fuel offset : ℕ) (size : Option ℕ) (u : Upload)
      → IsGood u
      → SentGood (send network c fuel offset size u)
  unfolding send
  send-Good zero offset size u g = g
  send-Good (suc fuel) offset size u g =
      go (read_limited c.buffer (suc c.chunk_size) (limit_of c u) u.file)
        (read_limited-ReadBytes c.buffer (suc c.chunk_size) (limit_of c u) u.file g.readable)
        (λ n u' h. send-Good fuel n size u' h)
    where
      tests :
          (p : List ℕ) (sums : Checksums) (u' : Upload) (a b : Bool)
          → IsGood u' × HasSums sums u'.slot
          → ((n : ℕ) (u' : Upload) → IsGood u' → SentGood (send network c fuel n size u'))
          → SentGood (elim a [
            | true ↦ sent sums u'
            | false ↦ elim b [
              | true ↦ finish_file network c offset u'
              | false ↦ send network c fuel (offset + length p) size u'
            ]
          ])
      tests p sums u' true b h rest = h
      tests p sums u' false true h rest =
          unfold finish_file in patch_at-Good offset (some offset) [] u' tt h.0
      tests p sums u' false false h rest = rest (offset + length p) u' h.0

      after :
          (p : List ℕ) (o : Sent)
          → SentGood o
          → ((n : ℕ) (u' : Upload) → IsGood u' → SentGood (send network c fuel n size u'))
          → SentGood (elim o [
            | crashed ↦ crashed
            | failed e u' ↦ failed e u'
            | sent sums u' ↦ elim (is_size size (offset + length p)) [
              | true ↦ sent sums u'
              | false ↦ elim (length p == 0) [
                | true ↦ finish_file network c offset u'
                | false ↦ send network c fuel (offset + length p) size u'
              ]
            ]
          ])
      after p crashed h rest = tt
      after p (failed e u') h rest = h
      after p (sent sums u') h rest =
          tests p sums u' (is_size size (offset + length p)) (length p == 0) h rest

      go :
          (o : ReadResult)
          → ReadBytes o
          → ((n : ℕ) (u' : Upload) → IsGood u' → SentGood (send network c fuel n size u'))
          → SentGood (elim o [
            | missing_data ↦ failed other_error u
            | panicked ↦ crashed
            | bytes p f ↦ elim (patch_at network c offset size (c.cut p) (record u { file = f })) [
              | crashed ↦ crashed
              | failed e u' ↦ failed e u'
              | sent sums u' ↦ elim (is_size size (offset + length p)) [
                | true ↦ sent sums u'
                | false ↦ elim (length p == 0) [
                  | true ↦ finish_file network c offset u'
                  | false ↦ send network c fuel (offset + length p) size u'
                ]
              ]
            ]
          ])
      go missing_data r rest = g
      go panicked r rest = tt
      go (bytes p f) (hp, hf) rest =
          after p (patch_at network c offset size (c.cut p) (record u { file = f }))
            (patch_at-Good offset size (c.cut p) (record u { file = f }) (cuts p hp)
              (record { consistent = g.consistent; readable = hf }))
            rest

  -- One try.
  abbrev AttemptGood : Attempt → Type 0
  AttemptGood (finished sums remote u) = HasSums sums u.slot
  AttemptGood (again u) = IsGood u
  AttemptGood (permanent u) = Unit
  AttemptGood crash = Unit

  after_send-Good : (o : Sent) → SentGood o → AttemptGood (after_send o)
  unfolding after_send decode_remote
  after_send-Good (sent sums u) (g, h) = go (hex_decode sums.sha1)
    where
      go :
          (o : Option (List ℕ))
          → AttemptGood (elim o [ none ↦ again u | some remote ↦ finished sums remote u ])
      go none = g
      go (some remote) = h
  after_send-Good (failed other_error u) g = g
  after_send-Good (failed (client_error code) u) g = go (code == 404)
    where
      go : (b : Bool) → AttemptGood (if b then permanent u else again u)
      go true = tt
      go false = g
  after_send-Good crashed g = tt

  resume-Good :
      (fuel : ℕ) (size : Option ℕ) (o : Offset)
      → OffsetGood o
      → AttemptGood (resume network c fuel size o)
  unfolding resume sought
  resume-Good fuel size (no_offset u) g = g
  resume-Good fuel size (at_offset n u) g = elim (Bool-cases (ltb u.file.position n)) [
    | inl forward ↦
        rw (seek-forward u.file n forward)
          (record { consistent = g.consistent; readable = g.readable })
    | inr back ↦ rw (seek-back u.file n back) (
        after_send-Good _ (
          send-Good fuel n size (record u { file = record u.file { at = n; position = n } })
            (record { consistent = g.consistent; readable = g.readable })))
  ]

  attempt-Good :
      (fuel : ℕ) (size : Option ℕ) (first : Bool) (u : Upload)
      → IsGood u
      → AttemptGood (attempt network c fuel size first u)
  unfolding attempt get_offset over_network
  attempt-Good fuel size true u g = after_send-Good _ (send-Good fuel 0 size u g)
  attempt-Good fuel size false u g = resume-Good fuel size _ (
      asked-Good (fates u.calls) db (head_request c) u (fair u.calls) (unfold head_request in tt) g)

  retry-Good :
      (fuel : ℕ) (size : Option ℕ) (tries : ℕ) (first : Bool) (u : Upload)
      → IsGood u
      → AttemptGood (retry network c fuel size tries first u)
  unfolding retry
  retry-Good fuel size zero first u g = g
  retry-Good fuel size (suc tries) first u g =
      go (attempt network c fuel size first u) (attempt-Good fuel size first u g)
        (λ u' h. retry-Good fuel size tries false u' h)
    where
      go_on :
          (b : Bool) (u' : Upload)
          → IsGood u'
          → AttemptGood (retry network c fuel size tries false u')
          → AttemptGood
              (elim b [ true ↦ again u' | false ↦ retry network c fuel size tries false u' ])
      go_on true u' h k = h
      go_on false u' h k = k

      go :
          (a : Attempt)
          → AttemptGood a
          → ((u' : Upload) → IsGood u' → AttemptGood (retry network c fuel size tries false u'))
          → AttemptGood (elim a [
            | finished sums remote u' ↦ finished sums remote u'
            | again u' ↦ elim (c.gives_up u'.calls) [
              | true ↦ again u'
              | false ↦ retry network c fuel size tries false u'
            ]
            | permanent u' ↦ permanent u'
            | crash ↦ crash
          ])
      go (finished sums remote u') h rest = h
      go (again u') h rest = go_on (c.gives_up u'.calls) u' h (rest u' h)
      go (permanent u') h rest = tt
      go crash h rest = tt

  abbrev UploadGood : Uploaded → Type 0
  UploadGood (uploaded sums u) = HasSums sums u.slot
  UploadGood not_uploaded = Unit
  UploadGood upload_crashed = Unit

  conclude-Good : (a : Attempt) → AttemptGood a → UploadGood (conclude a)
  unfolding conclude compare_sums
  conclude-Good (finished sums remote u) h = go (sum u.file [])
    where
      test : (b : Bool) → UploadGood (if b then uploaded sums u else not_uploaded)
      test true = h
      test false = tt

      go : (o : Option (List ℕ)) → UploadGood (compare_sums o remote sums u)
      go none = unfold compare_sums in tt
      go (some own) = unfold compare_sums in test (equal_bytes remote own)
  conclude-Good (again u) h = tt
  conclude-Good (permanent u) h = tt
  conclude-Good crash h = tt

  module _ (some_chunk : 0 < c.chunk_size) (some_buffer : 0 < c.buffer) (content : List ℕ)
      (bytes_only : All IsByte content)
      (reads : (i : ℕ) (q : Request) (s : Slot) → c.takes i ≡ 0 → IsRefusal (network i q s).0) where
    -- A success: the info file is gone and the data file begins with bytes that have the SHA-1 of the
    -- content.
    abbrev pub UploadStored : Uploaded → Type 0
    UploadStored (uploaded sums u) =
        (file : List ℕ) × ((at : ℕ) × (u.slot.file ≡ some file)
          × (u.slot.info ≡ none)
          × (at ≤ length file)
          × (sha1 (take at file) ≡ sha1 content))
    UploadStored not_uploaded = Unit
    UploadStored upload_crashed = ⊥

    not_empty : (sums : Checksums) → sums.sha1 ≡ [] → hex_decode sums.sha1 ≡ some (sha1 content) → ⊥
    not_empty sums e h =
        let empty : some [] ≡ hex_decode sums.sha1 = unfold hex_decode in ap hex_decode (sym e) in
        let same : [] ≡ sha1 content = eq_of_some_eq (empty ∙ h) in
        absurd (omega (arith, ap length same, length-sha1 content))

    both :
        (r : Uploaded)
        → UploadGood r
        → UploadSafe network c content some_chunk some_buffer reads r
        → UploadStored r
    both (uploaded sums u) (inl e) safe = absurd (not_empty sums e safe)
    both (uploaded sums u) (inr (file, (at, stored, gone, within, same))) safe = (
      file,
      (
        at,
        stored,
        gone,
        within,
        eq_of_some_eq (
            sym (hex_decode-hex_encode (sha1 (take at file)) (sha1-IsByte (take at file)))
            ∙ ap hex_decode (sym same)
            ∙ safe),
      ),
    )
    both not_uploaded good safe = tt
    both upload_crashed good safe = safe

    -- An upload with a chunk size and a buffer that are not 0, over a network that may lose requests,
    -- cut them short or lose the answers, where a request of whose body nothing was taken is not
    -- answered with a success, and with calls that fail on the server (but for a failure in createFile
    -- after the truncation, and for short writes): sendFile does not panic; and if it succeeds, there
    -- is no info file at the path, and the data file begins with bytes that have the SHA-1 of the whole
    -- content.
    pub send_file-Stored :
        (fuel tries : ℕ) (size : Option ℕ) (s : Slot)
        → IsSizeOf network c content some_chunk some_buffer reads size
        → IsConsistent s
        → UploadStored (send_file network c fuel tries size content s)
    send_file-Stored fuel tries size s fits h =
        both (send_file network c fuel tries size content s)
          (unfold send_file new_sha1_file in
            conclude-Good _ (
              retry-Good fuel size tries true
                (record { file = new_sha1_file content; slot = s; calls = 0 })
                (record { consistent = h; readable = bytes_only })))
          (send_file-Safe network c content some_chunk some_buffer reads fuel tries size s fits)
