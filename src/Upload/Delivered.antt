-- ===== src/Upload/Delivered.antt =====
-- write.go and filereceiver.go: an upload that meets no failure.
use efes.Prelude.{
  none, ℕ, zero, suc, ◌+◌, ◌-◌, ◌≤◌, ◌<◌, ◌≡◌, refl, ap, sym, subst, ◌∙◌, arith, true, false, some,
  List, [], ◌++◌, ◌==◌, ==_iff, if◌then◌else◌, length, take, drop, All, All-take, All-drop,
  take_all, length-take, length-drop, Bool-cases, inl, inr,
}
use efes.Prelude.Int.{pos}
use efes.Encoding.{hex_encode, hex_decode}
use efes.Sha1.Sum.{sha1, sha1-IsByte}
use efes.Sha1.Buffer.{Represents}
use efes.FileInfo.{FileInfo}
use efes.Receiver.Disk.{ok, Slot}
use efes.Receiver.Http.{Request, Database, tempfile_exists}
use efes.Receiver.Invariant.{IsConsistent, IsWhole, body_bytes}
use efes.Receiver.Invariant.Started.{Started}
use efes.Receiver.Serving.{sha1_sum}
use efes.Prelude.Text.{equal_bytes_refl}
use efes.Encoding.Hex.{hex_decode-hex_encode}
use efes.Client.Requests.{IsFull, IsRefusal}
use efes.Client.Safety.{SendSafe, send-Safe}
use efes.Client.{sum, Sha1File, bytes, read_limited, new_sha1_file}
use efes.Client.Reading.{Follows, new_sha1_file-Follows, ReadDone, read_limited-done}
use efes.Crc32.Update.Table.{IsByte}
use efes.Client.Send.{
  Exchange, send, send_file, retry, attempt, after_send, decode_remote, conclude, compare_sums,
  Uploaded, uploaded, not_uploaded, upload_crashed, Attempt, finished, again, permanent, crash,
  finish_file, is_size, Checksums, Upload, Sent, sent, failed, crashed, Config, limit_of, patch_at,
}
use efes.Upload.{smoothly, over_network}
use efes.Upload.Requests.{IsFair}
use efes.Upload.Stored.{UploadStored, send_file-Stored}
use efes.Upload.Patched.{no_faults-Careful, Delivers, Goes, Arrived, patch-Delivers}

module _ (content : List ℕ) (db : Database) (c : Config)
    (admitted : (if c.drainer then ok true else tempfile_exists db c.fid) ≡ ok true)
    (some_chunk : 0 < c.chunk_size) (some_buffer : 0 < c.buffer) (bytes_only : All IsByte content)
    (cuts : (p : List ℕ) → All IsByte p → IsWhole (c.cut p) × (body_bytes (c.cut p) ≡ p))
    (takes_some : (i : ℕ) → 0 < c.takes i) where
  abbrev pub reliable : Exchange
  reliable = over_network smoothly db

  reads : (i : ℕ) (q : Request) (s : Slot) → c.takes i ≡ 0 → IsRefusal (reliable i q s).0
  reads i q s z = absurd (omega (arith, z, takes_some i))

  -- The whole content has arrived, and the client knows its SHA-1.
  abbrev SendDelivers : Sent → Type 0
  SendDelivers (sent sums u) =
      (sums.sha1 ≡ hex_encode (sha1 content)) × Arrived content (length content) u.slot
  SendDelivers (failed e u) = ⊥
  SendDelivers crashed = ⊥

  Goes-later :
      (n : ℕ) (s : Slot)
      → 0 < n
      → ((fi : FileInfo) × Started (pos n) fi s)
      → Arrived content n s
      → Goes content n s
  Goes-later zero s lt st arrived = tt
  Goes-later (suc n) s lt st arrived = (st, arrived)

  -- The two tests of the loop after a request that sent `n` bytes.
  finish_or_go_on :
      (offset n : ℕ) (f : Sha1File) (sums : Checksums) (u : Upload) (finish rest : Sent)
      → Delivers content (offset + n) f (sent sums u)
      → ((offset + n == length content) ≡ false → 0 < n)
      → (Goes content (offset + n) u.slot
          → IsConsistent u.slot
          → (offset + n == length content) ≡ false
          → SendDelivers rest)
      → SendDelivers (elim (offset + n == length content) [
        | true ↦ sent sums u
        | false ↦ elim (n == 0) [ true ↦ finish | false ↦ rest ]
      ])
  finish_or_go_on offset n f sums u finish rest (same, h, arrived, reaches) some_sent go_on =
      elim (Bool-cases (offset + n == length content)) [
        | inl all ↦
            (let e : offset + n ≡ length content = (==_iff (offset + n) (length content)).0 all in
              rw all (rw all at reaches, subst (λ t. Arrived content t u.slot) e arrived))
        | inr more ↦
            (let positive = some_sent more in
              let not_end : (n == 0) ≡ false = ground (arith, positive) in
              rw more (
                rw not_end (
                  go_on
                    (Goes-later (offset + n) u.slot (omega (arith, positive)) (rw more at reaches)
                      arrived)
                    h more)))
      ]

  -- The body of at most `n` bytes of the request at an offset.
  abbrev chunk_at : ℕ → ℕ → List ℕ
  chunk_at n offset = take n (drop offset content)

  chunk-Delivers :
      (n offset : ℕ) (u : Upload)
      → IsConsistent u.slot
      → Goes content offset u.slot
      → take offset content ++ chunk_at n offset
        ≡ take (offset + length (chunk_at n offset)) content
      → Delivers content
          (offset + length (chunk_at n offset))
          u.file
          (patch_at reliable c offset (some (length content)) (c.cut (chunk_at n offset)) u)
  chunk-Delivers n offset u h g joined =
      let p = chunk_at n offset in
      let (w, bytes_are) =
        cuts p
          (All-take IsByte n (drop offset content) (All-drop IsByte offset content bytes_only)) in
      subst
        (λ t.
          Delivers content (offset + length t) u.file
            (patch_at reliable c offset (some (length content)) (c.cut p) u))
        bytes_are
        (patch-Delivers content db c admitted offset (c.cut p) u h w g (
          subst (λ t. take offset content ++ t ≡ take (offset + length t) content) (sym bytes_are)
            joined))

  some_sent :
      (n offset : ℕ)
      → 0 < n
      → offset ≤ length content
      → (offset + length (chunk_at n offset) == length content) ≡ false
      → 0 < length (chunk_at n offset)
  some_sent n offset positive le more =
      ground
        (arith, positive, le, more, length-take n (drop offset content), length-drop offset content)

  chunk_fits :
      (n offset : ℕ)
      → offset ≤ length content
      → offset + length (chunk_at n offset) ≤ length content
  chunk_fits n offset le =
      omega (arith, le, length-take n (drop offset content), length-drop offset content)

  send-Delivers :
      (fuel offset : ℕ) (u : Upload)
      → length content - offset < fuel
      → offset ≤ length content
      → Follows u.file
      → u.file.content ≡ content
      → u.file.position ≡ offset
      → IsConsistent u.slot
      → Goes content offset u.slot
      → SendDelivers (send reliable c fuel offset (some (length content)) u)
  unfolding send
  send-Delivers zero offset u lt le follows e place h g = absurd (omega arith)
  send-Delivers (suc fuel) offset u lt le follows e place h g =
      rw (got, send)
        (after
          (patch_at reliable c offset (some (length content)) (c.cut p) (record u { file = f }))
          (chunk-Delivers (limit_of c u) offset (record u { file = f }) h g joined)
          (λ u' same h' g' more.
            send-Delivers fuel (offset + length p) u'
              (omega (
                arith,
                lt,
                some_sent (limit_of c u) offset positive le more,
                chunk_fits (limit_of c u) offset le,
              ))
              (chunk_fits (limit_of c u) offset le) (subst Follows (sym same) r.follows)
              (ap (λ t. t.content) same ∙ r.same_content ∙ e)
              (ap (λ t. t.position) same ∙ r.moved ∙ here) h' g'))
    where
      positive : 0 < limit_of c u
      positive = omega (arith, some_chunk, takes_some u.calls)

      p : List ℕ
      p = chunk_at (limit_of c u) offset

      found :
          (g : Sha1File) × (read_limited c.buffer (suc c.chunk_size) (limit_of c u) u.file
            ≡ bytes p g)
          × ReadDone u.file p g
      found =
          subst
            (λ t.
              (g : Sha1File) × (read_limited c.buffer (suc c.chunk_size) (limit_of c u) u.file
                ≡ bytes t g)
              × ReadDone u.file t g)
            (ap (λ t. take (limit_of c u) (drop t u.file.content)) place
              ∙ ap (λ t. take (limit_of c u) (drop offset t)) e)
            (read_limited-done c.buffer some_buffer (suc c.chunk_size) (limit_of c u) u.file
              (omega arith) follows)

      f : Sha1File
      f = found.0

      got : read_limited c.buffer (suc c.chunk_size) (limit_of c u) u.file ≡ bytes p f
      got = found.1

      r : ReadDone u.file p f
      r = found.2

      here : u.file.position + length p ≡ offset + length p
      here = ap (λ t. t + length p) place

      joined : take offset content ++ p ≡ take (offset + length p) content
      joined =
          ap (λ t. t ++ p) (sym (ap (λ t. take t u.file.content) place ∙ ap (take offset) e))
          ∙ r.front
          ∙ ap (λ t. take t u.file.content) here
          ∙ ap (take (offset + length p)) e

      after :
          (o : Sent)
          → Delivers content (offset + length p) f o
          → ((u' : Upload)
              → u'.file ≡ f
              → IsConsistent u'.slot
              → Goes content (offset + length p) u'.slot
              → (offset + length p == length content) ≡ false
              → SendDelivers (send reliable c fuel (offset + length p) (some (length content)) u'))
          → SendDelivers (elim o [
            | crashed ↦ crashed
            | failed x u' ↦ failed x u'
            | sent sums u' ↦ elim (is_size (some (length content)) (offset + length p)) [
              | true ↦ sent sums u'
              | false ↦ elim (length p == 0) [
                | true ↦ finish_file reliable c offset u'
                | false ↦ send reliable c fuel (offset + length p) (some (length content)) u'
              ]
            ]
          ])
      after crashed k rest = absurd k
      after (failed x u') k rest = absurd k
      after (sent sums u') k rest =
          finish_or_go_on offset (length p) f sums u' (finish_file reliable c offset u') _ k
            (some_sent (limit_of c u) offset positive le) (λ g' h' more. rest u' k.0 h' g' more)

  -- What is uploaded has arrived.
  abbrev UploadArrives : Uploaded → Type 0
  UploadArrives (uploaded sums u) =
      (hex_decode sums.sha1 ≡ some (sha1 content)) × Arrived content (length content) u.slot
  UploadArrives not_uploaded = ⊥
  UploadArrives upload_crashed = ⊥

  decoded :
      (sums : Checksums)
      → sums.sha1 ≡ hex_encode (sha1 content)
      → hex_decode sums.sha1 ≡ some (sha1 content)
  decoded sums e = ap hex_decode e ∙ hex_decode-hex_encode (sha1 content) (sha1-IsByte content)

  local_sum : (f : Sha1File) → IsFull content f → sum f [] ≡ some (sha1 content)
  unfolding sum
  local_sum f full = sha1_sum f.digest content (
      subst (Represents f.digest) (take_all f.calculated content (omega (arith, full.all)))
        full.digests.digested)

  conclude-Delivers :
      (tries : ℕ) (o : Sent) (rest : Upload → Attempt)
      → SendDelivers o
      → SendSafe reliable c content some_chunk some_buffer reads o
      → UploadArrives (
          conclude (elim (after_send o) [
            | finished sums remote u' ↦ finished sums remote u'
            | again u' ↦ rest u'
            | permanent u' ↦ permanent u'
            | crash ↦ crash
          ]))
  unfolding after_send decode_remote conclude compare_sums
  conclude-Delivers tries (sent sums u) rest (e, arrived) full =
      rw (decoded sums e) (
        rw (local_sum u.file full) (rw (equal_bytes_refl (sha1 content)) (decoded sums e, arrived)))
  conclude-Delivers tries (failed x u) rest d full = absurd d
  conclude-Delivers tries crashed rest d full = absurd d

  send_file-UploadArrives :
      (fuel tries : ℕ) (s : Slot)
      → length content < fuel
      → IsConsistent s
      → UploadArrives (send_file reliable c fuel (suc tries) (some (length content)) content s)
  unfolding send_file retry attempt new_sha1_file
  send_file-UploadArrives fuel tries s lt h =
      let u : Upload = record { file = new_sha1_file content; slot = s; calls = 0 } in
      let follows = new_sha1_file-Follows content in
      conclude-Delivers tries (send reliable c fuel 0 (some (length content)) u) _
        (send-Delivers fuel 0 u (omega (arith, lt)) (omega arith) follows refl refl h tt)
        (send-Safe reliable c content some_chunk some_buffer reads fuel 0 (some (length content)) u
          refl follows refl refl)

  -- The upload succeeded, the content has arrived, and there is no info file.
  abbrev pub UploadDelivers : Uploaded → Type 0
  UploadDelivers (uploaded sums u) =
      (hex_decode sums.sha1 ≡ some (sha1 content))
      × Arrived content (length content) u.slot
      × (u.slot.info ≡ none)
  UploadDelivers not_uploaded = ⊥
  UploadDelivers upload_crashed = ⊥

  fair : (i : ℕ) → IsFair (smoothly i)
  fair i = no_faults-Careful

  abbrev Stored : Uploaded → Type 0
  Stored =
      UploadStored smoothly fair db c (λ p h. (cuts p h).0) some_chunk some_buffer content
        bytes_only reads

  complete : (r : Uploaded) → UploadArrives r → Stored r → UploadDelivers r
  complete (uploaded sums u) (same, arrived) (file, (at, stored, gone, within, front)) =
      (same, arrived, gone)
  complete not_uploaded a s = absurd a
  complete upload_crashed a s = absurd a

  -- With a server that admits the file, a network that loses nothing and no call that fails, an
  -- upload of a file whose size is announced, with a chunk size and a buffer that are not 0, and
  -- however the transport cuts the bodies, if it takes at least one byte of each before the response
  -- counts: if it may try once or more and the fuel exceeds the length of the content, it is reported
  -- as a success, the data file on the server begins with the content, there is no info file beside
  -- it, and the SHA-1 that was reported is that of the content.
  pub send_file-Delivers :
      (fuel tries : ℕ) (s : Slot)
      → length content < fuel
      → IsConsistent s
      → UploadDelivers (send_file reliable c fuel (suc tries) (some (length content)) content s)
  send_file-Delivers fuel tries s lt h =
      let r = send_file reliable c fuel (suc tries) (some (length content)) content s in
      complete r (send_file-UploadArrives fuel tries s lt h) (
        send_file-Stored smoothly fair db c (λ p h. (cuts p h).0) some_chunk some_buffer content
          bytes_only reads fuel (suc tries) (some (length content)) s refl h)
