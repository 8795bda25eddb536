-- ===== src/Upload/Patched.antt =====
-- write.go and filereceiver.go: one request that meets no failure.
use efes.Prelude.{
  ℕ, zero, suc, ◌+◌, ◌≡◌, refl, ap, sym, subst, ◌∙◌, arith, Bool, true, false, Option, none, some,
  List, [], ◌++◌, ◌==◌, ==_iff, if◌then◌else◌, length, take, take_all, eq_of_some_eq,
}
use efes.Prelude.Int.{pos}
use efes.Encoding.{hex_encode}
use efes.Sha1
use efes.Sha1.Digest.{Sha1Digest}
use efes.Sha1.Sum.{sha1, sha1-IsByte}
use efes.Crc32.Digest.{Crc32Digest}
use efes.FileInfo.{FileInfo}
use efes.Receiver.Disk.{Result, ok, err, panic, Slot, no_faults}
use efes.Receiver.Copy.{Piece}
use efes.Receiver.Save.{Saved, save_file}
use efes.Receiver.Http.{
  Database, tempfile_exists, sum_headers, with_sums, saved_response, patch_checked, patch_parsed,
  length_of, serve_method, serve_http,
}
use efes.Receiver.Invariant.{IsConsistent, IsWhole, body_bytes}
use efes.Receiver.Invariant.Kept.{Careful}
use efes.Receiver.Invariant.Started.{Started}
use efes.Receiver.Invariant.Recorded.{Complete, Reported, SaveDone}
use efes.Receiver.Invariant.Saving.{save_file_done}
use efes.Receiver.Invariant.Progress.{NextInfo, Appends, save_file-Appends, save_file_first-Appends}
use efes.Receiver.Serving.{sha1_sum}
use efes.Client.{Sha1File}
use efes.Client.Send.{
  Checksums, Upload, Sent, sent, failed, crashed, Config, check_status, checksums_from, sent_unless,
  checked, patch_at, patch_request, length_header,
}
use efes.Upload.{smoothly, meet, over_network}

pub no_faults-Careful : Careful no_faults
no_faults-Careful = record { closes = refl; replaces = λ e. cc }

module _ (content : List ℕ) where
  -- Before the end the next request can go on; at the end the client has the SHA-1 of the file.
  abbrev pub Reaches : Bool → ℕ → Checksums → Slot → Type 0
  Reaches true at sums s = sums.sha1 ≡ hex_encode (sha1 content)
  Reaches false at sums s = (fi : FileInfo) × Started (pos at) fi s

  -- The first `at` bytes have arrived.
  abbrev pub Arrived : ℕ → Slot → Type 0
  Arrived at s = (file : List ℕ) × (s.file ≡ some file) × (take at file ≡ take at content)

  abbrev pub Delivers : ℕ → Sha1File → Sent → Type 0
  Delivers at f (sent sums u) =
      (u.file ≡ f)
      × IsConsistent u.slot
      × Arrived at u.slot
      × Reaches (at == length content) at sums u.slot
  Delivers at f (failed e u) = ⊥
  Delivers at f crashed = ⊥

  -- The digests that are reported at the end are those of the whole content.
  Complete-sha1 :
      (at : ℕ) (r : Saved) (s1 : Sha1Digest) (c32 : Crc32Digest) (s : Slot)
      → at ≡ length content
      → Arrived at s
      → Complete (pos (length content)) r s1 c32 s
      → Sha1.Sum.sum s1 [] ≡ some (sha1 content)
  Complete-sha1 at r s1 c32 s e (file, stored, same) done =
      let here : done.at ≡ at = ground (arith, done.announced, e) in
      let whole : take done.at done.file ≡ content =
        ap (λ t. take t done.file) here
        ∙ ap (take at) (eq_of_some_eq (sym done.stored ∙ stored))
        ∙ same
        ∙ take_all at content (omega (arith, e)) in
      sha1_sum s1 (take done.at done.file) done.digests.sha1_of ∙ ap (λ t. some (sha1 t)) whole

  -- The answer of `saveFile` as the client sees it.
  seen :
      (at : ℕ) (u : Upload) (r : Saved) (s : Slot) (b : Bool)
      (o : Option (Sha1Digest × Crc32Digest))
      → (at == length content) ≡ b
      → IsConsistent s
      → Arrived at s
      → Reported (pos (length content)) r o s
      → NextInfo b at o s
      → Delivers at u.file (checked u (some (with_sums r.offset (sum_headers o)), s))
  unfolding checked with_sums sum_headers check_status sent_unless checksums_from
  seen at u r s true none e h arrived done (d, some_digest) = cc
  seen at u r s true (some (s1, c32)) e h arrived done next =
      rw (Complete-sha1 at r s1 c32 s ((==_iff at (length content)).0 e) arrived done)
        (refl, h, arrived, rw e refl)
  seen at u r s false none e h arrived done (same, next) = (refl, h, arrived, rw e next)
  seen at u r s false (some d) e h arrived done (same, next) = cc

  after_save :
      (offset : ℕ) (body : List Piece) (u : Upload) (o : Result Saved × Slot)
      → take offset content ++ body_bytes body ≡ take (offset + length (body_bytes body)) content
      → Appends offset (pos (length content)) body (take offset content) o
      → SaveDone (pos (length content)) o
      → Delivers
          (offset + length (body_bytes body))
          u.file
          (checked u (some (saved_response o.0), o.1))
  unfolding saved_response
  after_save offset body u (ok r, s) joined (moved, (file, stored, front), next) (h, reported) =
      let at = offset + length (body_bytes body) in
      seen at u r s (at == length content) r.digest refl h (file, stored, front ∙ joined) reported
        next
  after_save offset body u (err e, s) joined a d = absurd a
  after_save offset body u (panic, s) joined a d = absurd a

  -- A request at this offset is let through: the first one always, the others if an info file stands
  -- there and the data in front has arrived.
  abbrev pub Goes : ℕ → Slot → Type 0
  Goes zero s = Unit
  Goes (suc n) s = ((fi : FileInfo) × Started (pos (suc n)) fi s) × Arrived (suc n) s

  save_file-Goes :
      (offset : ℕ) (body : List Piece) (s : Slot)
      → IsWhole body
      → Goes offset s
      → Appends offset
          (pos (length content))
          body
          (take offset content)
          (save_file no_faults (pos offset) (pos (length content)) body s)
  save_file-Goes zero body s w g = save_file_first-Appends (pos (length content)) body s w
  save_file-Goes (suc n) body s w ((fi, started), (file, stored, same)) =
      subst
        (λ t.
          Appends (suc n) (pos (length content)) body t
            (save_file no_faults (pos (suc n)) (pos (length content)) body s))
        same (save_file-Appends n (pos (length content)) body fi file s w started stored)

  module _ (db : Database) (c : Config)
      (admitted : (if c.drainer then ok true else tempfile_exists db c.fid) ≡ ok true) where
    pub patch-Delivers :
        (offset : ℕ) (body : List Piece) (u : Upload)
        → IsConsistent u.slot
        → IsWhole body
        → Goes offset u.slot
        → take offset content ++ body_bytes body ≡ take (offset + length (body_bytes body)) content
        → Delivers
            (offset + length (body_bytes body))
            u.file
            (patch_at (over_network smoothly db) c offset (some (length content)) body u)
    unfolding patch_at over_network meet patch_request length_header serve_http serve_method
        patch_parsed length_of patch_checked
    patch-Delivers offset body u h w g joined = rw admitted (
        after_save offset body u
          (save_file no_faults (pos offset) (pos (length content)) body u.slot) joined
          (save_file-Goes offset body u.slot w g)
          (save_file_done no_faults (pos offset) (pos (length content)) body u.slot
            no_faults-Careful w h))
