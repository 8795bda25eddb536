-- ===== src/Receiver/Invariant/Saving.antt =====
-- filereceiver.go: `saveFile` as a whole, and the promise of the info file.
use efes.Prelude.{
  ℕ, ◌+◌, ◌≤◌, ◌≡◌, refl, ap, sym, subst, ◌∙◌, arith, true, false, Option, none, some, List, ◌++◌,
  Bool-cases, inl, inr, length, length as file_length, take, take-append_le, take-take_le,
  length-take,
}
use mathlib.Core.Path.{subst₂}
use efes.Prelude.Int.{ℤ, pos, negsuc}
use efes.FileInfo.{FileInfo}
use efes.FileInfo.RoundTrip.{DigestsOf}
use efes.Receiver.Disk.{
  other, Result, ok, err, panic, Slot, Faults, M, ◌>>=◌, ◌>>◌, call, delete_file_info,
}
use efes.Receiver.Rule.{bind_rule, bind_ok, bind_err}
use efes.Receiver.Copy.{Piece, Copied, copy}
use efes.Receiver.Save.{Saved, start, opened, open_file, seek, settle, record_progress, save_file}
use efes.Receiver.Invariant.{Fits, InfoFits, DecodedFits, IsConsistent, IsWhole, body_bytes}
use efes.Receiver.Invariant.Written.{copy_lem, CopyDone}
use efes.Receiver.Invariant.Kept.{Careful}
use efes.Receiver.Invariant.Started.{Started, StartDone, start_done}
use efes.Receiver.Invariant.Recorded.{
  SaveDone, Stored, Deleted, delete_file_info-Deleted, no_info-IsConsistent, record_progress_done,
  call_done,
}

-- The old info file still fits after the copy, since the bytes before its offset are the same.
settled :
    (offset : ℤ) (fi : FileInfo) (s : Slot) (at : ℕ) (b : List ℕ) (body : List Piece) (c : Copied)
    → Started offset fi s
    → offset ≡ pos at
    → at ≤ file_length b
    → CopyDone at body (record { file = b; sha1 = fi.sha1; crc32 = fi.crc32; n = 0 }) c
    → DigestsOf fi.sha1 fi.crc32 (take at b)
    → Stored at c (record s { file = some c.file })
settled offset fi s at b body c st place inside done d = record {
  consistent = record {
    fits = rw (st.info) (
        subst (λ o. DecodedFits o c.file) (sym st.read)
          (record {
            at = at;
            offset = st.offset_is ∙ place;
            within = omega (arith, done.within);
            digests = subst (DigestsOf fi.sha1 fi.crc32) (sym same_front) d;
          }));
  };
  stored = refl;
  within = done.within;
  digests = done.digests;
}
  where
    -- the first `at` bytes of the new file
    same_front : take at c.file ≡ take at b
    same_front =
        sym (take-take_le at (at + c.n) c.file (omega arith))
        ∙ ap (take at) (done.content ∙ ap (λ t. take t b ++ body_bytes body) (omega arith))
        ∙ take-append_le at (take at b) (body_bytes body) (omega (arith, length-take at b))
        ∙ take-take_le at at b (omega arith)

-- What `saveFile` does once the file is open.
abbrev pub after_open : Faults → ℤ → List Piece → FileInfo → List ℕ → ℕ → M Saved
after_open f length body fi b at = do
  c ← settle (copy at body (record { file = b; sha1 = fi.sha1; crc32 = fi.crc32; n = 0 }))
  call f.sync
  call f.close
  record_progress f at length c

after_open_done :
    (f : Faults) (length : ℤ) (body : List Piece) (fi : FileInfo) (b : List ℕ) (at : ℕ) (s : Slot)
    → IsWhole body
    → Started (pos at) fi s
    → s.file ≡ some b
    → SaveDone length (after_open f length body fi b at s)
after_open_done f length body fi b at s w st stored =
    let info_fits : InfoFits (some st.file) (some b) =
      subst₂ InfoFits st.info stored st.consistent.fits in
    let fits : Fits fi b = subst (λ o. DecodedFits o b) st.read info_fits in
    let here : fits.at ≡ at = ground (arith, fits.offset, st.offset_is) in
    let inside : at ≤ file_length b = omega (arith, here, fits.within) in
    let d : DigestsOf fi.sha1 fi.crc32 (take at b) =
      subst (λ t. DigestsOf fi.sha1 fi.crc32 (take t b)) here fits.digests in
    let c0 : Copied = record { file = b; sha1 = fi.sha1; crc32 = fi.crc32; n = 0 } in
    let start_at : at + 0 ≡ at = omega arith in
    let (c, copied', done) =
      copy_lem at body c0 w (omega (arith, inside))
        (subst (λ t. DigestsOf fi.sha1 fi.crc32 (take t b)) (sym start_at) d) in
    let stored' = settled (pos at) fi s at b body c st refl inside done d in
    let s' = record s { file = some c.file } in
    rw copied' (
      unfold settle in
      call_done f.sync length (call f.close >> record_progress f at length c) s' stored'.consistent
        (call_done f.close length (record_progress f at length c) s' stored'.consistent
          (record_progress_done f at length c s' stored')))

pub seek-seeks : (f : Faults) (n : ℕ) (s : Slot) → f.seek ≡ false → seek f (pos n) s ≡ (ok n, s)
unfolding seek
seek-seeks f n s works = rw works

seek-fails : (f : Faults) (n : ℕ) (s : Slot) → f.seek ≡ true → seek f (pos n) s ≡ (err other, s)
unfolding seek
seek-fails f n s fails = rw fails

seek-negsuc : (f : Faults) (n : ℕ) (s : Slot) → seek f (negsuc n) s ≡ (err other, s)
unfolding seek
seek-negsuc f n s = refl

seek_done :
    (f : Faults) (length offset : ℤ) (body : List Piece) (fi : FileInfo) (b : List ℕ) (s : Slot)
    → IsWhole body
    → Started offset fi s
    → s.file ≡ some b
    → SaveDone length ((seek f offset >>= after_open f length body fi b) s)
seek_done f length (negsuc n) body fi b s w st stored =
    bind_err (SaveDone length) (seek f (negsuc n)) (after_open f length body fi b) s other s
      (seek-negsuc f n s) st.consistent
seek_done f length (pos n) body fi b s w st stored = elim (Bool-cases f.seek) [
  | inl fails ↦
      bind_err (SaveDone length) (seek f (pos n)) (after_open f length body fi b) s other s
        (seek-fails f n s fails) st.consistent
  | inr works ↦
      bind_ok (SaveDone length) (seek f (pos n)) (after_open f length body fi b) s n s
        (seek-seeks f n s works) (after_open_done f length body fi b n s w st stored)
]

opened-fails :
    (f : Faults) (offset : ℤ) (o : Option (List ℕ)) (s : Slot)
    → f.open_file ≡ true
    → opened f offset o s ≡ (err other, s)
unfolding opened
opened-fails f offset none s fails = rw fails
opened-fails f offset (some b) s fails = rw fails

-- A file that is not there: the info file is deleted, if that works.
missing_done :
    (f : Faults) (offset length : ℤ) (k : List ℕ → M Saved) (s : Slot)
    → f.open_file ≡ false
    → IsConsistent s
    → SaveDone length ((opened f offset none >>= k) s)
unfolding opened delete_file_info
missing_done f offset length k s works c =
    rw works (after (delete_file_info f s) (delete_file_info-Deleted f s))
  where
    after : (o : Result (Unit {0}) × Slot) → Deleted s o → IsConsistent o.1
    after (ok u, t) d = no_info-IsConsistent t d.1
    after (err e, t) d = subst IsConsistent (sym d) c
    after (panic, t) d = absurd d

pub opened-there :
    (f : Faults) (offset : ℤ) (b : List ℕ) (s : Slot)
    → f.open_file ≡ false
    → opened f offset (some b) s ≡ (ok b, s)
unfolding opened
opened-there f offset b s works = rw works

opened_done :
    (f : Faults) (length offset : ℤ) (body : List Piece) (fi : FileInfo) (s : Slot)
    (o : Option (List ℕ))
    → IsWhole body
    → Started offset fi s
    → s.file ≡ o
    → SaveDone length
        ((opened f offset o >>= λ b. seek f offset >>= after_open f length body fi b) s)
opened_done f length offset body fi s o w st e = elim (Bool-cases f.open_file) [
  | inl fails ↦
      bind_err (SaveDone length) (opened f offset o)
        (λ b. seek f offset >>= after_open f length body fi b) s other s
        (opened-fails f offset o s fails) st.consistent
  | inr works ↦ opens o e works
]
  where
    opens :
        (o : Option (List ℕ))
        → s.file ≡ o
        → f.open_file ≡ false
        → SaveDone length
            ((opened f offset o >>= λ b. seek f offset >>= after_open f length body fi b) s)
    opens none e works =
        missing_done f offset length (λ b. seek f offset >>= after_open f length body fi b) s works
          st.consistent
    opens (some b) e works =
        bind_ok (SaveDone length) (opened f offset (some b))
          (λ b. seek f offset >>= after_open f length body fi b) s b s
          (opened-there f offset b s works) (seek_done f length offset body fi b s w st e)

-- With a body that the file takes whole, and where a truncated file loses its old info file, a PATCH
-- keeps the promise of the info file on every path; if it reports digests, the file is complete.
pub save_file_done :
    (f : Faults) (offset length : ℤ) (body : List Piece) (s : Slot)
    → Careful f
    → IsWhole body
    → IsConsistent s
    → SaveDone length (save_file f offset length body s)
unfolding save_file open_file
save_file_done f offset length body s c w h =
    bind_rule (SaveDone length) (start f offset)
      (λ fi. open_file f offset >>= λ b. seek f offset >>= after_open f length body fi b) s
      (λ fi t e.
        opened_done f length offset body fi t t.file w
          (subst (StartDone offset) e (start_done f offset s c h)) refl)
      (λ x t e. subst (StartDone offset) e (start_done f offset s c h))
      (λ t e. absurd (subst (StartDone offset) e (start_done f offset s c h)))
