-- ===== src/Receiver/Invariant/Progress.antt =====
-- filereceiver.go: `saveFile` when no call fails.
use efes.Prelude.{
  ℕ, suc, ◌+◌, ◌≤◌, ◌≡◌, refl, ap, sym, subst, ◌∙◌, arith, Bool, Option, true, false, none, some,
  List, [], ◌++◌, length, length as file_length, take, if◌then◌else◌, Bool-cases, inl, inr,
}
use mathlib.Core.Path.{subst₂}
use efes.Prelude.Int.{ℤ, pos, ◌==ℤ◌, ==ℤ_iff}
use efes.FileInfo.{FileInfo, InfoFile, new_file_info, encode, decode}
use efes.FileInfo.RoundTrip.{DigestsOf, decode-encode}
use efes.Sha1.Digest.{Sha1Digest}
use efes.Crc32.Digest.{Crc32Digest}
use efes.Receiver.Disk.{
  offset_mismatch, raise, Result, ok, err, panic, Slot, no_faults, ◌>>=◌, pure, call, os_create,
  save_file_info, read_file_info, read_existing_file_info, or_new, info_of, decoded, remove_info,
  delete_file_info, create_file, create_or_mkdir, unless_missing, recreate_file, mkdir_all,
  close_created_file,
}
use efes.Receiver.Rule.{bind_ok}
use efes.Receiver.Copy.{Piece, Copied}
use efes.Receiver.Save.{Saved, start, opened, open_file, seek, settle, record_progress, save_file}
use efes.Receiver.Invariant.{Fits, InfoFits, DecodedFits, IsWhole, body_bytes}
use efes.Receiver.Invariant.Written.{copy_lem}
use efes.Receiver.Invariant.Started.{Started, new_file_info-read, offset-new_file_info}
use efes.Receiver.Invariant.Kept.{IsFresh, create_file-IsFresh}
use efes.Receiver.Invariant.Saving.{after_open, seek-seeks, opened-there}

-- After the last byte there are digests; before it there are none, and an info file from which the
-- next request goes on.
abbrev pub NextInfo : Bool → ℕ → Option (Sha1Digest × Crc32Digest) → Slot → Type 0
NextInfo true at o s = (d : Sha1Digest × Crc32Digest) × (o ≡ some d)
NextInfo false at o s = (o ≡ none) × ((fi : FileInfo) × Started (pos at) fi s)

-- A success: the offset has moved by the length of the body, the file's bytes up to it are those in
-- front of the old offset, then the body, and the next request can go on from there.
abbrev pub Appends : ℕ → ℤ → List Piece → List ℕ → Result Saved × Slot → Type 0
Appends n size body front (ok r, s) =
    (r.offset ≡ pos (n + length (body_bytes body)))
    × ((file : List ℕ) × (s.file ≡ some file)
        × (take (n + length (body_bytes body)) file ≡ front ++ body_bytes body))
    × NextInfo (pos (n + length (body_bytes body)) ==ℤ size) (n + length (body_bytes body)) r.digest
        s
Appends n size body front (err e, s) = ⊥
Appends n size body front (panic, s) = ⊥

delete_file_info-works :
    (i : InfoFile) (s : Slot)
    → s.info ≡ some i
    → delete_file_info no_faults s ≡ (ok tt, record s { info = none })
unfolding delete_file_info remove_info
delete_file_info-works i s e = rw e refl

saved-Started :
    (at : ℕ) (c : Copied) (s : Slot)
    → s.file ≡ some c.file
    → at ≤ file_length c.file
    → DigestsOf c.sha1 c.crc32 (take at c.file)
    → Started
        (pos at)
        (record { offset = pos at; sha1 = c.sha1; crc32 = c.crc32 })
        (record s {
          info = some (encode (record { offset = pos at; sha1 = c.sha1; crc32 = c.crc32 }));
        })
saved-Started at c s stored within digests = record {
  consistent = record {
    fits = subst (InfoFits (some (encode fi))) (sym stored) (
        subst (λ o. DecodedFits o c.file) (sym read_back)
          (record { at = at; offset = refl; within = within; digests = digests }));
  };
  file = encode fi;
  info = refl;
  read = read_back;
  offset_is = refl;
}
  where
    fi : FileInfo
    fi = record { offset = pos at; sha1 = c.sha1; crc32 = c.crc32 }

    read_back : decode (encode fi) ≡ some fi
    read_back = decode-encode fi (take at c.file) digests

record_progress-Appends :
    (n : ℕ) (size : ℤ) (body : List Piece) (front : List ℕ) (c : Copied) (i : InfoFile) (s : Slot)
    → s.info ≡ some i
    → s.file ≡ some c.file
    → c.n ≡ length (body_bytes body)
    → take (n + c.n) c.file ≡ front ++ body_bytes body
    → n + c.n ≤ file_length c.file
    → DigestsOf c.sha1 c.crc32 (take (n + c.n) c.file)
    → Appends n size body front (record_progress no_faults n size c s)
unfolding record_progress save_file_info
record_progress-Appends n size body front c i s e stored count content within digests =
    let total : n + c.n ≡ n + length (body_bytes body) = ap (λ t. n + t) count in
    let bytes : take (n + length (body_bytes body)) c.file ≡ front ++ body_bytes body =
      subst (λ t. take t c.file ≡ front ++ body_bytes body) total content in
    elim (Bool-cases (pos (n + c.n) ==ℤ size)) [
      | inl all ↦
          (let all' = subst (λ t. (pos t ==ℤ size) ≡ true) total all in
            rw all (
              bind_ok (Appends n size body front) (delete_file_info no_faults)
                (λ _. pure (record { offset = pos (n + c.n); digest = some (c.sha1, c.crc32) })) s
                tt _ (delete_file_info-works i s e)
                (
                  ap pos total,
                  (c.file, stored, bytes),
                  subst
                      (λ b.
                        NextInfo b (n + length (body_bytes body)) (some (c.sha1, c.crc32))
                          (record s { info = none }))
                      (sym all') ((c.sha1, c.crc32), refl),
                )))
      | inr some_left ↦
          (let more = subst (λ t. (pos t ==ℤ size) ≡ false) total some_left in
            let saved : FileInfo = record {
              offset = pos (n + c.n);
              sha1 = c.sha1;
              crc32 = c.crc32;
            } in
            rw some_left (
              ap pos total,
              (c.file, stored, bytes),
              subst
                  (λ b.
                    NextInfo b (n + length (body_bytes body)) none
                      (record s { info = some (encode saved) }))
                  (sym more)
                  (
                    refl,
                    (
                      saved,
                      subst (λ t. Started (pos t) saved (record s { info = some (encode saved) }))
                          total (saved-Started (n + c.n) c s stored within digests),
                    ),
                  ),
            ))
    ]

after_open-Appends :
    (size : ℤ) (body : List Piece) (fi : FileInfo) (b : List ℕ) (at : ℕ) (s : Slot)
    → IsWhole body
    → Started (pos at) fi s
    → s.file ≡ some b
    → Appends at size body (take at b) (after_open no_faults size body fi b at s)
unfolding settle call
after_open-Appends size body fi b at s w st stored =
    let info_fits : InfoFits (some st.file) (some b) =
      subst₂ InfoFits st.info stored st.consistent.fits in
    let fits : Fits fi b = subst (λ o. DecodedFits o b) st.read info_fits in
    let here : fits.at ≡ at = ground (arith, fits.offset, st.offset_is) in
    let inside : at ≤ file_length b = omega (arith, here, fits.within) in
    let d : DigestsOf fi.sha1 fi.crc32 (take at b) =
      subst (λ t. DigestsOf fi.sha1 fi.crc32 (take t b)) here fits.digests in
    let c0 : Copied = record { file = b; sha1 = fi.sha1; crc32 = fi.crc32; n = 0 } in
    let start_at : at + 0 ≡ at = omega arith in
    let (c, copied', done) =
      copy_lem at body c0 w (omega (arith, inside))
        (subst (λ t. DigestsOf fi.sha1 fi.crc32 (take t b)) (sym start_at) d) in
    rw copied' (
      record_progress-Appends at size body (take at b) c st.file (record s { file = some c.file })
        st.info refl (omega (arith, done.count))
        (done.content ∙ ap (λ t. take t b ++ body_bytes body) start_at) done.within done.digests)

-- From an open file on.
opened-Appends :
    (size : ℤ) (body : List Piece) (fi : FileInfo) (b : List ℕ) (at : ℕ) (s : Slot)
    → IsWhole body
    → Started (pos at) fi s
    → s.file ≡ some b
    → Appends at size body (take at b) (
        (open_file no_faults (pos at) >>= λ b.
        seek no_faults (pos at) >>= after_open no_faults size body fi b)
          s)
unfolding open_file
opened-Appends size body fi b at s w st stored =
    bind_ok P (λ s. opened no_faults (pos at) s.file s)
      (λ b. seek no_faults (pos at) >>= after_open no_faults size body fi b) s b s
      (ap (λ o. opened no_faults (pos at) o s) stored ∙ opened-there no_faults (pos at) b s refl)
      (bind_ok P (seek no_faults (pos at)) (after_open no_faults size body fi b) s at s
        (seek-seeks no_faults at s refl) (after_open-Appends size body fi b at s w st stored))
  where
    P : Result Saved × Slot → Type 0
    P = Appends at size body (take at b)

-- The read of an info file that decodes.
read_file_info-found :
    (fi : FileInfo) (i : InfoFile) (s : Slot)
    → s.info ≡ some i
    → decode i ≡ some fi
    → read_file_info no_faults s ≡ (ok fi, s)
unfolding read_file_info read_existing_file_info or_new info_of decoded
read_file_info-found fi i s e d = rw e (rw d refl)

start-found :
    (n : ℕ) (fi : FileInfo) (s : Slot)
    → Started (pos (suc n)) fi s
    → start no_faults (pos (suc n)) s ≡ (ok fi, s)
unfolding start
start-found n fi s st =
    let later : (pos (suc n) ==ℤ pos 0) ≡ false = ground arith in
    let same : (pos (suc n) ==ℤ fi.offset) ≡ true =
      (==ℤ_iff (pos (suc n)) fi.offset).1 (sym st.offset_is) in
    rw later (
      bind_ok (λ o. o ≡ (ok fi, s)) (read_file_info no_faults)
        (λ fi.
          if pos (suc n) ==ℤ fi.offset
          then pure fi
          else raise (offset_mismatch (pos (suc n)) fi.offset))
        s fi s (read_file_info-found fi st.file s st.info st.read) (rw same refl))

-- When no call fails, a PATCH request at the offset of the info file appends its body to the bytes
-- in front of that offset, and moves the offset by the body's length. There are digests if the
-- offset has reached the announced length, and else an info file from which a request at the new
-- offset goes on.
pub save_file-Appends :
    (n : ℕ) (size : ℤ) (body : List Piece) (fi : FileInfo) (b : List ℕ) (s : Slot)
    → IsWhole body
    → Started (pos (suc n)) fi s
    → s.file ≡ some b
    → Appends (suc n) size body (take (suc n) b) (save_file no_faults (pos (suc n)) size body s)
unfolding save_file
save_file-Appends n size body fi b s w st stored =
    bind_ok (Appends (suc n) size body (take (suc n) b)) (start no_faults (pos (suc n)))
      (λ fi. open_file no_faults (pos (suc n)) >>= λ b.
        seek no_faults (pos (suc n)) >>= after_open no_faults size body fi b)
      s fi s (start-found n fi s st) (opened-Appends size body fi b (suc n) s w st stored)

-- The two files after `createFile`.
abbrev created : Slot
created = record { dir = true; file = some []; info = some (encode new_file_info) }

create_file-works : (s : Slot) → create_file no_faults s ≡ (ok tt, created)
unfolding create_file create_or_mkdir os_create unless_missing recreate_file mkdir_all
    close_created_file call save_file_info
create_file-works s = elim (Bool-cases s.dir) [
  | inl there ↦ rw there refl
  | inr missing ↦ rw missing refl
]

created-Started : Started (pos 0) new_file_info created
created-Started = record {
  consistent =
      (subst IsFresh (create_file-works missing) (
        create_file-IsFresh no_faults missing (record { closes = refl; replaces = λ e. cc })
          (record { fits = tt }))).0;
  file = encode new_file_info;
  info = refl;
  read = new_file_info-read;
  offset_is = offset-new_file_info;
}
  where
    missing : Slot
    missing = record { dir = false; file = none; info = none }

start-created : (s : Slot) → start no_faults (pos 0) s ≡ (ok new_file_info, created)
unfolding start
start-created s =
    bind_ok (λ o. o ≡ (ok new_file_info, created)) (create_file no_faults) (λ _. pure new_file_info)
      s tt created (create_file-works s) refl

-- When no call fails, a PATCH request at offset 0 stores its body, whatever was there. There are
-- digests if the body has the announced length, and else an info file from which a request at the
-- new offset goes on.
pub save_file_first-Appends :
    (size : ℤ) (body : List Piece) (s : Slot)
    → IsWhole body
    → Appends 0 size body [] (save_file no_faults (pos 0) size body s)
unfolding save_file
save_file_first-Appends size body s w =
    bind_ok (Appends 0 size body []) (start no_faults (pos 0))
      (λ fi. open_file no_faults (pos 0) >>= λ b.
        seek no_faults (pos 0) >>= after_open no_faults size body fi b)
      s new_file_info created (start-created s)
      (opened-Appends size body new_file_info [] 0 created w created-Started refl)
