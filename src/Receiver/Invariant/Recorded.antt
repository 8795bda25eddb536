-- ===== src/Receiver/Invariant/Recorded.antt =====
-- filereceiver.go: the end of `saveFile`, what it records and what it reports.
use efes.Prelude.{
  ℕ, ◌+◌, ◌≤◌, ◌≡◌, refl, ◌≢◌, ap, sym, subst, ◌∙◌, Bool, true, false, Option, none, some, List,
  Bool-cases, inl, inr, length, length as file_length, take,
}
use efes.Prelude.Int.{ℤ, pos, ◌==ℤ◌, ==ℤ_iff}
use efes.Sha1.Digest.{Sha1Digest}
use efes.Crc32.Digest.{Crc32Digest}
use efes.FileInfo.{FileInfo, InfoFile}
use efes.FileInfo.RoundTrip.{DigestsOf}
use efes.Receiver.Disk.{
  Result, ok, err, panic, Slot, Faults, SaveFault, saves, create_fault, encode_fault, close_fault,
  M, ◌>>◌, pure, call, save_file_info, delete_file_info, remove_info,
}
use efes.Receiver.Rule.{bind_rule}
use efes.Receiver.Copy.{Copied}
use efes.Receiver.Save.{Saved, record_progress}
use efes.Receiver.Invariant.{Fits, IsConsistent}
use efes.Receiver.Invariant.Kept.{FitsFile, save-IsConsistent}

-- A file that was reported complete: it has the announced length, the digests are those of its
-- bytes up to there, and the info file is gone.
pub record Complete (length : ℤ) (r : Saved) (sha1 : Sha1Digest) (crc32 : Crc32Digest) (s : Slot)
    : Type 0 where
  pub file : List ℕ
  pub stored : s.file ≡ some file
  pub info_gone : s.info ≡ none
  pub at : ℕ
  pub offset : r.offset ≡ pos at
  pub announced : length ≡ pos at
  pub within : at ≤ file_length file
  pub digests : DigestsOf sha1 crc32 (take at file)

abbrev pub Reported : ℤ → Saved → Option (Sha1Digest × Crc32Digest) → Slot → Type 0
Reported length r none s = Unit
Reported length r (some (sha1, crc32)) s = Complete length r sha1 crc32 s

abbrev pub SaveDone : ℤ → Result Saved × Slot → Type 0
SaveDone length (ok r, s) = IsConsistent s × Reported length r r.digest s
SaveDone length (err e, s) = IsConsistent s
SaveDone length (panic, s) = ⊥

-- After the body has been copied.
pub record Stored (at : ℕ) (c : Copied) (s : Slot) : Type 0 where
  pub consistent : IsConsistent s
  pub stored : s.file ≡ some c.file
  pub within : at + c.n ≤ length c.file
  pub digests : DigestsOf c.sha1 c.crc32 (take (at + c.n) c.file)

-- What `DeleteFileInfo` does: the info file is gone, or nothing has changed.
abbrev pub Deleted : Slot → Result (Unit {0}) × Slot → Type 0
Deleted s (ok u, t) = (t.file ≡ s.file) × (t.info ≡ none)
Deleted s (err e, t) = t ≡ s
Deleted s (panic, t) = ⊥

remove_info-Deleted : (o : Option InfoFile) (s : Slot) → Deleted s (remove_info o s)
unfolding remove_info
remove_info-Deleted none s = refl
remove_info-Deleted (some i) s = (refl, refl)

pub delete_file_info-Deleted : (f : Faults) (s : Slot) → Deleted s (delete_file_info f s)
unfolding delete_file_info
delete_file_info-Deleted f s = elim (Bool-cases f.delete_info) [
  | inl fails ↦ rw fails refl
  | inr works ↦ rw works (remove_info-Deleted s.info s)
]

pub no_info-IsConsistent : (s : Slot) → s.info ≡ none → IsConsistent s
no_info-IsConsistent s e = record { fits = rw e tt }

complete_done :
    (f : Faults) (at : ℕ) (length : ℤ) (c : Copied) (s : Slot)
    → Stored at c s
    → length ≡ pos (at + c.n)
    → SaveDone length (
        (delete_file_info f
            >> pure (record { offset = pos (at + c.n); digest = some (c.sha1, c.crc32) }))
          s)
complete_done f at length c s h e =
    bind_rule (SaveDone length) (delete_file_info f) (λ _. pure _) s
      (λ u t d.
        let gone = subst (Deleted s) d (delete_file_info-Deleted f s) in
        (
          no_info-IsConsistent t gone.1,
          record {
            file = c.file;
            stored = gone.0 ∙ h.stored;
            info_gone = gone.1;
            at = at + c.n;
            offset = refl;
            announced = e;
            within = h.within;
            digests = h.digests;
          },
        ))
      (λ x t d.
        subst IsConsistent (sym (subst (Deleted s) d (delete_file_info-Deleted f s))) h.consistent)
      (λ t d. absurd (subst (Deleted s) d (delete_file_info-Deleted f s)))

abbrev Unchanged : {A : Type 0} → Slot → Result A × Slot → Type 0
Unchanged s (r, t) = t ≡ s

save-returns : (v : SaveFault) (fi : FileInfo) (s : Slot) → (save_file_info v fi s).0 ≢ panic
unfolding save_file_info
save-returns saves fi s e = cc
save-returns create_fault fi s e = cc
save-returns encode_fault fi s e = cc
save-returns close_fault fi s e = cc

-- An incomplete file: the new info is saved, as far as that goes.
incomplete_done :
    (f : Faults) (at : ℕ) (length : ℤ) (c : Copied) (s : Slot)
    → Stored at c s
    → SaveDone length (
        (save_file_info f.save (record { offset = pos (at + c.n); sha1 = c.sha1; crc32 = c.crc32 })
            >> pure (record { offset = pos (at + c.n); digest = none }))
          s)
incomplete_done f at length c s h =
    bind_rule (SaveDone length) (save_file_info f.save fi) (λ _. pure _) s
      (λ u t e. (subst (λ o. IsConsistent o.1) e kept, tt))
      (λ x t e. subst (λ o. IsConsistent o.1) e kept)
      (λ t e. absurd (save-returns f.save fi s (ap (λ o. o.0) e)))
  where
    fi : FileInfo
    fi = record { offset = pos (at + c.n); sha1 = c.sha1; crc32 = c.crc32 }

    fits : Fits fi c.file
    fits = record { at = at + c.n; offset = refl; within = h.within; digests = h.digests }

    kept : IsConsistent (save_file_info f.save fi s).1
    kept =
        save-IsConsistent f.save fi (take (at + c.n) c.file) s h.digests
          (subst (FitsFile fi) (sym h.stored) fits) (λ _. h.consistent)

pub record_progress_done :
    (f : Faults) (at : ℕ) (length : ℤ) (c : Copied) (s : Slot)
    → Stored at c s
    → SaveDone length (record_progress f at length c s)
unfolding record_progress
record_progress_done f at length c s h = elim (Bool-cases (pos (at + c.n) ==ℤ length)) [
  | inl all ↦
      rw all (complete_done f at length c s h (sym ((==ℤ_iff (pos (at + c.n)) length).0 all)))
  | inr some_left ↦ rw some_left (incomplete_done f at length c s h)
]

pub call_done :
    (fails : Bool) (length : ℤ) (k : M Saved) (s : Slot)
    → IsConsistent s
    → SaveDone length (k s)
    → SaveDone length ((call fails >> k) s)
unfolding call
call_done true length k s h done = h
call_done false length k s h done = done
