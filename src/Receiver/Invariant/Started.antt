-- ===== src/Receiver/Invariant/Started.antt =====
-- filereceiver.go: where `saveFile` goes on from, the info file that is there or a new one.
use efes.Prelude.{
  ◌≡◌, ◌≢◌, refl, ap, sym, subst, ◌∙◌, false, Option, none, some, [], Bool-cases, Option-cases, inl,
  inr, if◌then◌else◌,
}
use efes.Prelude.Int.{ℤ, pos, ◌==ℤ◌, ==ℤ_iff}
use efes.FileInfo.{FileInfo, InfoFile, new_file_info, encode, decode}
use efes.FileInfo.RoundTrip.{decode-encode, new-DigestsOf}
use efes.Receiver.Disk.{
  other, offset_mismatch, Result, ok, err, panic, Slot, Faults, M, ◌>>=◌, pure, raise, decoded,
  info_of, read_existing_file_info, or_new, read_file_info, create_file,
}
use efes.Receiver.Rule.{bind_rule}
use efes.Receiver.Save.{start}
use efes.Receiver.Invariant.{IsConsistent}
use efes.Receiver.Invariant.Kept.{Careful, IsFresh, create_file-IsFresh}

-- The info file holds what the request goes on from.
pub record Started (offset : ℤ) (fi : FileInfo) (s : Slot) : Type 0 where
  pub consistent : IsConsistent s
  pub file : InfoFile
  pub info : s.info ≡ some file
  pub read : decode file ≡ some fi
  pub offset_is : fi.offset ≡ offset

abbrev pub StartDone : ℤ → Result FileInfo × Slot → Type 0
StartDone offset (ok fi, s) = Started offset fi s
StartDone offset (err e, s) = IsConsistent s
StartDone offset (panic, s) = ⊥

pub new_file_info-read : decode (encode new_file_info) ≡ some new_file_info
unfolding new_file_info
new_file_info-read = decode-encode new_file_info [] new-DigestsOf

pub offset-new_file_info : new_file_info.offset ≡ pos 0
unfolding new_file_info
offset-new_file_info = refl

start-create :
    (f : Faults) (s : Slot)
    → Careful f
    → IsConsistent s
    → StartDone (pos 0) ((create_file f >>= λ _. pure new_file_info) s)
start-create f s c h =
    bind_rule (StartDone (pos 0)) (create_file f) (λ _. pure new_file_info) s
      (λ a t e.
        let (consistent, empty, saved) = fresh (ok a) t e in
        record {
          consistent = consistent;
          file = encode new_file_info;
          info = saved;
          read = new_file_info-read;
          offset_is = offset-new_file_info;
        })
      (λ x t e. fresh (err x) t e) (λ t e. absurd (fresh panic t e))
  where
    fresh : (r : Result (Unit {0})) (t : Slot) → create_file f s ≡ (r, t) → IsFresh (r, t)
    fresh r t e = subst IsFresh e (create_file-IsFresh f s c h)

-- An info that was read is the one in the file, or a new one where there is no file.
found_info :
    (o : Option InfoFile) (fi : FileInfo)
    → or_new (info_of o) ≡ ok fi
    → (fi.offset ==ℤ pos 0) ≡ false
    → (i : InfoFile) × (o ≡ some i) × (decode i ≡ some fi)
unfolding or_new info_of new_file_info
found_info none fi e h =
    let new : new_file_info ≡ fi = cc in cc (ap (λ (t : FileInfo). t.offset ==ℤ pos 0) new)
found_info (some i) fi e h = elim (Option-cases (decode i)) [
  | inl unreadable ↦ cc (rw unreadable at e)
  | inr (gi, readable) ↦
      (let same : gi ≡ fi = let e' = rw readable at e in cc in (i, refl, readable ∙ ap some same))
]

pub read_file_info-same : (f : Faults) (s : Slot) → (read_file_info f s).1 ≡ s
unfolding read_file_info read_existing_file_info
read_file_info-same f s = refl

or_new-other : or_new (err other) ≡ err other
unfolding or_new
or_new-other = refl

read_file_info-found :
    (f : Faults) (s : Slot) (fi : FileInfo)
    → (read_file_info f s).0 ≡ ok fi
    → (fi.offset ==ℤ pos 0) ≡ false
    → (i : InfoFile) × (s.info ≡ some i) × (decode i ≡ some fi)
unfolding read_file_info read_existing_file_info
read_file_info-found f s fi e h = elim (Bool-cases f.read_info) [
  | inl fails ↦ cc (rw or_new-other at (rw fails at e))
  | inr reads ↦ found_info s.info fi (rw reads at e) h
]

-- `if offset != fi.Offset`
checked : ℤ → FileInfo → M FileInfo
checked offset fi =
    if offset ==ℤ fi.offset then pure fi else raise (offset_mismatch offset fi.offset)

checked_done :
    (offset : ℤ) (fi : FileInfo) (s : Slot)
    → IsConsistent s
    → (offset ==ℤ pos 0) ≡ false
    → ((fi.offset ==ℤ pos 0) ≡ false → (i : InfoFile) × (s.info ≡ some i) × (decode i ≡ some fi))
    → StartDone offset (checked offset fi s)
unfolding checked
checked_done offset fi s c nz found = elim (Bool-cases (offset ==ℤ fi.offset)) [
  | inl same ↦
      (let eq : offset ≡ fi.offset = (==ℤ_iff offset fi.offset).0 same in
        let (i, info, read) = found (rw (← eq) nz) in
        rw same (record { consistent = c; file = i; info = info; read = read; offset_is = sym eq }))
  | inr differs ↦ rw differs c
]

returns_info : (o : Option InfoFile) → or_new (info_of o) ≢ panic
unfolding or_new info_of decoded
returns_info none e = cc
returns_info (some i) e = elim (Option-cases (decode i)) [
  | inl unreadable ↦ cc (rw unreadable at e)
  | inr (gi, readable) ↦ cc (rw readable at e)
]

info_of-returns : (o : Option InfoFile) → info_of o ≢ panic
unfolding info_of decoded
info_of-returns none e = cc
info_of-returns (some i) e = elim (Option-cases (decode i)) [
  | inl unreadable ↦ cc (rw unreadable at e)
  | inr (gi, readable) ↦ cc (rw readable at e)
]

pub read_existing_file_info-returns :
    (f : Faults) (s : Slot) → (read_existing_file_info f s).0 ≢ panic
unfolding read_existing_file_info
read_existing_file_info-returns f s e = elim (Bool-cases f.read_info) [
  | inl fails ↦ cc (rw fails at e)
  | inr reads ↦ info_of-returns s.info (rw reads at e)
]

pub read_file_info-returns : (f : Faults) (s : Slot) → (read_file_info f s).0 ≢ panic
unfolding read_file_info read_existing_file_info
read_file_info-returns f s e = elim (Bool-cases f.read_info) [
  | inl fails ↦ cc (rw or_new-other at (rw fails at e))
  | inr reads ↦ returns_info s.info (rw reads at e)
]

start-read :
    (f : Faults) (offset : ℤ) (s : Slot)
    → (offset ==ℤ pos 0) ≡ false
    → IsConsistent s
    → StartDone offset ((read_file_info f >>= checked offset) s)
start-read f offset s nz c =
    bind_rule (StartDone offset) (read_file_info f) (checked offset) s
      (λ fi t e.
        let same : s ≡ t = sym (read_file_info-same f s) ∙ ap (λ o. o.1) e in
        checked_done offset fi t (subst IsConsistent same c) nz (
          subst
            (λ u.
              (fi.offset ==ℤ pos 0) ≡ false
              → (i : InfoFile) × (u.info ≡ some i) × (decode i ≡ some fi))
            same (read_file_info-found f s fi (ap (λ o. o.0) e))))
      (λ x t e. subst IsConsistent (sym (read_file_info-same f s) ∙ ap (λ o. o.1) e) c)
      (λ t e. absurd (read_file_info-returns f s (ap (λ o. o.0) e)))

pub start_done :
    (f : Faults) (offset : ℤ) (s : Slot)
    → Careful f
    → IsConsistent s
    → StartDone offset (start f offset s)
unfolding start checked
start_done f offset s c h = elim (Bool-cases (offset ==ℤ pos 0)) [
  | inl zero_offset ↦
      rw zero_offset (rw ((==ℤ_iff offset (pos 0)).0 zero_offset) (start-create f s c h))
  | inr later ↦ rw later (start-read f offset s later h)
]
