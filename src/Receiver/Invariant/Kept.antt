-- ===== src/Receiver/Invariant/Kept.antt =====
-- filereceiver.go, fileinfo.go: creating, reading and saving, and the promise of the info file.
use efes.Prelude.{
  ℕ, ◌≡◌, refl, sym, subst, arith, Bool, true, false, Option, none, some, List, [], inl, inr, ◌≢◌,
  Bool-cases,
}
use efes.FileInfo.{FileInfo, broken, new_file_info, encode, decode}
use efes.FileInfo.RoundTrip.{DigestsOf, new-DigestsOf, decode-encode}
use efes.Receiver.Disk.{
  Result, ok, err, not_exist, offset_mismatch, other, panic, Slot, Faults, SaveFault, saves,
  create_fault, encode_fault, close_fault, call, os_create, mkdir_all, save_file_info,
  close_created_file, recreate_file, unless_missing, create_or_mkdir, create_file,
}
use mathlib.Core.Path.{subst₂}
use efes.Receiver.Rule.{bind_rule}
use efes.Receiver.Invariant.{Fits, InfoFits, DecodedFits, IsConsistent}

-- Once os.Create has truncated the data file, the old info file is replaced.
pub record Careful (f : Faults) : Type 0 where
  pub closes : f.close_created ≡ false
  pub replaces : f.save_created ≢ create_fault

-- What is to be saved fits the data file, if there is one.
abbrev pub FitsFile : FileInfo → Option (List ℕ) → Type 0
FitsFile fi none = Unit
FitsFile fi (some b) = Fits fi b

-- An info file that was just written fits if what was written does.
encode-InfoFits :
    (fi : FileInfo) (m : List ℕ) (file : Option (List ℕ))
    → DigestsOf fi.sha1 fi.crc32 m
    → FitsFile fi file
    → InfoFits (some (encode fi)) file
encode-InfoFits fi m none d fits = tt
encode-InfoFits fi m (some b) d fits =
    subst (λ o. DecodedFits o b) (sym (decode-encode fi m d)) fits

broken-InfoFits : (file : Option (List ℕ)) → InfoFits (some broken) file
unfolding decode
broken-InfoFits none = tt
broken-InfoFits (some b) = tt

-- Saving keeps the promise, however far it comes: what is saved fits, or the old info file stays.
pub save-IsConsistent :
    (v : SaveFault) (fi : FileInfo) (m : List ℕ) (s : Slot)
    → DigestsOf fi.sha1 fi.crc32 m
    → FitsFile fi s.file
    → (v ≡ create_fault → IsConsistent s)
    → IsConsistent (save_file_info v fi s).1
unfolding save_file_info
save-IsConsistent saves fi m s d fits old = record { fits = encode-InfoFits fi m s.file d fits }
save-IsConsistent create_fault fi m s d fits old = old refl
save-IsConsistent encode_fault fi m s d fits old = record { fits = broken-InfoFits s.file }
save-IsConsistent close_fault fi m s d fits old = record {
  fits = encode-InfoFits fi m s.file d fits;
}

new-FitsFile : (file : Option (List ℕ)) → FitsFile new_file_info file
unfolding new_file_info
new-FitsFile none = tt
new-FitsFile (some b) = record {
  at = 0;
  offset = refl;
  within = omega arith;
  digests = new-DigestsOf;
}

new-DigestsOf_info : DigestsOf new_file_info.sha1 new_file_info.crc32 []
unfolding new_file_info
new-DigestsOf_info = new-DigestsOf

close_created_file-IsConsistent :
    (f : Faults) (s : Slot) → Careful f → IsConsistent (close_created_file f s).1
unfolding close_created_file call
close_created_file-IsConsistent f s c = rw (c.closes) (
    save-IsConsistent f.save_created new_file_info [] s new-DigestsOf_info (new-FitsFile s.file)
      (λ e. absurd (c.replaces e)))

-- Either there is an empty data file now, or the two files are as they were.
abbrev Created : Result (Unit {0}) × Slot → Slot → Type 0
Created (ok u, s') s = (s'.file ≡ some []) × (s'.info ≡ s.info)
Created (err e, s') s = (s'.file ≡ s.file) × (s'.info ≡ s.info)
Created (panic, s') s = ⊥

os_create-Created :
    (b : Bool) (s t : Slot) → s.file ≡ t.file → s.info ≡ t.info → Created (os_create b s) t
unfolding os_create
os_create-Created true s t h k = (h, k)
os_create-Created false s t h k = elim (Bool-cases s.dir) [
  | inl there ↦ rw there (refl, k)
  | inr missing ↦ rw missing (h, k)
]

recreate_file-Created :
    (f : Faults) (s t : Slot) → s.file ≡ t.file → s.info ≡ t.info → Created (recreate_file f s) t
unfolding recreate_file mkdir_all
recreate_file-Created f s t h k = elim (Bool-cases f.mkdir) [
  | inl fails ↦ rw fails (h, k)
  | inr made ↦ rw made (os_create-Created f.recreate (record s { dir = true }) t h k)
]

unless_missing-Created :
    (f : Faults) (r : Result (Unit {0})) (s t : Slot)
    → Created (r, s) t
    → Created (unless_missing f r s) t
unfolding unless_missing
unless_missing-Created f (ok u) s t h = h
unless_missing-Created f (err not_exist) s t h = recreate_file-Created f s t h.0 h.1
unless_missing-Created f (err (offset_mismatch g r)) s t h = h
unless_missing-Created f (err other) s t h = h
unless_missing-Created f panic s t h = h

create_or_mkdir-Created : (f : Faults) (s : Slot) → Created (create_or_mkdir f s) s
unfolding create_or_mkdir
create_or_mkdir-Created f s =
    unless_missing-Created f (os_create f.create s).0 (os_create f.create s).1 s
      (os_create-Created f.create s s refl refl)

same-IsConsistent :
    (s t : Slot) → s.file ≡ t.file → s.info ≡ t.info → IsConsistent t → IsConsistent s
same-IsConsistent s t h k c = record { fits = subst₂ InfoFits (sym k) (sym h) c.fits }

-- What `createFile` leaves: with success a new info file and an empty data file.
abbrev pub IsFresh : Result (Unit {0}) × Slot → Type 0
IsFresh (ok u, s) = IsConsistent s × (s.file ≡ some []) × (s.info ≡ some (encode new_file_info))
IsFresh (err e, s) = IsConsistent s
IsFresh (panic, s) = ⊥

save-IsFresh :
    (v : SaveFault) (s : Slot)
    → s.file ≡ some []
    → IsConsistent (save_file_info v new_file_info s).1
    → IsFresh (save_file_info v new_file_info s)
unfolding save_file_info
save-IsFresh saves s h c = (c, h, refl)
save-IsFresh create_fault s h c = c
save-IsFresh encode_fault s h c = c
save-IsFresh close_fault s h c = c

close_created_file-eq :
    (f : Faults) (s : Slot)
    → Careful f
    → close_created_file f s ≡ save_file_info f.save_created new_file_info s
unfolding close_created_file call
close_created_file-eq f s c = rw (c.closes)

-- With `Careful` faults `createFile` never leaves an info file that does not fit the data file;
-- where it succeeds the data file is empty and the info file is a new one.
pub create_file-IsFresh :
    (f : Faults) (s : Slot) → Careful f → IsConsistent s → IsFresh (create_file f s)
unfolding create_file
create_file-IsFresh f s c h =
    bind_rule IsFresh (create_or_mkdir f) (λ _. close_created_file f) s
      (λ a t e.
        let made : Created (ok a, t) s = subst (λ o. Created o s) e (create_or_mkdir-Created f s) in
        rw (close_created_file-eq f t c) (
          save-IsFresh f.save_created t made.0
            (rw (close_created_file-eq f t c) at (close_created_file-IsConsistent f t c))))
      (λ x t e.
        let made : Created (err x, t) s =
          subst (λ o. Created o s) e (create_or_mkdir-Created f s) in
        same-IsConsistent t s made.0 made.1 h)
      (λ t e. absurd (
        let made : Created (panic, t) s =
          subst (λ o. Created o s) e (create_or_mkdir-Created f s) in
        made))
