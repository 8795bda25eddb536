-- ===== src/Tests/Uploading.antt =====
-- An upload (write.go) to the receiver of this library, over two networks.
use efes.Prelude.{ℕ, zero, suc, ◌<◌, ◌≡◌, refl, arith, true, false, none, some, List, [], ◌∷◌, All}
use mathlib.Core.List.{append-nil}
use efes.Prelude.Int.{pos}
use efes.Crc32.Update.Table.{IsByte}
use efes.Receiver.Disk.{ok, Slot, no_faults}
use efes.Receiver.Copy.{Piece, whole}
use efes.Receiver.Http.{Request, Database, answer, found, tempfile_exists}
use efes.Receiver.Invariant.{IsConsistent, IsWhole, body_bytes}
use efes.Receiver.Invariant.Kept.{Careful}
use efes.Client.Requests.{IsRefusal}
use efes.Client.Send.{Config, send_file}
use efes.Upload.{Fate, answered, unanswered, lost, over_network}
use efes.Upload.Requests.{IsFair}
use efes.Upload.Stored.{UploadStored, send_file-Stored}
use efes.Upload.Delivered.{UploadDelivers, reliable, send_file-Delivers}

abbrev abc : List ℕ
abc = 97 ∷ 98 ∷ 99 ∷ []

abc-IsByte : All IsByte abc
abc-IsByte = (omega arith, (omega arith, (omega arith, tt)))

-- Two bytes in a request, and each body in one read.
abbrev one_read : List ℕ → List Piece
one_read p = whole p ∷ []

one_read-IsWhole : (p : List ℕ) → All IsByte p → IsWhole (one_read p)
one_read-IsWhole p h = (h, tt)

one_read-cuts : (p : List ℕ) → All IsByte p → IsWhole (one_read p) × (body_bytes (one_read p) ≡ p)
one_read-cuts p h = ((h, tt), append-nil p)

abbrev config : Config
config = record {
  chunk_size = 2;
  buffer = 1;
  drainer = false;
  fid = some (pos 7);
  cut = one_read;
  takes = λ i. 2;
  gives_up = λ calls. false;
}

-- The one upload that the tracker knows.
abbrev one_upload : Database
one_upload = some (λ fid. found)

known : tempfile_exists one_upload config.fid ≡ ok true
unfolding tempfile_exists answer
known = refl

no_faults-Careful : Careful no_faults
no_faults-Careful = record { closes = refl; replaces = λ e. cc }

-- One byte of the first request arrives, the third request is lost.
abbrev fates : ℕ → Fate
fates zero = unanswered (whole (97 ∷ []) ∷ []) no_faults
fates (suc zero) = answered no_faults
fates (suc (suc zero)) = lost
fates (suc (suc (suc n))) = answered no_faults

fates-IsFair : (n : ℕ) → IsFair (fates n)
fates-IsFair zero = (no_faults-Careful, ((omega arith, tt), tt))
fates-IsFair (suc zero) = no_faults-Careful
fates-IsFair (suc (suc zero)) = tt
fates-IsFair (suc (suc (suc n))) = no_faults-Careful

abbrev nothing : Slot
nothing = record { dir = true; file = none; info = none }

nothing-IsConsistent : IsConsistent nothing
nothing-IsConsistent = record { fits = tt }

some_taken : (i : ℕ) → 0 < config.takes i
some_taken i = omega arith

fates-reads :
    (i : ℕ) (q : Request) (s : Slot)
    → config.takes i ≡ 0
    → IsRefusal (over_network fates one_upload i q s).0
fates-reads i q s z = absurd (omega (arith, z))

send_file-Stored_example :
    UploadStored fates fates-IsFair one_upload config one_read-IsWhole
      (omega arith)
      (omega arith)
      abc
      abc-IsByte
      fates-reads
      (send_file (over_network fates one_upload) config 9 5 (some 3) abc nothing)
send_file-Stored_example =
    send_file-Stored fates fates-IsFair one_upload config one_read-IsWhole (omega arith)
      (omega arith) abc abc-IsByte fates-reads 9 5 (some 3) nothing refl nothing-IsConsistent

send_file-Delivers_example :
    UploadDelivers abc one_upload config known
      (omega arith)
      (omega arith)
      abc-IsByte
      one_read-cuts
      some_taken
      (send_file
        (reliable abc one_upload config known
          (omega arith)
          (omega arith)
          abc-IsByte
          one_read-cuts
          some_taken)
        config
        9
        3
        (some 3)
        abc
        nothing)
send_file-Delivers_example =
    send_file-Delivers abc one_upload config known (omega arith) (omega arith) abc-IsByte
      one_read-cuts some_taken 9 2 nothing (omega arith) nothing-IsConsistent
