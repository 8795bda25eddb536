-- ===== src/Receiver/Invariant.antt =====
-- filereceiver.go: what an info file promises about the data file beside it.
pub mod Written
pub mod Kept
pub mod Started
pub mod Recorded
pub mod Saving
pub mod Progress
use efes.Prelude.{ℕ, ◌+◌, ◌≤◌, ◌≡◌, Option, none, some, List, [], ◌∷◌, ◌++◌, length, take, All}
use efes.Prelude.Int.{ℤ, pos, negsuc}
use efes.Sha1.Digest.{Sha1Digest}
use efes.Crc32.Digest.{Crc32Digest}
use efes.Crc32.Update.Table.{IsByte}
use efes.FileInfo.{FileInfo, InfoFile, encoded, broken, decode}
use efes.FileInfo.RoundTrip.{DigestsOf}
use efes.Receiver.Disk.{Slot, Faults, SaveFault, create_fault}
use efes.Receiver.Copy.{Piece, whole, short}

-- The file info stands at a byte of the file, and its digests are those of the bytes before it.
pub record Fits (fi : FileInfo) (file : List ℕ) : Type 0 where
  pub at : ℕ
  pub offset : fi.offset ≡ pos at
  pub within : at ≤ length file
  pub digests : DigestsOf fi.sha1 fi.crc32 (take at file)

-- An info file that can be read fits the data file, if there is one.
abbrev pub DecodedFits : Option FileInfo → List ℕ → Type 0
DecodedFits none b = Unit
DecodedFits (some fi) b = Fits fi b

abbrev pub InfoFits : Option InfoFile → Option (List ℕ) → Type 0
InfoFits none file = Unit
InfoFits (some i) none = Unit
InfoFits (some i) (some b) = DecodedFits (decode i) b

pub record IsConsistent (s : Slot) : Type 0 where
  pub fits : InfoFits s.info s.file

-- The bytes of a body.
abbrev pub body_bytes : List Piece → List ℕ
body_bytes [] = []
body_bytes (whole p ∷ ps) = p ++ body_bytes ps
body_bytes (short p k ∷ ps) = take k p

-- The file takes every piece of the body.
abbrev pub IsWhole : List Piece → Type 0
IsWhole [] = Unit
IsWhole (whole p ∷ ps) = All IsByte p × IsWhole ps
IsWhole (short p k ∷ ps) = ⊥
