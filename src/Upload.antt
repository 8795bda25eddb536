-- ===== src/Upload.antt =====
-- An upload (write.go) to a file receiver (filereceiver.go) over a network that may lose a request,
-- cut it short, or lose the answer to it.
pub mod Delivered
pub mod Patched
pub mod Requests
pub mod Stored
use efes.Prelude.{ℕ, Option, none, some, List}
use efes.Receiver.Disk.{Slot, Faults, no_faults}
use efes.Receiver.Copy.{Piece}
use efes.Receiver.Http.{Request, Response, Database, serve_http}
use efes.Client.Send.{Exchange}

-- What becomes of a request. Without an answer the body that arrived may be another one.
pub data Fate : Type 0 where
  answered : Faults → Fate
  unanswered : List Piece → Faults → Fate
  lost : Fate

unfoldable pub meet : Fate → Database → Request → Slot → Option Response × Slot
meet (answered f) db q s = let served = serve_http db f q s in (some served.0, served.1)
meet (unanswered body f) db q s = (none, (serve_http db f (record q { body = body }) s).1)
meet lost db q s = (none, s)

-- The number of a request decides its fate.
unfoldable pub over_network : (ℕ → Fate) → Database → Exchange
unfolding meet
over_network fates db calls q s = meet (fates calls) db q s

-- Nothing is lost and nothing fails.
abbrev pub smoothly : ℕ → Fate
smoothly calls = answered no_faults
