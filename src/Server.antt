-- ===== src/Server.antt =====
-- server.go: the place of a file on the disk of a server, and the consumer of delete tasks.
pub mod Stats
pub mod Names
pub mod Queue
pub mod Disk
use efes.Prelude.{
  ℕ, zero, suc, ◌+◌, ◌-◌, Bool, true, false, Option, none, some, List, [], ◌∷◌, ◌++◌, not,
  if◌then◌else◌, length, take, drop, replicate,
}
use efes.Prelude.Int.{ℤ, pos, negsuc}
use efes.Prelude.Text.{equal_paths}
use efes.Prelude.Members.{select}
use efes.Encoding.Decimal.{digits, parse_int}

-- The components of a path below the data directory.
abbrev pub FilePath : Type 0
FilePath = List (List ℕ)

unfoldable pub pad : ℕ → List ℕ → List ℕ
pad width s = replicate (width - length s) b'0' ++ s

-- fmt.Sprintf("%010d", fid)
unfoldable pub file_number : ℤ → List ℕ
unfolding pad
file_number (pos n) = pad 10 (digits (suc n) n)
file_number (negsuc n) = b'-' ∷ pad 9 (digits (suc (suc n)) (suc n))

unfoldable pub vivify_ext : ℤ → List ℕ → FilePath
unfolding file_number
vivify_ext fid ext =
    let s = file_number fid in
    take 1 s ∷ take 3 (drop 1 s) ∷ take 3 (drop 4 s) ∷ (s ++ b'.' ∷ ext) ∷ []

abbrev pub fid_ext : List ℕ
fid_ext = b'f' ∷ b'i' ∷ b'd' ∷ []

abbrev pub info_ext : List ℕ
info_ext = b'i' ∷ b'n' ∷ b'f' ∷ b'o' ∷ []

unfoldable pub vivify : ℤ → FilePath
unfolding vivify_ext
vivify fid = vivify_ext fid fid_ext

unfoldable pub remove_path : FilePath → List FilePath → List FilePath
remove_path path = select (λ p. not (equal_paths p path))

-- deleteFidOnDisk: `none` is an error. A path that is not there is no error, and removes nothing.
unfoldable pub delete_fid_on_disk : Bool → ℤ → List FilePath → Option (List FilePath)
unfolding vivify remove_path
delete_fid_on_disk fails fid disk = if fails then none else some (remove_path (vivify fid) disk)

-- What the consumer receives: a message, with the failures that it meets, or the end.
pub data Event : Type 0 where
  shutdown : Event
  -- the channel of messages is closed
  closed : Event
  delivered : List ℕ → Bool → Bool → Event

pub data Reply : Type 0 where
  acked nacked : Reply
  -- the answer was not sent, so that the message is delivered again
  ack_failed nack_failed : Reply
  -- the body is not a number
  unanswered : Reply

-- A message, and what became of it.
pub record Handled : Type 0 where
  pub body : List ℕ
  pub reply : Reply

-- The disk and the messages that were handled; `ok` is false if there was an error.
pub record Processed : Type 0 where
  pub disk : List FilePath
  pub log : List Handled
  pub ok : Bool

unfoldable pub logged : List ℕ → Reply → Processed → Processed
logged body reply p = record p { log = record { body = body; reply = reply } ∷ p.log }

unfoldable pub ended : List ℕ → Reply → List FilePath → Processed
ended body reply disk = record {
  disk = disk;
  log = record { body = body; reply = reply } ∷ [];
  ok = false;
}

-- After deleteFidOnDisk: the negative or the positive answer, over the disk that it left.
unfoldable pub answer :
    List ℕ → Bool → List FilePath → Option (List FilePath) → (List FilePath → Processed) → Processed
unfolding logged ended
answer body reply_fails disk none rest =
    if reply_fails then ended body nack_failed disk else logged body nacked (rest disk)
answer body reply_fails disk (some disk') rest =
    if reply_fails then ended body ack_failed disk' else logged body acked (rest disk')

unfoldable pub handle :
    List ℕ → Bool → Bool → Option ℤ → List FilePath → (List FilePath → Processed) → Processed
unfolding answer delete_fid_on_disk
handle body remove_fails reply_fails none disk rest = logged body unanswered (rest disk)
handle body remove_fails reply_fails (some fid) disk rest =
    answer body reply_fails disk (delete_fid_on_disk remove_fails fid disk) rest

-- The loop of processDeleteTasks over the events that come.
unfoldable pub process_delete_tasks : List Event → List FilePath → Processed
unfolding handle
process_delete_tasks [] disk = record { disk = disk; log = []; ok = true }
process_delete_tasks (shutdown ∷ events) disk = record { disk = disk; log = []; ok = true }
process_delete_tasks (closed ∷ events) disk = record { disk = disk; log = []; ok = false }
process_delete_tasks (delivered body remove_fails reply_fails ∷ events) disk =
    handle body remove_fails reply_fails (parse_int body) disk (process_delete_tasks events)
