-- ===== src/Drainer/Sending.antt =====
-- drain.go: the `sendFile` of a move (write.go) to the file receiver of the other device
-- (filereceiver.go), and a run of the drainer with it.
use efes.Prelude.{ℕ, ◌<◌, ◌≡◌, refl, Bool, true, false, Option, some, List, length, All}
use efes.Prelude.Int.{ℤ}
use efes.Prelude.Members.{In}
use efes.Crc32.Update.Table.{IsByte}
use efes.Sha1.Sum.{sha1}
use efes.FileInfo.{InfoFile}
use efes.Receiver.Disk.{Slot}
use efes.Receiver.Http.{Request, Database}
use efes.Receiver.Invariant.{IsConsistent, IsWhole}
use efes.Client.Requests.{IsRefusal}
use efes.Client.Send.{Uploaded, uploaded, not_uploaded, upload_crashed, send_file}
use efes.Client.Send as Client
use efes.Upload.{Fate, over_network}
use efes.Upload.Requests.{IsFair}
use efes.Upload.Stored.{UploadStored, send_file-Stored}
use efes.Drainer.{World, Config, Send, RunMeets, fids_on, run}
use efes.Drainer.Moving.{HasOn, Begins, Holds}
use efes.Drainer.Kept.{InRange, Distinct, run-Holds}

-- What uploads meet, by device and fid: the fates of their requests, the tempfile rows that the servers
-- look up, the directory and the info file beside the data file, and what a failed upload leaves. The
-- client is that of the drainer.
pub record Uploads : Type 0 where
  pub fates : ℤ → ℤ → ℕ → Fate
  pub databases : ℤ → Database
  pub client : Client.Config
  pub fuel : ℕ
  pub tries : ℕ
  pub dir : ℤ → ℤ → Bool
  pub info : ℤ → ℤ → Option (List ℕ) → Option InfoFile
  pub left : ℤ → ℤ → Option (List ℕ)

abbrev pub client_for : Uploads → ℤ → Client.Config
client_for u fid = record u.client { drainer = true; fid = some fid }

abbrev pub slot_at : Uploads → ℤ → ℤ → Option (List ℕ) → Slot
slot_at u devid fid o = record { dir = u.dir devid fid; file = o; info = u.info devid fid o }

-- `err == nil`, and the data file on the other device.
unfoldable pub sent_file : Option (List ℕ) → Uploaded → Bool × Option (List ℕ)
sent_file left (uploaded sums v) = (true, v.slot.file)
sent_file left not_uploaded = (false, left)
sent_file left upload_crashed = (false, left)

-- d.client.sendFile(newPath, f, fi.Size())
unfoldable pub send_over : Uploads → Send
unfolding sent_file
send_over u devid fid content o = sent_file (u.left devid fid) (
    send_file (over_network (u.fates devid fid) (u.databases devid)) (client_for u fid) u.fuel
      u.tries (some (length content)) content (slot_at u devid fid o))

-- A chunk size and a buffer that are not 0; servers of which createFile does not fail after the
-- truncation and whose files take each write whole, and that do not answer with a success a request of
-- whose body nothing was taken; info files that keep their promise.
pub record IsSound (u : Uploads) : Type 0 where
  pub some_chunk : 0 < u.client.chunk_size
  pub some_buffer : 0 < u.client.buffer
  pub fair : (devid fid : ℤ) (i : ℕ) → IsFair (u.fates devid fid i)
  pub cuts : (p : List ℕ) → All IsByte p → IsWhole (u.client.cut p)
  pub reads :
      (devid fid : ℤ) (i : ℕ) (q : Request) (s : Slot)
      → u.client.takes i ≡ 0
      → IsRefusal (over_network (u.fates devid fid) (u.databases devid) i q s).0
  pub consistent : (devid fid : ℤ) (o : Option (List ℕ)) → IsConsistent (slot_at u devid fid o)

module _ (u : Uploads) (sound : IsSound u) where
  pub send_over-Begins :
      (devid fid : ℤ) (content : List ℕ) (o : Option (List ℕ))
      → (send_over u devid fid content o).0 ≡ true
      → All IsByte content
      → Begins (send_over u devid fid content o).1 (sha1 content)
  unfolding send_over sent_file
  send_over-Begins devid fid content o e of_bytes =
      go _
        (send_file-Stored (u.fates devid fid) (sound.fair devid fid) (u.databases devid)
          (client_for u fid) sound.cuts sound.some_chunk sound.some_buffer content of_bytes
          (sound.reads devid fid) u.fuel u.tries (some (length content)) (slot_at u devid fid o)
          refl (sound.consistent devid fid o))
        e
    where
      go :
          (r : Uploaded)
          → UploadStored
              (u.fates devid fid)
              (sound.fair devid fid)
              (u.databases devid)
              (client_for u fid)
              sound.cuts
              sound.some_chunk
              sound.some_buffer
              content
              of_bytes
              (sound.reads devid fid)
              r
          → (sent_file (u.left devid fid) r).0 ≡ true
          → Begins (sent_file (u.left devid fid) r).1 (sha1 content)
      go (uploaded sums v) (file, (at, stands, gone, within, same)) e =
          (file, (at, stands, within, same))
      go not_uploaded stored e = cc
      go upload_crashed stored e = cc

  module _ (c : Config) (elsewhere : In c.devid c.dest → ⊥) where
    -- When the drained device is no destination, and each move uploads to the file receiver of the
    -- other device, with uploads as in `IsSound`, then whatever fails in a run of the drainer, and
    -- wherever it is shut down: a file of bytes that file_on places on the drained device, once, and
    -- that is there, is afterwards on some device on which file_on places it, at least as the first
    -- bytes of the file there, up to the SHA-1.
    pub run-send_over-Holds :
        (r : RunMeets) (w : World) (fid : ℤ) (sum : List ℕ)
        → ((j : ℕ) → InRange (send_over u) send_over-Begins c elsewhere (r.move j))
        → Distinct (send_over u) send_over-Begins c elsewhere (fids_on c.devid w.places)
        → HasOn w c.devid fid sum
        → Holds (run (send_over u) c r w) fid sum
    run-send_over-Holds = run-Holds (send_over u) send_over-Begins c elsewhere
