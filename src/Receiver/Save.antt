-- ===== src/Receiver/Save.antt =====
-- filereceiver.go: `saveFile`, the body of a PATCH request.
use efes.Prelude.{ℕ, ◌+◌, Option, none, some, List, if◌then◌else◌}
use efes.Prelude.Int.{ℤ, pos, negsuc, ◌==ℤ◌}
use efes.Sha1.Digest.{Sha1Digest}
use efes.Crc32.Digest.{Crc32Digest}
use efes.FileInfo.{FileInfo, new_file_info}
use efes.Receiver.Disk.{
  other, offset_mismatch, ok, err, panic, Faults, M, ◌>>=◌, ◌>>◌, pure, raise, call, save_file_info,
  read_file_info, delete_file_info, create_file,
}
use efes.Receiver.Copy.{Piece, Copied, Outcome, copied, crashed, copy}

-- The new offset, and the digests once the file is complete.
pub record Saved : Type 0 where
  pub offset : ℤ
  pub digest : Option (Sha1Digest × Crc32Digest)

-- The info that a request at `offset` goes on from.
unfoldable pub start : Faults → ℤ → M FileInfo
start f offset = if offset ==ℤ pos 0 then (do create_file f; pure new_file_info) else (do
  fi ← read_file_info f
  if offset ==ℤ fi.offset then pure fi else raise (offset_mismatch offset fi.offset))

-- os.OpenFile with O_WRONLY: a missing file costs the info file, and the client starts again.
unfoldable pub opened : Faults → ℤ → Option (List ℕ) → M (List ℕ)
opened f offset none s =
    if f.open_file
    then (err other, s)
    else (let (r, s') = delete_file_info f s in (err (offset_mismatch offset (pos 0)), s'))
opened f offset (some b) s = if f.open_file then (err other, s) else (ok b, s)

unfoldable pub open_file : Faults → ℤ → M (List ℕ)
unfolding opened
open_file f offset s = opened f offset s.file s

-- `f.Seek(offset, io.SeekStart)`, which refuses a negative offset.
unfoldable pub seek : Faults → ℤ → M ℕ
seek f (pos n) s = (if f.seek then err other else ok n, s)
seek f (negsuc n) s = (err other, s)

unfoldable pub settle : Outcome → M Copied
settle (copied c) s = (ok c, record s { file = some c.file })
settle (crashed b) s = (panic, record s { file = some b })

-- From `fi.Offset = offset + n` on.
unfoldable pub record_progress : Faults → ℕ → ℤ → Copied → M Saved
record_progress f at length c =
    let total = pos (at + c.n) in
    if total ==ℤ length
    then (do delete_file_info f; pure (record { offset = total; digest = some (c.sha1, c.crc32) }))
    else (do
      save_file_info f.save (record { offset = total; sha1 = c.sha1; crc32 = c.crc32 })
      pure (record { offset = total; digest = none }))

unfoldable pub save_file : Faults → ℤ → ℤ → List Piece → M Saved
save_file f offset length body = do
  fi ← start f offset
  file ← open_file f offset
  at ← seek f offset
  c ← settle (copy at body (record { file = file; sha1 = fi.sha1; crc32 = fi.crc32; n = 0 }))
  call f.sync
  call f.close
  record_progress f at length c
