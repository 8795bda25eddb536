-- ===== src/Tests.antt =====
-- Small runs of the model, and its theorems at concrete inputs.
pub mod Choosing
pub mod Sending
pub mod Uploading
pub mod Cleaning
pub mod Walking
pub mod Draining
pub mod Measuring
pub mod Running
pub mod Closing
pub mod Reading
use efes.Prelude.{
  ℕ, ◌≡◌, refl, arith, true, false, none, some, List, [], ◌∷◌, ◌++◌, length, replicate,
}
use efes.Prelude.Int.{pos}
use efes.Encoding.{big_endian}
use efes.Crc32.{ieee, slicing_update, slicing_make_table, simple_update, simple_make_table}
use efes.Crc32
use efes.Crc32.Update.{crc_of}
use efes.Crc32.Update.Table.{simple_update_lem}
use efes.Crc32.Update.Slicing.{slicing_update_lem}
use efes.Crc32.Digest.{
  new_crc32_ieee, new_crc32_ieee-Represents, write_chunks, sum-write_chunks, join,
}
use efes.Crc32.Text.{crc32_text_round_trip}
use efes.Sha1.{init, block}
use efes.Sha1
use efes.Sha1.Blocks.{block-append}
use efes.Sha1.Digest.{Sha1Digest, new_sha1}
use efes.Sha1.Buffer.{new_sha1-Represents}
use efes.Sha1.Stream
use efes.Sha1.Sum.{sha1, check_sum, check_sum_lem}
use efes.Sha1.Text.RoundTrip.{sha1_text_round_trip, IsSized}
use efes.Sha1.Text.Sized.{write-IsSized, new_sha1-IsSized}
use efes.FileInfo.{FileInfo, encode, decode}
use efes.FileInfo.RoundTrip.{decode-encode, new-DigestsOf}
use efes.Receiver.Disk.{Slot, no_faults, create_file}
use efes.Receiver.Copy.{Piece, whole, Copied, copied, copy}
use efes.Receiver.Save.{save_file}
use efes.Receiver.Http.{Request, patch, given}
use efes.Receiver.Invariant.{IsConsistent, IsWhole}
use efes.Receiver.Invariant.Written.{copy_lem, CopyDone}
use efes.Receiver.Invariant.Kept.{Careful, IsFresh, create_file-IsFresh}
use efes.Receiver.Invariant.Recorded.{SaveDone}
use efes.Receiver.Invariant.Saving.{save_file_done}
use efes.Tracker
use efes.Tracker.{
  Tables, Place, exec, devid_of, delete_tempfile, fid_of, places_of, delete_places, replace_into,
  held, without_conflicts, insert_place, has, has_file, has_device,
}
use efes.Tracker.Handlers.{
  create_close, close_transaction, select_tempfile, select_file, delete_old, delete_fid_on_db,
  get_devices_of_fid, select_host, commit, delete_request,
}
use efes.Tracker.Places.{IsAccounted}
use efes.Tracker.Deleting.{DeletesOrSame, target, delete_request-DeletesOrSame}
use efes.Tracker.Closing.{ClosedOrSame, create_close-ClosedOrSame}
use efes.Prelude.{sym, subst, take}
use efes.Receiver.Invariant.{DecodedFits}
use efes.FileInfo.RoundTrip.{DigestsOf}
use efes.Receiver.Invariant.Started.{Started}
use efes.Receiver.Invariant.Progress.{Appends, save_file-Appends, save_file_first-Appends}
use efes.Cleaner
use efes.Cleaner.{
  check_fid, exists, in_list, remove_item, all_devids, check_disk, check_others, delete_from_others,
  delete_on, delete_tasks, Checked,
}
use efes.Cleaner.Checking.{check_fid-IsAccounted, check_fid-keeps}

-- "abc", and a message that is longer than a chunk's worth of slicing.
abbrev abc : List ℕ
abc = 97 ∷ 98 ∷ 99 ∷ []

abbrev digits : List ℕ
digits = 1 ∷ 2 ∷ 3 ∷ 4 ∷ 5 ∷ 6 ∷ 7 ∷ 8 ∷ 9 ∷ 10 ∷ 11 ∷ 12 ∷ 13 ∷ 14 ∷ 15 ∷ 16 ∷ 17 ∷ []

slicing_update_lem_example :
    slicing_update 5 (slicing_make_table ieee) digits ≡ crc_of ieee 5 digits
slicing_update_lem_example =
    slicing_update_lem ieee (omega arith) 5 digits (omega arith) (omega arith)

sum-write_chunks_example :
    Crc32.Digest.sum (write_chunks new_crc32_ieee (abc ∷ digits ∷ [])) []
    ≡ big_endian 4 (crc_of ieee 0 (join (abc ∷ digits ∷ [])))
sum-write_chunks_example = sum-write_chunks (abc ∷ digits ∷ []) (omega arith)

-- One chunk of 64 bytes.
abbrev whole_chunk : List ℕ
whole_chunk = replicate 64 7

write-Represents_example :
    (d : Sha1Digest) × (Sha1.Digest.write new_sha1 abc ≡ some d)
    × Sha1.Buffer.Represents d ([] ++ abc)
write-Represents_example = Sha1.Stream.write-Represents new_sha1 [] abc new_sha1-Represents

check_sum_lem_example : check_sum new_sha1 ≡ some (sha1 [])
check_sum_lem_example = check_sum_lem new_sha1 [] new_sha1-Represents

-- An upload whose first three bytes have arrived, with an info file at the start.
abbrev started_info : FileInfo
started_info = record { offset = pos 0; sha1 = new_sha1; crc32 = new_crc32_ieee }

decode-encode_example : decode (encode started_info) ≡ some started_info
decode-encode_example = decode-encode started_info [] new-DigestsOf

-- Nothing was uploaded yet.
abbrev empty_slot : Slot
empty_slot = record { dir = true; file = none; info = none }

empty_slot-IsConsistent : IsConsistent empty_slot
empty_slot-IsConsistent = record { fits = tt }

no_faults-Careful : Careful no_faults
no_faults-Careful = record { closes = refl; replaces = λ e. cc }

abbrev abc_body : List Piece
abc_body = whole abc ∷ []

abc_body-IsWhole : IsWhole abc_body
abc_body-IsWhole = (omega arith, tt)

create_file-IsFresh_example : IsFresh (create_file no_faults empty_slot)
create_file-IsFresh_example =
    create_file-IsFresh no_faults empty_slot no_faults-Careful empty_slot-IsConsistent

abbrev nothing_copied : Copied
nothing_copied = record { file = []; sha1 = new_sha1; crc32 = new_crc32_ieee; n = 0 }

copy_lem_example :
    (c : Copied) × (copy 0 abc_body nothing_copied ≡ copied c)
    × CopyDone 0 abc_body nothing_copied c
copy_lem_example = copy_lem 0 abc_body nothing_copied abc_body-IsWhole (omega arith) new-DigestsOf

save_file_done_example : SaveDone (pos 3) (save_file no_faults (pos 0) (pos 3) abc_body empty_slot)
save_file_done_example =
    save_file_done no_faults (pos 0) (pos 3) abc_body empty_slot no_faults-Careful abc_body-IsWhole
      empty_slot-IsConsistent

-- The whole of "abc" in one request.
abbrev abc_request : Request
abc_request = record {
  method = patch;
  offset = some (pos 0);
  length = given (pos 3);
  drain = true;
  fid = none;
  body = abc_body;
}

-- File 1 has the key 7 and two places; file 2 is being uploaded to device 11 for the same key.
abbrev tables : Tables
tables = record {
  tempfiles = record { fid = pos 2; devid = pos 11 } ∷ [];
  files = record { fid = pos 1; dkey = 7 } ∷ [];
  places = record { fid = pos 1; devid = pos 10 } ∷ record { fid = pos 1; devid = pos 11 } ∷ [];
  devices = pos 10 ∷ pos 11 ∷ [];
}

abbrev no_failure : Tracker.Handlers.Faults
no_failure = record {
  begin = false;
  select_tempfile = false;
  delete_tempfile = false;
  select_file = false;
  select_places = false;
  delete_places = false;
  delete_file = false;
  replace_file = false;
  insert_place = false;
  select_host = false;
  commit = false;
}

create_close-run : create_close no_failure true (some (pos 2)) (some 7) tables ≡ record {
  status = 200;
  tables = record {
    tempfiles = [];
    files = record { fid = pos 2; dkey = 7 } ∷ [];
    places = record { fid = pos 2; devid = pos 11 } ∷ [];
    devices = pos 10 ∷ pos 11 ∷ [];
  };
  tasks = record { fid = pos 1; devid = pos 10 } ∷ record { fid = pos 1; devid = pos 11 } ∷ [];
}
unfolding create_close close_transaction select_tempfile devid_of exec delete_tempfile select_file
    fid_of delete_old delete_fid_on_db get_devices_of_fid places_of delete_places
    Tracker.delete_file replace_into held without_conflicts insert_place has has_file has_device
    select_host commit
create_close-run = refl

create_close-ClosedOrSame_example :
    ClosedOrSame
      (pos 2)
      7
      (record { fid = pos 1; devid = pos 10 })
      tables
      (create_close no_failure true (some (pos 2)) (some 7) tables)
create_close-ClosedOrSame_example =
    create_close-ClosedOrSame no_failure (pos 2) 7 tables (record { fid = pos 1; devid = pos 10 })

delete_request-DeletesOrSame_example :
    DeletesOrSame
      (target (pos 0) (some 7) tables)
      (record { fid = pos 1; devid = pos 10 })
      tables
      (delete_request no_failure true (pos 0) (some 7) tables)
delete_request-DeletesOrSame_example =
    delete_request-DeletesOrSame no_failure true (pos 0) (some 7) tables
      (record { fid = pos 1; devid = pos 10 })

-- The first byte, "a", has arrived.
abbrev first_byte : List ℕ
first_byte = 97 ∷ []

fed :
    (d : Sha1Digest) × (Sha1.Digest.write new_sha1 first_byte ≡ some d)
    × Sha1.Buffer.Represents d ([] ++ first_byte)
    × IsSized d
fed = write-IsSized new_sha1 [] first_byte new_sha1-Represents new_sha1-IsSized (omega arith)

first_info : FileInfo
first_info = record {
  offset = pos 1;
  sha1 = fed.0;
  crc32 = (Crc32.Digest.write new_crc32_ieee first_byte).0;
}

first_slot : Slot
first_slot = record { dir = true; file = some first_byte; info = some (encode first_info) }

first_DigestsOf : DigestsOf first_info.sha1 first_info.crc32 first_byte
unfolding first_info
first_DigestsOf = record {
  sha1_of = fed.2;
  sized = fed.3;
  crc32_of =
      Crc32.Digest.write-Represents new_crc32_ieee [] first_byte new_crc32_ieee-Represents
        (omega arith);
}

first_Started : Started (pos 1) first_info first_slot
unfolding first_slot first_info
first_Started = record {
  consistent = record {
    fits =
        subst (λ o. DecodedFits o first_byte)
          (sym (decode-encode first_info first_byte first_DigestsOf))
          (record { at = 1; offset = refl; within = omega arith; digests = first_DigestsOf });
  };
  file = encode first_info;
  info = refl;
  read = decode-encode first_info first_byte first_DigestsOf;
  offset_is = refl;
}

first_slot-file : first_slot.file ≡ some first_byte
unfolding first_slot
first_slot-file = refl

save_file-Appends_example :
    Appends 1
      (pos 4)
      abc_body
      (take 1 first_byte)
      (save_file no_faults (pos 1) (pos 4) abc_body first_slot)
save_file-Appends_example =
    save_file-Appends 0 (pos 4) abc_body first_info first_byte first_slot abc_body-IsWhole
      first_Started first_slot-file

save_file_first-Appends_example :
    Appends 0 (pos 3) abc_body [] (save_file no_faults (pos 0) (pos 3) abc_body empty_slot)
save_file_first-Appends_example =
    save_file_first-Appends (pos 3) abc_body empty_slot abc_body-IsWhole

abbrev calm : Cleaner.Faults
calm = record { begin = false; select = false; exec = false; commit = false }

-- File 1 is on the disk of device 11: device 10 loses it.
check_fid-run : check_fid false exists calm (pos 11) (pos 1) tables.places ≡ record {
  ok = true;
  places = record { fid = pos 1; devid = pos 11 } ∷ [];
  tasks = record { fid = pos 1; devid = pos 10 } ∷ [];
}
unfolding check_fid in_list remove_item all_devids check_disk check_others delete_from_others
    delete_on delete_tasks
check_fid-run = refl
