-- ===== src/Client/Send.antt =====
-- write.go, httperror.go: `sendFile`, `send`, `patch`, `getOffset` and `finishFile`. The other side of
-- a request is `exchange`, which may answer, lose the answer, or change what stands at the path.
use efes.Prelude.{
  min, ltb, ℕ, zero, suc, ◌+◌, ◌/◌, Bool, true, false, Option, none, some, List, [], ◌==◌,
  if◌then◌else◌, length,
}
use efes.Prelude.Text.{equal_bytes}
use efes.Prelude.Int.{ℤ, pos, negsuc}
use efes.Encoding.{hex_decode}
use efes.Receiver.Disk.{Slot}
use efes.Receiver.Copy.{Piece}
use efes.Receiver.Http.{head, patch, Length, absent, given, Request, Response, response, dropped}
use efes.Client.{Sha1File, bytes, missing_data, panicked, new_sha1_file, read_limited, seek, sum}

pub record Checksums : Type 0 where
  pub sha1 : List ℕ
  pub crc32 : List ℕ

-- ClientError with its code, or any other error.
pub data SendError : Type 0 where
  client_error : ℕ → SendError
  other_error : SendError

-- The file that is read, what stands at the path on the server, and the number of requests so far.
pub record Upload : Type 0 where
  pub file : Sha1File
  pub slot : Slot
  pub calls : ℕ

pub data Sent : Type 0 where
  sent : Checksums → Upload → Sent
  failed : SendError → Upload → Sent
  crashed : Sent

-- What a request meets: its number, the request, and what stands at the path. Without a response
-- httpClient.Do has failed.
abbrev pub Exchange : Type 0
Exchange = ℕ → Request → Slot → Option Response × Slot

-- The configuration of the client, the way in which net/http cuts a body into reads, and what the
-- server makes of the path.
pub record Config : Type 0 where
  pub chunk_size : ℕ
  pub buffer : ℕ
  pub drainer : Bool
  pub fid : Option ℤ
  pub cut : List ℕ → List Piece
  -- the number of bytes that net/http takes of the body of a request before its response counts; a
  -- server may answer before it has read the body
  pub takes : ℕ → ℕ
  -- whether backoff.Retry gives up after that many requests; the calls of Reset put that off
  pub gives_up : ℕ → Bool

-- The bytes of the next request's body: of a chunk, as many as are taken.
abbrev pub limit_of : Config → Upload → ℕ
limit_of c u = min c.chunk_size (c.takes u.calls)

-- The first digit of a code of at most three digits, which are all that net/http lets through.
unfoldable pub category : ℕ → ℕ
category code = if ltb code 10 then code else if ltb code 100 then code / 10 else code / 100

-- checkResponseError
unfoldable pub check_status : ℕ → Option SendError
unfolding category
check_status status =
    if category status == 2
    then none
    else if category status == 4
    then some (client_error status)
    else some other_error

-- ChecksumsFromResponse: a header that is not there is empty.
unfoldable pub checksums_from : Option (List ℕ × List ℕ) → Checksums
checksums_from none = record { sha1 = []; crc32 = [] }
checksums_from (some (sha1, crc32)) = record { sha1 = sha1; crc32 = crc32 }

-- `if size > -1`
unfoldable pub length_header : Option ℕ → Length
length_header none = absent
length_header (some n) = given (pos n)

unfoldable pub patch_request : Config → ℕ → Option ℕ → List Piece → Request
unfolding length_header
patch_request c offset size body = record {
  method = patch;
  offset = some (pos offset);
  length = length_header size;
  drain = c.drainer;
  fid = c.fid;
  body = body;
}

unfoldable pub sent_unless : Option SendError → Checksums → Upload → Sent
sent_unless none sums u = sent sums u
sent_unless (some e) sums u = failed e u

-- The response of `patch`, checked.
unfoldable pub checked : Upload → Option Response × Slot → Sent
unfolding check_status checksums_from sent_unless
checked u (none, s) = failed other_error (record u { slot = s; calls = suc u.calls })
checked u (some dropped, s) = failed other_error (record u { slot = s; calls = suc u.calls })
checked u (some (response status offset sums), s) =
    sent_unless (check_status status) (checksums_from sums)
      (record u { slot = s; calls = suc u.calls })

-- patch
unfoldable pub patch_at : Exchange → Config → ℕ → Option ℕ → List Piece → Upload → Sent
unfolding checked patch_request
patch_at exchange c offset size body u =
    checked u (exchange u.calls (patch_request c offset size body) u.slot)

-- finishFile
unfoldable pub finish_file : Exchange → Config → ℕ → Upload → Sent
unfolding patch_at
finish_file exchange c offset u = patch_at exchange c offset (some offset) [] u

-- The switch of `send`, after a request that sent `n` bytes and left `now` as the offset.
unfoldable pub is_size : Option ℕ → ℕ → Bool
is_size none now = false
is_size (some size) now = now == size

-- `send` from `offset`, the sum of the first offset and of the bytes counted since. The fuel is the
-- number of chunks.
unfoldable pub send : Exchange → Config → ℕ → ℕ → Option ℕ → Upload → Sent
unfolding patch_at finish_file is_size
send exchange c zero offset size u = failed other_error u
send exchange c (suc fuel) offset size u =
    elim (read_limited c.buffer (suc c.chunk_size) (limit_of c u) u.file) [
      | missing_data ↦ failed other_error u
      | panicked ↦ crashed
      | bytes p f ↦ elim (patch_at exchange c offset size (c.cut p) (record u { file = f })) [
        | crashed ↦ crashed
        | failed e u' ↦ failed e u'
        | sent sums u' ↦ elim (is_size size (offset + length p)) [
          | true ↦ sent sums u'
          | false ↦ elim (length p == 0) [
            | true ↦ finish_file exchange c offset u'
            | false ↦ send exchange c fuel (offset + length p) size u'
          ]
        ]
      ]
    ]

pub data Offset : Type 0 where
  at_offset : ℕ → Upload → Offset
  no_offset : Upload → Offset

-- getOffset: the header of the answer, whatever its status; a negative one is refused by Seek.
unfoldable pub offset_of : Upload → Option Response × Slot → Offset
offset_of u (some (response status (some (pos n)) sums), s) =
    at_offset n (record u { slot = s; calls = suc u.calls })
offset_of u (some (response status (some (negsuc n)) sums), s) =
    no_offset (record u { slot = s; calls = suc u.calls })
offset_of u (some (response status none sums), s) =
    no_offset (record u { slot = s; calls = suc u.calls })
offset_of u (some dropped, s) = no_offset (record u { slot = s; calls = suc u.calls })
offset_of u (none, s) = no_offset (record u { slot = s; calls = suc u.calls })

unfoldable pub head_request : Config → Request
head_request c = record {
  method = head;
  offset = none;
  length = absent;
  drain = false;
  fid = c.fid;
  body = [];
}

unfoldable pub get_offset : Exchange → Config → Upload → Offset
unfolding offset_of head_request
get_offset exchange c u = offset_of u (exchange u.calls (head_request c) u.slot)

-- How one try of `op` ends: with the remote SHA-1, with an error that is tried again, or with
-- backoff.Permanent.
pub data Attempt : Type 0 where
  finished : Checksums → List ℕ → Upload → Attempt
  again : Upload → Attempt
  permanent : Upload → Attempt
  crash : Attempt

unfoldable pub decode_remote : Checksums → Upload → Attempt
decode_remote sums u = elim (hex_decode sums.sha1) [
  | none ↦ again u
  | some remote ↦ finished sums remote u
]

unfoldable pub after_send : Sent → Attempt
unfolding decode_remote
after_send (sent sums u) = decode_remote sums u
after_send (failed other_error u) = again u
after_send (failed (client_error code) u) = if code == 404 then permanent u else again u
after_send crashed = crash

-- After `sf.Seek` to the offset of the server: `send` from there.
unfoldable pub sought : Exchange → Config → ℕ → ℕ → Option ℕ → Upload → Sha1File × Bool → Attempt
unfolding send after_send
sought exchange c fuel n size u (f, false) = again (record u { file = f })
sought exchange c fuel n size u (f, true) =
    after_send (send exchange c fuel n size (record u { file = f }))

unfoldable pub resume : Exchange → Config → ℕ → Option ℕ → Offset → Attempt
unfolding sought
resume exchange c fuel size (no_offset u) = again u
resume exchange c fuel size (at_offset n u) = sought exchange c fuel n size u (seek u.file n)

-- `op`; the flag says that it is the first try.
unfoldable pub attempt : Exchange → Config → ℕ → Option ℕ → Bool → Upload → Attempt
unfolding resume get_offset
attempt exchange c fuel size true u = after_send (send exchange c fuel 0 size u)
attempt exchange c fuel size false u = resume exchange c fuel size (get_offset exchange c u)

-- backoff.Retry: the fuel is the number of tries that are looked at.
unfoldable pub retry : Exchange → Config → ℕ → Option ℕ → ℕ → Bool → Upload → Attempt
unfolding attempt
retry exchange c fuel size zero first u = again u
retry exchange c fuel size (suc tries) first u = elim (attempt exchange c fuel size first u) [
  | finished sums remote u' ↦ finished sums remote u'
  | again u' ↦ elim (c.gives_up u'.calls) [
    | true ↦ again u'
    | false ↦ retry exchange c fuel size tries false u'
  ]
  | permanent u' ↦ permanent u'
  | crash ↦ crash
]

pub data Uploaded : Type 0 where
  uploaded : Checksums → Upload → Uploaded
  not_uploaded : Uploaded
  upload_crashed : Uploaded

-- `if !bytes.Equal(remoteSha1, localSha1)`
unfoldable pub compare_sums : Option (List ℕ) → List ℕ → Checksums → Upload → Uploaded
unfolding equal_bytes
compare_sums none remote sums u = upload_crashed
compare_sums (some local_sum) remote sums u =
    if equal_bytes remote local_sum then uploaded sums u else not_uploaded

unfoldable pub conclude : Attempt → Uploaded
unfolding compare_sums
conclude (finished sums remote u) = compare_sums (sum u.file []) remote sums u
conclude (again u) = not_uploaded
conclude (permanent u) = not_uploaded
conclude crash = upload_crashed

-- sendFile
unfoldable pub send_file : Exchange → Config → ℕ → ℕ → Option ℕ → List ℕ → Slot → Uploaded
unfolding retry conclude
send_file exchange c fuel tries size content s = conclude (
    retry exchange c fuel size tries true
      (record { file = new_sha1_file content; slot = s; calls = 0 }))
