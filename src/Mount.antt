-- ===== src/Mount.antt =====
-- mount.go: a handle of an open file.
pub mod Reads
pub mod Lookup
use efes.Prelude.{
  ℕ, ◌+◌, Bool, true, false, Option, none, some, List, [], ◌==◌, if◌then◌else◌, length, take, drop,
}

-- The body of the response: the bytes that have not been read.
pub record FileHandle : Type 0 where
  pub r : Option (List ℕ)
  pub offset : ℕ

-- What a Read does: it fails, or returns data; and the handle.
pub data ReadResponse : Type 0 where
  failed : FileHandle → ReadResponse
  data_of : List ℕ → FileHandle → ReadResponse

-- Calls that fail: closing a body, the request, and reading a body after `cut` bytes.
pub record Faults : Type 0 where
  pub close : Bool
  pub cut : Option ℕ

-- The server's answer to GET: the body for the header "bytes", which open sets to the handle's offset,
-- or `none` for a request that fails.
abbrev pub Get : Type 0
Get = ℕ → Option (List ℕ)

-- close: whether it failed, and the handle.
unfoldable pub close : Faults → FileHandle → Bool × FileHandle
close f h = elim h.r [ none ↦ (false, h) | some body ↦ (f.close, record h { r = none }) ]

-- open
unfoldable pub open_body : Get → ℕ → FileHandle → Option FileHandle
open_body get offset h = elim (get h.offset) [
  | none ↦ none
  | some body ↦ some (record { r = some body; offset = offset })
]

-- io.ReadFull into a buffer of `size` bytes; the end of the file is no error.
unfoldable pub read_full : Faults → ℕ → List ℕ → FileHandle → ReadResponse
read_full f size body h = elim f.cut [
  | none ↦
      data_of (take size body)
        (record { r = some (drop size body); offset = h.offset + length (take size body) })
  | some n ↦ failed (record { r = some (drop n body); offset = h.offset + n })
]

unfoldable pub read_opened : Faults → ℕ → FileHandle → Option FileHandle → ReadResponse
unfolding read_full
read_opened f size h none = failed h
read_opened f size h (some h') = elim h'.r [
  | none ↦ failed h'
  | some body ↦ read_full f size body h'
]

-- From the test of `h.r` on.
unfoldable pub read_here : Get → Faults → ℕ → ℕ → FileHandle → ReadResponse
unfolding open_body read_opened
read_here get f offset size h =
    read_opened f size h (elim h.r [ none ↦ open_body get offset h | some body ↦ some h ])

-- After close, if it was called.
unfoldable pub read_closed : Get → Faults → ℕ → ℕ → Bool × FileHandle → ReadResponse
unfolding read_here
read_closed get f offset size (true, h) = failed h
read_closed get f offset size (false, h) = read_here get f offset size h

-- Read of `size` bytes at `offset`.
unfoldable pub read_at : Get → Faults → ℕ → ℕ → FileHandle → ReadResponse
unfolding read_closed close
read_at get f offset size h =
    if offset == h.offset
    then read_here get f offset size h
    else read_closed get f offset size (close f h)

-- The handle of Open.
unfoldable pub new_handle : FileHandle
new_handle = record { r = none; offset = 0 }
