-- ===== src/Mount/Reads.antt =====
-- mount.go: what a handle reads.
use efes.Prelude.{
  ℕ, ◌+◌, ◌≡◌, ◌⊎◌, length, false, none, some, List, ◌==◌, if◌then◌else◌, take, drop,
}
use efes.Mount.{FileHandle, ReadResponse, failed, data_of, Faults, Get, close}

-- Nothing fails.
abbrev pub calm : Faults
calm = record { close = false; cut = none }

module _ (content : List ℕ) where
  -- A server that knows no header "bytes" sends the whole file.
  abbrev pub whole : Get
  whole header = some content

  -- The body goes on at `at`.
  abbrev pub IsAt : ℕ → FileHandle → Type 0
  IsAt at h = h.r ≡ some (drop at content)

  -- The data of a read at `offset` of the handle and at `place` of the file; the handle moves by the
  -- bytes that were read, and so does the body.
  abbrev pub Gives : ℕ → ℕ → ℕ → ReadResponse → Type 0
  Gives offset place size (failed h) = ⊥
  Gives offset place size (data_of p h) =
      (p ≡ take size (drop place content))
      × (h.offset ≡ offset + length p)
      × (h.r ≡ some (drop (place + length p) content))

  -- A handle as Open or a read in sequence leaves it: without a body, or with the body at its offset.
  abbrev pub Stands : FileHandle → Type 0
  Stands h = (h.r ≡ none) ⊎ IsAt h.offset h

  -- Where in the file a read at an offset starts.
  abbrev pub place_of : ℕ → FileHandle → ℕ
  place_of offset h = elim h.r [ none ↦ 0 | some body ↦ if offset == h.offset then offset else 0 ]
