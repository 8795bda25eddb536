-- ===== src/Tracker/Devices/Opening.antt =====
-- tracker.go: what `createOpen` records.
use efes.Prelude.{◌≡◌, ◌⊎◌, some, List, [], ◌∷◌}
use efes.Prelude.Int.{ℤ}
use efes.Prelude.Members.{In}
use efes.Tracker.{Tables}
use efes.Tracker.Devices.{AliveDevice, Size, Opened, opened, refused, crashed, size_of}
use efes.Tracker.Devices.Suitable.{IsSuitable}

-- The tables with the row of a new temporary file.
abbrev pub with_tempfile : ℤ → ℤ → Tables → Tables
with_tempfile fid devid t = record t {
  tempfiles = record { fid = fid; devid = devid } ∷ t.tempfiles;
}

-- What a request may come to: a row for the new file on a device of the table that has room for it,
-- or a refusal, after which there is no new row, or one that nobody was told of.
abbrev pub Opens : List AliveDevice → ℤ → Size → Tables → Opened → Type 0
Opens rows fid size t (opened d id t') =
    In d rows
    × ((n : ℤ) × (size_of size ≡ some n) × IsSuitable n [] d)
    × (id ≡ fid)
    × (t' ≡ with_tempfile fid d.devid t)
Opens rows fid size t (refused status t') =
    (t' ≡ t) ⊎ ((status ≡ 500) × ((devid : ℤ) × (t' ≡ with_tempfile fid devid t)))
Opens rows fid size t crashed = ⊥
