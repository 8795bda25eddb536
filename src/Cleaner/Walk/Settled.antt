-- ===== src/Cleaner/Walk/Settled.antt =====
-- cleandevice.go: what a walk without failures has settled.
use efes.Prelude.{ℕ, ◌≡◌, false, List, ◌⊎◌}
use efes.Prelude.Int.{ℤ, ◌==ℤ◌}
use efes.Tracker.{Place}
use efes.Cleaner.{Stat, exists, missing, stat_fails, Faults, Checked, check_fid}
use efes.Cleaner.Walk.{Config, Meets, Walked, check_fids, TickFaults}

-- No call fails.
abbrev pub calm : Faults
calm = record { begin = false; select = false; exec = false; commit = false }

-- A walk without failures that deletes.
abbrev pub calmly : (ℤ → Stat) → Meets
calmly disk = record { disk = disk; fails = λ fid. calm }

abbrev pub config : ℤ → ℕ → Config
config devid period = record { devid = devid; dry_run = false; period = period }

abbrev pub no_failure : TickFaults
no_failure = record { update = false; affected = false; query = false; last_update = false }

module _ (devid : ℤ) (period : ℕ) (disk : ℤ → Stat) where
  abbrev walked : List ℤ → List Place → Walked
  walked = check_fids (config devid period) (calmly disk)

  abbrev checked : ℤ → List Place → Checked
  checked fid ps = check_fid false (disk fid) calm devid fid ps

  -- What a place says after the walk: the file is on the disk and this is its only device, or it is
  -- not on the disk and the place is that of another device, or os.Stat failed.
  abbrev pub Settled : Place → Type 0
  Settled q =
      ((disk q.fid ≡ exists) × (q.devid ≡ devid))
      ⊎ (((disk q.fid ≡ missing) × ((q.devid ==ℤ devid) ≡ false)) ⊎ (disk q.fid ≡ stat_fails))
