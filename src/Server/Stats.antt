-- ===== src/Server/Stats.antt =====
-- server.go: the numbers of a disk that the server reports.
use efes.Prelude.{ℕ, Option, none, some, ◌+◌, ◌-◌, ◌%◌, ◌^◌}
use efes.Prelude.Int.{ℤ, pos}
use efes.IoStat.{Utilization, percent, not_available}
use efes.Tracker.Devices.{to_int64}

-- The columns bytes_total, bytes_used and bytes_free.
pub record Usage : Type 0 where
  pub total : ℤ
  pub used : ℤ
  pub free : ℤ

-- getDiskUsage: the total and the free bytes, of 64 bits, or `none` for an error, which is NULL.
unfoldable pub get_disk_usage : Option (ℕ × ℕ) → Option Usage
unfolding to_int64
get_disk_usage none = none
get_disk_usage (some (total, free)) = some (record {
  total = to_int64 total;
  used = to_int64 ((total + 2 ^ 64 - free) % 2 ^ 64);
  free = to_int64 free;
})

-- getDiskUtilization: without an iostat, or without a measurement, it is NULL.
unfoldable pub get_disk_utilization : Option Utilization → Option ℤ
get_disk_utilization none = none
get_disk_utilization (some not_available) = none
get_disk_utilization (some (percent p)) = some (pos p)
