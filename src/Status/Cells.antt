-- ===== src/Status/Cells.antt =====
-- status.go: gigabytes, percentages and colours.
use efes.Prelude.{ℕ, ◌*◌, ◌/◌, Option, none, some, leb, ltb, ◌==◌, if◌then◌else◌}
use efes.Tracker.Devices.{Status, alive, dead, down, drain}

abbrev giga : ℕ
giga = 1024 * 1024 * 1024

-- Size, Used and Free: gigabytes, `none` for an empty text.
unfoldable pub in_giga : Option ℕ → Option ℕ
in_giga none = none
in_giga (some n) = some (n / giga)

-- The number that Use shows; the division panics if the size is 0.
pub data Percent : Type 0 where
  unknown : Percent
  percent : ℕ → Percent
  divided_by_zero : Percent

unfoldable pub use_percent : Option ℕ → Option ℕ → Percent
use_percent none total = unknown
use_percent (some used) none = unknown
use_percent (some used) (some total) =
    if total == 0 then divided_by_zero else percent (used * 100 / total)

pub data Color : Type 0 where
  plain red yellow blue : Color

-- colorPercent
unfoldable pub color_percent : ℕ → Color
color_percent value =
    if leb 90 value
    then red
    else if leb 80 value
    then yellow
    else if ltb value 10
    then blue
    else plain

-- colorDuration, in nanoseconds
unfoldable pub color_duration : ℕ → Color
color_duration value =
    if ltb 2000000000 value then red else if ltb 1000000000 value then yellow else plain

-- colorStatus
unfoldable pub color_status : Status → Color
color_status alive = plain
color_status down = red
color_status dead = yellow
color_status drain = yellow
