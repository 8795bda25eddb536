-- ===== src/IoStat/Window.antt =====
-- iostat.go: the window of measurements and the percentage.
use efes.Prelude.{
  ℕ, ◌+◌, ◌-◌, ◌*◌, ◌/◌, ◌%◌, ◌≤◌, ◌<◌, ◌≡◌, Bool, false, List, [], ◌∷◌, if◌then◌else◌,
}
use efes.Prelude.Members.{In}
use efes.IoStat.{
  IoMeasurement, half_second, millisecond, is_expired, back_or, Utilization, percent, not_available,
}

module _ (window : ℕ) (m : IoMeasurement) where
  -- The last element of a list that is not empty is one of `ms` and has not left the window.
  abbrev Fresh : List IoMeasurement → List IoMeasurement → Type 0
  Fresh ms [] = Unit
  Fresh ms (k ∷ ks) = In (back_or k ks) ms × (is_expired window m (back_or k ks) ≡ false)

  abbrev keep_unless : Bool → IoMeasurement → List IoMeasurement
  keep_unless b x = if b then [] else x ∷ []

  -- The clock and the counter do not go back.
  abbrev pub IsBehind : IoMeasurement → Type 0
  IsBehind x = (x.t ≤ m.t) × (x.c ≤ m.c)

  -- The share of the time in which the disk was busy, since a measurement in the window.
  abbrev pub IsShare : List IoMeasurement → Utilization → Type 0
  IsShare ms not_available = Unit
  IsShare ms (percent p) =
      (b : IoMeasurement) × In b ms
      × (m.t - b.t < window + half_second)
      × (p ≡ 100 * ((m.c - b.c) * millisecond) / (m.t - b.t) % 256)
