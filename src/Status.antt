-- ===== src/Status.antt =====
-- status.go, statussort.go: the cells and the order of the devices in the status display.
pub mod Order
pub mod Cells
use efes.Prelude.{
  ℕ, zero, suc, Bool, true, false, Option, none, some, List, [], ◌∷◌, ◌+◌, ◌-◌, ◌*◌, ◌/◌, ltb, ◌==◌,
  if◌then◌else◌,
}
use efes.Prelude.Text.{equal_bytes}
use efes.Tracker.Devices.{Status, alive, dead, down, drain}

-- A row of the display. Names are compared as Go compares strings, byte by byte.
pub record DeviceStatus : Type 0 where
  pub zone_name : List ℕ
  pub rack_name : List ℕ
  pub hostname : List ℕ
  pub devid : ℕ
  pub status : Status
  pub bytes_total : Option ℕ
  pub bytes_used : Option ℕ
  pub bytes_free : Option ℕ

-- `<` on strings
unfoldable pub less_text : List ℕ → List ℕ → Bool
less_text [] [] = false
less_text [] (y ∷ ys) = true
less_text (x ∷ xs) [] = false
less_text (x ∷ xs) (y ∷ ys) = let rest = less_text xs ys in if x == y then rest else ltb x y

unfoldable pub by_devid : DeviceStatus → DeviceStatus → Bool
by_devid a b = ltb a.devid b.devid

unfoldable pub by_hostname : DeviceStatus → DeviceStatus → Bool
unfolding by_devid
by_hostname a b =
    if equal_bytes a.hostname b.hostname then by_devid a b else less_text a.hostname b.hostname

unfoldable pub by_rack_name : DeviceStatus → DeviceStatus → Bool
unfolding by_hostname
by_rack_name a b =
    if equal_bytes a.rack_name b.rack_name
    then by_hostname a b
    else less_text a.rack_name b.rack_name

unfoldable pub by_zone_name : DeviceStatus → DeviceStatus → Bool
unfolding by_rack_name
by_zone_name a b =
    if equal_bytes a.zone_name b.zone_name
    then by_rack_name a b
    else less_text a.zone_name b.zone_name

unfoldable pub less_number : Option ℕ → Option ℕ → Bool
less_number none t2 = false
less_number (some n) none = false
less_number (some n) (some k) = ltb n k

unfoldable pub by_size : DeviceStatus → DeviceStatus → Bool
unfolding less_number
by_size a b = less_number a.bytes_total b.bytes_total

unfoldable pub by_used : DeviceStatus → DeviceStatus → Bool
unfolding less_number
by_used a b = less_number a.bytes_used b.bytes_used

unfoldable pub by_free : DeviceStatus → DeviceStatus → Bool
unfolding less_number
by_free a b = less_number a.bytes_free b.bytes_free

-- Status: the devices that are shown.
unfoldable pub shown : List DeviceStatus → List DeviceStatus
shown [] = []
shown (d ∷ ds) = elim d.status [ dead ↦ shown ds | _ ↦ d ∷ shown ds ]
