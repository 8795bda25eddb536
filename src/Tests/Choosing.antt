-- ===== src/Tests/Choosing.antt =====
-- The choice of a device (tracker.go) at concrete tables.
use efes.Prelude.{ℕ, Bool, ◌≡◌, ◌<◌, refl, arith, true, some, Option, List, [], ◌∷◌, inl}
use efes.Prelude.Int.{ℤ, pos}
use efes.Tracker.{Tables}
use efes.Tracker.Devices.{AliveDevice, alive, Subnet, Choice, chosen, find_alive_device}
use efes.Tracker.Devices.Suitable.{IsSuitable}
use efes.Tracker.Devices.Chosen.{Chooses, find_alive_device-Chooses, find_alive_device-same_host}

abbrev device : ℤ → ℕ → ℕ → AliveDevice
device devid hostip free = record {
  zoneid = pos 1;
  rackid = pos 1;
  hostid = devid;
  hostip = hostip;
  devid = devid;
  host_status = alive;
  status = alive;
  bytes_free = some free;
  age = 5;
}

-- Device 10 is on host 100, device 11 on host 101.
abbrev devices : List AliveDevice
devices = device (pos 10) 100 5000 ∷ device (pos 11) 101 9000 ∷ []

abbrev no_tables : Tables
no_tables = record { tempfiles = []; files = []; places = []; devices = pos 10 ∷ pos 11 ∷ [] }

abbrev first : ℕ → ℕ
first n = 0

first_in_range : (n : ℕ) → 0 < n → first n < n
first_in_range n some_left = some_left

-- One subnet holds every address.
abbrev everywhere : ℕ → ℕ → Bool
everywhere subnet ip = true

abbrev subnets : Option (List Subnet)
subnets = some (record { rackid = pos 1; zoneid = pos 1; subnet = 0 } ∷ [])

device-IsSuitable : IsSuitable (pos 4000) [] (device (pos 10) 100 5000)
device-IsSuitable = record {
  host_alive = refl;
  free = 5000;
  known = refl;
  room = omega arith;
  fits = refl;
  fresh = omega arith;
}

find_alive_device-Chooses_example :
    Chooses first first_in_range everywhere devices
      (pos 4000)
      []
      100
      (find_alive_device everywhere first (some devices) subnets (pos 4000) [] 100)
find_alive_device-Chooses_example =
    find_alive_device-Chooses first first_in_range everywhere devices (pos 4000) [] 100 subnets

find_alive_device-same_host_example :
    (d : AliveDevice) × (find_alive_device everywhere first (some devices) subnets (pos 4000) [] 100
      ≡ chosen d)
    × (d.hostip ≡ 100)
find_alive_device-same_host_example =
    find_alive_device-same_host first first_in_range everywhere devices (pos 4000) [] 100 subnets
      (device (pos 10) 100 5000) (inl refl) device-IsSuitable refl

abbrev find : ℤ → Choice
find size = find_alive_device everywhere first (some devices) subnets size [] 100
