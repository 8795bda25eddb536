-- ===== src/Tracker/Devices.antt =====
-- tracker.go: the choice of a device for a new file (`findAliveDevice`), and `createOpen`. Texts that
-- are only compared are numbers.
pub mod Suitable
pub mod Chosen
pub mod Opening
use efes.Prelude.{
  ℕ, ◌+◌, ◌/◌, ◌^◌, ◌-◌, Bool, true, false, Option, none, some, List, [], ◌∷◌, ◌&&◌, ltb, leb, ◌==◌,
  if◌then◌else◌, length, take,
}
use efes.Prelude.Int.{ℤ, pos, negsuc, ◌==ℤ◌}
use efes.Prelude.Members.{select, get_elem?, order_desc}
use efes.Tracker.{Tempfile, Tables, has_device}

-- The enum of the column `status`.
pub data Status : Type 0 where
  alive dead down drain : Status

-- A row of device joined with its host, its rack and its zone: what the query tests, and what
-- `aliveDevice` keeps. `age` is the number of seconds since the last update.
pub record AliveDevice : Type 0 where
  pub zoneid : ℤ
  pub rackid : ℤ
  pub hostid : ℤ
  pub hostip : ℕ
  pub devid : ℤ
  pub host_status : Status
  pub status : Status
  pub bytes_free : Option ℕ
  pub age : ℕ

-- A row of subnet, joined with its rack and its zone.
pub record Subnet : Type 0 where
  pub rackid : ℤ
  pub zoneid : ℤ
  pub subnet : ℕ

unfoldable pub is_alive : Status → Bool
is_alive alive = true
is_alive dead = false
is_alive down = false
is_alive drain = false

unfoldable pub is_alive_or_drain : Status → Bool
is_alive_or_drain alive = true
is_alive_or_drain dead = false
is_alive_or_drain down = false
is_alive_or_drain drain = true

-- `bytes_free>= ?`: not true of NULL, and true of every number if the size is negative.
unfoldable pub has_room : ℤ → Option ℕ → Bool
has_room size none = false
has_room (pos n) (some free) = leb n free
has_room (negsuc n) (some free) = true

-- `devidsSQL`
unfoldable pub status_fits : List ℤ → Status → ℤ → Bool
unfolding is_alive is_alive_or_drain
status_fits [] status devid = is_alive status
status_fits (d ∷ ds) status devid = is_alive_or_drain status && has_device devid (d ∷ ds)

-- The WHERE clause of the query.
unfoldable pub is_candidate : ℤ → List ℤ → AliveDevice → Bool
unfolding is_alive has_room status_fits
is_candidate size devids d =
    is_alive d.host_status
    && (has_room size d.bytes_free && (status_fits devids d.status d.devid && ltb d.age 60))

abbrev free_of : AliveDevice → ℕ
free_of d = elim d.bytes_free [ none ↦ 0 | some free ↦ free ]

-- The query: `order by bytes_free desc`.
unfoldable pub candidates : ℤ → List ℤ → List AliveDevice → List AliveDevice
unfolding is_candidate
candidates size devids rows = order_desc free_of (select (is_candidate size devids) rows)

unfoldable pub filter_same_host : List AliveDevice → ℕ → List AliveDevice
filter_same_host devices client_ip = select (λ d. d.hostip == client_ip) devices

unfoldable pub filter_same_rack : List AliveDevice → ℤ → List AliveDevice
filter_same_rack devices rack_id = select (λ d. d.rackid ==ℤ rack_id) devices

unfoldable pub filter_same_zone : List AliveDevice → ℤ → List AliveDevice
filter_same_zone devices zone_id = select (λ d. d.zoneid ==ℤ zone_id) devices

-- getRackID, over what net.ParseCIDR and Contains say of a subnet and an address.
unfoldable pub get_rack_id : (ℕ → ℕ → Bool) → List Subnet → ℕ → Option (ℤ × ℤ)
get_rack_id contains [] client_ip = none
get_rack_id contains (s ∷ ss) client_ip =
    let rest = get_rack_id contains ss client_ip in
    if contains s.subnet client_ip then some (s.rackid, s.zoneid) else rest

pub data Choice : Type 0 where
  chosen : AliveDevice → Choice
  -- errNoDeviceAvailable
  no_device : Choice
  -- a query failed
  failed : Choice
  -- an index out of range
  panicked : Choice

-- `if len(devices) > 0`, else the next best.
unfoldable pub or_else : List AliveDevice → List AliveDevice → List AliveDevice
or_else [] others = others
or_else (d ∷ ds) others = d ∷ ds

-- The devices of the client's rack, else of its zone, else all.
unfoldable pub near_rack : Option (ℤ × ℤ) → List AliveDevice → List AliveDevice
unfolding or_else filter_same_rack filter_same_zone
near_rack none devices = devices
near_rack (some (rack_id, zone_id)) devices =
    or_else (filter_same_rack devices rack_id) (or_else (filter_same_zone devices zone_id) devices)

unfoldable pub at_index : List AliveDevice → ℕ → Choice
at_index devices i = elim (get_elem? devices i) [ none ↦ panicked | some d ↦ chosen d ]

-- From `if len(devices) == 0` on; `pick n` is `rand.Intn(n)`.
unfoldable pub pick_device : (ℕ → ℕ) → List AliveDevice → Choice
unfolding at_index
pick_device pick [] = no_device
pick_device pick (d ∷ []) = chosen d
pick_device pick (d ∷ e ∷ ds) =
    let half = take (length (d ∷ e ∷ ds) / 2) (d ∷ e ∷ ds) in at_index half (pick (length half))

-- `getSubnets` is only called if no device is on the client's host; it may fail.
unfoldable pub choose_near :
    (ℕ → ℕ → Bool)
    → (ℕ → ℕ)
    → Option (List Subnet)
    → ℕ
    → List AliveDevice
    → List AliveDevice
    → Choice
unfolding get_rack_id near_rack pick_device
choose_near contains pick subnets client_ip devices (d ∷ ds) = pick_device pick (d ∷ ds)
choose_near contains pick none client_ip devices [] = failed
choose_near contains pick (some subnets) client_ip devices [] =
    pick_device pick (near_rack (get_rack_id contains subnets client_ip) devices)

-- The rows are `none` if the query fails.
unfoldable pub find_alive_device :
    (ℕ → ℕ → Bool)
    → (ℕ → ℕ)
    → Option (List AliveDevice)
    → Option (List Subnet)
    → ℤ
    → List ℤ
    → ℕ
    → Choice
unfolding candidates filter_same_host choose_near
find_alive_device contains pick none subnets size devids client_ip = failed
find_alive_device contains pick (some rows) subnets size devids client_ip =
    let devices = candidates size devids rows in
    choose_near contains pick subnets client_ip devices (filter_same_host devices client_ip)

-- "size": not there, not a number of 64 bits, or a number.
pub data Size : Type 0 where
  absent malformed : Size
  given : ℕ → Size

-- `int64(size)` of a uint64.
unfoldable pub to_int64 : ℕ → ℤ
to_int64 n = if ltb n (2 ^ 63) then pos n else negsuc (2 ^ 64 - 1 - n)

-- The status, the device and the fid of a success, and the tables.
pub data Opened : Type 0 where
  opened : AliveDevice → ℤ → Tables → Opened
  refused : ℕ → Tables → Opened
  crashed : Opened

-- The insert into tempfile, and `LastInsertId`; `fid` is the next value of AUTO_INCREMENT.
unfoldable pub insert_tempfile : Bool → Bool → ℤ → Choice → Tables → Opened
insert_tempfile insert_fails id_fails fid no_device t = refused 503 t
insert_tempfile insert_fails id_fails fid failed t = refused 500 t
insert_tempfile insert_fails id_fails fid panicked t = crashed
insert_tempfile insert_fails id_fails fid (chosen d) t =
    let t' = record t { tempfiles = record { fid = fid; devid = d.devid } ∷ t.tempfiles } in
    if insert_fails then refused 500 t else if id_fails then refused 500 t' else opened d fid t'

unfoldable pub size_of : Size → Option ℤ
unfolding to_int64
size_of absent = some (pos 0)
size_of malformed = none
size_of (given n) = some (to_int64 n)

unfoldable pub open_sized : (ℤ → Choice) → Bool → Bool → ℤ → Option ℤ → Tables → Opened
unfolding insert_tempfile
open_sized find insert_fails id_fails fid none t = refused 400 t
open_sized find insert_fails id_fails fid (some size) t =
    insert_tempfile insert_fails id_fails fid (find size) t

-- createOpen, over `findAliveDevice` at the client's address.
unfoldable pub create_open : (ℤ → Choice) → Bool → Bool → ℤ → Bool → Size → Tables → Opened
unfolding open_sized size_of
create_open find insert_fails id_fails fid false size t = refused 405 t
create_open find insert_fails id_fails fid true size t =
    open_sized find insert_fails id_fails fid (size_of size) t
