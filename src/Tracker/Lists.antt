-- ===== src/Tracker/Lists.antt =====
-- tracker.go: the handlers that list a table (`getDevices`, `getHosts`, `getRacks`, `getZones`).
-- Names are numbers, as texts that are only passed on.
use efes.Prelude.{ℕ, Bool, true, false, Option, none, some, List, [], ◌∷◌, if◌then◌else◌}
use efes.Prelude.Int.{ℤ}
use efes.Tracker.Devices.{Status}

-- What a query gives: an error, or rows, each of which Scan may refuse, and an error of the end.
pub record Rows (A : Type 0) : Type 0 where
  pub query_fails : Bool
  pub rows : List (Option A)
  pub breaks : Bool

-- The rows of an answer, or the status of an error.
pub data Listing (A : Type 0) : Type 0 where
  listing : List A → Listing A
  refused : ℕ → Listing A

-- The loop over the rows: a row that Scan refuses ends it.
unfoldable pub scan_rows : {A B : Type 0} → (A → B) → List (Option A) → Option (List B)
scan_rows f [] = some []
scan_rows f (none ∷ rows) = none
scan_rows f (some a ∷ rows) = elim (scan_rows f rows) [ none ↦ none | some bs ↦ some (f a ∷ bs) ]

unfoldable pub scanned : {A : Type 0} → Bool → Option (List A) → Listing A
scanned breaks none = refused 500
scanned breaks (some rows) = if breaks then refused 500 else listing rows

-- The handler's frame: the method, the query, the rows.
unfoldable pub list_rows : {A B : Type 0} → (A → B) → Bool → Rows A → Listing B
unfolding scan_rows scanned
list_rows f false q = refused 405
list_rows f true q = if q.query_fails then refused 500 else scanned q.breaks (scan_rows f q.rows)

-- A row of device, joined with its host, its rack and its zone; a NULL is `none`.
pub record DeviceRow : Type 0 where
  pub devid : ℤ
  pub hostid : ℤ
  pub host_name : ℕ
  pub host_status : Status
  pub rackid : ℤ
  pub rack_name : ℕ
  pub zoneid : ℤ
  pub zone_name : ℕ
  pub status : Status
  pub bytes_total : Option ℤ
  pub bytes_used : Option ℤ
  pub bytes_free : Option ℤ
  pub updated_at : ℤ
  pub io_utilization : Option ℤ

-- Device: a pointer is `none` if it is nil. A NullInt64 that is not valid leaves it nil.
unfoldable pub device_of : DeviceRow → DeviceRow
device_of row = record row {
  bytes_total = elim row.bytes_total [ none ↦ none | some n ↦ some n ];
  bytes_used = elim row.bytes_used [ none ↦ none | some n ↦ some n ];
  bytes_free = elim row.bytes_free [ none ↦ none | some n ↦ some n ];
  io_utilization = elim row.io_utilization [ none ↦ none | some n ↦ some n ];
}

pub record HostRow : Type 0 where
  pub hostid : ℤ
  pub status : Status
  pub hostname : ℕ
  pub hostip : ℕ

pub record RackRow : Type 0 where
  pub rackid : ℤ
  pub zoneid : ℤ
  pub name : ℕ

pub record ZoneRow : Type 0 where
  pub zoneid : ℤ
  pub name : ℕ

-- getDevices
unfoldable pub get_devices : Bool → Rows DeviceRow → Listing DeviceRow
unfolding list_rows device_of
get_devices get q = list_rows device_of get q

-- getHosts
unfoldable pub get_hosts : Bool → Rows HostRow → Listing HostRow
unfolding list_rows
get_hosts get q = list_rows (λ row. row) get q

-- getRacks
unfoldable pub get_racks : Bool → Rows RackRow → Listing RackRow
unfolding list_rows
get_racks get q = list_rows (λ row. row) get q

-- getZones
unfoldable pub get_zones : Bool → Rows ZoneRow → Listing ZoneRow
unfolding list_rows
get_zones get q = list_rows (λ row. row) get q
