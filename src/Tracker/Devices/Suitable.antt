-- ===== src/Tracker/Devices/Suitable.antt =====
-- tracker.go: which devices the query of `findAliveDevice` gives.
use efes.Prelude.{
  ℕ, ◌≤◌, ◌<◌, ◌≡◌, ◌⊎◌, refl, sym, arith, Bool, true, false, Option, none, some, List, [], ◌∷◌,
  ◌&&◌, ◌||◌, ltb, Bool-cases, inl, inr,
}
use efes.Prelude.Int.{ℤ, pos, negsuc, ◌==ℤ◌, ==ℤ_iff}
use efes.Prelude.Members.{In, either}
use efes.Tracker.{has_device}
use efes.Tracker.Devices.{
  Status, alive, dead, down, drain, AliveDevice, is_alive, is_alive_or_drain, has_room, status_fits,
  is_candidate,
}

-- The size is at most the free space.
abbrev pub HasRoom : ℤ → ℕ → Type 0
HasRoom (pos n) free = n ≤ free
HasRoom (negsuc n) free = Unit

-- Without a list of destinations the device is alive; else it is one of them, and may be drained.
abbrev pub FitsStatus : List ℤ → Status → ℤ → Type 0
FitsStatus [] status devid = status ≡ alive
FitsStatus (d ∷ ds) status devid = ((status ≡ alive) ⊎ (status ≡ drain)) × In devid (d ∷ ds)

-- A device that may take a file of the size.
pub record IsSuitable (size : ℤ) (devids : List ℤ) (d : AliveDevice) : Type 0 where
  pub host_alive : d.host_status ≡ alive
  pub free : ℕ
  pub known : d.bytes_free ≡ some free
  pub room : HasRoom size free
  pub fits : FitsStatus devids d.status d.devid
  pub fresh : d.age < 60

and_true : (a b : Bool) → (a && b) ≡ true → (a ≡ true) × (b ≡ true)
and_true true b h = (refl, h)
and_true false b h = cc

is_alive-eq : (s : Status) → is_alive s ≡ true → s ≡ alive
unfolding is_alive
is_alive-eq alive h = refl
is_alive-eq dead h = cc
is_alive-eq down h = cc
is_alive-eq drain h = cc

is_alive_or_drain-eq : (s : Status) → is_alive_or_drain s ≡ true → (s ≡ alive) ⊎ (s ≡ drain)
unfolding is_alive_or_drain
is_alive_or_drain-eq alive h = inl refl
is_alive_or_drain-eq dead h = cc
is_alive_or_drain-eq down h = cc
is_alive_or_drain-eq drain h = inr refl

has_device-In : (devid : ℤ) (ds : List ℤ) → has_device devid ds ≡ true → In devid ds
unfolding has_device
has_device-In devid [] h = cc
has_device-In devid (d ∷ ds) h = elim (Bool-cases (d ==ℤ devid)) [
  | inl same ↦ inl (sym ((==ℤ_iff d devid).0 same))
  | inr other ↦ inr (has_device-In devid ds (rw other at h))
]

In-has_device : (devid : ℤ) (ds : List ℤ) → In devid ds → has_device devid ds ≡ true
unfolding has_device
In-has_device devid [] h = absurd h
In-has_device devid (d ∷ ds) (inl e) = rw ((==ℤ_iff d devid).1 (sym e)) refl
In-has_device devid (d ∷ ds) (inr m) = rw (In-has_device devid ds m) (or_true (d ==ℤ devid))
  where
    or_true : (a : Bool) → (a || true) ≡ true
    or_true true = refl
    or_true false = refl

status_fits-FitsStatus :
    (devids : List ℤ) (s : Status) (devid : ℤ)
    → status_fits devids s devid ≡ true
    → FitsStatus devids s devid
unfolding status_fits
status_fits-FitsStatus [] s devid h = is_alive-eq s h
status_fits-FitsStatus (d ∷ ds) s devid h =
    let (s_ok, listed) = and_true (is_alive_or_drain s) (has_device devid (d ∷ ds)) h in
    (is_alive_or_drain-eq s s_ok, has_device-In devid (d ∷ ds) listed)

FitsStatus-status_fits :
    (devids : List ℤ) (s : Status) (devid : ℤ)
    → FitsStatus devids s devid
    → status_fits devids s devid ≡ true
unfolding status_fits is_alive is_alive_or_drain
FitsStatus-status_fits [] s devid h = rw h refl
FitsStatus-status_fits (d ∷ ds) s devid (h, m) =
    rw (In-has_device devid (d ∷ ds) m) (either (λ e. rw e refl) (λ e. rw e refl) h)

has_room-HasRoom :
    (size : ℤ) (o : Option ℕ)
    → has_room size o ≡ true
    → (free : ℕ) × (o ≡ some free) × HasRoom size free
unfolding has_room
has_room-HasRoom (pos n) none h = cc
has_room-HasRoom (negsuc n) none h = cc
has_room-HasRoom (pos n) (some free) h = (free, refl, ground arith)
has_room-HasRoom (negsuc n) (some free) h = (free, refl, tt)

HasRoom-has_room : (size : ℤ) (free : ℕ) → HasRoom size free → has_room size (some free) ≡ true
unfolding has_room
HasRoom-has_room (pos n) free h = ground arith
HasRoom-has_room (negsuc n) free h = refl

pub candidate-IsSuitable :
    (size : ℤ) (devids : List ℤ) (d : AliveDevice)
    → is_candidate size devids d ≡ true
    → IsSuitable size devids d
unfolding is_candidate
candidate-IsSuitable size devids d h =
    let (host, h1) = and_true (is_alive d.host_status) _ h in
    let (room, h2) = and_true (has_room size d.bytes_free) _ h1 in
    let (fits, fresh) = and_true (status_fits devids d.status d.devid) (ltb d.age 60) h2 in
    let (free, known, enough) = has_room-HasRoom size d.bytes_free room in
    record {
      host_alive = is_alive-eq d.host_status host;
      free = free;
      known = known;
      room = enough;
      fits = status_fits-FitsStatus devids d.status d.devid fits;
      fresh = ground arith;
    }

pub IsSuitable-candidate :
    (size : ℤ) (devids : List ℤ) (d : AliveDevice)
    → IsSuitable size devids d
    → is_candidate size devids d ≡ true
unfolding is_candidate is_alive
IsSuitable-candidate size devids d s =
    let young : ltb d.age 60 ≡ true = ground (arith, s.fresh) in
    rw (s.host_alive) (
      rw (s.known) (
        rw (HasRoom-has_room size s.free s.room)
          (rw (FitsStatus-status_fits devids d.status d.devid s.fits) young)))
