-- ===== src/Drainer.antt =====
-- drain.go: the move of files from one device to others.
pub mod Moving
pub mod Steps
pub mod Kept
pub mod Sending
use efes.Prelude.{
  ℕ, zero, suc, ◌+◌, Bool, true, false, Option, none, some, List, [], ◌∷◌, not, ◌||◌, ◌&&◌,
  if◌then◌else◌, map, length,
}
use efes.Prelude.Int.{ℤ, pos, ◌==ℤ◌}
use efes.Tracker.{Place, has, same_place}
use efes.Tracker.Devices.{
  AliveDevice, drain, Choice, chosen, no_device, failed, panicked, Subnet, find_alive_device,
}

-- The disks of all devices, by device and fid, and the tables file_on and device.
pub record World : Type 0 where
  pub files : ℤ → ℤ → Option (List ℕ)
  pub places : List Place
  pub devices : List AliveDevice

-- The drainer: its device, the flag `--dest`, and for `findAliveDevice` which subnet has which address
-- and what stands for the empty address of the client.
pub record Config : Type 0 where
  pub devid : ℤ
  pub dest : List ℤ
  pub stop_on_error : Bool
  pub contains : ℕ → ℕ → Bool
  pub no_ip : ℕ

-- What a move meets: calls that fail, the random index, and the subnets or a failure.
pub record Meets : Type 0 where
  pub open_fails : Bool
  pub stat_fails : Bool
  pub query_fails : Bool
  pub update_fails : Bool
  pub remove_fails : Bool
  pub pick : ℕ → ℕ
  pub subnets : Option (List Subnet)

unfoldable pub find : Config → Meets → List AliveDevice → ℤ → Choice
find c m rows size =
    find_alive_device c.contains m.pick (if m.query_fails then none else some rows) m.subnets size
      c.dest c.no_ip

-- `sendFile` to a device: from what stands there for the fid, whether it succeeds and what it leaves.
abbrev pub Send : Type 0
Send = ℤ → ℤ → List ℕ → Option (List ℕ) → Bool × Option (List ℕ)

-- Whether there was no error, and the world.
pub record Moved : Type 0 where
  pub ok : Bool
  pub world : World

unfoldable pub set_file : ℤ → ℤ → Option (List ℕ) → World → World
set_file devid fid content w = record w {
  files = λ d f. if (d ==ℤ devid) && (f ==ℤ fid) then content else w.files d f;
}

-- update file_on set devid=? where devid=? and fid=?; `none` if the primary key is there twice.
unfoldable pub update_places : ℤ → ℤ → ℤ → List Place → Option (List Place)
update_places new old fid ps =
    if not (new ==ℤ old)
      && (has (record { fid = fid; devid = old }) ps && has (record { fid = fid; devid = new }) ps)
    then none
    else some (
        map
          (λ p.
            if same_place p (record { fid = fid; devid = old })
            then record { fid = fid; devid = new }
            else p)
          ps)

-- os.Remove
unfoldable pub remove_file : Meets → ℤ → ℤ → World → Moved
unfolding set_file
remove_file m devid fid w =
    if m.remove_fails
    then record { ok = false; world = w }
    else record { ok = true; world = set_file devid fid none w }

-- After the update of file_on.
unfoldable pub finish_move : Meets → ℤ → ℤ → World → Option (List Place) → Moved
unfolding remove_file
finish_move m devid fid w none = record { ok = false; world = w }
finish_move m devid fid w (some places) = remove_file m devid fid (record w { places = places })

-- After sendFile, in the world that it left.
unfoldable pub after_send : Meets → ℤ → ℤ → ℤ → Bool → World → Moved
unfolding finish_move update_places
after_send m devid fid new false w = record { ok = false; world = w }
after_send m devid fid new true w =
    if m.update_fails
    then record { ok = false; world = w }
    else finish_move m devid fid w (update_places new devid fid w.places)

unfoldable pub send_to : Send → Meets → ℤ → ℤ → List ℕ → World → Choice → Moved
unfolding after_send set_file
send_to send m devid fid content w no_device = record { ok = false; world = w }
send_to send m devid fid content w failed = record { ok = false; world = w }
send_to send m devid fid content w panicked = record { ok = false; world = w }
send_to send m devid fid content w (chosen ad) =
    let sent = send ad.devid fid content (w.files ad.devid fid) in
    after_send m devid fid ad.devid sent.0 (set_file ad.devid fid sent.1 w)

-- From the open file on.
unfoldable pub move_open : Send → Config → Meets → ℤ → World → Option (List ℕ) → Moved
unfolding send_to find
move_open send c m fid w none = record { ok = false; world = w }
move_open send c m fid w (some content) =
    if m.open_fails
    then record { ok = false; world = w }
    else if m.stat_fails
    then record { ok = false; world = w }
    else send_to send m c.devid fid content w (find c m w.devices (pos (length content)))

-- moveFile
unfoldable pub move_file : Send → Config → Meets → ℤ → World → Moved
unfolding move_open
move_file send c m fid w = move_open send c m fid w (w.files c.devid fid)

-- update device set status='drain' where devid=?
unfoldable pub set_drain : ℤ → List AliveDevice → List AliveDevice
set_drain devid = map (λ d. if d.devid ==ℤ devid then record d { status = drain } else d)

-- select fid from file_on where devid=?
unfoldable pub fids_on : ℤ → List Place → List ℤ
fids_on devid [] = []
fids_on devid (p ∷ ps) =
    let rest = fids_on devid ps in if p.devid ==ℤ devid then p.fid ∷ rest else rest

-- What a run meets: failures of its statements, a shutdown before a move, and the moves.
pub record RunMeets : Type 0 where
  pub drain_fails : Bool
  pub select_fails : Bool
  pub shutdown : ℕ → Bool
  pub move : ℕ → Meets

unfoldable pub move_all : Send → Config → RunMeets → ℕ → List ℤ → World → World
unfolding move_file
move_all send c r i [] w = w
move_all send c r i (fid ∷ fids) w =
    let moved = move_file send c (r.move i) fid w in
    let rest = move_all send c r (suc i) fids moved.world in
    if r.shutdown i then w else if not moved.ok && c.stop_on_error then moved.world else rest

-- Run
unfoldable pub run : Send → Config → RunMeets → World → World
unfolding move_all set_drain fids_on
run send c r w =
    let w' = record w { devices = set_drain c.devid w.devices } in
    if r.drain_fails
    then w
    else if r.select_fails
    then w'
    else move_all send c r 0 (fids_on c.devid w.places) w'
