-- ===== src/Tests/Draining.antt =====
-- A drained device with one file.
use efes.Prelude.{
  ℕ, zero, suc, arith, refl, true, false, none, some, List, [], ◌∷◌, if◌then◌else◌, ◌&&◌,
}
use efes.Prelude.Int.{ℤ, pos, ◌==ℤ◌}
use efes.Sha1.Sum.{sha1}
use efes.Tracker.{has, same_place}
use efes.Tracker.Devices.{AliveDevice, alive}
use efes.Receiver.Disk.{no_faults}
use efes.Receiver.Copy.{Piece, whole}
use efes.Receiver.Http.{no_rows}
use efes.Client.Send as Client
use efes.Upload.{Fate, lost, answered}
use efes.Upload.Requests.{IsFair}
use efes.Drainer.{World, Config, Meets, RunMeets, run, fids_on}
use efes.Drainer.Moving.{Holds, HasOn}
use efes.Drainer.Kept.{Distinct}
use efes.Drainer.Sending.{Uploads, IsSound, send_over, send_over-Begins, run-send_over-Holds}

abbrev device : ℤ → AliveDevice
device devid = record {
  zoneid = pos 1;
  rackid = pos 1;
  hostid = devid;
  hostip = 100;
  devid = devid;
  host_status = alive;
  status = alive;
  bytes_free = some 5000;
  age = 5;
}

-- File 3 is on device 10.
abbrev world : World
world = record {
  files = λ d f. if (d ==ℤ pos 10) && (f ==ℤ pos 3) then some (97 ∷ []) else none;
  places = record { fid = pos 3; devid = pos 10 } ∷ [];
  devices = device (pos 10) ∷ device (pos 11) ∷ [];
}

-- Every read of the body in one piece, a chunk of two bytes, and a first request that is lost.
abbrev one_read : List ℕ → List Piece
one_read p = whole p ∷ []

abbrev client : Client.Config
client = record {
  chunk_size = 2;
  buffer = 1;
  drainer = true;
  fid = none;
  cut = one_read;
  takes = λ i. 2;
  gives_up = λ calls. false;
}

abbrev fates : ℕ → Fate
fates zero = lost
fates (suc n) = answered no_faults

abbrev uploads : Uploads
uploads = record {
  fates = λ devid fid. fates;
  databases = λ devid. some (λ fid. no_rows);
  client = client;
  fuel = 9;
  tries = 5;
  dir = λ devid fid. false;
  info = λ devid fid o. none;
  left = λ devid fid. none;
}

fates-IsFair : (i : ℕ) → IsFair (fates i)
fates-IsFair zero = tt
fates-IsFair (suc n) = record { closes = refl; replaces = λ e. cc }

uploads-IsSound : IsSound uploads
uploads-IsSound = record {
  some_chunk = omega arith;
  some_buffer = omega arith;
  fair = λ devid fid. fates-IsFair;
  cuts = λ p h. (h, tt);
  reads = λ devid fid i q s z. absurd (omega (arith, z));
  consistent = λ devid fid o. record { fits = tt };
}

abbrev config : Config
config = record {
  devid = pos 10;
  dest = [];
  stop_on_error = false;
  contains = λ subnet ip. false;
  no_ip = 0;
}

abbrev meets : Meets
meets = record {
  open_fails = false;
  stat_fails = false;
  query_fails = false;
  update_fails = false;
  remove_fails = false;
  pick = λ n. 0;
  subnets = some [];
}

abbrev run_meets : RunMeets
run_meets = record {
  drain_fails = false;
  select_fails = false;
  shutdown = λ i. false;
  move = λ i. meets;
}

file_3-held : HasOn world (pos 10) (pos 3) (sha1 (97 ∷ []))
unfolding has same_place
file_3-held = (refl, (97 ∷ [], refl, (omega arith, tt), refl))

fids_on-Distinct :
    Distinct
      (send_over uploads)
      (send_over-Begins uploads uploads-IsSound)
      config
      (λ m. m)
      (fids_on (pos 10) world.places)
unfolding fids_on
fids_on-Distinct = (λ m. m, tt)

run-send_over-Holds_example :
    Holds (run (send_over uploads) config run_meets world) (pos 3) (sha1 (97 ∷ []))
run-send_over-Holds_example =
    run-send_over-Holds uploads uploads-IsSound config (λ m. m) run_meets world (pos 3)
      (sha1 (97 ∷ [])) (λ j n some_left. some_left) fids_on-Distinct file_3-held
