-- ===== src/Tracker/Publishing.antt =====
-- tracker.go: `publishDeleteTask`, which may lose the tasks of a file.
use efes.Prelude.{Bool, List, [], ◌∷◌, if◌then◌else◌}
use efes.Prelude.Int.{ℤ}
use efes.Tracker.{Place}

-- What comes first from the dialer or the shutdown.
pub data Conn : Type 0 where
  -- the channel of connections is closed
  conn_closed : Conn
  channel_fails : Conn
  connected : Conn
  shutting_down : Conn

-- The loop over the devices: a task that cannot be published is logged.
unfoldable pub publish_each : (ℤ → Bool) → List ℤ → ℤ → List Place
publish_each fails [] fid = []
publish_each fails (devid ∷ devids) fid =
    let rest = publish_each fails devids fid in
    if fails devid then rest else record { fid = fid; devid = devid } ∷ rest

-- publishDeleteTask of the tracker: the tasks that the broker gets.
unfoldable pub publish_delete_task : Conn → (ℤ → Bool) → List ℤ → ℤ → List Place
unfolding publish_each
publish_delete_task conn_closed fails devids fid = []
publish_delete_task channel_fails fails devids fid = []
publish_delete_task connected fails devids fid = publish_each fails devids fid
publish_delete_task shutting_down fails devids fid = []
