-- ===== src/Process.antt =====
-- main.go: `runUntilInterrupt`, `handleSignals` and `shutdownProcess`, three goroutines whose steps
-- interleave until the process exits.
pub mod Exit
use efes.Prelude.{ℕ, suc, ◌≡◌, ◌≢◌, Bool, true, false, Option, none, some, if◌then◌else◌}

-- How often Shutdown was called and whether it has returned, whether Run has returned and how, and
-- the code of the exit.
pub record State : Type 0 where
  pub first : Bool
  pub calls : ℕ
  pub shut_down : Bool
  pub run : Option Bool
  pub exit : Option ℕ

unfoldable pub initial : State
initial = record { first = true; calls = 0; shut_down = false; run = none; exit = none }

-- A round of handleSignals.
unfoldable pub handle_signal : State → State
handle_signal s =
    if s.first then record s { first = false; calls = suc s.calls } else record s { exit = some 1 }

-- What runUntilInterrupt does when Run returns: without an error it returns at once, and else
-- log.Fatal ends the process, so that nothing waits for `shutdown`.
unfoldable pub run_returned : Bool → State → State
run_returned true s = record s { run = some true; exit = some 0 }
run_returned false s = record s { run = some false; exit = some 1 }

-- shutdownProcess after Shutdown has returned.
unfoldable pub shutdown_returned : Bool → State → State
shutdown_returned true s = record s { shut_down = true }
shutdown_returned false s = record s { exit = some 1 }

-- A step of a process that has not exited. Run returns once; Shutdown returns after a call.
pub data Step : State → State → Type 0 where
  signal : (s : State) → s.exit ≡ none → Step s (handle_signal s)
  returns : (ok : Bool) (s : State) → s.exit ≡ none → s.run ≡ none → Step s (run_returned ok s)
  shuts_down :
      (ok : Bool) (s : State)
      → s.exit ≡ none
      → s.calls ≢ 0
      → s.shut_down ≡ false
      → Step s (shutdown_returned ok s)

pub data Reachable : State → Type 0 where
  started : Reachable initial
  later : {s t : State} → Reachable s → Step s t → Reachable t
