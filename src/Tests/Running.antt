-- ===== src/Tests/Running.antt =====
-- A process that is interrupted, and a file that is read through a mount.
use efes.Prelude.{ℕ, ◌≡◌, refl, true, false, none, some, List, [], ◌∷◌, drop}
use efes.Process.{initial, handle_signal, run_returned, Reachable, started, later, signal, returns}
use efes.Process.Exit.{IsOrderly, Reachable-IsOrderly}
use efes.Mount.{FileHandle}

initial-running : initial.exit ≡ none
unfolding initial
initial-running = refl

signalled-running : ((handle_signal initial).exit ≡ none) × ((handle_signal initial).run ≡ none)
unfolding initial handle_signal
signalled-running = (refl, refl)

-- A signal, and then Run returns: the process exits while Shutdown has not returned.
interrupted : Reachable (run_returned true (handle_signal initial))
interrupted =
    later (later started (signal initial initial-running))
      (returns true (handle_signal initial) signalled-running.0 signalled-running.1)

interrupted-unfinished :
    ((run_returned true (handle_signal initial)).exit ≡ some 0)
    × ((run_returned true (handle_signal initial)).shut_down ≡ false)
unfolding initial handle_signal run_returned
interrupted-unfinished = (refl, refl)

Reachable-IsOrderly_example : IsOrderly (run_returned true (handle_signal initial))
Reachable-IsOrderly_example = Reachable-IsOrderly interrupted

abbrev content : List ℕ
content = 97 ∷ 98 ∷ 99 ∷ 100 ∷ []

abbrev handle : FileHandle
handle = record { r = some (drop 1 content); offset = 1 }
