-- ===== src/Process/Exit.antt =====
-- main.go: how a process exits.
use efes.Prelude.{
  ℕ, suc, ◌≡◌, ◌≢◌, refl, ap, Bool, true, false, Option, none, some, if◌then◌else◌, Bool-cases, inl,
  inr,
}
use efes.Process.{
  State, initial, handle_signal, run_returned, shutdown_returned, Step, signal, returns, shuts_down,
  Reachable, started, later,
}

-- Shutdown is called for the first signal only, and the code is 0 only after a Run without an error.
pub record IsOrderly (s : State) : Type 0 where
  pub unsignalled : s.first ≡ true → s.calls ≡ 0
  pub signalled : s.first ≡ false → s.calls ≡ 1
  pub answered : s.shut_down ≡ true → s.calls ≡ 1
  pub success : s.exit ≡ some 0 → s.run ≡ some true

not_both : {A : Type 0} {b : Bool} → b ≡ true → b ≡ false → A
not_both {b = true} e h = cc
not_both {b = false} e h = cc

none-some : {A : Type 0} {o : Option ℕ} {n : ℕ} → o ≡ none → o ≡ some n → A
none-some e h = cc

one-zero : {A : Type 0} → ◌≡◌ {A = Option ℕ} (some 1) (some 0) → A
one-zero h = cc

initial-IsOrderly : IsOrderly initial
unfolding initial
initial-IsOrderly = record {
  unsignalled = λ e. refl;
  signalled = λ e. cc;
  answered = λ e. cc;
  success = λ e. cc;
}

handle_signal-IsOrderly : (s : State) → s.exit ≡ none → IsOrderly s → IsOrderly (handle_signal s)
unfolding handle_signal
handle_signal-IsOrderly s running h = go s.first refl
  where
    go :
        (b : Bool)
        → s.first ≡ b
        → IsOrderly (
            if b
            then record s { first = false; calls = suc s.calls }
            else record s { exit = some 1 })
    go true new = record {
      unsignalled = λ e. cc;
      signalled = λ e. ap suc (h.unsignalled new);
      answered = λ e. ap suc (h.unsignalled new);
      success = λ e. none-some running e;
    }
    go false old = record {
      unsignalled = h.unsignalled;
      signalled = h.signalled;
      answered = h.answered;
      success = λ e. one-zero e;
    }

run_returned-IsOrderly : (ok : Bool) (s : State) → IsOrderly s → IsOrderly (run_returned ok s)
unfolding run_returned
run_returned-IsOrderly true s h = record {
  unsignalled = h.unsignalled;
  signalled = h.signalled;
  answered = h.answered;
  success = λ e. refl;
}
run_returned-IsOrderly false s h = record {
  unsignalled = h.unsignalled;
  signalled = h.signalled;
  answered = h.answered;
  success = λ e. one-zero e;
}

shutdown_returned-IsOrderly :
    (ok : Bool) (s : State) → s.calls ≢ 0 → IsOrderly s → IsOrderly (shutdown_returned ok s)
unfolding shutdown_returned
shutdown_returned-IsOrderly true s called h = record {
  unsignalled = h.unsignalled;
  signalled = h.signalled;
  success = h.success;
  answered = λ e. elim (Bool-cases s.first) [
    | inl new ↦ absurd (called (h.unsignalled new))
    | inr old ↦ h.signalled old
  ];
}
shutdown_returned-IsOrderly false s called h = record {
  unsignalled = h.unsignalled;
  signalled = h.signalled;
  answered = h.answered;
  success = λ e. one-zero e;
}

Step-IsOrderly : {s t : State} → IsOrderly s → Step s t → IsOrderly t
Step-IsOrderly h (signal s running) = handle_signal-IsOrderly s running h
Step-IsOrderly h (returns ok s running fresh) = run_returned-IsOrderly ok s h
Step-IsOrderly h (shuts_down ok s running called fresh) = shutdown_returned-IsOrderly ok s called h

-- However signals, the end of Run and the end of Shutdown interleave, Shutdown is called at most
-- once, for the first signal, and the process exits with 0 only if Run has returned without an error.
pub Reachable-IsOrderly : {s : State} → Reachable s → IsOrderly s
Reachable-IsOrderly started = initial-IsOrderly
Reachable-IsOrderly (later r step) = Step-IsOrderly (Reachable-IsOrderly r) step
