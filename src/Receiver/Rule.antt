-- ===== src/Receiver/Rule.antt =====
-- Reasoning about a sequence of calls of filereceiver.go.
use efes.Prelude.{◌≡◌, refl, sym, subst}
use efes.Receiver.Disk.{Error, Result, ok, err, panic, Slot, M, ◌>>=◌}

module _ {A B : Type 0} (P : Result B × Slot → Type 0) (m : M A) (k : A → M B) (s : Slot) where
  pub bind_rule :
      ((a : A) (t : Slot) → m s ≡ (ok a, t) → P (k a t))
      → ((e : Error) (t : Slot) → m s ≡ (err e, t) → P (err e, t))
      → ((t : Slot) → m s ≡ (panic, t) → P (panic, t))
      → P ((m >>= k) s)
  bind_rule good bad crash = go (m s) refl
    where
      go :
          (o : Result A × Slot)
          → m s ≡ o
          → P (let (r, t) = o in elim r [ ok a ↦ k a t | err e ↦ (err e, t) | panic ↦ (panic, t) ])
      go (ok a, t) e = good a t e
      go (err x, t) e = bad x t e
      go (panic, t) e = crash t e

  -- A first part whose outcome is known.
  pub bind_ok : (a : A) (t : Slot) → m s ≡ (ok a, t) → P (k a t) → P ((m >>= k) s)
  bind_ok a t e h =
      subst
        (λ o.
          P (let (r, t) = o in elim r [ ok a ↦ k a t | err e ↦ (err e, t) | panic ↦ (panic, t) ]))
        (sym e) h

  pub bind_err : (x : Error) (t : Slot) → m s ≡ (err x, t) → P (err x, t) → P ((m >>= k) s)
  bind_err x t e h =
      subst
        (λ o.
          P (let (r, t) = o in elim r [ ok a ↦ k a t | err e ↦ (err e, t) | panic ↦ (panic, t) ]))
        (sym e) h
