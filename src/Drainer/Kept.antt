-- ===== src/Drainer/Kept.antt =====
-- drain.go: a file of the drained device, followed through a run.
use efes.Prelude.{
  All, ℕ, suc, ◌≡◌, ◌<◌, refl, ap, sym, subst, ◌∙◌, Bool, true, false, Option, none, some, List, [],
  ◌∷◌, not, ◌&&◌, if◌then◌else◌, length, Bool-cases, inl, inr,
}
use efes.Prelude.Int.{ℤ, pos, ◌==ℤ◌, ==ℤ_iff}
use efes.Prelude.Members.{In}
use efes.Crc32.Update.Table.{IsByte}
use efes.Sha1.Sum.{sha1}
use efes.Tracker.Devices.{
  Status, alive, drain, AliveDevice, Choice, chosen, no_device, failed, panicked, find_alive_device,
}
use efes.Tracker.Devices.Suitable.{FitsStatus}
use efes.Tracker.Devices.Chosen.{Chooses, find_alive_device-Chooses}
use efes.Drainer.{
  World, Config, Meets, find, Send, Moved, send_to, move_open, move_file, set_drain, fids_on,
  RunMeets, move_all, run,
}
use efes.Drainer.Moving.{HasOn, Begins, HoldsOn, HasOn-HoldsOn, Holds}
use efes.Drainer.Steps.{StepTo, Step-refl, after_send-Step}

-- The device that is drained has the status `drain` and is no destination.
abbrev IsDraining : ℤ → List AliveDevice → Type 0
IsDraining own rows = (d : AliveDevice) → In d rows → d.devid ≡ own → d.status ≡ drain

set_drain-IsDraining : (own : ℤ) (rows : List AliveDevice) → IsDraining own (set_drain own rows)
unfolding set_drain
set_drain-IsDraining own [] d m e = absurd m
set_drain-IsDraining own (r ∷ rs) d (inr m) e = set_drain-IsDraining own rs d m e
set_drain-IsDraining own (r ∷ rs) d (inl same) e = elim (Bool-cases (r.devid ==ℤ own)) [
  | inl mine ↦ ap (λ x. x.status) same ∙ rw mine refl
  | inr other ↦
      (let number : d.devid ≡ r.devid = ap (λ x. x.devid) same ∙ rw other refl in
        absurd (no (r.devid ==ℤ own) other ((==ℤ_iff r.devid own).1 (sym number ∙ e))))
]
  where
    no : (b : Bool) → b ≡ false → b ≡ true → ⊥
    no true e h = cc
    no false e h = cc

drain-alive : {s : Status} → s ≡ drain → s ≡ alive → ⊥
drain-alive e h = cc

FitsStatus-other :
    (dest : List ℤ) (own : ℤ) (s : Status) (devid : ℤ)
    → (In own dest → ⊥)
    → FitsStatus dest s devid
    → (devid ≡ own → s ≡ drain)
    → devid ≡ own
    → ⊥
FitsStatus-other [] own s devid n h draining e = drain-alive (draining e) h
FitsStatus-other (x ∷ xs) own s devid n h draining e = n (subst (λ t. In t (x ∷ xs)) e h.1)

module _ (send : Send)
    (honest : (devid fid : ℤ) (content : List ℕ) (o : Option (List ℕ))
      → (send devid fid content o).0 ≡ true
      → All IsByte content
      → Begins (send devid fid content o).1 (sha1 content))
    (c : Config) (elsewhere : In c.devid c.dest → ⊥) where
  -- `rand.Intn` keeps its range.
  abbrev pub InRange : Meets → Type 0
  InRange m = (n : ℕ) → 0 < n → m.pick n < n

  find-other :
      (m : Meets) (rows : List AliveDevice) (size : ℤ) (d : AliveDevice)
      → InRange m
      → IsDraining c.devid rows
      → find c m rows size ≡ chosen d
      → d.devid ≡ c.devid
      → ⊥
  unfolding find
  find-other m rows size d in_range draining e = go m.query_fails e
    where
      suits :
          find_alive_device c.contains m.pick (some rows) m.subnets size c.dest c.no_ip ≡ chosen d
          → Chooses m.pick in_range c.contains rows size c.dest c.no_ip (chosen d)
      suits e =
          subst (Chooses m.pick in_range c.contains rows size c.dest c.no_ip) e (
            find_alive_device-Chooses m.pick in_range c.contains rows size c.dest c.no_ip m.subnets)

      go :
          (b : Bool)
          → find_alive_device c.contains m.pick
              (if b then none else some rows)
              m.subnets
              size
              c.dest
              c.no_ip
            ≡ chosen d
          → d.devid ≡ c.devid
          → ⊥
      go true e = no (unfold find_alive_device in e)
        where
          no : failed ≡ chosen d → d.devid ≡ c.devid → ⊥
          no h = cc
      go false e = λ same.
          (let (there, s) = suits e in
            FitsStatus-other c.dest c.devid d.status d.devid elsewhere s.fits (draining d there)
              same)

  send_to-Step :
      (m : Meets) (fid : ℤ) (content : List ℕ) (w : World) (choice : Choice)
      → w.files c.devid fid ≡ some content
      → ((d : AliveDevice) → choice ≡ chosen d → d.devid ≡ c.devid → ⊥)
      → StepTo c.devid fid w (send_to send m c.devid fid content w choice)
  unfolding send_to
  send_to-Step m fid content w no_device there n = Step-refl c.devid fid w
  send_to-Step m fid content w failed there n = Step-refl c.devid fid w
  send_to-Step m fid content w panicked there n = Step-refl c.devid fid w
  send_to-Step m fid content w (chosen d) there n =
      after_send-Step c.devid fid d.devid content _ w (n d refl) there m _
        (honest d.devid fid content (w.files d.devid fid))

  move_file-Step :
      (m : Meets) (fid : ℤ) (w : World)
      → InRange m
      → IsDraining c.devid w.devices
      → StepTo c.devid fid w (move_file send c m fid w)
  unfolding move_file move_open
  move_file-Step m fid w in_range draining = go (w.files c.devid fid) refl
    where
      stages :
          (a b : Bool) (x : Moved)
          → StepTo c.devid fid w x
          → StepTo c.devid fid w (
              if a
              then record { ok = false; world = w }
              else if b
              then record { ok = false; world = w }
              else x)
      stages true b x s = Step-refl c.devid fid w
      stages false true x s = Step-refl c.devid fid w
      stages false false x s = s

      go :
          (o : Option (List ℕ))
          → w.files c.devid fid ≡ o
          → StepTo c.devid fid w (move_open send c m fid w o)
      go none e = Step-refl c.devid fid w
      go (some content) e = stages m.open_fails m.stat_fails _ (
          send_to-Step m fid content w (find c m w.devices (pos (length content))) e
            (λ d chose. find-other m w.devices (pos (length content)) d in_range draining chose))

  -- A file that is not in the list stays where it is.
  move_all-others :
      (r : RunMeets) (i : ℕ) (fids : List ℤ) (w : World) (devid fid : ℤ) (sum : List ℕ)
      → ((j : ℕ) → InRange (r.move j))
      → IsDraining c.devid w.devices
      → (In fid fids → ⊥)
      → HoldsOn w devid fid sum
      → HoldsOn (move_all send c r i fids w) devid fid sum
  unfolding move_all
  move_all-others r i [] w devid fid sum range draining n h = h
  move_all-others r i (f ∷ fs) w devid fid sum range draining n
        (placed, (content, (at, file, within, same))) =
      let x = move_file send c (r.move i) f w in
      let s = move_file-Step (r.move i) f w (range i) draining in
      let other : fid ≡ f → ⊥ = λ e. n (inl e) in
      let now : HoldsOn x.world devid fid sum = (
        s.other_places devid fid other ∙ placed,
        (content, (at, s.other_files devid fid other ∙ file, within, same)),
      ) in
      let rest =
        move_all-others r (suc i) fs x.world devid fid sum range
          (subst (IsDraining c.devid) (sym s.devices) draining) (λ m. n (inr m)) now in
      go (r.shutdown i) (not x.ok && c.stop_on_error) (move_all send c r (suc i) fs x.world) x.world
        (placed, (content, (at, file, within, same))) now rest
    where
      go :
          (a b : Bool) (v u : World)
          → HoldsOn w devid fid sum
          → HoldsOn u devid fid sum
          → HoldsOn v devid fid sum
          → HoldsOn (if a then w else if b then u else v) devid fid sum
      go true b v u h k l = h
      go false true v u h k l = k
      go false false v u h k l = l

  abbrev pub Distinct : List ℤ → Type 0
  Distinct [] = Unit
  Distinct (f ∷ fs) = (In f fs → ⊥) × Distinct fs

  -- A file of the drained device is held by some device in the end.
  move_all-Holds :
      (r : RunMeets) (i : ℕ) (fids : List ℤ) (w : World) (fid : ℤ) (sum : List ℕ)
      → ((j : ℕ) → InRange (r.move j))
      → IsDraining c.devid w.devices
      → Distinct fids
      → HasOn w c.devid fid sum
      → Holds (move_all send c r i fids w) fid sum
  unfolding move_all
  move_all-Holds r i [] w fid sum range draining distinct h =
      (c.devid, HasOn-HoldsOn w c.devid fid sum h)
  move_all-Holds r i (f ∷ fs) w fid sum range draining (fresh, distinct) h =
      let x = move_file send c (r.move i) f w in
      let s = move_file-Step (r.move i) f w (range i) draining in
      let still = subst (IsDraining c.devid) (sym s.devices) draining in
      go (r.shutdown i) (not x.ok && c.stop_on_error) (move_all send c r (suc i) fs x.world) x.world
        (elim (Bool-cases (fid ==ℤ f)) [
          | inl same ↦
              (let number = (==ℤ_iff fid f).0 same in
                let (d, there) =
                  subst (λ t. Holds x.world t sum) (sym number)
                    (s.moved sum (subst (λ t. HasOn w c.devid t sum) number h)) in
                (
                  (d, there),
                  (
                    d,
                    move_all-others r (suc i) fs x.world d fid sum range still
                        (λ m. fresh (subst (λ t. In t fs) number m)) there,
                  ),
                ))
          | inr differs ↦
              (let other : fid ≡ f → ⊥ = λ e. no (fid ==ℤ f) differs ((==ℤ_iff fid f).1 e) in
                let (placed, (content, file, of_bytes, same)) = h in
                let now : HasOn x.world c.devid fid sum = (
                  s.other_places c.devid fid other ∙ placed,
                  (content, s.other_files c.devid fid other ∙ file, of_bytes, same),
                ) in
                (
                  (c.devid, HasOn-HoldsOn x.world c.devid fid sum now),
                  move_all-Holds r (suc i) fs x.world fid sum range still distinct now,
                ))
        ])
    where
      no : (b : Bool) → b ≡ false → b ≡ true → ⊥
      no true e k = cc
      no false e k = cc

      go :
          (a b : Bool) (v u : World)
          → Holds u fid sum × Holds v fid sum
          → Holds (if a then w else if b then u else v) fid sum
      go true b v u k = (c.devid, HasOn-HoldsOn w c.devid fid sum h)
      go false true v u k = k.0
      go false false v u k = k.1

  -- With a send that succeeds only when the file on the other device then begins with bytes that have
  -- the SHA-1 of the content, and a drained device that is no destination.
  pub run-Holds :
      (r : RunMeets) (w : World) (fid : ℤ) (sum : List ℕ)
      → ((j : ℕ) → InRange (r.move j))
      → Distinct (fids_on c.devid w.places)
      → HasOn w c.devid fid sum
      → Holds (run send c r w) fid sum
  unfolding run
  run-Holds r w fid sum range distinct h = go r.drain_fails r.select_fails
    where
      w' : World
      w' = record w { devices = set_drain c.devid w.devices }

      go :
          (a b : Bool)
          → Holds
              (if a then w else if b then w' else move_all send c r 0 (fids_on c.devid w.places) w')
              fid
              sum
      go true b = (c.devid, HasOn-HoldsOn w c.devid fid sum h)
      go false true = (c.devid, HasOn-HoldsOn w' c.devid fid sum h)
      go false false =
          move_all-Holds r 0 (fids_on c.devid w.places) w' fid sum range
            (set_drain-IsDraining c.devid w.devices) distinct h
