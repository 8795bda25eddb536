-- ===== src/Tracker/Devices/Chosen.antt =====
-- tracker.go: which devices `findAliveDevice` chooses.
use efes.Prelude.{
  ℕ, ◌/◌, ◌<◌, ◌≡◌, ◌⊎◌, refl, arith, Bool, Option, none, some, List, [], ◌∷◌, ◌==◌, ==_iff, length,
  take, length-take, inl, inr,
}
use efes.Prelude.Int.{ℤ, ◌==ℤ◌}
use efes.Prelude.Members.{
  get_elem?, In, In-select, In-of_select, In-take, In-get_elem?, get_elem?-lt, In-order_desc,
  In-of_order_desc, either,
}
use efes.Tracker.Devices.{
  AliveDevice, Subnet, is_candidate, candidates, filter_same_host, filter_same_rack,
  filter_same_zone, get_rack_id, Choice, chosen, no_device, failed, panicked, or_else, near_rack,
  at_index, pick_device, choose_near, find_alive_device,
}
use efes.Tracker.Devices.Suitable.{IsSuitable, candidate-IsSuitable, IsSuitable-candidate}

at_index-get_elem? :
    (ds : List AliveDevice) (i : ℕ) (d : AliveDevice)
    → get_elem? ds i ≡ some d
    → at_index ds i ≡ chosen d
unfolding at_index
at_index-get_elem? ds i d e = rw (e, at_index) refl

In-or_else : (x : AliveDevice) (ds es : List AliveDevice) → In x (or_else ds es) → In x ds ⊎ In x es
unfolding or_else
In-or_else x [] es m = inr m
In-or_else x (d ∷ ds) es m = inl m

or_else-In :
    (x : AliveDevice) (ds es : List AliveDevice)
    → In x es
    → (y : AliveDevice) × In y (or_else ds es)
unfolding or_else
or_else-In x [] es m = (x, m)
or_else-In x (d ∷ ds) es m = (d, inl refl)

In-near_rack :
    (o : Option (ℤ × ℤ)) (x : AliveDevice) (ds : List AliveDevice) → In x (near_rack o ds) → In x ds
unfolding near_rack filter_same_rack filter_same_zone
In-near_rack none x ds m = m
In-near_rack (some (rack, zone)) x ds m =
    either (λ n. (In-select (λ d. d.rackid ==ℤ rack) x ds n).0)
      (λ n.
        either (λ k. (In-select (λ d. d.zoneid ==ℤ zone) x ds k).0) (λ k. k)
          (In-or_else x (filter_same_zone ds zone) ds n))
      (In-or_else x (filter_same_rack ds rack) _ m)

near_rack-In :
    (o : Option (ℤ × ℤ)) (x : AliveDevice) (ds : List AliveDevice)
    → In x ds
    → (y : AliveDevice) × In y (near_rack o ds)
unfolding near_rack
near_rack-In none x ds m = (x, m)
near_rack-In (some (rack, zone)) x ds m =
    let (y, n) = or_else-In x (filter_same_zone ds zone) ds m in
    or_else-In y (filter_same_rack ds rack) (or_else (filter_same_zone ds zone) ds) n

In-candidates :
    (size : ℤ) (devids : List ℤ) (rows : List AliveDevice) (d : AliveDevice)
    → In d (candidates size devids rows)
    → In d rows × IsSuitable size devids d
unfolding candidates
In-candidates size devids rows d m =
    let (there, test) = In-select (is_candidate size devids) d rows (In-order_desc _ d _ m) in
    (there, candidate-IsSuitable size devids d test)

candidates-In :
    (size : ℤ) (devids : List ℤ) (rows : List AliveDevice) (d : AliveDevice)
    → In d rows
    → IsSuitable size devids d
    → In d (candidates size devids rows)
unfolding candidates
candidates-In size devids rows d m s =
    In-of_order_desc _ d _
      (In-of_select (is_candidate size devids) d rows m (IsSuitable-candidate size devids d s))

module _ (pick : ℕ → ℕ) (in_range : (n : ℕ) → 0 < n → pick n < n) where
  -- Some member of a list that is not empty is picked.
  pick_device-In :
      (x : AliveDevice) (ds : List AliveDevice)
      → In x ds
      → (d : AliveDevice) × (pick_device pick ds ≡ chosen d) × In d ds
  unfolding pick_device
  pick_device-In x [] m = absurd m
  pick_device-In x (d ∷ []) m = (d, refl, inl refl)
  pick_device-In x (d ∷ e ∷ ds) m =
      let n = length (d ∷ e ∷ ds) / 2 in
      let half = take n (d ∷ e ∷ ds) in
      let size : 0 < length half = omega (arith, length-take n (d ∷ e ∷ ds)) in
      let (c, there) = get_elem?-lt half (pick (length half)) (in_range (length half) size) in
      (
        c,
        at_index-get_elem? half (pick (length half)) c there,
        In-take n c (d ∷ e ∷ ds) (In-get_elem? half (pick (length half)) c there),
      )

  -- What is picked near a client, if anything is to be had.
  abbrev Picks : List AliveDevice → Choice → Type 0
  Picks ds (chosen d) = In d ds
  Picks ds no_device = Unit
  Picks ds failed = Unit
  Picks ds panicked = ⊥

  pick_device-Picks : (ds : List AliveDevice) → Picks ds (pick_device pick ds)
  pick_device-Picks [] = unfold pick_device in tt
  pick_device-Picks (d ∷ ds) =
      let (c, found, m) = pick_device-In d (d ∷ ds) (inl refl) in rw found m

  weaken :
      (ds es : List AliveDevice) (c : Choice)
      → ((d : AliveDevice) → In d ds → In d es)
      → Picks ds c
      → Picks es c
  weaken ds es (chosen d) h m = h d m
  weaken ds es no_device h m = tt
  weaken ds es failed h m = tt
  weaken ds es panicked h m = m

  module _ (contains : ℕ → ℕ → Bool) (rows : List AliveDevice) (size : ℤ) (devids : List ℤ)
      (client_ip : ℕ) where
    abbrev same_host : List AliveDevice
    same_host = filter_same_host (candidates size devids rows) client_ip

    choose_near-Picks :
        (subnets : Option (List Subnet)) (ds hosts : List AliveDevice)
        → ((d : AliveDevice) → In d hosts → In d ds)
        → Picks ds (choose_near contains pick subnets client_ip ds hosts)
    unfolding choose_near
    choose_near-Picks subnets ds (h ∷ hs) sub =
        weaken (h ∷ hs) ds (pick_device pick (h ∷ hs)) sub (pick_device-Picks (h ∷ hs))
    choose_near-Picks none ds [] sub = tt
    choose_near-Picks (some subnets) ds [] sub =
        let o = get_rack_id contains subnets client_ip in
        weaken (near_rack o ds) ds (pick_device pick (near_rack o ds))
          (λ d m. In-near_rack o d ds m) (pick_device-Picks (near_rack o ds))

    abbrev pub Chooses : Choice → Type 0
    Chooses (chosen d) = In d rows × IsSuitable size devids d
    Chooses no_device = Unit
    Chooses failed = Unit
    Chooses panicked = ⊥

    suits : (c : Choice) → Picks (candidates size devids rows) c → Chooses c
    suits (chosen d) m = In-candidates size devids rows d m
    suits no_device m = tt
    suits failed m = tt
    suits panicked m = m

    -- The device that is chosen is a row of the table with a live host, room for the file, a fresh
    -- update, and, where destinations are given, one of them; no index is out of range.
    pub find_alive_device-Chooses :
        (subnets : Option (List Subnet))
        → Chooses (find_alive_device contains pick (some rows) subnets size devids client_ip)
    unfolding find_alive_device
    find_alive_device-Chooses subnets = suits _ (
        choose_near-Picks subnets (candidates size devids rows) same_host (λ d m.
          (In-select (λ d. d.hostip == client_ip) d (candidates size devids rows)
            (unfold filter_same_host in m)).0))

    -- With a suitable device on the client's own host, a device on that host is chosen.
    pub find_alive_device-same_host :
        (subnets : Option (List Subnet)) (x : AliveDevice)
        → In x rows
        → IsSuitable size devids x
        → x.hostip ≡ client_ip
        → (d : AliveDevice) × (find_alive_device contains pick
              (some rows)
              subnets
              size
              devids
              client_ip
            ≡ chosen d)
          × (d.hostip ≡ client_ip)
    unfolding find_alive_device filter_same_host
    find_alive_device-same_host subnets x m s e =
        go same_host
          (In-of_select (λ d. d.hostip == client_ip) x (candidates size devids rows)
            (candidates-In size devids rows x m s) ((==_iff x.hostip client_ip).1 e))
          (λ d n.
            (==_iff d.hostip client_ip).0
              (In-select (λ d. d.hostip == client_ip) d (candidates size devids rows) n).1)
      where
        go :
            (hosts : List AliveDevice)
            → In x hosts
            → ((d : AliveDevice) → In d hosts → d.hostip ≡ client_ip)
            → (d : AliveDevice) × (choose_near contains pick subnets client_ip
                  (candidates size devids rows)
                  hosts
                ≡ chosen d)
              × (d.hostip ≡ client_ip)
        go [] m h = absurd m
        go (d ∷ ds) m h =
            let (c, found, n) = pick_device-In d (d ∷ ds) (inl refl) in
            (c, unfold choose_near in found, h c n)

    -- With a suitable device, one is chosen.
    pub find_alive_device-finds :
        (subnets : List Subnet) (x : AliveDevice)
        → In x rows
        → IsSuitable size devids x
        → (d : AliveDevice) × (find_alive_device contains pick
              (some rows)
              (some subnets)
              size
              devids
              client_ip
            ≡ chosen d)
    unfolding find_alive_device
    find_alive_device-finds subnets x m s = go same_host
      where
        go :
            (hosts : List AliveDevice)
            → (d : AliveDevice) × (choose_near contains pick
                  (some subnets)
                  client_ip
                  (candidates size devids rows)
                  hosts
                ≡ chosen d)
        go (d ∷ ds) =
            let (c, found, n) = pick_device-In d (d ∷ ds) (inl refl) in
            (c, unfold choose_near in found)
        go [] =
            let o = get_rack_id contains subnets client_ip in
            let (y, near) =
              near_rack-In o x (candidates size devids rows)
                (candidates-In size devids rows x m s) in
            let (c, found, n) = pick_device-In y (near_rack o (candidates size devids rows)) near in
            (c, unfold choose_near in found)
