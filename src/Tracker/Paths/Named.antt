-- ===== src/Tracker/Paths/Named.antt =====
-- tracker.go: the paths of a key, and the rows that they stand for.
use efes.Prelude.{
  ℕ, ◌≡◌, ◌⊎◌, refl, ap, sym, subst, ◌∙◌, Bool, true, false, List, [], ◌∷◌, ◌++◌, ◌&&◌, ◌==◌,
  ==_iff, if◌then◌else◌, Bool-cases, inl, inr,
}
use efes.Prelude.Int.{ℤ, ◌==ℤ◌, ==ℤ_iff}
use efes.Prelude.Members.{In}
use efes.Tracker.{Place, File, Tables}
use efes.Tracker.Devices.{Status, alive, dead, down, drain, is_alive, is_alive_or_drain}
use efes.Tracker.Paths.{
  ReadDevice, serves, read_url, urls_on, urls_of, urls_for, GotPaths, listed, not_listed, get_paths,
}

In-append : {A : Type 0} (a : A) (xs ys : List A) → In a (xs ++ ys) → In a xs ⊎ In a ys
In-append a [] ys m = inr m
In-append a (x ∷ xs) ys (inl e) = inl (inl e)
In-append a (x ∷ xs) ys (inr m) = elim (In-append a xs ys m) [ inl h ↦ inl (inr h) | inr h ↦ inr h ]

pub In-left : {A : Type 0} (a : A) (xs ys : List A) → In a xs → In a (xs ++ ys)
In-left a [] ys m = absurd m
In-left a (x ∷ xs) ys (inl e) = inl e
In-left a (x ∷ xs) ys (inr m) = inr (In-left a xs ys m)

pub In-right : {A : Type 0} (a : A) (xs ys : List A) → In a ys → In a (xs ++ ys)
In-right a [] ys m = m
In-right a (x ∷ xs) ys m = inr (In-right a xs ys m)

-- The host is alive, and the device is alive or drained.
abbrev pub IsUp : ReadDevice → Type 0
IsUp d = (d.host_status ≡ alive) × ((d.status ≡ alive) ⊎ (d.status ≡ drain))

is_alive-eq : (s : Status) → is_alive s ≡ true → s ≡ alive
unfolding is_alive
is_alive-eq alive h = refl
is_alive-eq dead h = cc
is_alive-eq down h = cc
is_alive-eq drain h = cc

is_alive_or_drain-eq : (s : Status) → is_alive_or_drain s ≡ true → (s ≡ alive) ⊎ (s ≡ drain)
unfolding is_alive_or_drain
is_alive_or_drain-eq alive h = inl refl
is_alive_or_drain-eq dead h = cc
is_alive_or_drain-eq down h = cc
is_alive_or_drain-eq drain h = inr refl

pub IsUp-serves : (d : ReadDevice) → IsUp d → serves d ≡ true
unfolding serves is_alive is_alive_or_drain
IsUp-serves d (host, inl e) = rw host (rw e refl)
IsUp-serves d (host, inr e) = rw host (rw e refl)

-- The device of a row, where it stands and serves.
abbrev pub Served : List ReadDevice → Place → List ℕ → Type 0
Served ds p url =
    (d : ReadDevice) × (In d ds × (d.devid ≡ p.devid) × IsUp d × (url ≡ read_url d p.fid))

both : (a b : Bool) → (a && b) ≡ true → (a ≡ true) × (b ≡ true)
both true b h = (refl, h)
both false b h = absurd (no h)
  where
    no : false ≡ true → ⊥
    no e = cc

serves-IsUp : (d : ReadDevice) → serves d ≡ true → IsUp d
unfolding serves
serves-IsUp d h =
    let (host, device) = both (is_alive d.host_status) (is_alive_or_drain d.status) h in
    (is_alive-eq d.host_status host, is_alive_or_drain-eq d.status device)

urls_on-Served :
    (ds : List ReadDevice) (p : Place) (url : List ℕ) → In url (urls_on p ds) → Served ds p url
unfolding urls_on
urls_on-Served [] p url m = absurd m
urls_on-Served (d ∷ ds) p url m = elim (Bool-cases ((d.devid ==ℤ p.devid) && serves d)) [
  | inl there ↦ elim (rw there at m) [
    | inl e ↦
        (let (same, up) = both (d.devid ==ℤ p.devid) (serves d) there in
          (d, (inl refl, (==ℤ_iff d.devid p.devid).0 same, serves-IsUp d up, e)))
    | inr rest ↦ later (urls_on-Served ds p url rest)
  ]
  | inr other ↦ later (urls_on-Served ds p url (rw other at m))
]
  where
    later : Served ds p url → Served (d ∷ ds) p url
    later (e, (m, same, up, u)) = (e, (inr m, same, up, u))

pub Served-urls_on :
    (ds : List ReadDevice) (p : Place) (d : ReadDevice)
    → In d ds
    → d.devid ≡ p.devid
    → serves d ≡ true
    → In (read_url d p.fid) (urls_on p ds)
unfolding urls_on
Served-urls_on [] p d m same up = absurd m
Served-urls_on (x ∷ ds) p d (inl e) same up =
    rw ((==ℤ_iff x.devid p.devid).1 (ap (λ t. t.devid) (sym e) ∙ same))
      (rw (ap serves (sym e) ∙ up) (inl (ap (λ t. read_url t p.fid) e)))
Served-urls_on (x ∷ ds) p d (inr m) same up =
    go ((x.devid ==ℤ p.devid) && serves x) (Served-urls_on ds p d m same up)
  where
    go :
        (b : Bool)
        → In (read_url d p.fid) (urls_on p ds)
        → In (read_url d p.fid) (if b then read_url x p.fid ∷ urls_on p ds else urls_on p ds)
    go true h = inr h
    go false h = h

-- A place of the file, and its device.
abbrev Placed : List ReadDevice → ℤ → List Place → List ℕ → Type 0
Placed ds fid ps url = (p : Place) × (In p ps × (p.fid ≡ fid) × Served ds p url)

urls_of-Placed :
    (ds : List ReadDevice) (fid : ℤ) (ps : List Place) (url : List ℕ)
    → In url (urls_of ds fid ps)
    → Placed ds fid ps url
unfolding urls_of
urls_of-Placed ds fid [] url m = absurd m
urls_of-Placed ds fid (p ∷ ps) url m = elim (Bool-cases (p.fid ==ℤ fid)) [
  | inl same ↦ elim (In-append url (urls_on p ds) (urls_of ds fid ps) (rw same at m)) [
    | inl here ↦ (p, (inl refl, (==ℤ_iff p.fid fid).0 same, urls_on-Served ds p url here))
    | inr rest ↦ later (urls_of-Placed ds fid ps url rest)
  ]
  | inr other ↦ later (urls_of-Placed ds fid ps url (rw other at m))
]
  where
    later : Placed ds fid ps url → Placed ds fid (p ∷ ps) url
    later (q, (m, same, s)) = (q, (inr m, same, s))

pub Placed-urls_of :
    (ds : List ReadDevice) (fid : ℤ) (ps : List Place) (p : Place) (url : List ℕ)
    → In p ps
    → p.fid ≡ fid
    → In url (urls_on p ds)
    → In url (urls_of ds fid ps)
unfolding urls_of
Placed-urls_of ds fid [] p url m same h = absurd m
Placed-urls_of ds fid (q ∷ ps) p url (inl e) same h =
    rw ((==ℤ_iff q.fid fid).1 (ap (λ t. t.fid) (sym e) ∙ same))
      (In-left url (urls_on q ds) (urls_of ds fid ps) (subst (λ t. In url (urls_on t ds)) e h))
Placed-urls_of ds fid (q ∷ ps) p url (inr m) same h =
    go (q.fid ==ℤ fid) (Placed-urls_of ds fid ps p url m same h)
  where
    go :
        (b : Bool)
        → In url (urls_of ds fid ps)
        → In url (if b then urls_on q ds ++ urls_of ds fid ps else urls_of ds fid ps)
    go true i = In-right url (urls_on q ds) (urls_of ds fid ps) i
    go false i = i

-- A file with the key, one of its places, and a device that serves there.
abbrev pub Named : List ReadDevice → List Place → ℕ → List File → List ℕ → Type 0
Named ds ps key rs url = (r : File) × (In r rs × (r.dkey ≡ key) × Placed ds r.fid ps url)

urls_for-Named :
    (ds : List ReadDevice) (ps : List Place) (key : ℕ) (rs : List File) (url : List ℕ)
    → In url (urls_for ds ps key rs)
    → Named ds ps key rs url
unfolding urls_for
urls_for-Named ds ps key [] url m = absurd m
urls_for-Named ds ps key (r ∷ rs) url m = elim (Bool-cases (r.dkey == key)) [
  | inl same ↦ elim (In-append url (urls_of ds r.fid ps) (urls_for ds ps key rs) (rw same at m)) [
    | inl here ↦ (r, (inl refl, (==_iff r.dkey key).0 same, urls_of-Placed ds r.fid ps url here))
    | inr rest ↦ later (urls_for-Named ds ps key rs url rest)
  ]
  | inr other ↦ later (urls_for-Named ds ps key rs url (rw other at m))
]
  where
    later : Named ds ps key rs url → Named ds ps key (r ∷ rs) url
    later (x, (m, same, s)) = (x, (inr m, same, s))

pub Named-urls_for :
    (ds : List ReadDevice) (ps : List Place) (key : ℕ) (rs : List File) (r : File) (url : List ℕ)
    → In r rs
    → r.dkey ≡ key
    → In url (urls_of ds r.fid ps)
    → In url (urls_for ds ps key rs)
unfolding urls_for
Named-urls_for ds ps key [] r url m same h = absurd m
Named-urls_for ds ps key (x ∷ rs) r url (inl e) same h =
    rw ((==_iff x.dkey key).1 (ap (λ t. t.dkey) (sym e) ∙ same)) (
      In-left url (urls_of ds x.fid ps) (urls_for ds ps key rs)
        (subst (λ t. In url (urls_of ds t.fid ps)) e h))
Named-urls_for ds ps key (x ∷ rs) r url (inr m) same h =
    go (x.dkey == key) (Named-urls_for ds ps key rs r url m same h)
  where
    go :
        (b : Bool)
        → In url (urls_for ds ps key rs)
        → In url (if b then urls_of ds x.fid ps ++ urls_for ds ps key rs else urls_for ds ps key rs)
    go true i = In-right url (urls_of ds x.fid ps) (urls_for ds ps key rs) i
    go false i = i

-- The paths of an answer.
abbrev pub paths_in : GotPaths → List (List ℕ)
paths_in (listed urls) = urls
paths_in (not_listed status) = []

-- If its query works, getPaths lists a path if and only if it is that of a place of a file with the
-- key, on a device that is alive or drained and whose host is alive.
pub get_paths-Named :
    (ds : List ReadDevice) (t : Tables) (key : ℕ) (url : List ℕ)
    → (In url (paths_in (get_paths false ds t key)) → Named ds t.places key t.files url)
      × (Named ds t.places key t.files url → In url (paths_in (get_paths false ds t key)))
unfolding get_paths
get_paths-Named ds t key url = (
  urls_for-Named ds t.places key t.files url,
  λ (r, (there, leads, (p, (placed, same, (d, (known, on, up, e)))))).
      Named-urls_for ds t.places key t.files r url there leads (
        Placed-urls_of ds r.fid t.places p url placed same (
          subst (λ u. In u (urls_on p ds)) (sym e)
            (Served-urls_on ds p d known on (IsUp-serves d up)))),
)
