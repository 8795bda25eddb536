-- ===== src/Server/Disk/Kept.antt =====
-- cleandisk.go: which files the disk cleaner removes.
use efes.Prelude.{
  ℕ, suc, ◌+◌, ◌^◌, ◌<◌, ◌≡◌, ◌⊎◌, refl, ap, sym, subst, ◌∙◌, Bool, true, false, Option, none, some,
  List, [], ◌∷◌, ◌++◌, ltb, if◌then◌else◌, inl, inr,
}
use efes.Prelude.Int.{ℤ, pos}
use efes.Prelude.Text.{equal_bytes}
use efes.Prelude.Members.{In, either}
use efes.Tracker.{Tables, has}
use efes.Server.{file_number, vivify_ext, fid_ext, info_ext}
use efes.Server.Names.{extension, extension-append, file_id-file_number}
use efes.Server.Disk.{
  Entry, Meets, Config, has_tempfile, fid_exists_on_database, Visited, stopped, kept, removed, base,
  visit_unless, visit_fid, is_known, visit_name, visit_file, walk, Device, TickFaults, clean_disk,
}

-- The file has a row for this device.
abbrev pub IsRegistered : Config → Tables → ℤ → Type 0
IsRegistered c t fid =
    (has (record { fid = fid; devid = c.devid }) t.places ≡ true)
    ⊎ (has_tempfile fid c.devid t.tempfiles ≡ true)

abbrev Keeps : Visited → Type 0
Keeps stopped = Unit
Keeps kept = Unit
Keeps removed = ⊥

module _ (c : Config) (t : Tables) (fid : ℤ) where
  -- The database says so, or the query fails.
  abbrev SaysRegistered : Option Bool → Type 0
  SaysRegistered none = Unit
  SaysRegistered (some true) = Unit
  SaysRegistered (some false) = ⊥

  fid_exists-SaysRegistered :
      (m : Meets) → IsRegistered c t fid → SaysRegistered (fid_exists_on_database c m t fid)
  unfolding fid_exists_on_database
  fid_exists-SaysRegistered m h =
      go m.select_place_fails (has (record { fid = fid; devid = c.devid }) t.places)
        m.select_tempfile_fails (has_tempfile fid c.devid t.tempfiles) h
    where
      go :
          (a b d e : Bool)
          → (b ≡ true) ⊎ (e ≡ true)
          → SaysRegistered (if a then none else if b then some true else if d then none else some e)
      go true b d e h = tt
      go false true d e h = tt
      go false false true e h = tt
      go false false false true h = tt
      go false false false false h = either (λ e. cc) (λ e. cc) h

  visit_fid-Keeps : (m : Meets) → IsRegistered c t fid → Keeps (visit_fid c m t (some fid))
  unfolding visit_fid
  visit_fid-Keeps m h = go (fid_exists_on_database c m t fid) (fid_exists-SaysRegistered m h)
    where
      go : (o : Option Bool) → SaysRegistered o → Keeps (visit_unless c m o)
      go none s = unfold visit_unless in tt
      go (some true) s = unfold visit_unless in tt
      go (some false) s = absurd s

-- What SaveFileInfo puts behind the dot of the number: its file has the name of the data file and
-- ".info".
abbrev pub file_info_ext : List ℕ
file_info_ext = fid_ext ++ b'.' ∷ info_ext

-- The data file or the info file of a number.
abbrev pub IsNameOf : ℕ → Entry → Type 0
IsNameOf n f = (f.path ≡ vivify_ext (pos n) fid_ext) ⊎ (f.path ≡ vivify_ext (pos n) file_info_ext)

-- The last extension is one that the cleaner knows.
abbrev IsKnownExt : List ℕ → Type 0
IsKnownExt ext =
    (zs : List ℕ) × ((extension (b'.' ∷ ext) ≡ b'.' ∷ zs) × (is_known (b'.' ∷ zs) ≡ true))

fid_ext-IsKnownExt : IsKnownExt fid_ext
unfolding extension is_known equal_bytes
fid_ext-IsKnownExt = (fid_ext, (refl, refl))

file_info_ext-IsKnownExt : IsKnownExt file_info_ext
unfolding extension is_known equal_bytes
file_info_ext-IsKnownExt = (info_ext, (refl, refl))

base-vivify_ext :
    (fid : ℤ) (ext : List ℕ) → base (vivify_ext fid ext) ≡ file_number fid ++ b'.' ∷ ext
unfolding base vivify_ext
base-vivify_ext fid ext = refl

-- The visit of a name reaches the database with the file's number.
visit_name-known :
    (c : Config) (m : Meets) (t : Tables) (n : ℕ) (ext : List ℕ)
    → IsKnownExt ext
    → 0 < n
    → n < 2 ^ 63
    → visit_name c m t (base (vivify_ext (pos n) ext)) ≡ visit_fid c m t (some (pos n))
unfolding visit_name
visit_name-known c m t n ext (zs, (whole, known)) positive fits =
    ap (visit_name c m t) (base-vivify_ext (pos n) ext)
    ∙ rw (ap is_known (extension-append (file_number (pos n)) (b'.' ∷ ext) b'.' zs whole) ∙ known)
        (ap (visit_fid c m t) (file_id-file_number n ext positive fits))

visit_name-IsNameOf :
    (c : Config) (m : Meets) (t : Tables) (n : ℕ) (f : Entry)
    → IsNameOf n f
    → 0 < n
    → n < 2 ^ 63
    → visit_name c m t (base f.path) ≡ visit_fid c m t (some (pos n))
visit_name-IsNameOf c m t n f (inl e) positive fits =
    ap (λ p. visit_name c m t (base p)) e
    ∙ visit_name-known c m t n fid_ext fid_ext-IsKnownExt positive fits
visit_name-IsNameOf c m t n f (inr e) positive fits =
    ap (λ p. visit_name c m t (base p)) e
    ∙ visit_name-known c m t n file_info_ext file_info_ext-IsKnownExt positive fits

-- Unless the last step removes an entry, it is kept.
visit_file-Keeps :
    (c : Config) (m : Meets) (t : Tables) (f : Entry)
    → Keeps (visit_name c m t (base f.path))
    → Keeps (visit_file c m t f)
unfolding visit_file
visit_file-Keeps c m t f h =
    go m.shutdown m.walk_error f.is_dir f.is_symlink (ltb f.age c.ttl)
      (visit_name c m t (base f.path)) h
  where
    go :
        (a b d e g : Bool) (v : Visited)
        → Keeps v
        → Keeps (
            if a
            then stopped
            else if b
            then kept
            else if d
            then kept
            else if e
            then kept
            else if g
            then kept
            else v)
    go true b d e g v h = tt
    go false true d e g v h = tt
    go false false true e g v h = tt
    go false false false true g v h = tt
    go false false false false true v h = tt
    go false false false false false v h = h

module _ (c : Config) (t : Tables) (meets : ℕ → Meets) (f : Entry)
    (safe : (m : Meets) → Keeps (visit_file c m t f)) where
  walk-In : (i : ℕ) (fs : List Entry) → In f fs → In f (walk c meets t i fs)
  unfolding walk
  walk-In i [] m = m
  walk-In i (x ∷ xs) m = go (visit_file c (meets i) t x) refl (walk-In (suc i) xs) m
    where
      go :
          (v : Visited)
          → visit_file c (meets i) t x ≡ v
          → (In f xs → In f (walk c meets t (suc i) xs))
          → In f (x ∷ xs)
          → In f (elim v [
            | stopped ↦ x ∷ xs
            | kept ↦ x ∷ walk c meets t (suc i) xs
            | removed ↦ walk c meets t (suc i) xs
          ])
      go stopped e rest m = m
      go kept e rest (inl same) = inl same
      go kept e rest (inr there) = inr (rest there)
      go removed e rest (inl same) =
          absurd (subst Keeps (ap (λ y. visit_file c (meets i) t y) same ∙ e) (safe (meets i)))
      go removed e rest (inr there) = rest there

-- Whatever the walk meets and whatever fails, a tick of the disk cleaner leaves the data file and
-- the info file of every file that has a row of file_on or of tempfile for this device.
pub clean_disk-keeps :
    (c : Config) (faults : TickFaults) (meets : ℕ → Meets) (t : Tables) (now later n : ℕ)
    (d : Device) (f : Entry)
    → 0 < n
    → n < 2 ^ 63
    → IsRegistered c t (pos n)
    → IsNameOf n f
    → In f d.entries
    → In f (clean_disk c faults meets t now later d).entries
unfolding clean_disk
clean_disk-keeps c faults meets t now later n d f positive fits registered named there =
    go faults.update (ltb (d.last_clean + c.period) now) faults.affected
  where
    safe : (m : Meets) → Keeps (visit_file c m t f)
    safe m = visit_file-Keeps c m t f (
        subst Keeps (sym (visit_name-IsNameOf c m t n f named positive fits))
          (visit_fid-Keeps c t (pos n) m registered))

    go :
        (a b e : Bool)
        → In f
            (if a
              then d
              else if b
              then (if e then record d { last_clean = now } else record {
                last_clean = if faults.last_update then now else later;
                entries = walk c meets t 0 d.entries;
              })
              else d).entries
    go true b e = there
    go false false e = there
    go false true true = there
    go false true false = walk-In c t meets f safe 0 d.entries there

-- Nothing fails and nobody shuts the server down.
abbrev pub calm : Meets
calm = record {
  shutdown = false;
  walk_error = false;
  select_place_fails = false;
  select_tempfile_fails = false;
  remove_fails = false;
}
