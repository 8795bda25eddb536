-- ===== src/Cleaner/Walk/Cleaned.antt =====
-- cleandevice.go: what a tick of the device cleaner does to `file_on`, and which tasks it publishes.
use efes.Prelude.{
  ℕ, ◌+◌, ◌≡◌, refl, ap, sym, ◌∙◌, Bool, true, false, List, [], ◌∷◌, ◌++◌, ◌||◌, Bool-cases, ◌⊎◌,
  inl, inr, ltb,
}
use efes.Prelude.Int.{ℤ, ◌==ℤ◌, ==ℤ_iff}
use efes.Tracker.{Place, has, same_place}
use efes.Cleaner.{Stat, exists, missing, check_fid}
use efes.Cleaner.Walk.{
  Config, Meets, Walked, device_fids, check_fids, walk_on_device_files, TickFaults, clean_device,
}
use efes.Cleaner.Walk.Keys.{IsKeyed}
use efes.Cleaner.Walk.Single.{Cleans, own, unchanged-Cleans, check_fid-Cleans}

or_assoc : (a b c : Bool) → (a || (b || c)) ≡ ((a || b) || c)
or_assoc true b c = refl
or_assoc false b c = refl

has-append : (q : Place) (xs ys : List Place) → has q (xs ++ ys) ≡ (has q xs || has q ys)
unfolding has
has-append q [] ys = refl
has-append q (x ∷ xs) ys =
    ap (λ t. same_place x q || t) (has-append q xs ys)
    ∙ or_assoc (same_place x q) (has q xs) (has q ys)

in_left : (q : Place) (xs ys : List Place) → has q xs ≡ true → has q (xs ++ ys) ≡ true
in_left q xs ys h = has-append q xs ys ∙ rw h refl

in_right : (q : Place) (xs ys : List Place) → has q ys ≡ true → has q (xs ++ ys) ≡ true
in_right q xs ys h = has-append q xs ys ∙ go (has q xs) h
  where
    go : (a : Bool) {b : Bool} → b ≡ true → (a || b) ≡ true
    go true h = refl
    go false h = h

either_list :
    (q : Place) (xs ys : List Place)
    → has q (xs ++ ys) ≡ true
    → (has q xs ≡ true) ⊎ (has q ys ≡ true)
either_list q xs ys h = go (has q xs) (has q ys) (sym (has-append q xs ys) ∙ h)
  where
    go : (a b : Bool) → (a || b) ≡ true → (a ≡ true) ⊎ (b ≡ true)
    go true b h = inl refl
    go false b h = inr h

module _ (devid : ℤ) (disk : ℤ → Stat) where
  -- What was there on this device and on the disk is there after more cleaning.
  pub own-stays :
      {ps after tasks : List Place} (fid : ℤ)
      → Cleans devid disk ps after tasks
      → disk fid ≡ exists
      → has (own devid fid) ps ≡ true
      → has (own devid fid) after ≡ true
  own-stays fid c here h = elim (c.gone (own devid fid) h) [
    | inl stays ↦ stays
    | inr (inl task) ↦
        (let (a, b, d, other, e) = c.named (own devid fid) task in
          absurd (true_false (sym ((==ℤ_iff devid devid).1 refl) ∙ other)))
    | inr (inr (e, gone_file)) ↦ absurd (exists_missing (sym here ∙ gone_file))
  ]
    where
      true_false : true ≡ false → ⊥
      true_false e = cc

      exists_missing : exists ≡ missing → ⊥
      exists_missing e = cc

  -- One cleaning after another.
  pub Cleans-join :
      {ps mid after first second : List Place}
      → Cleans devid disk ps mid first
      → Cleans devid disk mid after second
      → Cleans devid disk ps after (first ++ second)
  Cleans-join {ps} {mid} {after} {first} {second} c d = record {
    keyed = d.keyed;
    gone = λ q h. elim (c.gone q h) [
      | inl stays ↦ elim (d.gone q stays) [
        | inl more ↦ inl more
        | inr (inl task) ↦ inr (inl (in_right q first second task))
        | inr (inr lost) ↦ inr (inr lost)
      ]
      | inr (inl task) ↦ inr (inl (in_left q first second task))
      | inr (inr lost) ↦ inr (inr lost)
    ];
    kept = λ q h. c.kept q (d.kept q h);
    named = λ q h. elim (either_list q first second h) [
      | inl task ↦
          (let (was, gone, here, other, stays) = c.named q task in
            (was, still_gone q gone, here, other, own-stays q.fid d here stays))
      | inr task ↦
          (let (was, gone, here, other, stays) = d.named q task in
            (c.kept q was, gone, here, other, stays))
    ];
  }
    where
      still_gone : (q : Place) → has q mid ≡ false → has q after ≡ false
      still_gone q gone = elim (Bool-cases (has q after)) [
        | inl back ↦ (let e : has q mid ≡ true = d.kept q back in cc)
        | inr e ↦ e
      ]

pub check_fids-Cleans :
    (c : Config) (m : Meets) (fids : List ℤ) (ps : List Place)
    → IsKeyed ps
    → Cleans c.devid m.disk ps (check_fids c m fids ps).places (check_fids c m fids ps).tasks
unfolding check_fids
check_fids-Cleans c m [] ps k = unchanged-Cleans c.devid m.disk ps k
check_fids-Cleans c m (fid ∷ fids) ps k =
    let o = check_fid c.dry_run (m.disk fid) (m.fails fid) c.devid fid ps in
    let first = check_fid-Cleans c.dry_run (m.fails fid) c.devid fid m.disk ps k in
    Cleans-join c.devid m.disk first (check_fids-Cleans c m fids o.places first.keyed)

abbrev Good : Config → Meets → List Place → Walked → Type 0
Good c m ps o = Cleans c.devid m.disk ps o.places o.tasks

clean_device-Cleans :
    (c : Config) (f : TickFaults) (m : Meets) (now later last_clean : ℕ) (ps : List Place)
    → IsKeyed ps
    → Good c m ps (clean_device c f m now later last_clean ps).walked
unfolding clean_device walk_on_device_files
clean_device-Cleans c f m now later last_clean ps k =
    let same = unchanged-Cleans c.devid m.disk ps k in
    elim (Bool-cases f.update) [
      | inl fails ↦ rw fails same
      | inr works ↦ rw works (elim (Bool-cases (ltb (last_clean + c.period) now)) [
        | inl due ↦ rw due (elim (Bool-cases f.affected) [
          | inl fails ↦ rw fails same
          | inr runs ↦ rw runs (elim (Bool-cases f.query) [
            | inl fails ↦ rw fails same
            | inr lists ↦ rw lists (check_fids-Cleans c m (device_fids c.devid ps) ps k)
          ])
        ])
        | inr early ↦ rw early same
      ])
    ]

-- A place that a delete task names: it was there and is gone, it is one of another device, and the
-- file is on this device's disk, with its place.
pub record IsSpare (c : Config) (m : Meets) (ps : List Place) (o : Walked) (q : Place)
    : Type 0 where
  pub was_there : has q ps ≡ true
  pub gone : has q o.places ≡ false
  pub elsewhere : (q.devid ==ℤ c.devid) ≡ false
  pub on_disk : m.disk q.fid ≡ exists
  pub own_place : has (own c.devid q.fid) o.places ≡ true

-- A tick of the device cleaner, whichever statements fail, on rows none of which stands twice: a
-- delete task that it publishes names a place of another device that was there and is gone from
-- `file_on`, and a file that is on this device's disk and keeps its place there.
pub clean_device-IsSpare :
    (c : Config) (f : TickFaults) (m : Meets) (now later last_clean : ℕ) (ps : List Place)
    (q : Place)
    → IsKeyed ps
    → has q (clean_device c f m now later last_clean ps).walked.tasks ≡ true
    → IsSpare c m ps (clean_device c f m now later last_clean ps).walked q
clean_device-IsSpare c f m now later last_clean ps q k h =
    let (was, gone, here, other, stays) =
      (clean_device-Cleans c f m now later last_clean ps k).named q h in
    record { was_there = was; gone = gone; elsewhere = other; on_disk = here; own_place = stays }

-- Where a place went: it never was there, or it still is, or a task names it, or it is one of this
-- device and its file is not on the disk.
abbrev pub Went : Config → Meets → List Place → Walked → Place → Type 0
Went c m ps o q =
    ((has q ps ≡ false) × (has q o.places ≡ false))
    ⊎ (((has q ps ≡ true) × (has q o.places ≡ true))
        ⊎ (((has q ps ≡ true) × (has q o.tasks ≡ true))
            ⊎ ((has q ps ≡ true) × (q.devid ≡ c.devid) × (m.disk q.fid ≡ missing))))

-- A tick of the device cleaner, whichever statements fail, on rows none of which stands twice, adds
-- no place, and takes away only what a delete task names and the places of this device whose files
-- are not on its disk.
pub clean_device-Went :
    (c : Config) (f : TickFaults) (m : Meets) (now later last_clean : ℕ) (ps : List Place)
    (q : Place)
    → IsKeyed ps
    → Went c m ps (clean_device c f m now later last_clean ps).walked q
clean_device-Went c f m now later last_clean ps q k =
    let o = (clean_device c f m now later last_clean ps).walked in
    let cleans = clean_device-Cleans c f m now later last_clean ps k in
    elim (Bool-cases (has q ps)) [
      | inl was ↦ elim (cleans.gone q was) [
        | inl stays ↦ inr (inl (was, stays))
        | inr (inl task) ↦ inr (inr (inl (was, task)))
        | inr (inr (here, lost)) ↦ inr (inr (inr (was, here, lost)))
      ]
      | inr never ↦ elim (Bool-cases (has q o.places)) [
        | inl back ↦ (let e : has q ps ≡ true = cleans.kept q back in cc)
        | inr absent ↦ inl (never, absent)
      ]
    ]
