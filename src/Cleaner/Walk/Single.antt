-- ===== src/Cleaner/Walk/Single.antt =====
-- cleandevice.go: what one check of the walk does to `file_on`.
use efes.Prelude.{
  ◌≡◌, refl, ap, sym, ◌∙◌, Bool, true, false, List, [], ◌∷◌, not, ◌||◌, ◌&&◌, Bool-cases, ◌⊎◌, inl,
  inr,
}
use efes.Prelude.Int.{ℤ, ◌==ℤ◌, ==ℤ_iff}
use efes.Tracker.{Place, has}
use efes.Cleaner.{
  Stat, exists, missing, stat_fails, Faults, Checked, in_list, all_devids, delete_on, delete_tasks,
  check_fid, check_disk, delete_from_current,
}
use efes.Cleaner.Accounts.{selects, has-delete_on, has-delete_tasks, listed-has}
use efes.Cleaner.Checking.{others, Ends, check_fid-Ends, selected-has}
use efes.Cleaner.Walk.Keys.{IsKeyed, delete_on-IsKeyed, IsKeyed-once}

-- The place of a file on the device that is cleaned.
abbrev pub own : ℤ → ℤ → Place
own devid fid = record { fid = fid; devid = devid }

-- A cleaning of a device. A place of `ps` stays, or a task names it, or it is a place of this device
-- whose file is not on the disk; what a task names is gone, is on another device, and its file stays
-- on this one.
pub record Cleans (devid : ℤ) (disk : ℤ → Stat) (ps after tasks : List Place) : Type 0 where
  pub keyed : IsKeyed after
  pub gone :
      (q : Place)
      → has q ps ≡ true
      → (has q after ≡ true) ⊎ ((has q tasks ≡ true) ⊎ ((q.devid ≡ devid) × (disk q.fid ≡ missing)))
  pub kept : (q : Place) → has q after ≡ true → has q ps ≡ true
  pub named :
      (q : Place)
      → has q tasks ≡ true
      → (has q ps ≡ true)
        × (has q after ≡ false)
        × (disk q.fid ≡ exists)
        × ((q.devid ==ℤ devid) ≡ false)
        × (has (own devid q.fid) after ≡ true)

no_tasks : (q : Place) → has q [] ≡ true → ⊥
unfolding has
no_tasks q h = cc

pub unchanged-Cleans :
    (devid : ℤ) (disk : ℤ → Stat) (ps : List Place) → IsKeyed ps → Cleans devid disk ps ps []
unchanged-Cleans devid disk ps k = record {
  keyed = k;
  gone = λ q h. inl h;
  kept = λ q h. h;
  named = λ q h. absurd (no_tasks q h);
}

left_and : (a b : Bool) → (a && b) ≡ true → a ≡ true
left_and true b h = refl
left_and false b h = h

right_and : (a b : Bool) → (a && b) ≡ true → b ≡ true
right_and true b h = h
right_and false b h = cc

after_delete :
    (q : Place) (fid : ℤ) (devids : List ℤ) (ps : List Place)
    → has q (delete_on fid devids ps) ≡ true
    → has q ps ≡ true
after_delete q fid devids ps h =
    left_and (has q ps) (not (selects fid devids q)) (sym (has-delete_on q fid devids ps) ∙ h)

-- A place stays if the statement does not select it.
stays :
    (q : Place) (fid : ℤ) (devids : List ℤ) (ps : List Place)
    → has q ps ≡ true
    → selects fid devids q ≡ false
    → has q (delete_on fid devids ps) ≡ true
stays q fid devids ps h e = has-delete_on q fid devids ps ∙ rw h (rw e refl)

others-Cleans :
    (devid fid : ℤ) (disk : ℤ → Stat) (ps : List Place)
    → IsKeyed ps
    → disk fid ≡ exists
    → in_list devid (all_devids fid ps) ≡ true
    → Cleans devid disk ps
        (delete_on fid (others devid fid ps) ps)
        (delete_tasks fid (others devid fid ps))
others-Cleans devid fid disk ps k here listed =
    let ds = others devid fid ps in
    let once : in_list devid ds ≡ false = IsKeyed-once devid fid ps k in
    record {
      keyed = delete_on-IsKeyed fid ds ps k;
      gone = λ q h. elim (Bool-cases (selects fid ds q)) [
        | inl sel ↦ inr (inl (has-delete_tasks q fid ds ∙ sel))
        | inr other ↦ inl (stays q fid ds ps h other)
      ];
      kept = λ q h. after_delete q fid ds ps h;
      named = λ q h.
          let sel : selects fid ds q ≡ true = sym (has-delete_tasks q fid ds) ∙ h in
          let same : q.fid ≡ fid =
            (==ℤ_iff q.fid fid).0 (left_and (q.fid ==ℤ fid) (in_list q.devid ds) sel) in
          let other : in_list q.devid ds ≡ true =
            right_and (q.fid ==ℤ fid) (in_list q.devid ds) sel in
          (
            selected-has q devid fid ps sel,
            has-delete_on q fid ds ps ∙ gone_if (has q ps) sel,
            ap disk same ∙ here,
            elsewhere q.devid ds once other,
            ap (λ t. has (own devid t) (delete_on fid ds ps)) same
                ∙ stays (own devid fid) fid ds ps
                    (listed-has (own devid fid) fid ps ((==ℤ_iff fid fid).1 refl) listed)
                    (not_selected (fid ==ℤ fid) once),
          );
    }
  where
    gone_if : (a : Bool) {b : Bool} → b ≡ true → (a && not b) ≡ false
    gone_if true h = ap not h
    gone_if false h = refl

    not_selected : (a : Bool) {b : Bool} → b ≡ false → (a && b) ≡ false
    not_selected true h = h
    not_selected false h = refl

    elsewhere :
        (d : ℤ) (ds : List ℤ)
        → in_list devid ds ≡ false
        → in_list d ds ≡ true
        → (d ==ℤ devid) ≡ false
    elsewhere d ds absent present = elim (Bool-cases (d ==ℤ devid)) [
      | inl same ↦
          (let e : in_list devid ds ≡ true =
              ap (λ t. in_list t ds) (sym ((==ℤ_iff d devid).0 same)) ∙ present in
            cc)
      | inr differs ↦ differs
    ]

-- The file is not on the disk: its row for this device goes.
current-Cleans :
    (devid fid : ℤ) (disk : ℤ → Stat) (ps : List Place)
    → IsKeyed ps
    → disk fid ≡ missing
    → Cleans devid disk ps (delete_on fid (devid ∷ []) ps) []
current-Cleans devid fid disk ps k gone_file = record {
  keyed = delete_on-IsKeyed fid (devid ∷ []) ps k;
  gone = λ q h. elim (Bool-cases (selects fid (devid ∷ []) q)) [
    | inl sel ↦ inr (inr (is_own q sel))
    | inr other ↦ inl (stays q fid (devid ∷ []) ps h other)
  ];
  kept = λ q h. after_delete q fid (devid ∷ []) ps h;
  named = λ q h. absurd (no_tasks q h);
}
  where
    or_false : (a : Bool) → (a || false) ≡ true → a ≡ true
    or_false true h = refl
    or_false false h = h

    is_own :
        (q : Place) → selects fid (devid ∷ []) q ≡ true → (q.devid ≡ devid) × (disk q.fid ≡ missing)
    is_own q sel =
        let here : (in_list q.devid (devid ∷ [])) ≡ true =
          right_and (q.fid ==ℤ fid) (in_list q.devid (devid ∷ [])) sel in
        let same : (devid ==ℤ q.devid) ≡ true =
          unfold in_list in or_false (devid ==ℤ q.devid) here in
        (
          sym ((==ℤ_iff devid q.devid).0 same),
          ap disk (
                (==ℤ_iff q.fid fid).0 (left_and (q.fid ==ℤ fid) (in_list q.devid (devid ∷ [])) sel))
              ∙ gone_file,
        )

exists-Cleans :
    (devid fid : ℤ) (disk : ℤ → Stat) (ps : List Place) (o : Checked)
    → IsKeyed ps
    → disk fid ≡ exists
    → Ends devid fid ps o
    → Cleans devid disk ps o.places o.tasks
exists-Cleans devid fid disk ps o k here (inl (same, none_sent)) =
    rw same (rw none_sent (unchanged-Cleans devid disk ps k))
exists-Cleans devid fid disk ps o k here (inr (deleted, sent, listed)) =
    rw deleted (rw sent (others-Cleans devid fid disk ps k here listed))

-- How a check of a file that is not on the disk may end.
abbrev Lost : ℤ → ℤ → List Place → Checked → Type 0
Lost devid fid ps o =
    (o.tasks ≡ []) × ((o.places ≡ ps) ⊎ (o.places ≡ delete_on fid (devid ∷ []) ps))

check_fid-Lost :
    (dry_run : Bool) (f : Faults) (devid fid : ℤ) (ps : List Place)
    → Lost devid fid ps (check_fid dry_run missing f devid fid ps)
unfolding check_fid check_disk delete_from_current
check_fid-Lost dry_run f devid fid ps = elim (Bool-cases (f.begin || f.select)) [
  | inl fails ↦ rw fails (refl, inl refl)
  | inr works ↦ rw works (elim (Bool-cases (not (in_list devid (all_devids fid ps)))) [
    | inl unlisted ↦ rw unlisted (refl, inl refl)
    | inr listed ↦ rw listed (elim (Bool-cases dry_run) [
      | inl dry ↦ rw dry (refl, inl refl)
      | inr wet ↦ rw wet (elim (Bool-cases (f.exec || f.commit)) [
        | inl fails ↦ rw fails (refl, inl refl)
        | inr runs ↦ rw runs (refl, inr refl)
      ])
    ])
  ])
]

missing-Cleans :
    (devid fid : ℤ) (disk : ℤ → Stat) (ps : List Place) (o : Checked)
    → IsKeyed ps
    → disk fid ≡ missing
    → Lost devid fid ps o
    → Cleans devid disk ps o.places o.tasks
missing-Cleans devid fid disk ps o k e (none_sent, inl same) =
    rw same (rw none_sent (unchanged-Cleans devid disk ps k))
missing-Cleans devid fid disk ps o k e (none_sent, inr fewer) =
    rw fewer (rw none_sent (current-Cleans devid fid disk ps k e))

check_fid-unknown :
    (dry_run : Bool) (f : Faults) (devid fid : ℤ) (ps : List Place)
    → check_fid dry_run stat_fails f devid fid ps
      ≡ record { ok = (check_fid dry_run stat_fails f devid fid ps).ok; places = ps; tasks = [] }
unfolding check_fid check_disk
check_fid-unknown dry_run f devid fid ps = elim (Bool-cases (f.begin || f.select)) [
  | inl fails ↦ rw fails refl
  | inr works ↦ rw works (elim (Bool-cases (not (in_list devid (all_devids fid ps)))) [
    | inl unlisted ↦ rw unlisted refl
    | inr listed ↦ rw listed refl
  ])
]

checked-Cleans :
    (dry_run : Bool) (f : Faults) (devid fid : ℤ) (disk : ℤ → Stat) (ps : List Place) (stat : Stat)
    → IsKeyed ps
    → disk fid ≡ stat
    → Cleans devid disk ps
        (check_fid dry_run stat f devid fid ps).places
        (check_fid dry_run stat f devid fid ps).tasks
checked-Cleans dry_run f devid fid disk ps exists k e =
    exists-Cleans devid fid disk ps (check_fid dry_run exists f devid fid ps) k e
      (check_fid-Ends dry_run f devid fid ps)
checked-Cleans dry_run f devid fid disk ps missing k e =
    missing-Cleans devid fid disk ps (check_fid dry_run missing f devid fid ps) k e
      (check_fid-Lost dry_run f devid fid ps)
checked-Cleans dry_run f devid fid disk ps stat_fails k e =
    rw (check_fid-unknown dry_run f devid fid ps) (unchanged-Cleans devid disk ps k)

-- One check, whatever it meets.
pub check_fid-Cleans :
    (dry_run : Bool) (f : Faults) (devid fid : ℤ) (disk : ℤ → Stat) (ps : List Place)
    → IsKeyed ps
    → Cleans devid disk ps
        (check_fid dry_run (disk fid) f devid fid ps).places
        (check_fid dry_run (disk fid) f devid fid ps).tasks
check_fid-Cleans dry_run f devid fid disk ps k =
    checked-Cleans dry_run f devid fid disk ps (disk fid) k refl
