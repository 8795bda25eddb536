-- ===== src/Tracker/Paths/Opened.antt =====
-- tracker.go: after createClose the file can be read.
use efes.Prelude.{
  Option, none, ℕ, ◌≡◌, refl, ap, sym, ◌∙◌, subst, true, false, some, List, [], ◌∷◌, arith, inl,
  inr, eq_of_some_eq, Bool-cases,
}
use efes.Prelude.Int.{ℤ, ◌==ℤ◌, ==ℤ_iff}
use efes.Prelude.Members.{In}
use efes.Tracker.{Tables, devid_of}
use efes.Tracker.Handlers.{Faults, Outcome, create_close}
use efes.Tracker.Closing.{Closed, ClosedOrSame, create_close-ClosedOrSame}
use efes.Tracker.Succeeding.{fid_of-In}
use efes.Tracker.Paths.{ReadDevice, read_url, read_device, get_paths, close_url, answer_close}
use efes.Tracker.Paths.Named.{IsUp, paths_in, get_paths-Named}

read_device-In :
    (ds : List ReadDevice) (devid : ℤ) (d : ReadDevice)
    → read_device ds devid ≡ some d
    → In d ds × (d.devid ≡ devid)
unfolding read_device
read_device-In [] devid d h = cc
read_device-In (x ∷ ds) devid d h = elim (Bool-cases (x.devid ==ℤ devid)) [
  | inl same ↦
      (let e : x ≡ d = eq_of_some_eq (rw same at h) in
        (inl (sym e), ap (λ t. t.devid) (sym e) ∙ (==ℤ_iff x.devid devid).0 same))
  | inr other ↦ (let (m, e) = read_device-In ds devid d (rw other at h) in (inr m, e))
]

closed-get_paths :
    (f : Faults) (fid devid : ℤ) (key : ℕ) (t : Tables) (ds : List ReadDevice) (d : ReadDevice)
    → (create_close f true (some fid) (some key) t).status ≡ 200
    → devid_of fid t.tempfiles ≡ some devid
    → read_device ds devid ≡ some d
    → IsUp d
    → In
        (read_url d fid)
        (paths_in (get_paths false ds (create_close f true (some fid) (some key) t).tables key))
closed-get_paths f fid devid key t ds d ok opened found up =
    go (create_close f true (some fid) (some key) t) ok
      (create_close-ClosedOrSame f fid key t (record { fid = fid; devid = devid }))
  where
    closed :
        (o : Outcome)
        → Closed fid key (record { fid = fid; devid = devid }) t o.tasks o.tables
        → In (read_url d fid) (paths_in (get_paths false ds o.tables key))
    closed o c =
        let (r, there, leads, number) = fid_of-In key fid o.tables.files c.key_leads in
        let (known, on) = read_device-In ds devid d found in
        let same : c.devid ≡ devid = eq_of_some_eq (sym c.was_open ∙ opened) in
        (get_paths-Named ds o.tables key (read_url d fid)).1 (
          r,
          (
            there,
            leads,
            (
              record { fid = fid; devid = c.devid },
              (
                subst (λ ps. In (record { fid = fid; devid = c.devid }) ps) (sym c.placed)
                    (inl refl),
                sym number,
                (d, (known, on ∙ sym same, up, refl)),
              ),
            ),
          ),
        )

    go :
        (o : Outcome)
        → o.status ≡ 200
        → ClosedOrSame fid key (record { fid = fid; devid = devid }) t o
        → In (read_url d fid) (paths_in (get_paths false ds o.tables key))
    go o e (inl (s, c)) = closed o c
    go o e (inr (same, none_sent, le)) = absurd (omega (arith, e, le))

close_url-some :
    (fid devid : ℤ) (ds : List ReadDevice) (d : ReadDevice)
    → read_device ds devid ≡ some d
    → close_url ds fid (some devid) ≡ some (read_url d fid)
unfolding close_url
close_url-some fid devid ds d found =
    ap (λ o. elim o as (λ x. Option (List ℕ)) [ none ↦ none | some e ↦ some (read_url e fid) ])
      found

answered :
    (f : Faults) (fid devid : ℤ) (key : ℕ) (t : Tables) (ds : List ReadDevice) (d : ReadDevice)
    → (create_close f true (some fid) (some key) t).status ≡ 200
    → devid_of fid t.tempfiles ≡ some devid
    → read_device ds devid ≡ some d
    → (answer_close f ds true (some fid) (some key) t).path ≡ some (read_url d fid)
unfolding answer_close
answered f fid devid key t ds d ok opened found =
    rw ok (ap (close_url ds fid) opened ∙ close_url-some fid devid ds d found)

-- A createClose of an upload that tempfile knows and that is answered with 200, whichever statements
-- may fail in others, answers with the path of the file on the device of its upload; and getPaths of
-- the key, in the tables that it leaves, lists that path, if the host of the device is alive and the
-- device is alive or drained.
pub create_close-get_paths :
    (f : Faults) (fid devid : ℤ) (key : ℕ) (t : Tables) (ds : List ReadDevice) (d : ReadDevice)
    → (answer_close f ds true (some fid) (some key) t).outcome.status ≡ 200
    → devid_of fid t.tempfiles ≡ some devid
    → read_device ds devid ≡ some d
    → IsUp d
    → ((answer_close f ds true (some fid) (some key) t).path ≡ some (read_url d fid))
      × In (read_url d fid) (
          paths_in (
            get_paths false ds (answer_close f ds true (some fid) (some key) t).outcome.tables key))
create_close-get_paths f fid devid key t ds d ok opened found up =
    let ok' : (create_close f true (some fid) (some key) t).status ≡ 200 =
      unfold answer_close in ok in
    (
      answered f fid devid key t ds d ok' opened found,
      unfold answer_close in closed-get_paths f fid devid key t ds d ok' opened found up,
    )
