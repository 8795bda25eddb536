-- ===== src/Drainer/Steps.antt =====
-- drain.go: one move.
use efes.Prelude.{
  All, subst, ℕ, ◌≡◌, refl, ap, sym, ◌∙◌, Bool, true, false, Option, none, some, List,
  if◌then◌else◌, map, eq_of_some_eq,
}
use efes.Prelude.Int.{ℤ}
use efes.Crc32.Update.Table.{IsByte}
use efes.Sha1.Sum.{sha1}
use efes.Tracker.{has}
use efes.Drainer.{
  World, Meets, Moved, set_file, update_places, remove_file, finish_move, after_send,
}
use efes.Drainer.Moving.{
  at_device, HasOn, Begins, HoldsOn, HasOn-HoldsOn, Holds, set_file-same, set_file-other_device,
  set_file-other_fid, updated, has-update_other, has-update_same,
}

-- What a move of one file does to the world: the devices and the other files stay, and the file is
-- still held by a device if it was held by the one that is drained.
pub record Step (own fid : ℤ) (w w' : World) : Type 0 where
  pub devices : w'.devices ≡ w.devices
  pub other_files : (d f : ℤ) → (f ≡ fid → ⊥) → w'.files d f ≡ w.files d f
  pub other_places :
      (d f : ℤ) → (f ≡ fid → ⊥) → has (at_device f d) w'.places ≡ has (at_device f d) w.places
  pub moved : (sum : List ℕ) → HasOn w own fid sum → Holds w' fid sum

abbrev pub StepTo : ℤ → ℤ → World → Moved → Type 0
StepTo own fid w x = Step own fid w x.world

pub Step-refl : (own fid : ℤ) (w : World) → Step own fid w w
Step-refl own fid w = record {
  devices = refl;
  other_files = λ d f n. refl;
  other_places = λ d f n. refl;
  moved = λ sum h. (own, HasOn-HoldsOn w own fid sum h);
}

module _ (own fid new : ℤ) (content : List ℕ) (o : Option (List ℕ)) (w : World)
    (differ : new ≡ own → ⊥) (there : w.files own fid ≡ some content) where
  abbrev sent : World
  sent = set_file new fid o w

  -- What stands on the new device does not matter as long as the row names the old one.
  sent-Step : Step own fid w sent
  sent-Step = record {
    devices = unfold set_file in refl;
    other_files = λ d f n. set_file-other_fid new fid d f o w n;
    other_places = λ d f n. unfold set_file in refl;
    moved = λ sum (placed, (c, file, of_bytes, same)). (
      own,
      HasOn-HoldsOn sent own fid sum (
        unfold set_file in placed,
        (c, set_file-other_device new fid own fid o w (λ e. differ (sym e)) ∙ file, of_bytes, same),
      ),
    );
  }

  module _ (arrived : All IsByte content → Begins o (sha1 content)) where
    abbrev renamed : World
    renamed = record sent { places = map (updated new own fid) w.places }

    held : (sum : List ℕ) → HasOn w own fid sum → HoldsOn renamed new fid sum
    held sum (placed, (c, file, of_bytes, same)) =
        let whole : content ≡ c = eq_of_some_eq (sym there ∙ file) in
        let (new_file, (at, stands, within, begins)) =
          arrived (subst (All IsByte) (sym whole) of_bytes) in
        (
          has-update_same new own fid w.places placed,
          (
            new_file,
            (at, set_file-same new fid o w ∙ stands, within, begins ∙ ap sha1 whole ∙ same),
          ),
        )

    renamed-Step : Step own fid w renamed
    renamed-Step = record {
      devices = unfold set_file in refl;
      other_files = λ d f n. set_file-other_fid new fid d f o w n;
      other_places = λ d f n. has-update_other new own fid f d w.places n;
      moved = λ sum h. (new, held sum h);
    }

    removed-Step : Step own fid w (set_file own fid none renamed)
    removed-Step = record {
      devices = unfold set_file in refl;
      other_files = λ d f n.
          set_file-other_fid own fid d f none renamed n ∙ set_file-other_fid new fid d f o w n;
      other_places = λ d f n. unfold set_file in has-update_other new own fid f d w.places n;
      moved = λ sum h.
          (let (placed, (c, (at, file, within, same))) = held sum h in
            (
              new,
              (
                unfold set_file in placed,
                (
                  c,
                  (
                    at,
                    set_file-other_device own fid new fid none renamed differ ∙ file,
                    within,
                    same,
                  ),
                ),
              ),
            ));
    }

    finish-Step :
        (m : Meets) (b : Bool)
        → StepTo own fid w (
            finish_move m own fid sent
              (if b then none else some (map (updated new own fid) w.places)))
    unfolding finish_move remove_file
    finish-Step m true = sent-Step
    finish-Step m false = go m.remove_fails
      where
        go :
            (a : Bool)
            → StepTo own fid w (
                if a
                then record { ok = false; world = renamed }
                else record { ok = true; world = set_file own fid none renamed })
        go true = renamed-Step
        go false = removed-Step

  pub after_send-Step :
      (m : Meets) (ok : Bool)
      → (ok ≡ true → All IsByte content → Begins o (sha1 content))
      → StepTo own fid w (after_send m own fid new ok sent)
  unfolding after_send update_places
  after_send-Step m false arrived = sent-Step
  after_send-Step m true arrived =
      go m.update_fails _ (unfold set_file in finish-Step (arrived refl) m _)
    where
      go :
          (a : Bool) (x : Moved)
          → StepTo own fid w x
          → StepTo own fid w (if a then record { ok = false; world = sent } else x)
      go true x s = sent-Step
      go false x s = s
