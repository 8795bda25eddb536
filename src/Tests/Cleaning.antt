-- ===== src/Tests/Cleaning.antt =====
-- The cleaners and the consumer of delete tasks at concrete states.
use efes.Prelude.{ℕ, ◌≡◌, ◌∙◌, ap, refl, arith, true, false, List, [], ◌∷◌, sym, inl, inr}
use efes.Prelude.Int.{ℤ, pos}
use efes.Prelude.Members.{In}
use efes.Tracker.{Tables, has, same_place}
use efes.Tracker.Tempfiles.{Row, HasKey, Treats, remove_old_tempfiles, remove_old_tempfiles-Treats}
use efes.Tracker.Tempfiles
use efes.Encoding.Decimal.{format_int}
use efes.Server.{FilePath, vivify, vivify_ext, fid_ext, Event, delivered, process_delete_tasks}
use efes.Server.Queue.{IsHandled, process_delete_tasks-IsHandled}
use efes.Server.Disk
use efes.Server.Disk.{
  Entry, Meets, Device, TickFaults, has_tempfile, visit_file, removed, clean_disk,
}
use efes.Server.Disk.Kept.{clean_disk-keeps, calm}

-- Messages for the files 7 and 8; the removal of the second fails.
abbrev messages : List Event
messages =
    delivered (format_int (pos 7)) false false ∷ delivered (format_int (pos 8)) true false ∷ []

abbrev two_files : List FilePath
two_files = vivify (pos 7) ∷ vivify (pos 8) ∷ []

process_delete_tasks-IsHandled_example :
    IsHandled two_files (process_delete_tasks messages two_files)
process_delete_tasks-IsHandled_example = process_delete_tasks-IsHandled messages two_files

-- The rows of two temporary files, one of them an hour old.
abbrev row : ℤ → ℕ → Row
row fid created_at = record {
  tempfile = record { fid = fid; devid = pos 11 };
  created_at = created_at;
}

abbrev rows : List Row
rows = row (pos 1) 100 ∷ row (pos 2) 3000 ∷ []

no_pos : pos 1 ≡ pos 2 → ⊥
no_pos e = cc

rows-HasKey : HasKey rows
rows-HasKey x y (inl a) (inl b) e = a ∙ sym b
rows-HasKey x y (inl a) (inr (inl b)) e =
    absurd (no_pos (sym (ap (λ t. t.tempfile.fid) a) ∙ e ∙ ap (λ t. t.tempfile.fid) b))
rows-HasKey x y (inr (inl a)) (inl b) e =
    absurd (no_pos (sym (ap (λ t. t.tempfile.fid) b) ∙ sym e ∙ ap (λ t. t.tempfile.fid) a))
rows-HasKey x y (inr (inl a)) (inr (inl b)) e = a ∙ sym b
rows-HasKey x y (inr (inr a)) m e = absurd a
rows-HasKey x y (inl a) (inr (inr b)) e = absurd b
rows-HasKey x y (inr (inl a)) (inr (inr b)) e = absurd b

abbrev no_failure : Tempfiles.Faults
no_failure = record { begin = false; select_old = false; delete_old = false; commit = false }

remove_old_tempfiles-Treats_example :
    Treats 4000 3600 rows rows-HasKey
      (row (pos 1) 100)
      no_failure
      (remove_old_tempfiles no_failure 4000 3600 rows)
remove_old_tempfiles-Treats_example =
    remove_old_tempfiles-Treats 4000 3600 rows rows-HasKey no_failure (row (pos 1) 100) (inl refl)

-- File 789 has its place on device 11.
abbrev tables : Tables
tables = record {
  tempfiles = [];
  files = [];
  places = record { fid = pos 789; devid = pos 11 } ∷ [];
  devices = pos 11 ∷ [];
}

abbrev entry : ℕ → Entry
entry n = record { path = vivify_ext (pos n) fid_ext; is_dir = false; is_symlink = false; age = 50 }

abbrev device : Device
device = record { last_clean = 0; entries = entry 788 ∷ entry 789 ∷ [] }

abbrev config : Disk.Config
config = record { devid = pos 11; ttl = 10; dry_run = false; period = 5 }

abbrev tick : TickFaults
tick = record { update = false; affected = false; last_update = false }

file_789-placed : has (record { fid = pos 789; devid = pos 11 }) tables.places ≡ true
unfolding has same_place
file_789-placed = refl

clean_disk-keeps_example :
    In (entry 789) (clean_disk config tick (λ i. calm) tables 20 30 device).entries
clean_disk-keeps_example =
    clean_disk-keeps config tick (λ i. calm) tables 20 30 789 device (entry 789) (omega arith)
      (omega arith) (inl file_789-placed) (inl refl) (inr (inl refl))
