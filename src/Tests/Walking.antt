-- ===== src/Tests/Walking.antt =====
-- A tick of the device cleaner (cleandevice.go) on three rows.
use efes.Prelude.{ℕ, suc, zero, ◌≡◌, refl, true, List, [], ◌∷◌}
use efes.Prelude.Int.{ℤ, pos, negsuc}
use efes.Tracker.{Place, has, same_place}
use efes.Cleaner.{
  Stat, exists, missing, stat_fails, check_fid, check_disk, check_others, delete_from_others,
  delete_from_current, in_list, remove_item, all_devids, delete_on, delete_tasks,
}
use efes.Cleaner.Walk.{Walked, device_fids, check_fids, walk_on_device_files, clean_device}
use efes.Cleaner.Walk.Keys.{IsKeyed}
use efes.Cleaner.Walk.Cleaned.{IsSpare, clean_device-IsSpare, Went, clean_device-Went}
use efes.Cleaner.Walk.Settled.{config, calmly, no_failure, Settled}

abbrev place : ℕ → ℕ → Place
place fid devid = record { fid = pos fid; devid = pos devid }

-- File 1 is on two devices, file 2 on this one, 11.
abbrev places : List Place
places = place 1 10 ∷ place 1 11 ∷ place 2 11 ∷ []

places-IsKeyed : IsKeyed places
unfolding has same_place
places-IsKeyed = (refl, (refl, (refl, tt)))

-- The disk has lost file 2.
abbrev disk : ℤ → Stat
disk (pos zero) = stat_fails
disk (pos (suc zero)) = exists
disk (pos (suc (suc n))) = missing
disk (negsuc n) = stat_fails

abbrev walked : Walked
walked = (clean_device (config (pos 11) 3600) no_failure (calmly disk) 9000 9100 5000 places).walked

walked_lem : walked ≡ record { places = place 1 11 ∷ []; tasks = place 1 10 ∷ [] }
unfolding clean_device walk_on_device_files device_fids check_fids check_fid check_disk check_others
    delete_from_others delete_from_current in_list remove_item all_devids delete_on delete_tasks
walked_lem = refl

task : has (place 1 10) walked.tasks ≡ true
unfolding has same_place
task = rw walked_lem refl

clean_device-IsSpare_example :
    IsSpare (config (pos 11) 3600) (calmly disk) places walked (place 1 10)
clean_device-IsSpare_example =
    clean_device-IsSpare (config (pos 11) 3600) no_failure (calmly disk) 9000 9100 5000 places
      (place 1 10) places-IsKeyed task

clean_device-Went_example : Went (config (pos 11) 3600) (calmly disk) places walked (place 2 11)
clean_device-Went_example =
    clean_device-Went (config (pos 11) 3600) no_failure (calmly disk) 9000 9100 5000 places
      (place 2 11) places-IsKeyed
