-- ===== src/Tests/Closing.antt =====
-- The end of an upload that takes over a key.
use efes.Prelude.{◌≡◌, refl, true, some, [], ◌∷◌, inl, inr, sym, ap, ◌∙◌}
use efes.Prelude.Int.{pos}
use efes.Prelude.Members.{In}
use efes.Tracker.{Tables, File, devid_of, has_device, is_placed}
use efes.Tracker.Handlers.{create_close}
use efes.Tracker.Succeeding.{sound, IsClosable, create_close-succeeds}

-- File 1 has the key 7; file 2 is being uploaded to device 11 for the same key.
abbrev pub tables : Tables
tables = record {
  tempfiles = record { fid = pos 2; devid = pos 11 } ∷ [];
  files = record { fid = pos 1; dkey = 7 } ∷ [];
  places = record { fid = pos 1; devid = pos 10 } ∷ [];
  devices = pos 10 ∷ pos 11 ∷ [];
}

pub only_file :
    (x y : File) → In x tables.files → In y tables.files → x.dkey ≡ y.dkey → x.fid ≡ y.fid
only_file x y (inl a) (inl b) e = ap (λ f. f.fid) (a ∙ sym b)
only_file x y (inr a) m e = absurd a
only_file x y (inl a) (inr b) e = absurd b

pub tables-IsClosable : IsClosable (pos 2) (pos 11) 7 tables
unfolding devid_of has_device is_placed
tables-IsClosable = record { known = refl; hosted = refl; unplaced = refl; unique = only_file }

create_close-succeeds_example :
    (create_close sound true (some (pos 2)) (some 7) tables).status ≡ 200
create_close-succeeds_example = create_close-succeeds (pos 2) (pos 11) 7 tables tables-IsClosable
