-- ===== src/Crc32/Digest.antt =====
-- crc32.go: the digest that a receiver feeds with the chunks of a file.
use efes.Prelude.{
  ℕ, ◌/◌, ◌%◌, ◌^◌, ◌≡◌, refl, ap, sym, ◌∙◌, arith, List, [], ◌∷◌, ◌++◌, All, All-append, length,
}
use mathlib.Core.List.{append_assoc, append-nil}
use efes.Encoding.{big_endian}
use efes.Crc32.{ieee, slicing_make_table, simple_update, slicing_update}
use efes.Crc32.Update.{crc_of}
use efes.Crc32.Update.Table.{IsByte}
use efes.Crc32.Update.Slicing.{slicing_update_lem, crc_of-lt, crc_of-append, crc_of-nil}

-- A pointer to the table: that of the package, or another one.
pub data Tab : Type 0 where
  ieee_table : Tab
  other_table : List ℕ → Tab

-- `crc32digest`
pub record Crc32Digest : Type 0 where
  pub crc : ℕ
  pub tab : Tab

-- NewCRC32
unfoldable pub new_crc32 : Tab → Crc32Digest
new_crc32 tab = record { crc = 0; tab = tab }

-- NewCRC32IEEE
unfoldable pub new_crc32_ieee : Crc32Digest
unfolding new_crc32
new_crc32_ieee = new_crc32 ieee_table

-- `Reset` keeps the table.
unfoldable pub reset : Crc32Digest → Crc32Digest
reset d = record d { crc = 0 }

-- The switch of `Write` on the table; `updateIEEE` is slicing-by-8 by the table of `ieeeInit`.
unfoldable pub update_by : Tab → ℕ → List ℕ → ℕ
update_by ieee_table crc p = slicing_update crc (slicing_make_table ieee) p
update_by (other_table tab) crc p = simple_update crc tab p

-- `Write` returns the digest, and the count of bytes that it took.
unfoldable pub write : Crc32Digest → List ℕ → Crc32Digest × ℕ
unfolding update_by
write d p = (record d { crc = update_by d.tab d.crc p }, length p)

-- `Sum` appends the four bytes of `Sum32`.
unfoldable pub sum : Crc32Digest → List ℕ → List ℕ
sum d input =
    input
    ++ (d.crc / 2 ^ 24 % 256) ∷ (d.crc / 2 ^ 16 % 256) ∷ (d.crc / 2 ^ 8 % 256) ∷ (d.crc % 256) ∷ []

-- A digest of the message `m`, as the receiver keeps in the info file.
pub record Represents (d : Crc32Digest) (m : List ℕ) : Type 0 where
  pub by_table : d.tab ≡ ieee_table
  pub value : d.crc ≡ crc_of ieee 0 m
  pub is_bytes : All IsByte m

pub new_crc32_ieee-Represents : Represents new_crc32_ieee []
unfolding new_crc32_ieee
new_crc32_ieee-Represents = record {
  by_table = refl;
  value = sym (crc_of-nil ieee 0);
  is_bytes = tt;
}

-- A digest of `m` that is given the bytes `p` is the digest of `m` followed by `p`.
pub write-Represents :
    (d : Crc32Digest) (m p : List ℕ)
    → Represents d m
    → All IsByte p
    → Represents (write d p).0 (m ++ p)
unfolding write
write-Represents d m p r hp = record {
  by_table = r.by_table;
  value =
      ap (λ t. update_by t d.crc p) r.by_table
      ∙ ap (λ t. slicing_update t (slicing_make_table ieee) p) r.value
      ∙ slicing_update_lem ieee (omega arith) (crc_of ieee 0 m) p
          (crc_of-lt ieee (omega arith) 0 m (omega arith) r.is_bytes) hp
      ∙ sym (crc_of-append ieee 0 m p);
  is_bytes = All-append IsByte m p r.is_bytes hp;
}

-- The digest after writes of one chunk after the other.
unfoldable pub write_chunks : Crc32Digest → List (List ℕ) → Crc32Digest
write_chunks d [] = d
write_chunks d (p ∷ ps) = write_chunks (write d p).0 ps

abbrev pub join : List (List ℕ) → List ℕ
join [] = []
join (p ∷ ps) = p ++ join ps

write_chunks-Represents :
    (d : Crc32Digest) (m : List ℕ) (ps : List (List ℕ))
    → Represents d m
    → All (All IsByte) ps
    → Represents (write_chunks d ps) (m ++ join ps)
unfolding write_chunks
write_chunks-Represents d m [] r h = rw append-nil r
write_chunks-Represents d m (p ∷ ps) r h =
    rw (← append_assoc m p (join ps))
      (write_chunks-Represents (write d p).0 (m ++ p) ps (write-Represents d m p r h.0) h.1)

pub sum-big_endian : (d : Crc32Digest) → sum d [] ≡ big_endian 4 d.crc
unfolding sum big_endian
sum-big_endian d = ground arith

-- However a file is cut into chunks of bytes, the sum of a new digest after the chunks is the
-- big-endian CRC-32 of the whole file by the shift register.
pub sum-write_chunks :
    (ps : List (List ℕ))
    → All (All IsByte) ps
    → sum (write_chunks new_crc32_ieee ps) [] ≡ big_endian 4 (crc_of ieee 0 (join ps))
sum-write_chunks ps h =
    sum-big_endian (write_chunks new_crc32_ieee ps)
    ∙ ap (big_endian 4)
        (write_chunks-Represents new_crc32_ieee [] ps new_crc32_ieee-Represents h).value
