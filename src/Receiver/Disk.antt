-- ===== src/Receiver/Disk.antt =====
-- filereceiver.go, fileinfo.go: the files of one path, and the calls that work on them.
use efes.Prelude.{
  ℕ, ◌+◌, ◌-◌, Bool, true, false, Option, none, some, List, [], ◌++◌, if◌then◌else◌, length, take,
  drop, replicate,
}
use efes.Prelude.Int.{ℤ}
use efes.FileInfo.{FileInfo, InfoFile, broken, new_file_info, encode, decode}

-- Go errors: those that the code tells apart.
pub data Error : Type 0 where
  not_exist : Error
  -- OffsetMismatchError{Given, Required}
  offset_mismatch : ℤ → ℤ → Error
  other : Error

pub data Result (A : Type 0) : Type 0 where
  ok : A → Result A
  err : Error → Result A
  panic : Result A

-- Whether the directory is there, and what stands at `path` and at `path + ".info"`.
pub record Slot : Type 0 where
  pub dir : Bool
  pub file : Option (List ℕ)
  pub info : Option InfoFile

-- How far `SaveFileInfo` comes: its os.Create, the encoder or its Close may fail.
pub data SaveFault : Type 0 where
  saves create_fault encode_fault close_fault : SaveFault

-- The calls that fail during a request, other than by a missing file.
pub record Faults : Type 0 where
  pub create : Bool
  pub mkdir : Bool
  pub recreate : Bool
  pub close_created : Bool
  pub save_created : SaveFault
  pub read_info : Bool
  pub open_file : Bool
  pub seek : Bool
  pub sync : Bool
  pub close : Bool
  pub delete_info : Bool
  pub save : SaveFault
  pub remove : Bool

-- State and errors: what was written stays written when a call fails.
abbrev pub M : Type 0 → Type 0
M A = Slot → Result A × Slot

infixl 5 ◌>>=◌ ◌>>◌
abbrev pub ◌>>=◌ : {A B : Type 0} → M A → (A → M B) → M B
◌>>=◌ m f s =
    let (r, s') = m s in elim r [ ok a ↦ f a s' | err e ↦ (err e, s') | panic ↦ (panic, s') ]

abbrev pub ◌>>◌ : {A B : Type 0} → M A → M B → M B
m >> k = m >>= λ _. k

abbrev pub pure : {A : Type 0} → A → M A
pure a s = (ok a, s)

abbrev pub raise : {A : Type 0} → Error → M A
raise e s = (err e, s)

-- A call that may fail, with no other effect.
unfoldable pub call : Bool → M (Unit {0})
call fails s = (if fails then err other else ok tt, s)

-- os.Create truncates a file that is there.
unfoldable pub os_create : Bool → M (Unit {0})
os_create fails s =
    if fails
    then (err other, s)
    else if s.dir
    then (ok tt, record s { file = some [] })
    else (err not_exist, s)

-- os.MkdirAll
unfoldable pub mkdir_all : Bool → M (Unit {0})
mkdir_all fails s = if fails then (err other, s) else (ok tt, record s { dir = true })

-- SaveFileInfo
unfoldable pub save_file_info : SaveFault → FileInfo → M (Unit {0})
save_file_info saves fi s = (ok tt, record s { info = some (encode fi) })
save_file_info create_fault fi s = (err other, s)
save_file_info encode_fault fi s = (err other, record s { info = some broken })
save_file_info close_fault fi s = (err other, record s { info = some (encode fi) })

unfoldable pub decoded : Option FileInfo → Result FileInfo
decoded none = err other
decoded (some fi) = ok fi

unfoldable pub info_of : Option InfoFile → Result FileInfo
unfolding decoded
info_of none = err not_exist
info_of (some i) = decoded (decode i)

-- ReadExistingFileInfo
unfoldable pub read_existing_file_info : Faults → M FileInfo
read_existing_file_info f s = (if f.read_info then err other else info_of s.info, s)

unfoldable pub or_new : Result FileInfo → Result FileInfo
or_new (ok fi) = ok fi
or_new (err not_exist) = ok new_file_info
or_new (err (offset_mismatch g r)) = err (offset_mismatch g r)
or_new (err other) = err other
or_new panic = panic

-- ReadFileInfo
unfoldable pub read_file_info : Faults → M FileInfo
unfolding or_new
read_file_info f s = let (r, s') = read_existing_file_info f s in (or_new r, s')

unfoldable pub remove_info : Option InfoFile → M (Unit {0})
remove_info none s = (err not_exist, s)
remove_info (some i) s = (ok tt, record s { info = none })

-- DeleteFileInfo
unfoldable pub delete_file_info : Faults → M (Unit {0})
unfolding remove_info
delete_file_info f s = if f.delete_info then (err other, s) else remove_info s.info s

unfoldable pub remove_file : Option (List ℕ) → M (Unit {0})
remove_file none s = (err not_exist, s)
remove_file (some b) s = (ok tt, record s { file = none })

-- deleteFile
unfoldable pub delete_file : Faults → M (Unit {0})
unfolding remove_file
delete_file f s = if f.remove then (err other, s) else remove_file s.file s

-- The end of `createFile`, once there is a file.
unfoldable pub close_created_file : Faults → M (Unit {0})
close_created_file f = do call f.close_created; save_file_info f.save_created new_file_info

unfoldable pub recreate_file : Faults → M (Unit {0})
recreate_file f = do mkdir_all f.mkdir; os_create f.recreate

-- `if os.IsNotExist(err)`
unfoldable pub unless_missing : Faults → Result (Unit {0}) → M (Unit {0})
unfolding recreate_file
unless_missing f (ok u) s = (ok u, s)
unless_missing f (err not_exist) s = recreate_file f s
unless_missing f (err (offset_mismatch g r)) s = (err (offset_mismatch g r), s)
unless_missing f (err other) s = (err other, s)
unless_missing f panic s = (panic, s)

unfoldable pub create_or_mkdir : Faults → M (Unit {0})
unfolding unless_missing
create_or_mkdir f s = let (r, s') = os_create f.create s in unless_missing f r s'

-- createFile
unfoldable pub create_file : Faults → M (Unit {0})
create_file f = do create_or_mkdir f; close_created_file f

-- A write of `p` at `offset`; a gap before it is filled with zeros.
unfoldable pub write_at : List ℕ → ℕ → List ℕ → List ℕ
write_at file offset p =
    take offset (file ++ replicate (offset - length file) 0) ++ (p ++ drop (offset + length p) file)

-- No call fails.
abbrev pub no_faults : Faults
no_faults = record {
  create = false;
  mkdir = false;
  recreate = false;
  close_created = false;
  save_created = saves;
  read_info = false;
  open_file = false;
  seek = false;
  sync = false;
  close = false;
  delete_info = false;
  save = saves;
  remove = false;
}
