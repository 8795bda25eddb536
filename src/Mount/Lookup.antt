-- ===== src/Mount/Lookup.antt =====
-- mount.go: the look-up of a name in the mounted directory.
use efes.Prelude.{ℕ, Option, none, some, List, ◌-◌, ◌^◌, ◌==◌, if◌then◌else◌}
use efes.Prelude.Int.{ℤ, pos, negsuc}
use efes.Client.Send.{client_error, other_error, check_status}
use efes.Client.Calls.{Called, got, fails, get_content_length}

-- `uint64` of an int64.
unfoldable pub to_uint64 : ℤ → ℕ
to_uint64 (pos n) = n
to_uint64 (negsuc n) = 2 ^ 64 - 1 - n

-- A file with its path and its size, ENOENT, or any other error.
pub data Looked (A : Type 0) : Type 0 where
  looked_up : A → ℕ → Looked A
  not_there : Looked A
  look_up_failed : Looked A

-- The answer to HEAD.
unfoldable pub file_from : {A : Type 0} → A → Option ℕ → List ℕ → Looked A
unfolding to_uint64 check_status get_content_length
file_from path none header = look_up_failed
file_from path (some status) header =
    if status == 404 then not_there else elim (check_status status) [
      | none ↦ looked_up path (to_uint64 (get_content_length header))
      | some e ↦ look_up_failed
    ]

-- Lookup, over the answer of `getPath`.
unfoldable pub lookup_node : {A : Type 0} → Called A → Option ℕ → List ℕ → Looked A
unfolding file_from
lookup_node (got path) status header = file_from path status header
lookup_node (fails other_error) status header = look_up_failed
lookup_node (fails (client_error code)) status header =
    if code == 404 then not_there else look_up_failed
