-- ===== src/Tests/Measuring.antt =====
-- Mount points, a window of measurements, and a chunk size.
use efes.Prelude.{ℕ, ◌≡◌, arith, List, [], ◌∷◌}
use efes.Prelude.Int.{pos}
use efes.Client.ChunkSize.{set, set_to, string, set-string}
use efes.IoStat.{IoMeasurement, find_longest_prefix}
use efes.IoStat.Mounts.{FindsLongest, find_longest_prefix-FindsLongest}

set-string_example : set (string (pos 3145728)) ≡ set_to (pos 3145728)
set-string_example = set-string (pos 3145728) (omega arith)

-- "/srv/a" over "/", "/srv" and "/home".
abbrev path : List ℕ
path = b'/' ∷ b's' ∷ b'r' ∷ b'v' ∷ b'/' ∷ b'a' ∷ []

abbrev mounts : List (List ℕ)
mounts =
    (b'/' ∷ []) ∷ (b'/' ∷ b's' ∷ b'r' ∷ b'v' ∷ []) ∷ (b'/' ∷ b'h' ∷ b'o' ∷ b'm' ∷ b'e' ∷ []) ∷ []

find_longest_prefix-FindsLongest_example :
    FindsLongest path mounts (find_longest_prefix path mounts)
find_longest_prefix-FindsLongest_example = find_longest_prefix-FindsLongest path mounts

-- The disk was busy for 400 of 1000 milliseconds.
abbrev before : IoMeasurement
before = record { t = 1000000000; c = 100 }

abbrev now : IoMeasurement
now = record { t = 2000000000; c = 500 }
