-- ===== src/IoStat.antt =====
-- iostat.go: the mount point of a path, and the utilization of a disk over a window of measurements.
pub mod Mounts
pub mod Window
use efes.Prelude.{
  ℕ, zero, suc, ◌+◌, ◌-◌, ◌*◌, ◌/◌, ◌%◌, ◌^◌, Bool, true, false, Option, none, some, List, [], ◌∷◌,
  ◌&&◌, ltb, leb, ◌==◌, if◌then◌else◌, length,
}

-- strings.HasPrefix
unfoldable pub has_prefix : List ℕ → List ℕ → Bool
has_prefix s [] = true
has_prefix [] (p ∷ ps) = false
has_prefix (c ∷ cs) (p ∷ ps) = (c == p) && has_prefix cs ps

-- The variables of findLongestPrefix; `none` is -1.
pub record Best : Type 0 where
  pub found : Option ℕ
  pub len_found : ℕ

unfoldable pub better : List ℕ → ℕ → List ℕ → Best → Best
unfolding has_prefix
better s i pfx b =
    if has_prefix s pfx
    then (if leb (length pfx) b.len_found
        then b
        else record { found = some i; len_found = length pfx })
    else b

-- The loop from the index `i` on.
unfoldable pub prefix_loop : List ℕ → ℕ → List (List ℕ) → Best → Best
unfolding better
prefix_loop s i [] b = b
prefix_loop s i (pfx ∷ prefixes) b = prefix_loop s (suc i) prefixes (better s i pfx b)

unfoldable pub find_longest_prefix : List ℕ → List (List ℕ) → Option ℕ
unfolding prefix_loop
find_longest_prefix s prefixes =
    (prefix_loop s 0 prefixes (record { found = none; len_found = 0 })).found

-- `t` in nanoseconds, and the time in milliseconds that the disk has been busy.
pub record IoMeasurement : Type 0 where
  pub t : ℕ
  pub c : ℕ

abbrev pub half_second : ℕ
half_second = 500000000

abbrev pub millisecond : ℕ
millisecond = 1000000

-- A measurement that has left the window, seen from the last one.
unfoldable pub is_expired : ℕ → IoMeasurement → IoMeasurement → Bool
is_expired window frame_end m = leb (window + half_second) (frame_end.t - m.t)

-- The list without the expired elements at its back; the newest is in front.
unfoldable pub remove_expired : ℕ → IoMeasurement → List IoMeasurement → List IoMeasurement
unfolding is_expired
remove_expired window frame_end [] = []
remove_expired window frame_end (m ∷ ms) = elim (remove_expired window frame_end ms) [
  | [] ↦ if is_expired window frame_end m then [] else m ∷ []
  | k ∷ ks ↦ m ∷ k ∷ ks
]

-- The last element, or another if there is none.
unfoldable pub back_or : IoMeasurement → List IoMeasurement → IoMeasurement
back_or m [] = m
back_or m (k ∷ ks) = back_or k ks

pub data Utilization : Type 0 where
  percent : ℕ → Utilization
  not_available : Utilization

-- `frameEnd.c-frameBegin.c` is a uint64 and the percentage is cut to a uint8.
unfoldable pub percent_of : IoMeasurement → IoMeasurement → Utilization
percent_of frame_begin frame_end =
    let diff_time = frame_end.t - frame_begin.t in
    let diff_io = (frame_end.c + 2 ^ 64 - frame_begin.c) % 2 ^ 64 * millisecond in
    if diff_time == 0 then not_available else percent (100 * diff_io / diff_time % 256)

-- Utilization, after `measure` has put the measurement `m` in front of the others.
unfoldable pub utilization :
    ℕ → IoMeasurement → List IoMeasurement → Utilization × List IoMeasurement
unfolding remove_expired back_or percent_of
utilization window m ms =
    let kept = remove_expired window m (m ∷ ms) in
    (percent_of (back_or (back_or m ms) kept) m, kept)
