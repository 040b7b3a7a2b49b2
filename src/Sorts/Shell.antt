-- ===== src/Sorts/Shell.antt =====
-- cpp/sort/shellSort.cpp. shellSort2 is shellSort1 with shifts for the divisions by 2.
use language_test.Prelude.{
  ℕ, zero, suc, ◌+◌, ◌-◌, ◌/◌, Option, none, some, List, ltb, ◌==◌, if◌then◌else◌, ◌>>=◌, get_elem?,
  length,
}
use language_test.Vector.{swap}
pub mod Laws

-- The loop over j, with `upper` for j + gap: it ends where j is negative.
unfoldable pub shell_sink : ℕ → ℕ → ℕ → List ℕ → Option (List ℕ)
shell_sink zero upper gap vec = none
shell_sink (suc fuel) upper gap vec =
    if ltb upper gap
    then some vec
    else (get_elem? vec (upper - gap) >>= λ x. get_elem? vec upper >>= λ y.
        (if ltb y x then swap vec (upper - gap) upper else some vec) >>= λ new.
        shell_sink fuel (upper - gap) gap new)

-- The loop over i, with the number of rounds left.
unfoldable pub shell_pass : ℕ → ℕ → ℕ → List ℕ → Option (List ℕ)
shell_pass zero i gap vec = some vec
shell_pass (suc n) i gap vec = shell_sink (i + 1) i gap vec >>= λ new. shell_pass n (i + 1) gap new

-- The loop over the gap.
unfoldable pub shell_gaps : ℕ → ℕ → List ℕ → Option (List ℕ)
shell_gaps zero gap vec = none
shell_gaps (suc fuel) gap vec =
    if gap == 0
    then some vec
    else (shell_pass (length vec - gap) gap gap vec >>= λ new. shell_gaps fuel (gap / 2) new)

unfoldable pub shell_sort : List ℕ → Option (List ℕ)
shell_sort vec = shell_gaps (length vec + 1) (length vec / 2) vec
