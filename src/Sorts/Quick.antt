-- ===== src/Sorts/Quick.antt =====
-- cpp/sort/quick_sort.cpp, class Solution. `rand n` is what the n-th call of rand() returns, and `calls`
-- counts the calls. The right bound of a range is `end`, one above `r` of the source, which reaches
-- -1; `store` is one above `small` of the loop.
use language_test.Prelude.{
  ℕ, zero, suc, ◌+◌, ◌-◌, ◌%◌, Option, none, some, List, leb, if◌then◌else◌, ◌>>=◌, get_elem?,
  length,
}
use language_test.Vector.{swap}
mod Partition
pub mod Laws

-- A round of the loop of `partition` at `big`, where the element is x.
abbrev pub part_step : ℕ → ℕ → ℕ → ℕ → List ℕ → Option (List ℕ × ℕ)
part_step x big store m_v vec =
    if leb x m_v then (swap vec store big >>= λ new. some (new, store + 1)) else some (vec, store)

-- The loop of `partition` from `big`, with the number of rounds left.
unfoldable pub part_loop : ℕ → ℕ → ℕ → ℕ → List ℕ → Option (List ℕ × ℕ)
part_loop zero big store m_v vec = some (vec, store)
part_loop (suc n) big store m_v vec = get_elem? vec big >>= λ x.
    part_step x big store m_v vec >>= λ s. part_loop n (big + 1) (s.1) m_v (s.0)

-- `partition` of the range from l to r, for a result of rand().
unfoldable pub partition : ℕ → List ℕ → ℕ → ℕ → Option (List ℕ × ℕ)
partition random vec l r = swap vec r (random % (r - l + 1) + l) >>= λ chosen.
    get_elem? chosen r >>= λ m_v.
    part_loop (r - l) l l m_v chosen >>= λ s. swap (s.0) (s.1) r >>= λ new. some (new, s.1)

module _ (rand : ℕ → ℕ) where
  -- `sortArray(nums, l, r)`; the result has the calls of rand() made so far.
  unfoldable pub sort_range : ℕ → ℕ → List ℕ → ℕ → ℕ → Option (List ℕ × ℕ)
  sort_range zero calls vec l end = none
  sort_range (suc fuel) calls vec l end =
      if leb end (l + 1)
      then some (vec, calls)
      else (partition (rand calls) vec l (end - 1) >>= λ s.
          sort_range fuel (calls + 1) (s.0) l (s.1) >>= λ t.
          sort_range fuel (t.1) (t.0) (s.1 + 1) end)

  -- `sortArray(nums)`
  unfoldable pub sort_array : List ℕ → Option (List ℕ)
  sort_array vec = sort_range (length vec + 1) 0 vec 0 (length vec) >>= λ s. some (s.0)
