-- ===== src/MemPool/Tests.antt =====
-- cpp/memory/MemPool2.cpp: the first calls of its main, and the theorems at them.
use mathlib.Core.List.{Mem}
use language_test.Prelude.{◌≡◌, refl, arith, some, [], ◌∷◌, ◌>>=◌, Returns}
use language_test.MemPool.Defs.{MemPool, malloc, free}
use language_test.MemPool.Runs.{Uses, Uses-malloc}

-- Two nodes to a block: one that is in use, both, and one again after a free.
abbrev one : MemPool
one = record { free_nodes = 1 ∷ []; blocks = 0 ∷ [] }

abbrev full : MemPool
full = record { free_nodes = []; blocks = 0 ∷ [] }

full-Uses : Uses 2 full (1 ∷ 0 ∷ [])
unfolding malloc
full-Uses = Uses.allocated (Uses.allocated {new = one} Uses.start refl) refl

Uses-malloc_example : Returns (malloc 2 (free 0 full)) (λ r. ¬ Mem (r.0) (1 ∷ []))
Uses-malloc_example =
    Uses-malloc 2 (free 0 full) (1 ∷ []) (omega arith) (Uses.released 0 (1 ∷ []) [] full-Uses)

third : (malloc 2 full >>= λ r. some r.0) ≡ some 2
unfolding malloc
third = refl
