-- ===== src/SafeQueue/Tests.antt =====
-- cpp/stl/safeQueue.cpp: a run, and the theorems at it.
use language_test.Prelude.{◌≤◌, ◌≡◌, arith, [], ◌++◌, length}
use language_test.SafeQueue.Defs.{Queue, push, pop, new}
use language_test.SafeQueue.Laws.{Run, done, then_step, pushes, pops, run-items, accepted, taken}

abbrev pushed : Queue
pushed = (push 7 (new 4)).1

abbrev popped : Queue
popped = (pop pushed).2

abbrev push_pop : Run (new 4) (([] ++ accepted 7 (new 4)) ++ []) (([] ++ []) ++ taken pushed) popped
push_pop =
    then_step (new 4) pushed popped ([] ++ accepted 7 (new 4)) ([] ++ []) [] (taken pushed)
      (then_step (new 4) (new 4) pushed [] [] (accepted 7 (new 4)) [] (done (new 4))
        (pushes 7 (new 4)))
      (pops pushed)

run-items_example :
    ((new 4).items ++ (([] ++ accepted 7 (new 4)) ++ [])
      ≡ (([] ++ []) ++ taken pushed) ++ popped.items)
    × (popped.size_max ≡ (new 4).size_max)
    × (length popped.items ≤ (new 4).size_max)
run-items_example =
    run-items (new 4) popped (([] ++ accepted 7 (new 4)) ++ []) (([] ++ []) ++ taken pushed)
      push_pop (omega arith)
