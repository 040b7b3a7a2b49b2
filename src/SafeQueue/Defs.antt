-- ===== src/SafeQueue/Defs.antt =====
-- cpp/stl/safeQueue.cpp, class Queue. A thread holds the mutex from its lock, or its waking, up to
-- its return or its wait; each such critical section is one step. quit and finished take no mutex:
-- each is a step too, and stands between two others.
use language_test.Prelude.{
  ℕ, ◌+◌, Bool, true, false, not, ◌&&◌, Option, none, some, List, [], ◌∷◌, ◌++◌, ltb, if◌then◌else◌,
  length,
}

-- `full_waiters` and `empty_waiters` count the threads that wait on `_fullQue` and `_empty`.
pub record Queue : Type 0 where
  pub items : List ℕ
  pub size_max : ℕ
  pub quitting : Bool
  pub finishing : Bool
  pub full_waiters : ℕ
  pub empty_waiters : ℕ

abbrev pub new : ℕ → Queue
new size_max = record {
  items = [];
  size_max = size_max;
  quitting = false;
  finishing = false;
  full_waiters = 0;
  empty_waiters = 0;
}

-- How a critical section of `push` or `pop` ends: it returns its answer, or it waits.
pub data Outcome : Type 0 where
  returns : Bool → Outcome
  waits : Outcome

-- A section of `push`: a turn of its loop.
unfoldable pub push : ℕ → Queue → Outcome × Queue
push datum q =
    if not q.quitting && not q.finishing
    then (if ltb (length q.items) q.size_max
        then (returns true, record q { items = q.items ++ datum ∷ []; empty_waiters = 0 })
        else (waits, record q { full_waiters = q.full_waiters + 1 }))
    else (returns false, q)

-- A section of `pop`, with the element that it hands over.
unfoldable pub pop : Queue → Outcome × Option ℕ × Queue
pop q =
    if not q.quitting
    then elim q.items [
      | x ∷ xs ↦ (returns true, some x, record q { items = xs; full_waiters = 0 })
      | [] ↦
          if q.finishing
          then (returns false, none, q)
          else (waits, none, record q { empty_waiters = q.empty_waiters + 1 })
    ]
    else (returns false, none, q)

unfoldable pub length_of : Queue → ℕ
length_of q = length q.items

unfoldable pub quit : Queue → Queue
quit q = record q { quitting = true; empty_waiters = 0; full_waiters = 0 }

-- `finished` notifies `_empty` only.
unfoldable pub finished : Queue → Queue
finished q = record q { finishing = true; empty_waiters = 0 }
