-- ===== src/ThreadPool/Defs.antt =====
-- cpp/thread/ThreadPool.cpp, class ThreadPool. A task is a number, and the workers are counted by
-- where they stand: blocked in the wait, about to take the mutex, running a task, returned.
use language_test.Prelude.{
  ℕ, ◌+◌, ◌-◌, Bool, true, false, Option, none, some, List, [], ◌∷◌, ◌++◌, if◌then◌else◌, ltb,
}

-- `pending` counts the calls of notify_one that are still to come; `enqueued` and `started` are the
-- tasks that were put in and taken out so far.
pub record Pool : Type 0 where
  pub tasks : List ℕ
  pub stop : Bool
  pub waiting : ℕ
  pub ready : ℕ
  pub running : ℕ
  pub exited : ℕ
  pub pending : ℕ
  pub enqueued : List ℕ
  pub started : List ℕ

-- The constructor launches the workers.
abbrev pub new : ℕ → Pool
new threads = record {
  tasks = [];
  stop = false;
  waiting = 0;
  ready = threads;
  running = 0;
  exited = 0;
  pending = 0;
  enqueued = [];
  started = [];
}

-- The section of a worker under the mutex: its lambda from the lock to the end of the block. It is
-- called where a worker is ready.
unfoldable pub section : Pool → Pool
section p = elim p.tasks [
  | [] ↦
      if p.stop
      then record p { ready = p.ready - 1; exited = p.exited + 1 }
      else record p { ready = p.ready - 1; waiting = p.waiting + 1 }
  | t ∷ ts ↦ record p {
    ready = p.ready - 1;
    running = p.running + 1;
    tasks = ts;
    started = p.started ++ t ∷ [];
  }
]

-- `enqueue` up to its notify_one; `none` is the exception.
unfoldable pub enqueue : ℕ → Pool → Option Pool
enqueue t p =
    if p.stop
    then none
    else some (record p {
      tasks = p.tasks ++ t ∷ [];
      pending = p.pending + 1;
      enqueued = p.enqueued ++ t ∷ [];
    })

-- `condition.notify_one`
unfoldable pub notify_one : Pool → Pool
notify_one p =
    if ltb 0 p.waiting
    then record p { pending = p.pending - 1; waiting = p.waiting - 1; ready = p.ready + 1 }
    else record p { pending = p.pending - 1 }

-- The destructor: its section, its notify_all, and the test that every worker can be joined.
unfoldable pub set_stop : Pool → Pool
set_stop p = record p { stop = true }

unfoldable pub notify_all : Pool → Pool
notify_all p = record p { waiting = 0; ready = p.ready + p.waiting }
