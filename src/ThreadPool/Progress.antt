-- ===== src/ThreadPool/Progress.antt =====
-- cpp/thread/ThreadPool.cpp: the destructor's joins come after the last task, and no task is forgotten.
use language_test.Prelude.{
  ℕ, ltb, ◌<◌, ◌≡◌, ◌⊎◌, le_or_lt, inl, inr, sym, ap, ◌∙◌, ◌++◌, append-nil, length, arith, true,
}
use language_test.ThreadPool.Defs.{Pool, new, notify_one}
use language_test.ThreadPool.System.{Run, new-IsValid, Run-IsValid}

-- In a pool with workers, once every worker has returned (which is what the destructor waits for),
-- every task that was enqueued has been started, in the order of the calls, none is running, and
-- the pool was stopped.
pub joined_all :
    (threads : ℕ) (p : Pool)
    → 0 < threads
    → Run (new threads) p
    → p.exited ≡ threads
    → (p.started ≡ p.enqueued) × (p.running ≡ 0) × (p.stop ≡ true)
joined_all threads p z run e =
    let i = Run-IsValid threads z run (new-IsValid threads) in
    elim i.ended [
      | inl d ↦ absurd (omega arith)
      | inr (s, t) ↦ (
        sym (append-nil p.started) ∙ ap (λ l. p.started ++ l) (sym t) ∙ i.order,
        omega (arith, i.counted),
        s,
      )
    ]

-- Where tasks are queued, in a pool with workers, no task is forgotten by workers that all wait or have all
-- returned: some worker is about to look at the queue or is running a task, or a notify_one is still to
-- come after which a worker is about to look at the queue.
pub queued_progress :
    (threads : ℕ) (p : Pool)
    → 0 < threads
    → Run (new threads) p
    → 0 < length p.tasks
    → ((0 < p.pending) × (0 < (notify_one p).ready)) ⊎ ((0 < p.ready) ⊎ (0 < p.running))
unfolding notify_one
queued_progress threads p z run h =
    let i = Run-IsValid threads z run (new-IsValid threads) in
    let none_returned : p.exited ≡ 0 = elim i.ended [
      | inl d ↦ d
      | inr (s, t) ↦ absurd (omega (arith, h, ap length t))
    ] in
    elim (le_or_lt p.ready 0) [
      | inr g ↦ inr (inl g)
      | inl l ↦ elim (le_or_lt p.running 0) [
        | inr g ↦ inr (inr g)
        | inl m ↦ elim i.awake [
          | inl e ↦ absurd (omega arith)
          | inr (inl e) ↦
              let w : ltb 0 p.waiting ≡ true = ground (arith, l, m, none_returned, i.counted, z) in
              inl (e, rw (w, notify_one) (omega arith))
          | inr (inr e) ↦ absurd (omega arith)
        ]
      ]
    ]
