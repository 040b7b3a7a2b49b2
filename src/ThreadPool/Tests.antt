-- ===== src/ThreadPool/Tests.antt =====
-- cpp/thread/ThreadPool.cpp: a run of one worker from the start to the joins, and the theorems at it.
use language_test.Prelude.{◌<◌, ◌≡◌, ◌⊎◌, refl, arith, true, false, [], ◌∷◌}
use language_test.ThreadPool.Defs.{Pool, new, enqueue, section, notify_one, set_stop}
use language_test.ThreadPool.System.{Run, here, next, enqueues, notifies, sections, finishes, stops}
use language_test.ThreadPool.Progress.{joined_all, queued_progress}

abbrev one_task : Pool
one_task = record {
  tasks = 7 ∷ [];
  stop = false;
  waiting = 0;
  ready = 1;
  running = 0;
  exited = 0;
  pending = 1;
  enqueued = 7 ∷ [];
  started = [];
}

queued : Run (new 1) one_task
unfolding enqueue
queued = next here (enqueues 7 one_task refl)

abbrev finished : Pool
finished = record {
  tasks = [];
  stop = true;
  waiting = 0;
  ready = 0;
  running = 0;
  exited = 1;
  pending = 0;
  enqueued = 7 ∷ [];
  started = 7 ∷ [];
}

finished_run : Run (new 1) finished
unfolding enqueue section notify_one set_stop
finished_run =
    next
      (next
        (next
          (next (next (next here (enqueues 7 one_task refl)) (notifies (omega arith)))
            (sections (omega arith)))
          (finishes (omega arith)))
        stops)
      (sections (omega arith))

joined_all_example :
    (finished.started ≡ finished.enqueued) × (finished.running ≡ 0) × (finished.stop ≡ true)
joined_all_example = joined_all 1 finished (omega arith) finished_run refl

queued_progress_example :
    ((0 < one_task.pending) × (0 < (notify_one one_task).ready))
    ⊎ ((0 < one_task.ready) ⊎ (0 < one_task.running))
queued_progress_example = queued_progress 1 one_task (omega arith) queued (omega arith)
