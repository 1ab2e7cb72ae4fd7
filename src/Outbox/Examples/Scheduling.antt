-- ===== src/Outbox/Examples/Scheduling.antt =====
-- The theorems on the scheduler and the batcher at concrete inputs.
use jxt_core.Base.{pos, ◌≡◌, refl, ◌≢◌, true, false, none, some, [], ◌∷◌, arith}
use jxt_core.Outbox.Event.{Error, plain}
use jxt_core.Outbox.Repository.{err}
use jxt_core.Outbox.Scheduler.{OutboxScheduler, SchedulerMetrics, new_scheduler_metrics, poll}
use jxt_core.Outbox.Scheduler.Panics.{is_panicked, poll_panics}
use jxt_core.Outbox.Scheduler.Lifecycle.{
  start, stop, cancel, poll_loop_ends, live, new_life, Life, started_once, restart_panics,
}
use jxt_core.Outbox.AckBatcher.{
  adds, closes, wakes, finishes, run, new_batcher, joined, accepted, receive, is_ready, handle, add,
  close, flush,
}
use jxt_core.Outbox.AckBatcher.Batches.{joined-run}
use jxt_core.Outbox.Examples.Data.{accepting, refusal, publisher, world, scheduler}

-- A scheduler whose database is gone.
abbrev offline : OutboxScheduler
offline = record (scheduler accepting) {
  publisher = record (publisher accepting) {
    repo = record (publisher accepting).repo {
      find_pending_events = λ limit tenant store. (err refusal, store);
    };
  };
}

abbrev reported : Error
reported = record { kind = plain; text = "1 of 2 events failed" }

abbrev metrics : SchedulerMetrics
metrics = record new_scheduler_metrics { last_error = some reported }

poll_panics_example :
    is_panicked (
      poll offline (record { inner = world 0; metrics = some metrics; handled = []; alerted = [] }))
    ≡ true
poll_panics_example =
    poll_panics offline
      (record { inner = world 0; metrics = some metrics; handled = []; alerted = [] }) metrics
      reported refusal refl refl refl refl

started_once_example : live (start ∷ cancel ∷ poll_loop_ends ∷ stop ∷ stop ∷ []) new_life ≢ none
started_once_example =
    started_once (start ∷ cancel ∷ poll_loop_ends ∷ stop ∷ stop ∷ []) (omega arith)

abbrev stopped : Life
stopped = record {
  running = false;
  stop_closed = true;
  done_closed = true;
  cancelled = false;
  polls = 0;
}

restart_panics_example :
    (l' : Life) × (live (start ∷ []) stopped ≡ some l')
    × (l'.running ≡ true)
    × (l'.polls ≡ 1)
    × (live (stop ∷ []) l' ≡ none)
restart_panics_example = restart_panics stopped refl refl

joined-run_example :
    joined
      (run
        (adds "a" ∷ adds "b" ∷ wakes false ∷ adds "c" ∷ closes ∷ adds "d" ∷ finishes true ∷ [])
        (new_batcher (pos 2) (pos 5))).flushed
    ≡ "a" ∷ "b" ∷ "c" ∷ []
unfolding run receive is_ready handle add close flush new_batcher accepted
joined-run_example =
    joined-run (pos 2) (pos 5)
      (adds "a" ∷ adds "b" ∷ wakes false ∷ adds "c" ∷ closes ∷ adds "d" ∷ finishes true ∷ []) refl
