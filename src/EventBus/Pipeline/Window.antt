-- ===== src/EventBus/Pipeline/Window.antt =====
-- The window and what is in flight (sdk/pkg/eventbus/partition_pipeline.go).
use jxt_core.Base.{
  ℕ, zero, suc, ◌+◌, ◌≤◌, ◌<◌, length, ◌≡◌, inl, inr, Bool, true, false, Option, none, some, List,
  [], arith, Option-cases, Bool-cases,
}
use jxt_core.EventBus.Pipeline.Inflight.{
  find, remove, ready, Advanced, advance_loop, advance_frontier, length-remove, length-put,
  length-put_found,
}
use jxt_core.EventBus.Pipeline.Safety.{Runs, started, received_next}
use jxt_core.EventBus.Pipeline.Defs.{
  Event, message, claim_ended, completion, dlq_result, context_done, Pipe, step, commit,
  commit_from, on_message, on_completion, on_dlq_result, settle, settle_flushing, flush_completion,
  may_receive,
}

length-advance_loop :
    (fuel : ℕ) (a : Advanced) → length (advance_loop fuel a).inflight ≤ length a.inflight
unfolding advance_loop
length-advance_loop zero a = omega arith
length-advance_loop (suc fuel) a =
    let next : Advanced = record {
      inflight = remove a.frontier a.inflight;
      frontier = a.frontier + 1;
      last = some a.frontier;
    } in
    elim (Bool-cases (ready (find a.frontier a.inflight))) [
      | inl go ↦
          rw go (omega (arith, length-advance_loop fuel next, length-remove a.frontier a.inflight))
      | inr stop ↦ rw stop (omega arith)
    ]

length-commit_from :
    (o : Option ℕ) (p : Pipe) → length (commit_from o p).inflight ≤ length p.inflight
unfolding commit_from advance_frontier
length-commit_from none p = omega arith
length-commit_from (some f) p =
    length-advance_loop (length p.inflight)
      (record { inflight = p.inflight; frontier = f; last = none })

length-commit : (p : Pipe) → length (commit p).inflight ≤ length p.inflight
unfolding commit
length-commit p = length-commit_from p.frontier p

length-on_completion :
    (o : ℕ) (fails canceled : Bool) (p : Pipe)
    → length (on_completion o fails canceled p).inflight ≤ length p.inflight
unfolding on_completion
length-on_completion o fails canceled p = elim (Option-cases (find o p.inflight)) [
  | inl missing ↦ simp (missing, on_completion) (omega arith)
  | inr (e, found) ↦
      simp (found, on_completion)
        (omega
          (arith, length-commit _, length-put_found o (settle fails canceled e) p.inflight e found))
]

length-flush_completion :
    (o : ℕ) (fails canceled : Bool) (p : Pipe)
    → length (flush_completion o fails canceled p).inflight ≤ length p.inflight
unfolding flush_completion
length-flush_completion o fails canceled p = elim (Option-cases (find o p.inflight)) [
  | inl missing ↦ simp (missing, flush_completion) (omega arith)
  | inr (e, found) ↦ elim (Bool-cases e.settled) [
    | inl settled ↦ simp (found, settled, flush_completion) (omega arith)
    | inr unsettled ↦
        simp (found, unsettled, flush_completion)
          (omega (
            arith,
            length-commit _,
            length-put_found o (settle_flushing fails canceled e) p.inflight e found,
          ))
  ]
]

length-on_dlq_result :
    (o : ℕ) (delivered : Bool) (p : Pipe)
    → length (on_dlq_result o delivered p).inflight ≤ length p.inflight
unfolding on_dlq_result
length-on_dlq_result o delivered p = elim (Option-cases (find o p.inflight)) [
  | inl missing ↦ simp (missing, on_dlq_result) (omega arith)
  | inr (e, found) ↦
      simp (found, on_dlq_result)
        (omega (
          arith,
          length-commit _,
          length-put_found o (record e { dlq_pending = false; commitable = delivered }) p.inflight e
              found,
        ))
]

length-step :
    (window : ℕ) (e : Event) (p : Pipe)
    → may_receive window e p ≡ true
    → length p.inflight ≤ window
    → length (step e p).inflight ≤ window
unfolding step may_receive on_message
length-step window (message o b) p may h =
    let room : length p.inflight < window = ground arith in omega (arith, length-put o _ p.inflight)
length-step window claim_ended p may h = h
length-step window (completion o fails canceled) p may h =
    ground
      (arith, length-on_completion o fails canceled p, length-flush_completion o fails canceled p)
length-step window (dlq_result o delivered) p may h =
    omega (arith, length-on_dlq_result o delivered p)
length-step window context_done p may h = h

-- In every run of the pipeline at most `window` messages are in flight.
pub length-Runs :
    (window : ℕ) (es : List Event) (p : Pipe) → Runs window es p → length p.inflight ≤ window
length-Runs window [] p started = omega arith
length-Runs window es p (received_next {es = ds} {p = q} e run may above) =
    length-step window e q may (length-Runs window ds q run)
