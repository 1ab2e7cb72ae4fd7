-- ===== src/EventBus/Pipeline/Examples.antt =====
-- The pipeline's theorems on a run: three messages are received, complete out of order, and are
-- marked in order; one is a plain message whose handler fails.
use jxt_core.Base.{ℕ, ◌≤◌, ◌<◌, ◌≡◌, refl, Bool, true, false, none, List, [], ◌∷◌, arith, length}
use mathlib.Core.List.{Memᴰ}
use jxt_core.EventBus.Pipeline.Inflight.{
  InflightEntry, Inflight, find, ready, advance_frontier, advance_loop, advance_frontier_stops, put,
  remove,
}
use jxt_core.EventBus.Pipeline.Advance.{Facts, advance_frontier-Facts}
use jxt_core.EventBus.Pipeline.Defs.{
  Event, message, completion, Pipe, new_pipe, step, may_receive, on_message, on_completion, settle,
  decide_commitable, commit, commit_from, mark_last, goes_on,
}
use jxt_core.EventBus.Pipeline.Safety.{Resolved, Runs, started, received_next}
use jxt_core.EventBus.Pipeline.NoLoss.{marked-Resolved}
use jxt_core.EventBus.Pipeline.Window.{length-Runs}

abbrev entry : Bool → InflightEntry
entry done = record { is_envelope = false; settled = done; dlq_pending = false; commitable = done }

abbrev inflight : Inflight
inflight = (6, entry true) ∷ (5, entry true) ∷ (7, entry false) ∷ []

advance_frontier_stops_example :
    ready (find (advance_frontier inflight 5).frontier (advance_frontier inflight 5).inflight)
    ≡ false
advance_frontier_stops_example = advance_frontier_stops inflight 5

advance_frontier-Facts_example :
    Facts (record { inflight = inflight; frontier = 5; last = none }) (advance_frontier inflight 5)
advance_frontier-Facts_example = advance_frontier-Facts inflight 5

-- Offsets 5, 6 arrive; 6 succeeds, then the handler of 5 fails.
run_1 : Runs 2 (message 5 false ∷ []) (step (message 5 false) new_pipe)
unfolding may_receive goes_on
run_1 = received_next (message 5 false) started refl (λ o b e r c m. absurd (nothing r c m))
  where
    nothing : (r : ℕ) (c : Bool) → Memᴰ (message r c) [] → ⊥
    nothing r c m = elim m [ ]

one_message :
    (o : ℕ) (b : Bool)
    → message 6 true ≡ message o b
    → (r : ℕ) (c : Bool) → Memᴰ (message r c) (message 5 false ∷ [])
    → r < o
one_message o b e r c (Memᴰ.head q) =
    let six : 6 ≡ o = cc e in let five : r ≡ 5 = cc q in omega arith
one_message o b e r c (Memᴰ.tail m) = elim m [ ]

no_message :
    (k : ℕ) (f : Bool) (es : List Event) (o : ℕ) (b : Bool)
    → completion k f false ≡ message o b
    → (r : ℕ) (c : Bool) → Memᴰ (message r c) es
    → r < o
no_message k f es o b e r c m = absurd (clash e)
  where
    clash : completion k f false ≡ message o b → ⊥
    clash e = cc e

abbrev received : Pipe
received = step (message 6 true) (step (message 5 false) new_pipe)

abbrev half : Pipe
half = step (completion 6 false false) received

abbrev events : List Event
events = message 5 false ∷ message 6 true ∷ completion 6 false false ∷ completion 5 true false ∷ []

run_4 : Runs 2 events (step (completion 5 true false) half)
unfolding may_receive goes_on step on_message on_completion settle decide_commitable commit
    commit_from put find ready advance_frontier advance_loop remove mark_last
run_4 =
    received_next (completion 5 true false)
      (received_next (completion 6 false false)
        (received_next (message 6 true) run_1 refl one_message) refl
        (no_message 6 false (message 5 false ∷ message 6 true ∷ [])))
      refl (no_message 5 true (message 5 false ∷ message 6 true ∷ completion 6 false false ∷ []))

marked-Resolved_example : Resolved events 5
unfolding step on_message on_completion settle decide_commitable commit commit_from put find ready
    advance_frontier advance_loop remove mark_last
marked-Resolved_example =
    marked-Resolved 2 events (step (completion 5 true false) half) run_4 6 5 false (Memᴰ.head refl)
      (Memᴰ.head refl) (omega arith)

length-Runs_example : length (step (completion 5 true false) half).inflight ≤ 2
length-Runs_example = length-Runs 2 events (step (completion 5 true false) half) run_4
