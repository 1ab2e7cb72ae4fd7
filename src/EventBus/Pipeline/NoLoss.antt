-- ===== src/EventBus/Pipeline/NoLoss.antt =====
-- What a mark says of the messages received (sdk/pkg/eventbus/partition_pipeline.go).
use jxt_core.Base.{
  ℕ, ◌≤◌, ◌<◌, ◌==◌, ◌≡◌, refl, inl, inr, Bool, true, false, Option, none, some, List, [], ◌∷◌,
  ◌++◌, arith, Option-cases, Bool-cases,
}
use mathlib.Core.Path.{subst}
use mathlib.Core.List.{Memᴰ}
use mathlib.Core.List.Memᴰ
use jxt_core.EventBus.Pipeline.Inflight.{InflightEntry, find, put, find-put}
use jxt_core.EventBus.Pipeline.Safety.{
  Resolved, Runs, started, received_next, Resolved-append, AtLeast, Passed, UpTo, Above, Inv,
}
use jxt_core.EventBus.Pipeline.Steps.{
  last, mem-snoc, append-Inv, on_completion-Inv, flush_completion-Inv, on_dlq_result-Inv,
}
use jxt_core.EventBus.Pipeline.Defs.{
  Event, message, claim_ended, completion, dlq_result, context_done, Pipe, new_pipe, step,
  on_message, first_frontier,
}

AtLeast-first : (f : Option ℕ) (o k : ℕ) → AtLeast f k → AtLeast (first_frontier f o) k
AtLeast-first none o k h = absurd h
AtLeast-first (some f) o k h = h

AtLeast-new : (f : Option ℕ) (o : ℕ) → UpTo f o → AtLeast (first_frontier f o) o
AtLeast-new none o h = omega arith
AtLeast-new (some f) o h = h

Passed-first : (f : Option ℕ) (o m : ℕ) → Passed f m → Passed (first_frontier f o) m
Passed-first none o m h = absurd h
Passed-first (some f) o m h = h

UpTo-first : (f : Option ℕ) (o k : ℕ) → o < k → UpTo f k → UpTo (first_frontier f o) k
UpTo-first none o k h u = omega arith
UpTo-first (some f) o k h u = u

message_offset : (k o : ℕ) (b c : Bool) → message k b ≡ message o c → k ≡ o
message_offset k o b c e = cc e

module _ (es : List Event) (p : Pipe) (o : ℕ) (b : Bool) (above : Above o es) (v : Inv es p) where
  now : List Event
  now = es ++ message o b ∷ []

  entry : InflightEntry
  entry = record { is_envelope = b; settled = false; dlq_pending = false; commitable = false }

  at_new :
      (A : ℕ → InflightEntry → Type 0)
      → A o entry
      → ((k : ℕ) (x : InflightEntry) → find k p.inflight ≡ some x → A k x)
      → (k : ℕ) (x : InflightEntry) → find k (put o entry p.inflight) ≡ some x
      → A k x
  at_new A new old k x h = elim (Bool-cases (o == k)) [
    | inl same ↦
        let is : o ≡ k = ground arith in
        let it : entry ≡ x = ground (arith, find-put o k entry p.inflight) in
        subst (λ j. A j x) is (subst (A o) it new)
    | inr other ↦ old k x (ground (arith, find-put o k entry p.inflight))
  ]

  gone_new :
      (k : ℕ) (c : Bool)
      → Memᴰ (message k c) now
      → find k (put o entry p.inflight) ≡ none
      → Resolved now k
  unfolding now
  gone_new k c m h = elim (mem-snoc es (message k c) (message o b) m) [
    | inl old ↦
        Resolved-append es (message o b ∷ []) k
          (v.gone k c old (ground (arith, above k c old, find-put o k entry p.inflight)))
    | inr new ↦ absurd (ground (arith, message_offset k o c b new, find-put o k entry p.inflight))
  ]

  on_message-Inv : Inv now (on_message o b p)
  unfolding on_message now entry
  on_message-Inv = record {
    ahead =
        at_new (λ k x. AtLeast (first_frontier p.frontier o) k)
          (AtLeast-new p.frontier o (v.reach o above))
          (λ k x h. AtLeast-first p.frontier o k (v.ahead k x h));
    received =
        at_new (λ k x. Memᴰ (message k x.is_envelope) now) (last es (message o b))
          (λ k x h. Memᴰ.append_left (message o b ∷ []) (v.received k x h));
    done =
        at_new (λ k x. x.commitable ≡ true → Resolved now k) (λ h. absurd (ground arith))
          (λ k x h c. Resolved-append es (message o b ∷ []) k (v.done k x h c));
    gone = gone_new;
    marks = λ m h. Passed-first p.frontier o m (v.marks m h);
    reach = λ k all.
        UpTo-first p.frontier o k (all o b (last es (message o b)))
          (v.reach k (λ r c m. all r c (Memᴰ.append_left (message o b ∷ []) m)));
  }

step-Inv :
    (es : List Event) (p : Pipe) (e : Event)
    → ((o : ℕ) (b : Bool) → e ≡ message o b → Above o es)
    → Inv es p
    → Inv (es ++ e ∷ []) (step e p)
unfolding step now
step-Inv es p (message o b) above v = on_message-Inv es p o b (above o b refl) v
step-Inv es p claim_ended above v =
    let v' = append-Inv es claim_ended p tt v in
    record {
      ahead = v'.ahead;
      received = v'.received;
      done = v'.done;
      gone = v'.gone;
      marks = v'.marks;
      reach = v'.reach;
    }
step-Inv es p (completion o fails canceled) above v =
    let e = completion o fails canceled in
    let v' = append-Inv es e p tt v in
    elim (Bool-cases p.flushing) [
      | inl flushing ↦
          simp (flushing) (flush_completion-Inv (es ++ e ∷ []) p o fails canceled (last es e) v')
      | inr running ↦
          simp (running) (on_completion-Inv (es ++ e ∷ []) p o fails canceled (last es e) v')
    ]
step-Inv es p (dlq_result o delivered) above v =
    let e = dlq_result o delivered in
    on_dlq_result-Inv (es ++ e ∷ []) p o delivered (last es e) (append-Inv es e p tt v)
step-Inv es p context_done above v =
    let v' = append-Inv es context_done p tt v in
    record {
      ahead = v'.ahead;
      received = v'.received;
      done = v'.done;
      gone = v'.gone;
      marks = v'.marks;
      reach = v'.reach;
    }

no_messages : (r : ℕ) (b : Bool) → Memᴰ (message r b) [] → ⊥
no_messages r b m = elim m [ ]

started-Inv : Inv [] new_pipe
unfolding find
started-Inv = record {
  ahead = λ k e h. absurd (ground arith);
  received = λ k e h. absurd (ground arith);
  done = λ k e h c. absurd (ground arith);
  gone = λ k b m h. absurd (no_messages k b m);
  marks = λ m h. elim h [ ];
  reach = λ o above. tt;
}

Runs-Inv : (window : ℕ) (es : List Event) (p : Pipe) → Runs window es p → Inv es p
Runs-Inv window [] p started = started-Inv
Runs-Inv window es p (received_next {es = ds} {p = q} e run may above) =
    step-Inv ds q e above (Runs-Inv window ds q run)

not_both : (f : Option ℕ) (r m : ℕ) → AtLeast f r → Passed f m → r ≤ m → ⊥
not_both none r m h h' le = h
not_both (some f) r m h h' le = omega arith

-- When a run of the pipeline has marked the message of offset m, every message it received at an
-- offset up to m is resolved: its handler succeeded, or it is a plain message whose handler failed,
-- or the DLQ took it. This holds in whatever order the completions and the DLQ results come, through
-- cancellation and flush too, when the offsets the claim delivers grow.
pub marked-Resolved :
    (window : ℕ) (es : List Event) (p : Pipe)
    → Runs window es p
    → (m r : ℕ) (b : Bool) → Memᴰ m p.marked
    → Memᴰ (message r b) es
    → r ≤ m
    → Resolved es r
marked-Resolved window es p run m r b marked received le =
    let v = Runs-Inv window es p run in
    elim (Option-cases (find r p.inflight)) [
      | inl missing ↦ v.gone r b received missing
      | inr (e, found) ↦ absurd (not_both p.frontier r m (v.ahead r e found) (v.marks m marked) le)
    ]
