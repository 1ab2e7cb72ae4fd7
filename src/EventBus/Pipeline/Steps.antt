-- ===== src/EventBus/Pipeline/Steps.antt =====
-- The invariant of the runs under each step (sdk/pkg/eventbus/partition_pipeline.go).
use jxt_core.Base.{
  ℕ, ◌==◌, ◌≡◌, refl, ◌⊎◌, inl, inr, Bool, true, false, some, List, [], ◌∷◌, ◌++◌, arith,
  Option-cases, Bool-cases,
}
use mathlib.Core.Path.{subst, sym}
use mathlib.Core.List.{Memᴰ}
use mathlib.Core.List.Memᴰ
use jxt_core.EventBus.Pipeline.Inflight.{InflightEntry, find, put, find-put}
use jxt_core.EventBus.Pipeline.Safety.{
  Resolved, succeeded, dropped, in_dlq, Resolved-append, AtLeast, Inv, commit-Inv,
}
use jxt_core.EventBus.Pipeline.Defs.{
  Event, message, claim_ended, completion, dlq_result, context_done, Pipe, on_completion,
  on_dlq_result, settle, settle_flushing, flush_completion, decide_commitable,
}

pub last : (es : List Event) (e : Event) → Memᴰ e (es ++ e ∷ [])
last es e = Memᴰ.append_right es (Memᴰ.head refl)

pub mem-snoc : (es : List Event) (d e : Event) → Memᴰ d (es ++ e ∷ []) → Memᴰ d es ⊎ (d ≡ e)
mem-snoc es d e h = elim (Memᴰ.append_cases es h) [ inl old ↦ inl old | inr new ↦ inr (only new) ]
  where
    only : Memᴰ d (e ∷ []) → d ≡ e
    only (Memᴰ.head q) = q
    only (Memᴰ.tail t) = elim t [ ]

-- An event that brings no message.
abbrev pub Quiet : Event → Type 0
Quiet (message o b) = ⊥
Quiet claim_ended = Unit
Quiet (completion o f c) = Unit
Quiet (dlq_result o d) = Unit
Quiet context_done = Unit

quiet :
    (es : List Event) (e : Event)
    → Quiet e
    → (k : ℕ) (b : Bool) → Memᴰ (message k b) (es ++ e ∷ [])
    → Memᴰ (message k b) es
quiet es e q k b h = elim (mem-snoc es (message k b) e h) [
  | inl old ↦ old
  | inr same ↦ absurd (subst Quiet (sym same) q)
]

pub append-Inv :
    (es : List Event) (e : Event) (p : Pipe) → Quiet e → Inv es p → Inv (es ++ e ∷ []) p
append-Inv es e p q v = record {
  ahead = v.ahead;
  received = λ k x h. Memᴰ.append_left (e ∷ []) (v.received k x h);
  done = λ k x h c. Resolved-append es (e ∷ []) k (v.done k x h c);
  gone = λ k b m h. Resolved-append es (e ∷ []) k (v.gone k b (quiet es e q k b m) h);
  marks = v.marks;
  reach = λ o above. v.reach o (λ r b m. above r b (Memᴰ.append_left (e ∷ []) m));
}

-- A message in flight gets a new entry of the same kind.
module _ (es : List Event) (p : Pipe) (o : ℕ) (e e' : InflightEntry)
    (found : find o p.inflight ≡ some e) (kind : e'.is_envelope ≡ e.is_envelope)
    (may : e'.commitable ≡ true → Resolved es o) where
  at :
      (A : ℕ → InflightEntry → Type 0)
      → A o e'
      → ((k : ℕ) (x : InflightEntry) → find k p.inflight ≡ some x → A k x)
      → (k : ℕ) (x : InflightEntry) → find k (put o e' p.inflight) ≡ some x
      → A k x
  at A new old k x h = elim (Bool-cases (o == k)) [
    | inl same ↦
        let is : o ≡ k = ground arith in
        let it : e' ≡ x = ground (arith, find-put o k e' p.inflight) in
        subst (λ j. A j x) is (subst (A o) it new)
    | inr other ↦ old k x (ground (arith, find-put o k e' p.inflight))
  ]

  put-Inv : Inv es p → Inv es (record p { inflight = put o e' p.inflight })
  put-Inv v = record {
    ahead = at (λ k x. AtLeast p.frontier k) (v.ahead o e found) v.ahead;
    received =
        at (λ k x. Memᴰ (message k x.is_envelope) es)
          (subst (λ b. Memᴰ (message o b) es) (sym kind) (v.received o e found)) v.received;
    done = at (λ k x. x.commitable ≡ true → Resolved es k) may v.done;
    gone = λ k b m h. v.gone k b m (ground (arith, found, find-put o k e' p.inflight));
    marks = v.marks;
    reach = v.reach;
  }

settle-is_envelope :
    (fails canceled : Bool) (e : InflightEntry)
    → (settle fails canceled e).is_envelope ≡ e.is_envelope
unfolding settle decide_commitable
settle-is_envelope fails true e = refl
settle-is_envelope false false e = refl
settle-is_envelope true false e = ground arith

settle_flushing-is_envelope :
    (fails canceled : Bool) (e : InflightEntry)
    → (settle_flushing fails canceled e).is_envelope ≡ e.is_envelope
unfolding settle_flushing decide_commitable
settle_flushing-is_envelope fails true e = refl
settle_flushing-is_envelope false false e = refl
settle_flushing-is_envelope true false e = ground arith

module _ (es : List Event) (p : Pipe) (o : ℕ) (e : InflightEntry)
    (found : find o p.inflight ≡ some e) (v : Inv es p) where
  plain : e.is_envelope ≡ false → Memᴰ (completion o true false) es → Resolved es o
  plain is m = dropped m (subst (λ b. Memᴰ (message o b) es) is (v.received o e found))

  settle-Resolved :
      (fails canceled : Bool)
      → Memᴰ (completion o fails canceled) es
      → (settle fails canceled e).commitable ≡ true
      → Resolved es o
  unfolding settle decide_commitable
  settle-Resolved fails true m h = absurd (ground arith)
  settle-Resolved false false m h = succeeded m
  settle-Resolved true false m h = elim (Bool-cases e.is_envelope) [
    | inl envelope ↦ v.done o e found (ground arith)
    | inr regular ↦ plain regular m
  ]

  settle_flushing-Resolved :
      (fails canceled : Bool)
      → Memᴰ (completion o fails canceled) es
      → (settle_flushing fails canceled e).commitable ≡ true
      → Resolved es o
  unfolding settle_flushing decide_commitable
  settle_flushing-Resolved fails true m h = absurd (ground arith)
  settle_flushing-Resolved false false m h = succeeded m
  settle_flushing-Resolved true false m h = elim (Bool-cases e.is_envelope) [
    | inl envelope ↦ absurd (ground arith)
    | inr regular ↦ plain regular m
  ]

  delivered-Resolved : (d : Bool) → Memᴰ (dlq_result o d) es → d ≡ true → Resolved es o
  delivered-Resolved true m h = in_dlq m
  delivered-Resolved false m h = absurd (ground arith)

-- What the invariant does not read.
dlq_sent-Inv :
    (es : List Event) (p : Pipe) (l : List ℕ) → Inv es p → Inv es (record p { dlq_sent = l })
dlq_sent-Inv es p l v = record {
  ahead = v.ahead;
  received = v.received;
  done = v.done;
  gone = v.gone;
  marks = v.marks;
  reach = v.reach;
}

alerted-Inv :
    (es : List Event) (p : Pipe) (l : List ℕ) → Inv es p → Inv es (record p { alerted = l })
alerted-Inv es p l v = record {
  ahead = v.ahead;
  received = v.received;
  done = v.done;
  gone = v.gone;
  marks = v.marks;
  reach = v.reach;
}

pub on_completion-Inv :
    (es : List Event) (p : Pipe) (o : ℕ) (fails canceled : Bool)
    → Memᴰ (completion o fails canceled) es
    → Inv es p
    → Inv es (on_completion o fails canceled p)
unfolding on_completion
on_completion-Inv es p o fails canceled m v = elim (Option-cases (find o p.inflight)) [
  | inl missing ↦ rw (missing, on_completion) v
  | inr (e, found) ↦
      rw (found, on_completion)
        (commit-Inv es _ (
          dlq_sent-Inv es _ _ (
            put-Inv es p o e (settle fails canceled e) found (settle-is_envelope fails canceled e)
              (settle-Resolved es p o e found v fails canceled m) v)))
]

pub flush_completion-Inv :
    (es : List Event) (p : Pipe) (o : ℕ) (fails canceled : Bool)
    → Memᴰ (completion o fails canceled) es
    → Inv es p
    → Inv es (flush_completion o fails canceled p)
unfolding flush_completion
flush_completion-Inv es p o fails canceled m v = elim (Option-cases (find o p.inflight)) [
  | inl missing ↦ rw (missing, flush_completion) v
  | inr (e, found) ↦ elim (Bool-cases e.settled) [
    | inl settled ↦ rw (found, settled, flush_completion) v
    | inr unsettled ↦
        simp (found, unsettled, flush_completion)
          (commit-Inv es _ (
            put-Inv es p o e (settle_flushing fails canceled e) found
              (settle_flushing-is_envelope fails canceled e)
              (settle_flushing-Resolved es p o e found v fails canceled m) v))
  ]
]

pub on_dlq_result-Inv :
    (es : List Event) (p : Pipe) (o : ℕ) (delivered : Bool)
    → Memᴰ (dlq_result o delivered) es
    → Inv es p
    → Inv es (on_dlq_result o delivered p)
unfolding on_dlq_result
on_dlq_result-Inv es p o delivered m v = elim (Option-cases (find o p.inflight)) [
  | inl missing ↦ rw (missing, on_dlq_result) v
  | inr (e, found) ↦
      rw (found, on_dlq_result)
        (commit-Inv es _ (
          alerted-Inv es _ _
            (put-Inv es p o e _ found refl (delivered-Resolved es p o e found v delivered m) v)))
]
