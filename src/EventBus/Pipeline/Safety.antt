-- ===== src/EventBus/Pipeline/Safety.antt =====
-- The runs of the pipeline and their invariant: what commit does to it
-- (sdk/pkg/eventbus/partition_pipeline.go).
use jxt_core.Base.{
  ℕ, ◌-◌, ◌≤◌, ◌<◌, ◌==◌, ◌≡◌, refl, ◌⊎◌, inl, inr, Bool, true, false, Option, none, some, List, [],
  ◌∷◌, ◌++◌, arith, Option-cases, Bool-cases,
}
use mathlib.Core.Path.{subst}
use mathlib.Core.List.{Memᴰ}
use mathlib.Core.List.Memᴰ
use jxt_core.EventBus.Pipeline.Inflight.{InflightEntry, Inflight, find, ready, advance_frontier}
use jxt_core.EventBus.Pipeline.Advance.{ready-MayCommit, Facts, advance_frontier-Facts}
use jxt_core.EventBus.Pipeline.Defs.{
  Event, message, completion, dlq_result, Pipe, new_pipe, step, commit, commit_from, mark_last,
  may_receive,
}

-- By these events the message of offset `r` is done with: its handler succeeded, or it is a plain
-- message whose handler failed, or it was delivered to the DLQ; a canceled completion does not count.
pub data Resolved (es : List Event) (r : ℕ) : Type 0 where
  succeeded : Memᴰ (completion r false false) es → Resolved es r
  dropped : Memᴰ (completion r true false) es → Memᴰ (message r false) es → Resolved es r
  in_dlq : Memᴰ (dlq_result r true) es → Resolved es r

-- The runs of a pipeline with this window. The offsets of a claim's messages grow.
pub data Runs (window : ℕ) : List Event → Pipe → Type 0 where
  started : Runs window [] new_pipe
  received_next :
      {es : List Event} {p : Pipe} (e : Event)
      → Runs window es p
      → may_receive window e p ≡ true
      → ((o : ℕ) (b : Bool) → e ≡ message o b → (r : ℕ) (c : Bool) → Memᴰ (message r c) es → r < o)
      → Runs window (es ++ e ∷ []) (step e p)

pub Resolved-append : (es ds : List Event) (r : ℕ) → Resolved es r → Resolved (es ++ ds) r
Resolved-append es ds r (succeeded m) = succeeded (Memᴰ.append_left ds m)
Resolved-append es ds r (dropped m n) = dropped (Memᴰ.append_left ds m) (Memᴰ.append_left ds n)
Resolved-append es ds r (in_dlq m) = in_dlq (Memᴰ.append_left ds m)

abbrev pub AtLeast : Option ℕ → ℕ → Type 0
AtLeast none k = ⊥
AtLeast (some f) k = f ≤ k

abbrev pub Passed : Option ℕ → ℕ → Type 0
Passed none k = ⊥
Passed (some f) k = k < f

abbrev pub UpTo : Option ℕ → ℕ → Type 0
UpTo none k = Unit
UpTo (some f) k = f ≤ k

abbrev pub Above : ℕ → List Event → Type 0
Above o es = (r : ℕ) (b : Bool) → Memᴰ (message r b) es → r < o

pub record Inv (es : List Event) (p : Pipe) : Type 0 where
  -- What is in flight lies at or beyond the frontier, and was received as what it is.
  pub ahead : (k : ℕ) (e : InflightEntry) → find k p.inflight ≡ some e → AtLeast p.frontier k
  pub received :
      (k : ℕ) (e : InflightEntry) → find k p.inflight ≡ some e → Memᴰ (message k e.is_envelope) es
  -- What may be committed, and what has left the map, is resolved.
  pub done :
      (k : ℕ) (e : InflightEntry) → find k p.inflight ≡ some e → e.commitable ≡ true → Resolved es k
  pub gone : (k : ℕ) (b : Bool) → Memᴰ (message k b) es → find k p.inflight ≡ none → Resolved es k
  pub marks : (m : ℕ) → Memᴰ m p.marked → Passed p.frontier m
  pub reach : (o : ℕ) → Above o es → UpTo p.frontier o

ready-commitable : (e : InflightEntry) → ready (some e) ≡ true → e.commitable ≡ true
unfolding ready
ready-commitable e h = ground arith

ready-some :
    (k : ℕ) (l : Inflight) → ready (find k l) ≡ true → (e : InflightEntry) × (find k l ≡ some e)
unfolding ready
ready-some k l h = elim (Option-cases (find k l)) [
  | inl missing ↦ absurd (ground arith)
  | inr found ↦ found
]

mem-mark_last :
    (m : ℕ) (o : Option ℕ) (ms : List ℕ) → Memᴰ m (mark_last o ms) → Memᴰ m ms ⊎ (o ≡ some m)
unfolding mark_last
mem-mark_last m none ms h = inl h
mem-mark_last m (some x) ms h = elim (Memᴰ.append_cases ms h) [
  | inl old ↦ inl old
  | inr new ↦ inr (only new)
]
  where
    only : Memᴰ m (x ∷ []) → some x ≡ some m
    only (Memᴰ.head e) = cc e
    only (Memᴰ.tail t) = elim t [ ]

module _ (es : List Event) (p : Pipe) (f : ℕ) (is : p.frontier ≡ some f) (v : Inv es p) where
  low : (k : ℕ) (e : InflightEntry) → find k p.inflight ≡ some e → f ≤ k
  low k e h = subst (λ x. AtLeast x k) is (v.ahead k e h)

  facts :
      Facts
        (record { inflight = p.inflight; frontier = f; last = none })
        (advance_frontier p.inflight f)
  facts = advance_frontier-Facts p.inflight f

  passed-Resolved : (k : ℕ) → f ≤ k → k < (advance_frontier p.inflight f).frontier → Resolved es k
  passed-Resolved k h h' =
      let can = (ready-MayCommit (find k p.inflight)).1 (facts.were_ready k h h') in
      let (e, found) = ready-some k p.inflight can in
      v.done k e found (ready-commitable e (rw (← found) can))

  commit-gone :
      (k : ℕ) (b : Bool)
      → Memᴰ (message k b) es
      → find k (advance_frontier p.inflight f).inflight ≡ none
      → Resolved es k
  commit-gone k b m h = elim (Option-cases (find k p.inflight)) [
    | inl missing ↦ v.gone k b m missing
    | inr (e, found) ↦ passed-Resolved k (low k e found) (ground (arith, facts.found k))
  ]

  commit-marks :
      (m : ℕ)
      → Memᴰ m (mark_last (advance_frontier p.inflight f).last p.marked)
      → m < (advance_frontier p.inflight f).frontier
  commit-marks m h = elim (mem-mark_last m (advance_frontier p.inflight f).last p.marked h) [
    | inl old ↦
        let before : m < f = subst (λ x. Passed x m) is (v.marks m old) in
        omega (arith, facts.forward)
    | inr new ↦ ground (arith, facts.forward, facts.last_is)
  ]

  commit-reach : (o : ℕ) → Above o es → (advance_frontier p.inflight f).frontier ≤ o
  commit-reach o above = elim (Bool-cases (f == (advance_frontier p.inflight f).frontier)) [
    | inl same ↦ let old : f ≤ o = subst (λ x. UpTo x o) is (v.reach o above) in ground arith
    | inr moved ↦
        let k = (advance_frontier p.inflight f).frontier - 1 in
        let forward = facts.forward in
        let (e, found) = ready-some k p.inflight (
          (ready-MayCommit (find k p.inflight)).1
            (facts.were_ready k (ground arith) (ground arith))) in
        let before = above k e.is_envelope (v.received k e found) in omega arith
  ]

  commit_from-Inv : Inv es (commit_from (some f) p)
  unfolding commit_from
  commit_from-Inv = record {
    ahead = λ k e h.
        let found : find k p.inflight ≡ some e = ground (arith, facts.found k) in
        let from = low k e found in ground (arith, facts.found k);
    received = λ k e h. v.received k e (ground (arith, facts.found k));
    done = λ k e h c. v.done k e (ground (arith, facts.found k)) c;
    gone = commit-gone;
    marks = commit-marks;
    reach = commit-reach;
  }

commit_at-Inv :
    (es : List Event) (p : Pipe) (o : Option ℕ)
    → p.frontier ≡ o
    → Inv es p
    → Inv es (commit_from o p)
unfolding commit_from
commit_at-Inv es p none is v = v
commit_at-Inv es p (some f) is v = commit_from-Inv es p f is v

pub commit-Inv : (es : List Event) (p : Pipe) → Inv es p → Inv es (commit p)
unfolding commit
commit-Inv es p v = commit_at-Inv es p p.frontier refl v
