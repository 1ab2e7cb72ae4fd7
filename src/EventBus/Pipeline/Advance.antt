-- ===== src/EventBus/Pipeline/Advance.antt =====
-- What advanceFrontier does to the map (sdk/pkg/eventbus/partition_pipeline.go).
use jxt_core.Base.{
  ℕ, zero, suc, ◌+◌, ◌-◌, ◌≤◌, ◌<◌, ◌==◌, ltb, leb, length, ◌≡◌, ◌↔◌, refl, ◌∙◌, Bool, true, false,
  ◌&&◌, Option, none, some, Bool-cases, inl, inr, if◌then◌else◌, arith,
}
use mathlib.Core.Path.{subst}
use jxt_core.EventBus.Pipeline.Inflight.{
  Inflight, InflightEntry, find, remove, find-remove, ready, Advanced, advance_loop,
  advance_frontier,
}

-- Passed: the offsets from one frontier up to the next.
abbrev pub between : ℕ → ℕ → ℕ → Bool
between f f' k = leb f k && ltb k f'

-- An entry that may be committed: its handler is done, it is not on its way to the DLQ, and its outcome
-- allows it.
abbrev pub MayCommit : Option InflightEntry → Type 0
MayCommit none = ⊥
MayCommit (some e) = (e.settled ≡ true) × (e.dlq_pending ≡ false) × (e.commitable ≡ true)

pub ready-MayCommit : (o : Option InflightEntry) → (ready o ≡ true) ↔ MayCommit o
unfolding ready
ready-MayCommit none = (λ h. absurd (ground (arith, h)), λ h. absurd h)
ready-MayCommit (some e) = ground arith

pub record Facts (a a' : Advanced) : Type 0 where
  pub forward : a.frontier ≤ a'.frontier
  pub found :
      (k : ℕ)
      → find k a'.inflight ≡ (if between a.frontier a'.frontier k then none else find k a.inflight)
  pub were_ready : (k : ℕ) → a.frontier ≤ k → k < a'.frontier → MayCommit (find k a.inflight)
  pub last_is : a'.last ≡ (if a.frontier == a'.frontier then a.last else some (a'.frontier - 1))

Facts-loop : (fuel : ℕ) (a : Advanced) → Facts a (advance_loop fuel a)
unfolding advance_loop
Facts-loop zero a = record {
  forward = omega arith;
  found = λ k. ground arith;
  were_ready = λ k h h'. absurd (omega arith);
  last_is = ground arith;
}
Facts-loop (suc fuel) a = elim (Bool-cases (ready (find a.frontier a.inflight))) [
  | inl go ↦ rw go (
      let next : Advanced = record {
        inflight = remove a.frontier a.inflight;
        frontier = a.frontier + 1;
        last = some a.frontier;
      } in
      let ih = Facts-loop fuel next in
      record {
        forward = omega (arith, ih.forward);
        found = λ k. ground (arith, ih.forward, ih.found k, find-remove a.frontier k a.inflight);
        were_ready = λ k h h'. elim (Bool-cases (a.frontier == k)) [
          | inl here ↦ (ready-MayCommit (find k a.inflight)).0 (ground (arith, go, here))
          | inr further ↦
              let kept : find k (remove a.frontier a.inflight) ≡ find k a.inflight =
                find-remove a.frontier k a.inflight ∙ rw further refl in
              subst MayCommit kept (ih.were_ready k (ground (arith, further)) h')
        ];
        last_is = ground (arith, ih.forward, ih.last_is);
      })
  | inr stop ↦ rw stop (record {
    forward = omega arith;
    found = λ k. ground arith;
    were_ready = λ k h h'. absurd (omega arith);
    last_is = ground arith;
  })
]

-- The frontier moves forward over messages that are all settled, not on their way to the DLQ and to be
-- committed, and takes just these out of the map; the message to mark is the last of them.
pub advance_frontier-Facts :
    (l : Inflight) (f : ℕ)
    → Facts (record { inflight = l; frontier = f; last = none }) (advance_frontier l f)
unfolding advance_frontier
advance_frontier-Facts l f =
    Facts-loop (length l) (record { inflight = l; frontier = f; last = none })
