-- ===== src/Outbox/AckBatcher/Wakes.antt =====
-- The wake-ups of sdk/pkg/outbox/ack_marker_batcher.go.
use jxt_core.Base.{
  ◌≤◌, ℤ, length, ◌≡◌, String, Bool, true, false, not, ◌&&◌, List, [], ◌∷◌, is_empty, arith, inl,
  inr, Bool-cases,
}
use jxt_core.Outbox.AckBatcher.Defs.{
  Batcher, new_batcher, add, close, flush, Signal, adds, closes, wakes, ticks, finishes, is_ready,
  handle, receive, run,
}

-- A full buffer has its wake-up pending.
abbrev Wakes : Batcher → Type 0
Wakes b = (1 ≤ b.max_size) × (b.max_size ≤ length b.ids → b.wake ≡ true)

Wakes-flush :
    (ok w : Bool) (b : Batcher) → 1 ≤ b.max_size → Wakes (flush ok (record b { wake = w }))
unfolding flush
Wakes-flush ok w b h = elim (Bool-cases (is_empty b.ids)) [
  | inl nothing ↦ simp (nothing, flush) (h, λ le. absurd (none_there b.ids nothing le))
  | inr waiting ↦ simp (waiting, flush) (h, λ le. absurd (omega arith))
]
  where
    none_there : (l : List String) → is_empty l ≡ true → b.max_size ≤ length l → ⊥
    none_there [] e le = omega arith
    none_there (x ∷ l) e le = ground arith

Wakes-receive : (s : Signal) (b : Batcher) → Wakes b → Wakes (receive s b)
unfolding receive handle is_ready add close
Wakes-receive (adds id) b h = elim (Bool-cases b.closed) [
  | inl shut ↦ simp (shut, add) h
  | inr still_open ↦ simp (still_open, add) (h.0, λ le. ground arith)
]
Wakes-receive closes b h = h
Wakes-receive (wakes ok) b h = elim (Bool-cases (b.wake && not b.exited)) [
  | inl go ↦ simp (go) (Wakes-flush ok false b h.0)
  | inr not_yet ↦ simp (not_yet) h
]
Wakes-receive (ticks ok) b h = elim (Bool-cases (not b.exited)) [
  | inl go ↦ simp (go) (Wakes-flush ok b.wake b h.0)
  | inr not_yet ↦ simp (not_yet) h
]
Wakes-receive (finishes ok) b h = elim (Bool-cases (b.closed && not b.exited)) [
  | inl go ↦ simp (go) (Wakes-flush ok b.wake b h.0)
  | inr not_yet ↦ simp (not_yet) h
]

Wakes-run : (ss : List Signal) (b : Batcher) → Wakes b → Wakes (run ss b)
unfolding run
Wakes-run [] b h = h
Wakes-run (s ∷ ss) b h = Wakes-run ss (receive s b) (Wakes-receive s b h)

-- No wake-up is lost: whenever the buffer holds as many ids as the batch size, which is at least 1
-- whatever was configured, a wake-up is pending for the loop.
pub wake-run :
    (max_size threshold : ℤ) (ss : List Signal)
    → (run ss (new_batcher max_size threshold)).max_size
      ≤ length (run ss (new_batcher max_size threshold)).ids
    → (run ss (new_batcher max_size threshold)).wake ≡ true
unfolding new_batcher
wake-run max_size threshold ss full =
    (Wakes-run ss (new_batcher max_size threshold) (ground arith, λ le. absurd (ground arith))).1
      full
