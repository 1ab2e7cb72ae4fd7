-- ===== src/Outbox/AckBatcher/Defs.antt =====
-- sdk/pkg/outbox/ack_marker_batcher.go: the buffer of acknowledged event ids. What its goroutine and
-- its callers do is a sequence of signals; each holds the mutex, but for the flush function's call,
-- whose answer the signal carries.
use jxt_core.Base.{
  ℕ, zero, suc, ◌+◌, ◌%◌, ◌==◌, leb, ℤ, pos, negsuc, ltb_ℤ, pos_part, length, String, Bool, true,
  false, not, ◌&&◌, ◌||◌, List, [], ◌∷◌, ◌++◌, if◌then◌else◌, is_empty,
}

pub record Batcher : Type 0 where
  pub max_size : ℕ
  pub threshold : ℤ
  pub ids : List String
  pub closed : Bool
  pub fails : ℕ
  -- Whether the channel `wake`, which has one place, is full, and whether the loop has returned.
  pub wake : Bool
  pub exited : Bool
  -- The batches handed to the flush function, and the numbers of failures alerted, in order.
  pub flushed : List (List String)
  pub alerts : List ℕ

unfoldable pub new_batcher : ℤ → ℤ → Batcher
new_batcher max_size threshold = record {
  max_size = if ltb_ℤ max_size (pos 1) then 50 else pos_part max_size;
  threshold = threshold;
  ids = [];
  closed = false;
  fails = 0;
  wake = false;
  exited = false;
  flushed = [];
  alerts = [];
}

unfoldable pub add : String → Batcher → Batcher
add id b = if b.closed then b else record b {
  ids = b.ids ++ id ∷ [];
  wake = b.wake || leb b.max_size (length (b.ids ++ id ∷ []));
}

-- Close, up to its wait for the loop.
unfoldable pub close : Batcher → Batcher
close b = record b { closed = true }

-- Whether this many failures in a row are alerted.
unfoldable pub is_alerted : ℤ → ℕ → Bool
is_alerted (pos zero) fails = true
is_alerted (pos (suc n)) fails = (fails % suc n) == 0
is_alerted (negsuc n) fails = true

-- `ok`: the flush function returned no error and did not panic.
unfoldable pub flush : Bool → Batcher → Batcher
unfolding is_alerted
flush ok b = if is_empty b.ids then b else record b {
  ids = [];
  flushed = b.flushed ++ b.ids ∷ [];
  fails = if ok then 0 else b.fails + 1;
  alerts =
      if not ok && is_alerted b.threshold (b.fails + 1)
      then b.alerts ++ (b.fails + 1) ∷ []
      else b.alerts;
}

pub data Signal : Type 0 where
  adds : String → Signal
  closes : Signal
  -- The loop receives from `wake`, from the ticker, or finds `done` closed.
  wakes : Bool → Signal
  ticks : Bool → Signal
  finishes : Bool → Signal

unfoldable pub is_ready : Signal → Batcher → Bool
is_ready (adds id) b = true
is_ready closes b = true
is_ready (wakes ok) b = b.wake && not b.exited
is_ready (ticks ok) b = not b.exited
is_ready (finishes ok) b = b.closed && not b.exited

unfoldable pub handle : Signal → Batcher → Batcher
unfolding add close flush
handle (adds id) b = add id b
handle closes b = close b
handle (wakes ok) b = flush ok (record b { wake = false })
handle (ticks ok) b = flush ok b
handle (finishes ok) b = record (flush ok b) { exited = true }

-- A signal that cannot occur changes nothing.
unfoldable pub receive : Signal → Batcher → Batcher
unfolding is_ready handle
receive s b = if is_ready s b then handle s b else b

unfoldable pub run : List Signal → Batcher → Batcher
unfolding receive
run [] b = b
run (s ∷ ss) b = run ss (receive s b)

-- The ids added before the first close.
unfoldable pub accepted : List Signal → List String
accepted [] = []
accepted (adds id ∷ ss) = id ∷ accepted ss
accepted (closes ∷ ss) = []
accepted (wakes ok ∷ ss) = accepted ss
accepted (ticks ok ∷ ss) = accepted ss
accepted (finishes ok ∷ ss) = accepted ss

abbrev pub joined : List (List String) → List String
joined [] = []
joined (l ∷ ls) = l ++ joined ls
