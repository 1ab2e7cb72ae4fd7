-- ===== src/EventBus/Pipeline/Defs.antt =====
-- The loop of sdk/pkg/eventbus/partition_pipeline.go as steps on its state: `run` until the context
-- ends, then `flush`. The steps are what the two `select` statements receive; the pool, the DLQ and
-- the marker get calls that are kept in order.
use jxt_core.Base.{
  ℕ, suc, ltb, length, Bool, true, false, not, ◌&&◌, ◌||◌, Option, none, some, List, [], ◌∷◌, ◌++◌,
  if◌then◌else◌,
}
use jxt_core.EventBus.Pipeline.Inflight.{InflightEntry, Inflight, find, put, advance_frontier}

pub data CommitDecision : Type 0 where
  commit_success commit_regular_fail commit_envelope_fail : CommitDecision

-- A handler's error is told by whether there is one.
unfoldable pub decide_commitable : InflightEntry → Bool → CommitDecision
decide_commitable e false = commit_success
decide_commitable e true = if e.is_envelope then commit_envelope_fail else commit_regular_fail

pub data Event : Type 0 where
  -- A message of this offset, and whether it is an envelope.
  message : ℕ → Bool → Event
  -- The channel of messages is closed.
  claim_ended : Event
  -- A completion: the offset, whether the handler failed, whether it was canceled.
  completion : ℕ → Bool → Bool → Event
  -- A DLQ result: the offset, and whether the message was delivered.
  dlq_result : ℕ → Bool → Event
  context_done : Event

-- A frontier of -1 is `none`. The lists are the offsets handed to the pool, those handed to the DLQ,
-- those marked, and those alerted, in order.
pub record Pipe : Type 0 where
  pub inflight : Inflight
  pub frontier : Option ℕ
  pub closed : Bool
  pub flushing : Bool
  pub submitted : List ℕ
  pub dlq_sent : List ℕ
  pub marked : List ℕ
  pub alerted : List ℕ

abbrev pub new_pipe : Pipe
new_pipe = record {
  inflight = [];
  frontier = none;
  closed = false;
  flushing = false;
  submitted = [];
  dlq_sent = [];
  marked = [];
  alerted = [];
}

-- `if last := advanceFrontier(…); last != nil { marker.MarkMessage(last, "") }`
unfoldable pub mark_last : Option ℕ → List ℕ → List ℕ
mark_last none marked = marked
mark_last (some o) marked = marked ++ o ∷ []

unfoldable pub commit_from : Option ℕ → Pipe → Pipe
unfolding mark_last
commit_from none p = p
commit_from (some f) p =
    let a = advance_frontier p.inflight f in
    record p {
      inflight = a.inflight;
      frontier = some a.frontier;
      marked = mark_last a.last p.marked;
    }

unfoldable pub commit : Pipe → Pipe
unfolding commit_from
commit p = commit_from p.frontier p

abbrev pub first_frontier : Option ℕ → ℕ → Option ℕ
first_frontier none o = some o
first_frontier (some f) o = some f

unfoldable pub on_message : ℕ → Bool → Pipe → Pipe
on_message o is_envelope p = record p {
  frontier = first_frontier p.frontier o;
  inflight =
      put o
        (record {
          is_envelope = is_envelope;
          settled = false;
          dlq_pending = false;
          commitable = false;
        })
        p.inflight;
  submitted = p.submitted ++ o ∷ [];
}

-- The entry after a completion, in `run`.
unfoldable pub settle : Bool → Bool → InflightEntry → InflightEntry
unfolding decide_commitable
settle fails true e = record e { settled = true; commitable = false }
settle fails false e = elim (decide_commitable e fails) [
  | commit_success ↦ record e { settled = true; commitable = true }
  | commit_regular_fail ↦ record e { settled = true; commitable = true }
  | commit_envelope_fail ↦ record e { settled = true; dlq_pending = true }
]

abbrev pub goes_to_dlq : Bool → Bool → InflightEntry → Bool
goes_to_dlq fails canceled e = not canceled && fails && e.is_envelope

unfoldable pub on_completion : ℕ → Bool → Bool → Pipe → Pipe
unfolding settle commit
on_completion o fails canceled p = elim (find o p.inflight) [
  | none ↦ p
  | some e ↦ commit (record p {
    inflight = put o (settle fails canceled e) p.inflight;
    dlq_sent = if goes_to_dlq fails canceled e then p.dlq_sent ++ o ∷ [] else p.dlq_sent;
  })
]

unfoldable pub on_dlq_result : ℕ → Bool → Pipe → Pipe
unfolding commit
on_dlq_result o delivered p = elim (find o p.inflight) [
  | none ↦ p
  | some e ↦ commit (record p {
    inflight = put o (record e { dlq_pending = false; commitable = delivered }) p.inflight;
    alerted = if delivered then p.alerted else p.alerted ++ o ∷ [];
  })
]

-- The entry after a completion, in `flush`: an envelope that failed is left for redelivery.
unfoldable pub settle_flushing : Bool → Bool → InflightEntry → InflightEntry
unfolding decide_commitable
settle_flushing fails true e = record e { settled = true; commitable = false }
settle_flushing fails false e = elim (decide_commitable e fails) [
  | commit_success ↦ record e { settled = true; commitable = true }
  | commit_regular_fail ↦ record e { settled = true; commitable = true }
  | commit_envelope_fail ↦ record e { settled = true; commitable = false }
]

unfoldable pub flush_completion : ℕ → Bool → Bool → Pipe → Pipe
unfolding settle_flushing commit
flush_completion o fails canceled p = elim (find o p.inflight) [
  | none ↦ p
  | some e ↦
      if e.settled
      then p
      else commit (record p { inflight = put o (settle_flushing fails canceled e) p.inflight })
]

unfoldable pub step : Event → Pipe → Pipe
unfolding on_message on_completion flush_completion on_dlq_result
step (message o is_envelope) p = on_message o is_envelope p
step claim_ended p = record p { closed = true }
step (completion o fails canceled) p =
    if p.flushing then flush_completion o fails canceled p else on_completion o fails canceled p
step (dlq_result o delivered) p = on_dlq_result o delivered p
step context_done p = record p { flushing = true }

-- Not settled, or on the way to the DLQ.
unfoldable pub unresolved : Inflight → ℕ
unresolved [] = 0
unresolved ((k, e) ∷ l) =
    let rest = unresolved l in if not e.settled || e.dlq_pending then suc rest else rest

-- What `select` may receive: `run` reads a message only while the claim has not ended and the window
-- has room, and returns when the claim has ended and nothing is in flight; `flush` goes on while
-- something is unresolved.
unfoldable pub goes_on : Pipe → Bool
unfolding unresolved
goes_on p =
    if p.flushing then ltb 0 (unresolved p.inflight) else not p.closed || ltb 0 (length p.inflight)

abbrev pub reads_messages : ℕ → Pipe → Bool
reads_messages window p = not p.flushing && not p.closed && ltb (length p.inflight) window

unfoldable pub may_receive : ℕ → Event → Pipe → Bool
unfolding goes_on
may_receive window (message o is_envelope) p = reads_messages window p
may_receive window claim_ended p = reads_messages window p
may_receive window (completion o fails canceled) p = goes_on p
may_receive window (dlq_result o delivered) p = goes_on p
may_receive window context_done p = not p.flushing && goes_on p
