-- ===== src/Outbox/Examples/Events.antt =====
-- The theorems on an event at concrete inputs.
use jxt_core.Base.{pos, refl, show_int, [], ◌∷◌, none, arith}
use jxt_core.Outbox.Event.{OutboxEvent, pending, new_outbox_event, generate_idempotency_key}
use jxt_core.Outbox.Event.Lifecycle.{
  lifecycle, Inv, call_published, call_failed, call_retry, call_reset, call_key, call_trace,
  apply_all,
}
use jxt_core.Outbox.Examples.Data.{failed_event}

abbrev new_event : OutboxEvent
new_event = record failed_event {
  id = "id-1";
  status = pending;
  retry_count = pos 0;
  idempotency_key = "7:Archive:a1:ArchiveCreated:id-1";
}

lifecycle_example : Inv new_event 2 "k-1" (
    apply_all
      (call_failed 20 none
        ∷ call_reset 30
        ∷ call_retry 40 "late"
        ∷ call_key "k-1"
        ∷ call_trace "t-1"
        ∷ call_published 50
        ∷ [])
      new_event)
unfolding new_outbox_event generate_idempotency_key show_int
lifecycle_example =
    lifecycle 10 "id-1" (pos 7) "a1" "Archive" "ArchiveCreated" (1 ∷ [])
      (call_failed 20 none
        ∷ call_reset 30
        ∷ call_retry 40 "late"
        ∷ call_key "k-1"
        ∷ call_trace "t-1"
        ∷ call_published 50
        ∷ [])
      refl (omega arith)
