-- ===== src/Outbox/Event/Lifecycle.antt =====
-- The methods of an event in any order (sdk/pkg/outbox/event.go).
use jxt_core.Base.{
  ℕ, ◌+◌, ◌≤◌, ℤ, pos, int_incr_exact, max_int, String, ◌≡◌, ◌≢◌, refl, Option, none, List, [], ◌∷◌,
  arith,
}
use jxt_core.Outbox.Event.Defs.{
  Error, published, failed, OutboxEvent, created, Marshalled, bytes, marshal_error,
  new_outbox_event, mark_as_published, mark_as_failed, increment_retry, mark_as_max_retry,
  reset_for_retry, set_payload, with_idempotency_key, with_trace_id, with_correlation_id,
}

-- One call of a method that changes the event, with its arguments and the clock's reading.
pub data Call : Type 0 where
  call_published : ℕ → Call
  call_failed : ℕ → Option Error → Call
  call_retry : ℕ → String → Call
  call_max_retry : ℕ → String → Call
  call_reset : ℕ → Call
  call_payload : ℕ → Marshalled → Call
  call_key call_trace call_correlation : String → Call

pub apply : Call → OutboxEvent → OutboxEvent
apply (call_published now) e = mark_as_published now e
apply (call_failed now err) e = mark_as_failed now err e
apply (call_retry now message) e = increment_retry now message e
apply (call_max_retry now message) e = mark_as_max_retry now message e
apply (call_reset now) e = reset_for_retry now e
apply (call_payload now payload) e = (set_payload now payload e).0
apply (call_key key) e = with_idempotency_key key e
apply (call_trace x) e = with_trace_id x e
apply (call_correlation x) e = with_correlation_id x e

pub apply_all : List Call → OutboxEvent → OutboxEvent
apply_all [] e = e
apply_all (c ∷ cs) e = apply_all cs (apply c e)

abbrev pub is_failure : Call → ℕ
is_failure (call_failed _ _) = 1
is_failure (call_retry _ _) = 1
is_failure _ = 0

abbrev pub failures : List Call → ℕ
failures [] = 0
failures (c ∷ cs) = is_failure c + failures cs

-- The idempotency key after the calls: the one that was set last.
abbrev pub key_after : List Call → String → String
key_after [] key = key
key_after (call_key new ∷ cs) key = key_after cs new
key_after (_ ∷ cs) key = key_after cs key

-- What holds of an event that was `e₀` when it had no failure, after `k` failures, with the key `key`.
pub record Inv (e₀ : OutboxEvent) (k : ℕ) (key : String) (e : OutboxEvent) : Type 0 where
  pub counted : e.retry_count ≡ pos k
  pub published_has_time : e.status ≡ published → e.published_at ≢ none
  pub failed_has_time : e.status ≡ failed → e.last_retry_at ≢ none
  pub same_id : e.id ≡ e₀.id
  pub key_is : e.idempotency_key ≡ key
  pub same_tenant : e.tenant_id ≡ e₀.tenant_id
  pub same_aggregate : e.aggregate_id ≡ e₀.aggregate_id
  pub same_types : (e.aggregate_type ≡ e₀.aggregate_type) × (e.event_type ≡ e₀.event_type)
  pub same_created : e.created_at ≡ e₀.created_at
  pub same_limit : e.max_retries ≡ e₀.max_retries

apply-Inv :
    (c : Call) (e₀ e : OutboxEvent) (k : ℕ) (key : String)
    → Inv e₀ k key e
    → is_failure c + k ≤ max_int
    → Inv e₀ (is_failure c + k) (key_after (c ∷ []) key) (apply c e)
unfolding apply mark_as_published mark_as_failed increment_retry mark_as_max_retry reset_for_retry
    set_payload with_idempotency_key with_trace_id with_correlation_id
apply-Inv (call_published now) e₀ e k key v b = ground arith
apply-Inv (call_failed now err) e₀ e k key v b = ground (arith, int_incr_exact k)
apply-Inv (call_retry now message) e₀ e k key v b = ground (arith, int_incr_exact k)
apply-Inv (call_max_retry now message) e₀ e k key v b = ground arith
apply-Inv (call_reset now) e₀ e k key v b = ground arith
apply-Inv (call_payload now (bytes payload)) e₀ e k key v b = ground arith
apply-Inv (call_payload now (marshal_error err)) e₀ e k key v b = ground arith
apply-Inv (call_key new) e₀ e k key v b = ground arith
apply-Inv (call_trace x) e₀ e k key v b = ground arith
apply-Inv (call_correlation x) e₀ e k key v b = ground arith

key_after-cons :
    (c : Call) (cs : List Call) (key : String)
    → key_after (c ∷ cs) key ≡ key_after cs (key_after (c ∷ []) key)
key_after-cons (call_published now) cs key = refl
key_after-cons (call_failed now err) cs key = refl
key_after-cons (call_retry now message) cs key = refl
key_after-cons (call_max_retry now message) cs key = refl
key_after-cons (call_reset now) cs key = refl
key_after-cons (call_payload now payload) cs key = refl
key_after-cons (call_key new) cs key = refl
key_after-cons (call_trace x) cs key = refl
key_after-cons (call_correlation x) cs key = refl

apply_all-Inv :
    (cs : List Call) (e₀ e : OutboxEvent) (k : ℕ) (key : String)
    → Inv e₀ k key e
    → failures cs + k ≤ max_int
    → Inv e₀ (failures cs + k) (key_after cs key) (apply_all cs e)
unfolding apply_all
apply_all-Inv [] e₀ e k key v b = let same : 0 + k ≡ k = omega arith in rw same v
apply_all-Inv (c ∷ cs) e₀ e k key v b =
    let regroup : is_failure c + failures cs + k ≡ failures cs + (is_failure c + k) = omega arith in
    rw (regroup, key_after-cons c cs key)
      (apply_all-Inv cs e₀ (apply c e) (is_failure c + k) (key_after (c ∷ []) key)
        (apply-Inv c e₀ e k key v (omega arith)) (omega arith))

new-Inv :
    (now : ℕ) (id : String) (tenant : ℤ) (aggregate aggregate_type event_type : String)
    (payload : List ℕ) {e : OutboxEvent}
    → new_outbox_event now id tenant aggregate aggregate_type event_type (bytes payload) ≡ created e
    → Inv e 0 e.idempotency_key e
unfolding new_outbox_event
new-Inv now id tenant aggregate aggregate_type event_type payload h = ground arith

-- For a new event and any sequence of calls of the methods that change it, with at most 2^63 - 1
-- failures: the retry count is the number of failures recorded, a published event has its publication
-- time, a failed event has the time of its last attempt, the idempotency key is the one set last by
-- WithIdempotencyKey (or the first one, if none was set), and the id, the tenant, the aggregate, the
-- types, the creation time and the retry limit never change.
pub lifecycle :
    (now : ℕ) (id : String) (tenant : ℤ) (aggregate aggregate_type event_type : String)
    (payload : List ℕ) {e : OutboxEvent} (cs : List Call)
    → new_outbox_event now id tenant aggregate aggregate_type event_type (bytes payload) ≡ created e
    → failures cs ≤ max_int
    → Inv e (failures cs) (key_after cs e.idempotency_key) (apply_all cs e)
lifecycle now id tenant aggregate aggregate_type event_type payload {e} cs h b =
    let start = new-Inv now id tenant aggregate aggregate_type event_type payload h in
    let total : failures cs + 0 ≡ failures cs = omega arith in
    rw total at (apply_all-Inv cs e e 0 e.idempotency_key start (omega arith))
