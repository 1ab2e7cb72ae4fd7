-- ===== src/Outbox/Event/Defs.antt =====
-- sdk/pkg/outbox/event.go: the outbox event and its methods, and the messages of
-- sdk/pkg/outbox/event_publisher.go. An instant is a number of nanoseconds; a method that reads
-- the clock takes the instant as `now`, and a method that changes `*OutboxEvent` returns the new
-- event. A Go error is its concrete type and its text, and `nil` is `none`.
use jxt_core.Base.{
  ℕ, ℤ, pos, negsuc, ltb_ℤ, sub_ℕ, ltb, int_incr, max_int, String, concat, show_int, Bool, true,
  false, Option, none, some, List, [], ◌∷◌, if◌then◌else◌,
}

-- The concrete type of an error: that of `errors.New` and of `fmt.Errorf` with no `%w`, that of
-- `fmt.Errorf` with one `%w`, or another one, by a number.
pub data ErrorKind : Type 0 where
  plain wrapped : ErrorKind
  foreign : ℕ → ErrorKind

pub record Error : Type 0 where
  pub kind : ErrorKind
  pub text : String

-- fmt.Errorf with no `%w`, its pieces of text given.
unfoldable pub errorf : List String → Error
unfolding concat
errorf pieces = record { kind = plain; text = concat pieces }

-- fmt.Errorf("prefix%w", cause)
unfoldable pub wrapf : String → Error → Error
unfolding concat
wrapf before cause = record { kind = wrapped; text = concat (before ∷ cause.text ∷ []) }

pub data EventStatus : Type 0 where
  pending published failed max_retry : EventStatus

abbrev pub status_eq : EventStatus → EventStatus → Bool
status_eq pending pending = true
status_eq published published = true
status_eq failed failed = true
status_eq max_retry max_retry = true
status_eq _ _ = false

pub record OutboxEvent : Type 0 where
  pub id : String
  pub tenant_id : ℤ
  pub aggregate_id : String
  pub aggregate_type : String
  pub event_type : String
  pub payload : List ℕ
  pub status : EventStatus
  pub retry_count : ℤ
  pub max_retries : ℤ
  pub last_error : String
  pub created_at : ℕ
  pub updated_at : ℕ
  pub published_at : Option ℕ
  pub scheduled_at : Option ℕ
  pub last_retry_at : Option ℕ
  pub version : ℤ
  pub trace_id : String
  pub correlation_id : String
  pub idempotency_key : String

unfoldable pub generate_idempotency_key : ℤ → String → String → String → String → String
unfolding concat
generate_idempotency_key tenant_id aggregate_type aggregate_id event_type event_id = concat (
    show_int tenant_id
    ∷ ":"
    ∷ aggregate_type
    ∷ ":"
    ∷ aggregate_id
    ∷ ":"
    ∷ event_type
    ∷ ":"
    ∷ event_id
    ∷ [])

-- `marshal` is `jxtevent.MarshalDomainEvent` on the payload: its error, or the bytes.
pub data Marshalled : Type 0 where
  bytes : List ℕ → Marshalled
  marshal_error : Error → Marshalled

pub data Created : Type 0 where
  created : OutboxEvent → Created
  not_created : Error → Created

-- `now` is the clock's reading, `event_id` what `generateID` returns.
unfoldable pub new_outbox_event :
    (now : ℕ) (event_id : String) → ℤ → String → String → String → Marshalled → Created
new_outbox_event now event_id tenant_id aggregate_id aggregate_type event_type (marshal_error err) =
    not_created err
new_outbox_event now event_id tenant_id aggregate_id aggregate_type event_type (bytes payload) =
    created (record {
      id = event_id;
      tenant_id = tenant_id;
      aggregate_id = aggregate_id;
      aggregate_type = aggregate_type;
      event_type = event_type;
      payload = payload;
      status = pending;
      retry_count = pos 0;
      max_retries = pos 3;
      last_error = "";
      created_at = now;
      updated_at = now;
      published_at = none;
      scheduled_at = none;
      last_retry_at = none;
      version = pos 1;
      trace_id = "";
      correlation_id = "";
      idempotency_key =
          generate_idempotency_key tenant_id aggregate_type aggregate_id event_type event_id;
    })

unfoldable pub can_retry : OutboxEvent → Bool
can_retry e = ltb_ℤ e.retry_count e.max_retries

unfoldable pub mark_as_published : ℕ → OutboxEvent → OutboxEvent
mark_as_published now e = record e { status = published; published_at = some now; updated_at = now }

-- `if err != nil { e.LastError = err.Error() }`
abbrev pub error_or : Option Error → String → String
error_or none old = old
error_or (some err) old = err.text

unfoldable pub mark_as_failed : ℕ → Option Error → OutboxEvent → OutboxEvent
mark_as_failed now err e = record e {
  status = failed;
  retry_count = int_incr e.retry_count;
  last_error = error_or err e.last_error;
  last_retry_at = some now;
  updated_at = now;
}

unfoldable pub increment_retry : ℕ → String → OutboxEvent → OutboxEvent
increment_retry now error_message e =
    let count = int_incr e.retry_count in
    record e {
      retry_count = count;
      last_error = error_message;
      last_retry_at = some now;
      updated_at = now;
      status = if ltb_ℤ count e.max_retries then failed else max_retry;
    }

unfoldable pub mark_as_max_retry : ℕ → String → OutboxEvent → OutboxEvent
mark_as_max_retry now error_message e = record e {
  status = max_retry;
  last_error = error_message;
  updated_at = now;
}

unfoldable pub reset_for_retry : ℕ → OutboxEvent → OutboxEvent
reset_for_retry now e = record e { status = pending; updated_at = now }

-- `Sub` of two instants saturates at the ends of `time.Duration`.
unfoldable pub since : ℕ → ℕ → ℤ
since now t =
    let d = sub_ℕ now t in
    if ltb_ℤ (pos max_int) d
    then pos max_int
    else if ltb_ℤ d (negsuc max_int)
    then negsuc max_int
    else d

unfoldable pub is_expired : ℕ → ℤ → OutboxEvent → Bool
unfolding since
is_expired now max_age e = ltb_ℤ max_age (since now e.created_at)

unfoldable pub is_pending : OutboxEvent → Bool
is_pending e = status_eq e.status pending

unfoldable pub is_published : OutboxEvent → Bool
is_published e = status_eq e.status published

unfoldable pub is_failed : OutboxEvent → Bool
is_failed e = status_eq e.status failed

unfoldable pub is_max_retry : OutboxEvent → Bool
is_max_retry e = status_eq e.status max_retry

abbrev pub is_after : ℕ → Option ℕ → Bool
is_after now none = true
is_after now (some t) = ltb t now

unfoldable pub should_publish_now : ℕ → OutboxEvent → Bool
should_publish_now now e = is_after now e.scheduled_at

unfoldable pub set_payload : ℕ → Marshalled → OutboxEvent → OutboxEvent × Option Error
set_payload now (marshal_error err) e = (e, some err)
set_payload now (bytes payload) e = (record e { payload = payload; updated_at = now }, none)

unfoldable pub with_idempotency_key : String → OutboxEvent → OutboxEvent
with_idempotency_key key e = record e { idempotency_key = key }

unfoldable pub with_trace_id : String → OutboxEvent → OutboxEvent
with_trace_id x e = record e { trace_id = x }

unfoldable pub with_correlation_id : String → OutboxEvent → OutboxEvent
with_correlation_id x e = record e { correlation_id = x }

-- event_publisher.go
pub record Envelope : Type 0 where
  pub event_id : String
  pub aggregate_id : String
  pub event_type : String
  pub event_version : ℤ
  pub payload : List ℕ
  pub timestamp : ℕ
  pub trace_id : String
  pub correlation_id : String
  pub tenant_id : ℤ

pub record PublishResult : Type 0 where
  pub event_id : String
  pub topic : String
  pub success : Bool
  pub error : Option Error
  pub timestamp : ℕ
  pub aggregate_id : String
  pub event_type : String
  pub tenant_id : ℤ
