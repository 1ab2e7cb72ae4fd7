-- ===== src/EventBus/Envelope/Defs.antt =====
-- sdk/pkg/eventbus/envelope.go: the envelope, its validation and encoding, and the aggregate's id of a
-- message. The payload and encoded messages are lists of bytes.
use Prim.Native.Char.{Char, code}
use Prim.Native.String.{len}
use jxt_core.Base.{
  ℕ, leb, ltb, ◌==◌, ℤ, pos, ltb_ℤ, is_empty, String, str_eq, Bool, false, not, ◌&&◌, ◌||◌, Option,
  none, some, List, [], ◌∷◌, if◌then◌else◌, get_key, string_eq, ◌≡◌,
}
use jxt_core.Outbox.Event.{Error, errorf, wrapf}
use jxt_core.Outbox.Repository.{Result, ok, err}
use jxt_core.Tenant.Provider.Keys.{split_on}

abbrev pub Bytes : Type 0
Bytes = List ℕ

pub record Envelope : Type 0 where
  pub event_id : String
  pub aggregate_id : String
  pub event_type : String
  pub event_version : ℤ
  pub timestamp : ℕ
  pub trace_id : String
  pub correlation_id : String
  pub tenant_id : ℤ
  pub payload : Bytes

-- strings.TrimSpace, and the package sdk/pkg/json, which passes on a third-party encoding.
pub record Library : Type 0 where
  pub trim_space : String → String
  pub marshal : Envelope → Result Bytes
  pub unmarshal : Bytes → Result Envelope

-- What decoding keeps of an envelope: the payload may lose its blanks and the timestamp its monotonic
-- clock.
abbrev pub IsCopy : Envelope → Envelope → Type 0
IsCopy e e' =
    (e'.event_id ≡ e.event_id)
    × (e'.aggregate_id ≡ e.aggregate_id)
    × (e'.event_type ≡ e.event_type)
    × (e'.event_version ≡ e.event_version)
    × (e'.tenant_id ≡ e.tenant_id)
    × (is_empty e'.payload ≡ is_empty e.payload)

pub record IsLibrary (l : Library) : Type 0 where
  pub trim_twice : (s : String) → l.trim_space (l.trim_space s) ≡ l.trim_space s
  pub trim_empty : l.trim_space "" ≡ ""
  pub unmarshal-marshal :
      (e : Envelope) (b : Bytes)
      → l.marshal e ≡ ok b
      → (e' : Envelope) × (l.unmarshal b ≡ ok e') × IsCopy e e'
  pub marshal_full : (e : Envelope) (b : Bytes) → l.marshal e ≡ ok b → is_empty b ≡ false

unfoldable pub new_envelope : String → String → String → ℤ → Bytes → ℕ → Envelope
new_envelope event_id aggregate_id event_type event_version payload now = record {
  event_id = event_id;
  aggregate_id = aggregate_id;
  event_type = event_type;
  event_version = event_version;
  timestamp = now;
  trace_id = "";
  correlation_id = "";
  tenant_id = pos 0;
  payload = payload;
}

abbrev pub uuid_or : Result String → String → String
uuid_or (err e) v4 = v4
uuid_or (ok v7) v4 = v7

-- The answer of uuid.NewV7, and the id that uuid.New gives where it fails.
unfoldable pub new_envelope_with_auto_id :
    Result String → String → String → String → ℤ → Bytes → ℕ → Envelope
unfolding new_envelope
new_envelope_with_auto_id v7 v4 aggregate_id event_type event_version payload now =
    new_envelope (uuid_or v7 v4) aggregate_id event_type event_version payload now

abbrev pub is_between : Char → ℕ → ℕ → Bool
is_between c a b = leb a (code c) && leb (code c) b

-- A-Z a-z 0-9 : _ - . /
unfoldable pub is_id_character : Char → Bool
is_id_character c =
    is_between c 97 122
    || is_between c 65 90
    || is_between c 48 57
    || code c == 58
    || code c == 95
    || code c == 45
    || code c == 46
    || code c == 47

unfoldable pub first_invalid : String → Option Char
unfolding is_id_character
first_invalid String.[] = none
first_invalid (String.◌∷◌ c s) =
    let rest = first_invalid s in if is_id_character c then rest else some c

-- The checks of an id without blanks around it.
unfoldable pub check_id : String → Option Error
unfolding first_invalid
check_id id =
    if str_eq id ""
    then some (errorf ("aggregate_id cannot be empty" ∷ []))
    else if ltb 256 (len id)
    then some (errorf ("aggregate_id too long (max 256 characters)" ∷ []))
    else elim (first_invalid id) [
      | none ↦ none
      | some c ↦
          some
            (errorf ("aggregate_id contains invalid character: " ∷ (String.◌∷◌ c String.[]) ∷ []))
    ]

abbrev pub wrap_invalid : Option Error → Option Error
wrap_invalid none = none
wrap_invalid (some e) = some (wrapf "invalid aggregate_id: " e)

abbrev pub header_names : List String
header_names = "X-Aggregate-ID" ∷ "x-aggregate-id" ∷ "Aggregate-ID" ∷ "aggregate-id" ∷ []

module _ (l : Library) where
  unfoldable pub validate_aggregate_id : String → Option Error
  unfolding check_id
  validate_aggregate_id id = check_id (l.trim_space id)

  abbrev pub is_blank : String → Bool
  is_blank s = str_eq (l.trim_space s) ""

  unfoldable pub validate : Envelope → Option Error
  unfolding validate_aggregate_id
  validate e =
      if is_blank e.event_id
      then some (errorf ("event_id is required" ∷ []))
      else if is_blank e.aggregate_id
      then some (errorf ("aggregate_id is required" ∷ []))
      else if is_blank e.event_type
      then some (errorf ("event_type is required" ∷ []))
      else if not (ltb_ℤ (pos 0) e.event_version)
      then some (errorf ("event_version must be positive" ∷ []))
      else if is_empty e.payload
      then some (errorf ("payload is required" ∷ []))
      else wrap_invalid (validate_aggregate_id e.aggregate_id)

  unfoldable pub to_bytes : Envelope → Result Bytes
  unfolding validate
  to_bytes e = elim (validate e) [ some problem ↦ err problem | none ↦ l.marshal e ]

  abbrev pub checked : Option Error → Envelope → Result Envelope
  checked none e = ok e
  checked (some problem) e = err (wrapf "invalid envelope: " problem)

  -- A decoded envelope, if it is valid.
  unfoldable pub validated : Result Envelope → Result Envelope
  unfolding validate
  validated (err e) = err (wrapf "failed to unmarshal envelope: " e)
  validated (ok e) = checked (validate e) e

  unfoldable pub from_bytes : Bytes → Result Envelope
  unfolding validated
  from_bytes bytes = validated (l.unmarshal bytes)

  -- The id of a decoded envelope, if it is not empty.
  abbrev pub envelope_id : Result Envelope → Option String
  envelope_id (err e) = none
  envelope_id (ok e) = if str_eq e.aggregate_id "" then none else some e.aggregate_id

  unfoldable pub id_of_envelope : Bytes → Option String
  unfolding from_bytes
  id_of_envelope bytes = if is_empty bytes then none else envelope_id (from_bytes bytes)

  -- The text without the blanks around it, if it is a valid id.
  unfoldable pub id_of_text : String → Option String
  unfolding validate_aggregate_id
  id_of_text s =
      if is_blank s
      then none
      else elim (validate_aggregate_id s) [ none ↦ some (l.trim_space s) | some e ↦ none ]

  -- The same of a text that is cut before it is checked.
  unfoldable pub id_of_key : String → Option String
  unfolding validate_aggregate_id
  id_of_key s = if is_blank s then none else elim (validate_aggregate_id (l.trim_space s)) [
    | none ↦ some (l.trim_space s)
    | some e ↦ none
  ]

  abbrev pub id_of_header : Option String → Option String
  id_of_header none = none
  id_of_header (some s) = id_of_text s

  -- The first of the headers that holds an id.
  unfoldable pub id_of_headers : List String → List (String × String) → Option String
  unfolding id_of_text
  id_of_headers [] headers = none
  id_of_headers (name ∷ names) headers = elim (id_of_header (get_key name headers)) [
    | some id ↦ some id
    | none ↦ id_of_headers names headers
  ]

  -- The last of the segments that is an id.
  unfoldable pub id_of_segments : List String → Option String
  unfolding id_of_key
  id_of_segments [] = none
  id_of_segments (p ∷ ps) = elim (id_of_segments ps) [ some id ↦ some id | none ↦ id_of_key p ]

  unfoldable pub id_of_subject : String → Option String
  unfolding id_of_segments split_on
  id_of_subject subject = if str_eq subject "" then none else id_of_segments (split_on 46 subject)

  -- The message, its headers, its Kafka key and its NATS subject, in this order.
  unfoldable pub extract_aggregate_id :
      Bytes → List (String × String) → String → String → Result String
  unfolding id_of_envelope id_of_headers id_of_key id_of_subject
  extract_aggregate_id bytes headers kafka_key nats_subject = elim (id_of_envelope bytes) [
    | some id ↦ ok id
    | none ↦ elim (id_of_headers header_names headers) [
      | some id ↦ ok id
      | none ↦ elim (id_of_key kafka_key) [
        | some id ↦ ok id
        | none ↦ elim (id_of_subject nats_subject) [
          | some id ↦ ok id
          | none ↦ err (errorf ("aggregate_id not found in any source" ∷ []))
        ]
      ]
    ]
  ]
