-- ===== src/EventBus/Envelope/Ids.antt =====
-- Which ids ExtractAggregateID answers (sdk/pkg/eventbus/envelope.go).
use jxt_core.Base.{
  is_empty, String, str_eq, ◌≡◌, refl, ap, ◌∙◌, Option, none, some, List, [], ◌∷◌, get_key,
  string_eq, arith, Bool-cases, Option-cases, inl, inr,
}
use mathlib.Core.Path.{subst}
use jxt_core.Outbox.Event.{Error}
use jxt_core.Outbox.Repository.{Result, ok, err}
use jxt_core.Tenant.Provider.Keys.{split_on}
use jxt_core.EventBus.Envelope.Defs.{
  Bytes, Envelope, Library, IsLibrary, check_id, validate_aggregate_id, validate, checked,
  validated, from_bytes, envelope_id, id_of_envelope, id_of_text, id_of_key, id_of_header,
  header_names, id_of_headers, id_of_segments, id_of_subject, extract_aggregate_id,
}

abbrev named : Result Envelope → String
named (err e) = ""
named (ok e) = e.aggregate_id

abbrev pub IsId : Library → String → Type 0
IsId l id = validate_aggregate_id l id ≡ none

module _ (l : Library) (laws : IsLibrary l) where
  validate_aggregate_id-trim :
      (s : String) → validate_aggregate_id l (l.trim_space s) ≡ validate_aggregate_id l s
  unfolding validate_aggregate_id
  validate_aggregate_id-trim s = ap check_id (laws.trim_twice s)

  id_of_text-IsId : (s id : String) → id_of_text l s ≡ some id → IsId l id
  unfolding id_of_text
  id_of_text-IsId s id h = elim (Option-cases (validate_aggregate_id l s)) [
    | inl valid ↦ subst (IsId l) (ground (arith, h, valid)) (validate_aggregate_id-trim s ∙ valid)
    | inr (problem, bad) ↦ absurd (ground (arith, h, bad))
  ]

  id_of_key-IsId : (s id : String) → id_of_key l s ≡ some id → IsId l id
  unfolding id_of_key
  id_of_key-IsId s id h = elim (Option-cases (validate_aggregate_id l (l.trim_space s))) [
    | inl valid ↦ subst (IsId l) (ground (arith, h, valid)) valid
    | inr (problem, bad) ↦ absurd (ground (arith, h, bad))
  ]

  id_of_header-IsId : (o : Option String) (id : String) → id_of_header l o ≡ some id → IsId l id
  id_of_header-IsId none id h = absurd (ground (arith, h))
  id_of_header-IsId (some s) id h = id_of_text-IsId s id h

  id_of_headers-IsId :
      (names : List String) (headers : List (String × String)) (id : String)
      → id_of_headers l names headers ≡ some id
      → IsId l id
  unfolding id_of_headers
  id_of_headers-IsId [] headers id h = absurd (ground (arith, h))
  id_of_headers-IsId (name ∷ names) headers id h =
      elim (Option-cases (id_of_header l (get_key name headers))) [
        | inl missing ↦ id_of_headers-IsId names headers id (ground (arith, h, missing))
        | inr (found, here) ↦
            id_of_header-IsId (get_key name headers) id (here ∙ ground (arith, h, here))
      ]

  id_of_segments-IsId : (ps : List String) (id : String) → id_of_segments l ps ≡ some id → IsId l id
  unfolding id_of_segments
  id_of_segments-IsId [] id h = absurd (ground (arith, h))
  id_of_segments-IsId (p ∷ ps) id h = elim (Option-cases (id_of_segments l ps)) [
    | inl missing ↦ id_of_key-IsId p id (ground (arith, h, missing))
    | inr (found, here) ↦ id_of_segments-IsId ps id (here ∙ ground (arith, h, here))
  ]

  id_of_subject-IsId : (s id : String) → id_of_subject l s ≡ some id → IsId l id
  unfolding id_of_subject
  id_of_subject-IsId s id h = elim (Bool-cases (str_eq s "")) [
    | inl blank ↦ absurd (ground (arith, h, blank))
    | inr full ↦ id_of_segments-IsId (split_on 46 s) id (ground (arith, h, full))
  ]

  validate-IsId : (e : Envelope) → validate l e ≡ none → IsId l e.aggregate_id
  unfolding validate
  validate-IsId e h = elim (Option-cases (validate_aggregate_id l e.aggregate_id)) [
    | inl valid ↦ valid
    | inr (problem, bad) ↦ absurd (ground (arith, h, bad))
  ]

  checked-IsId :
      (o : Option Error) (e e' : Envelope)
      → validate l e ≡ o
      → checked l o e ≡ ok e'
      → IsId l e'.aggregate_id
  checked-IsId none e e' valid h = subst (IsId l) (ap named h) (validate-IsId e valid)
  checked-IsId (some problem) e e' bad h = absurd (ground (arith, h))

  validated-IsId :
      (r : Result Envelope) (e : Envelope) → validated l r ≡ ok e → IsId l e.aggregate_id
  unfolding validated
  validated-IsId (err problem) e h = absurd (ground (arith, h))
  validated-IsId (ok e0) e h = checked-IsId (validate l e0) e0 e refl h

  from_bytes-IsId : (b : Bytes) (e : Envelope) → from_bytes l b ≡ ok e → IsId l e.aggregate_id
  unfolding from_bytes
  from_bytes-IsId b e h = validated-IsId (l.unmarshal b) e h

  envelope_id-IsId :
      (b : Bytes) (r : Result Envelope) (id : String)
      → from_bytes l b ≡ r
      → envelope_id l r ≡ some id
      → IsId l id
  envelope_id-IsId b (err e) id here h = absurd (ground (arith, h))
  envelope_id-IsId b (ok e) id here h = elim (Bool-cases (str_eq e.aggregate_id "")) [
    | inl blank ↦ absurd (ground (arith, h, blank))
    | inr full ↦ subst (IsId l) (ground (arith, h, full)) (from_bytes-IsId b e here)
  ]

  id_of_envelope-IsId : (b : Bytes) (id : String) → id_of_envelope l b ≡ some id → IsId l id
  unfolding id_of_envelope
  id_of_envelope-IsId b id h = elim (Bool-cases (is_empty b)) [
    | inl nothing ↦ absurd (ground (arith, h, nothing))
    | inr full ↦ envelope_id-IsId b (from_bytes l b) id refl (ground (arith, h, full))
  ]

  -- Whatever the message, its headers, its Kafka key and its NATS subject are, an id that
  -- ExtractAggregateID answers is a valid one: without the blanks around it, it is not empty, has at
  -- most 256 bytes, and consists of letters, digits and : _ - . /
  pub extract_aggregate_id-IsId :
      (b : Bytes) (headers : List (String × String)) (key subject id : String)
      → extract_aggregate_id l b headers key subject ≡ ok id
      → IsId l id
  unfolding extract_aggregate_id
  extract_aggregate_id-IsId b headers key subject id h = elim (Option-cases (id_of_envelope l b)) [
    | inr (found, here) ↦ id_of_envelope-IsId b id (here ∙ ground (arith, h, here))
    | inl no_envelope ↦ elim (Option-cases (id_of_headers l header_names headers)) [
      | inr (found, here) ↦
          id_of_headers-IsId header_names headers id (here ∙ ground (arith, h, no_envelope, here))
      | inl no_header ↦ elim (Option-cases (id_of_key l key)) [
        | inr (found, here) ↦
            id_of_key-IsId key id (here ∙ ground (arith, h, no_envelope, no_header, here))
        | inl no_key ↦ elim (Option-cases (id_of_subject l subject)) [
          | inr (found, here) ↦
              id_of_subject-IsId subject id
                (here ∙ ground (arith, h, no_envelope, no_header, no_key, here))
          | inl no_subject ↦ absurd (ground (arith, h, no_envelope, no_header, no_key, no_subject))
        ]
      ]
    ]
  ]
