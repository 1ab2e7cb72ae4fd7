-- ===== src/EventBus/Envelope/Laws.antt =====
-- What sdk/pkg/eventbus/envelope.go makes of an envelope's bytes and of the other sources of an id.
use jxt_core.Base.{
  is_empty, String, str_eq, eq_iff, ◌≡◌, refl, ap, sym, ◌∙◌, true, false, none, some, List,
  string_eq, arith, Bool-cases, Option-cases, inl, inr,
}
use jxt_core.Outbox.Event.{Error}
use jxt_core.Outbox.Repository.{ok, err}
use jxt_core.EventBus.Envelope.Defs.{
  Bytes, Envelope, Library, IsLibrary, IsCopy, is_blank, validate, to_bytes, checked, validated,
  from_bytes, id_of_envelope, extract_aggregate_id,
}

module _ (l : Library) (laws : IsLibrary l) where
  -- Validation reads no more than decoding keeps.
  validate-copy : (e e' : Envelope) → IsCopy e e' → validate l e' ≡ validate l e
  unfolding validate
  validate-copy e e' (same_id, same_aggregate, same_type, same_version, same_tenant, same_payload) =
      simp (same_id, same_aggregate, same_type, same_version, same_payload) refl

  validate-named : (e : Envelope) → validate l e ≡ none → is_blank l e.aggregate_id ≡ false
  unfolding validate
  validate-named e h = ground (arith, h)

  validate-full : (e : Envelope) → validate l e ≡ none → str_eq e.aggregate_id "" ≡ false
  validate-full e h = elim (Bool-cases (str_eq e.aggregate_id "")) [
    | inr full ↦ full
    | inl missing ↦ absurd (ground (arith, blank missing, validate-named e h))
  ]
    where
      blank : str_eq e.aggregate_id "" ≡ true → is_blank l e.aggregate_id ≡ true
      blank missing =
          ap (is_blank l) ((eq_iff e.aggregate_id "").0 missing)
          ∙ ap (λ s. str_eq s "") laws.trim_empty

  pub to_bytes-valid : (e : Envelope) → validate l e ≡ none → to_bytes l e ≡ l.marshal e
  unfolding to_bytes
  to_bytes-valid e valid = simp (valid, to_bytes) refl

  to_bytes-invalid :
      (e : Envelope) (problem : Error) → validate l e ≡ some problem → to_bytes l e ≡ err problem
  unfolding to_bytes
  to_bytes-invalid e problem bad = simp (bad, to_bytes) refl

  to_bytes-ok :
      (e : Envelope) (b : Bytes)
      → to_bytes l e ≡ ok b
      → (validate l e ≡ none) × (l.marshal e ≡ ok b)
  to_bytes-ok e b h = elim (Option-cases (validate l e)) [
    | inl valid ↦ (valid, sym (to_bytes-valid e valid) ∙ h)
    | inr (problem, bad) ↦ absurd (ground (arith, h, to_bytes-invalid e problem bad))
  ]

  from_bytes-valid :
      (b : Bytes) (e : Envelope)
      → l.unmarshal b ≡ ok e
      → validate l e ≡ none
      → from_bytes l b ≡ ok e
  unfolding from_bytes validated
  from_bytes-valid b e decoded valid = ap (validated l) decoded ∙ ap (λ o. checked l o e) valid

  -- The bytes of a valid envelope are decoded again, to an envelope with the same ids, type, version and
  -- tenant.
  from_bytes-to_bytes :
      (e : Envelope) (b : Bytes)
      → to_bytes l e ≡ ok b
      → (e' : Envelope) × (from_bytes l b ≡ ok e') × IsCopy e e'
  from_bytes-to_bytes e b h =
      let (valid, made) = to_bytes-ok e b h in
      let (e', decoded, copy) = laws.unmarshal-marshal e b made in
      (e', from_bytes-valid b e' decoded (validate-copy e e' copy ∙ valid), copy)

  id_of_envelope-found :
      (b : Bytes) (e : Envelope)
      → is_empty b ≡ false
      → from_bytes l b ≡ ok e
      → str_eq e.aggregate_id "" ≡ false
      → id_of_envelope l b ≡ some e.aggregate_id
  unfolding id_of_envelope
  id_of_envelope-found b e full decoded named =
      simp (full, id_of_envelope, decoded) (simp named refl)

  extract_aggregate_id-envelope :
      (b : Bytes) (headers : List (String × String)) (key subject id : String)
      → id_of_envelope l b ≡ some id
      → extract_aggregate_id l b headers key subject ≡ ok id
  unfolding extract_aggregate_id
  extract_aggregate_id-envelope b headers key subject id h = simp (h, extract_aggregate_id) refl

  -- The bytes of an envelope that ToBytes accepts are decoded by FromBytes, to an envelope with the same
  -- ids, type, version and tenant, and their aggregate's id is the envelope's, whatever the headers, the
  -- Kafka key and the NATS subject say.
  pub extract_aggregate_id-to_bytes :
      (e : Envelope) (b : Bytes) (headers : List (String × String)) (key subject : String)
      → to_bytes l e ≡ ok b
      → ((e' : Envelope) × (from_bytes l b ≡ ok e') × IsCopy e e')
        × (extract_aggregate_id l b headers key subject ≡ ok e.aggregate_id)
  extract_aggregate_id-to_bytes e b headers key subject h =
      let (valid, made) = to_bytes-ok e b h in
      let (e', decoded, copy) = from_bytes-to_bytes e b h in
      (
        (e', decoded, copy),
        extract_aggregate_id-envelope b headers key subject e.aggregate_id (
            id_of_envelope-found b e' (laws.marshal_full e b made) decoded
              (ap (λ s. str_eq s "") copy.1 ∙ validate-full e valid)
            ∙ ap some copy.1),
      )
