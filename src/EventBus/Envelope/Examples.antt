-- ===== src/EventBus/Envelope/Examples.antt =====
-- Examples of the message envelope, over an encoding that knows the envelopes of one event.
use jxt_core.Base.{
  pos, eqb_ℤ, eqb_ℤ_iff, is_empty, str_eq, eq_iff, ◌≡◌, refl, ap, sym, Bool, true, not, ◌&&◌, [],
  ◌∷◌, if◌then◌else◌, arith, Bool-cases, inl, inr, get_key, string_eq,
}
use jxt_core.Outbox.Event.{errorf}
use jxt_core.Outbox.Repository.{Result, ok, err}
use jxt_core.Tenant.Provider.Keys.{split_on}
use jxt_core.EventBus.Envelope.Defs.{
  Bytes, Envelope, Library, IsLibrary, IsCopy, to_bytes, from_bytes, extract_aggregate_id,
}
use jxt_core.EventBus.Envelope.Laws.{extract_aggregate_id-to_bytes}
use jxt_core.EventBus.Envelope.Ids.{IsId, extract_aggregate_id-IsId}

abbrev pub created : Envelope
created = record {
  event_id = "e-1";
  aggregate_id = "order-7";
  event_type = "OrderCreated";
  event_version = pos 1;
  timestamp = 5;
  trace_id = "";
  correlation_id = "";
  tenant_id = pos 0;
  payload = 123 ∷ 125 ∷ [];
}

abbrev is_known : Envelope → Bool
is_known e =
    str_eq e.event_id "e-1"
    && str_eq e.aggregate_id "order-7"
    && str_eq e.event_type "OrderCreated"
    && eqb_ℤ e.event_version (pos 1)
    && eqb_ℤ e.tenant_id (pos 0)
    && not (is_empty e.payload)

unfoldable pub encoded : Envelope → Result Bytes
encoded e = if is_known e then ok (1 ∷ []) else err (errorf ("unknown event" ∷ []))

unfoldable pub decoded : Bytes → Result Envelope
decoded [] = err (errorf ("unexpected end of JSON input" ∷ []))
decoded (b ∷ bs) = ok created

abbrev pub small_library : Library
small_library = record { trim_space = λ s. s; marshal = encoded; unmarshal = decoded }

encoded-known : (e : Envelope) (b : Bytes) → encoded e ≡ ok b → (is_known e ≡ true) × (b ≡ 1 ∷ [])
unfolding encoded
encoded-known e b h = elim (Bool-cases (is_known e)) [
  | inl known ↦ (known, ground (arith, h, known))
  | inr unknown ↦ absurd (ground (arith, h, unknown))
]

known-IsCopy : (e : Envelope) → is_known e ≡ true → IsCopy e created
known-IsCopy e h = (
  sym ((eq_iff e.event_id "e-1").0 (ground (arith, h))),
  sym ((eq_iff e.aggregate_id "order-7").0 (ground (arith, h))),
  sym ((eq_iff e.event_type "OrderCreated").0 (ground (arith, h))),
  sym ((eqb_ℤ_iff e.event_version (pos 1)).0 (ground (arith, h))),
  sym ((eqb_ℤ_iff e.tenant_id (pos 0)).0 (ground (arith, h))),
  ground (arith, h),
)

pub small_library-IsLibrary : IsLibrary small_library
unfolding decoded
small_library-IsLibrary = record {
  trim_twice = λ s. refl;
  trim_empty = refl;
  unmarshal-marshal = λ e b h.
      (created, ap decoded (encoded-known e b h).1, known-IsCopy e (encoded-known e b h).0);
  marshal_full = λ e b h. ap is_empty (encoded-known e b h).1;
}

created_bytes : to_bytes small_library created ≡ ok (1 ∷ [])
unfolding to_bytes encoded
created_bytes = refl

extract_aggregate_id-to_bytes_example :
    ((e' : Envelope) × (from_bytes small_library (1 ∷ []) ≡ ok e') × IsCopy created e')
    × (extract_aggregate_id small_library (1 ∷ []) (("X-Aggregate-ID", "other") ∷ []) "key" "a.b"
        ≡ ok "order-7")
extract_aggregate_id-to_bytes_example =
    extract_aggregate_id-to_bytes small_library small_library-IsLibrary created (1 ∷ [])
      (("X-Aggregate-ID", "other") ∷ []) "key" "a.b" created_bytes

subject_found : extract_aggregate_id small_library [] [] "" "orders.order-8.*" ≡ ok "order-8"
unfolding extract_aggregate_id split_on get_key
subject_found = refl

extract_aggregate_id-IsId_example : IsId small_library "order-8"
extract_aggregate_id-IsId_example =
    extract_aggregate_id-IsId small_library small_library-IsLibrary [] [] "" "orders.order-8.*"
      "order-8" subject_found
