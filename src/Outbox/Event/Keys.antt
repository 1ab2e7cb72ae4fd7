-- ===== src/Outbox/Event/Keys.antt =====
-- Idempotency keys (sdk/pkg/outbox/event.go).
use Prim.Native.String.{count}
use text.Mathlib.TextLemmas.{append_inj, length-append, append_assoc, append-nil}
use jxt_core.Base.{ℤ, String, str_append, concat, show_int, ◌≡◌, ap, sym, ◌∙◌, [], ◌∷◌, arith}
use jxt_core.Outbox.Event.Defs.{generate_idempotency_key}

-- Texts with equal ends of the same length have equal fronts.
pub append_inj_right :
    (s₁ s₂ t₁ t₂ : String) → str_append s₁ t₁ ≡ str_append s₂ t₂ → count t₁ ≡ count t₂ → t₁ ≡ t₂
append_inj_right s₁ s₂ t₁ t₂ e h =
    (append_inj e (omega (arith, ap count e, length-append s₁ t₁, length-append s₂ t₂, h))).1

-- The key is a front that holds the other parts, and then the event's id.
generate_idempotency_key-front :
    (tenant : ℤ) (aggregate_type aggregate_id event_type event_id : String)
    → (front : String) × (generate_idempotency_key tenant aggregate_type aggregate_id event_type
          event_id
        ≡ str_append front event_id)
unfolding generate_idempotency_key
generate_idempotency_key-front tenant aggregate_type aggregate_id event_type event_id = (
  concat
      (show_int tenant ∷ ":" ∷ aggregate_type ∷ ":" ∷ aggregate_id ∷ ":" ∷ event_type ∷ ":" ∷ []),
  simp (append_assoc, append-nil),
)

-- Generated keys of two events never collide: with ids of the same length (UUIDs have one length),
-- equal keys have equal ids, whatever the tenants, the types and the aggregates are, also where
-- these hold the separator.
pub generate_idempotency_key_injective :
    (tenant tenant' : ℤ) (aggregate aggregate' id id' event event' x y : String)
    → count x ≡ count y
    → generate_idempotency_key tenant aggregate id event x
      ≡ generate_idempotency_key tenant' aggregate' id' event' y
    → x ≡ y
generate_idempotency_key_injective tenant tenant' aggregate aggregate' id id' event event' x y h e =
    let front = generate_idempotency_key-front tenant aggregate id event x in
    let front' = generate_idempotency_key-front tenant' aggregate' id' event' y in
    append_inj_right front.0 front'.0 x y (sym front.1 ∙ e ∙ front'.1) h
