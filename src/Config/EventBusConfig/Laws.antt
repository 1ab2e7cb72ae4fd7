-- ===== src/Config/EventBusConfig/Laws.antt =====
-- Validate after SetDefaults, as a whole (sdk/config/eventbus.go).
use jxt_core.Base.{
  String, str_eq, eq_iff, false, none, [], ◌∷◌, ◌≡◌, ◌↔◌, refl, ap, sym, ◌∙◌, arith, Bool-cases,
  inl, inr,
}
use jxt_core.Config.EventBusConfig.Structs.{Floats, IsFloats, EventBusConfig}
use jxt_core.Config.EventBusConfig.Defaults.{or_text, set_defaults}
use jxt_core.Config.EventBusConfig.Checks.{validate}
use jxt_core.Config.EventBusConfig.Parts.{OneOf, MemoryAccepted}
use jxt_core.Config.EventBusConfig.Kinds.{KafkaAccepted}
use jxt_core.Config.EventBusConfig.Nats.{NatsAccepted}
use jxt_core.Config.EventBusConfig.Cases.{
  CommonAccepted, KindAccepted, clash, with_kind, kafka_case, nats_case, memory_case, other_case,
}

module _ (fl : Floats) (laws : IsFloats fl) where
  at_kind :
      (c : EventBusConfig fl) (k : String)
      → or_text c.kind "memory" ≡ k
      → set_defaults fl c ≡ with_kind fl laws k c
  unfolding set_defaults
  at_kind c k e = ap (λ j. with_kind fl laws j c) e

  own_kafka :
      (c : EventBusConfig fl) → c.kind ≡ "kafka" → KindAccepted fl laws c → KafkaAccepted c.kafka
  own_kafka c e (inl (_, own)) = own
  own_kafka c e (inr (inl (e', _))) = absurd (clash fl laws c.kind "kafka" "nats" e e' refl)
  own_kafka c e (inr (inr (inl e', _))) = absurd (clash fl laws c.kind "kafka" "memory" e e' refl)
  own_kafka c e (inr (inr (inr e', _))) = absurd (clash fl laws c.kind "kafka" "" e e' refl)

  own_nats :
      (c : EventBusConfig fl) → c.kind ≡ "nats" → KindAccepted fl laws c → NatsAccepted c.nats
  own_nats c e (inl (e', _)) = absurd (clash fl laws c.kind "nats" "kafka" e e' refl)
  own_nats c e (inr (inl (_, own))) = own
  own_nats c e (inr (inr (inl e', _))) = absurd (clash fl laws c.kind "nats" "memory" e e' refl)
  own_nats c e (inr (inr (inr e', _))) = absurd (clash fl laws c.kind "nats" "" e e' refl)

  own_memory :
      (c : EventBusConfig fl)
      → str_eq c.kind "kafka" ≡ false
      → str_eq c.kind "nats" ≡ false
      → KindAccepted fl laws c
      → MemoryAccepted c.memory
  own_memory c k n (inl (e, _)) = absurd (cc (k, (eq_iff c.kind "kafka").1 e))
  own_memory c k n (inr (inl (e, _))) = absurd (cc (n, (eq_iff c.kind "nats").1 e))
  own_memory c k n (inr (inr (_, own))) = own

  known_kind :
      (c : EventBusConfig fl)
      → KindAccepted fl laws c
      → OneOf c.kind ("kafka" ∷ "nats" ∷ "memory" ∷ "" ∷ [])
  known_kind c (inl (e, _)) = inl e
  known_kind c (inr (inl (e, _))) = inr (inl e)
  known_kind c (inr (inr (inl e, _))) = inr (inr (inl e))
  known_kind c (inr (inr (inr e, _))) = inr (inr (inr (inl e)))

  -- The theorem for a configuration whose type is known.
  via :
      (c : EventBusConfig fl) (k : String) (Own : Type 0)
      → or_text c.kind "memory" ≡ k
      → (validate fl (with_kind fl laws k c) ≡ none) ↔ (CommonAccepted fl laws c × Own)
      → (Own → KindAccepted fl laws c)
      → (KindAccepted fl laws c → Own)
      → (validate fl (set_defaults fl c) ≡ none)
        ↔ (CommonAccepted fl laws c × KindAccepted fl laws c)
  via c k Own e case there back =
      let at = ap (validate fl) (at_kind c k e) in
      (
        λ v. let (common, own) = case.0 (sym at ∙ v) in (common, there own),
        λ (common, kind). at ∙ case.1 (common, back kind),
      )

  given_kind :
      (c : EventBusConfig fl) (k : String)
      → c.kind ≡ k
      → str_eq k "" ≡ false
      → or_text c.kind "memory" ≡ k
  given_kind c k e named = rw (e, named) refl

  unknown_kind :
      (c : EventBusConfig fl)
      → str_eq c.kind "kafka" ≡ false
      → str_eq c.kind "nats" ≡ false
      → str_eq c.kind "memory" ≡ false
      → str_eq c.kind "" ≡ false
      → ¬ KindAccepted fl laws c
  unknown_kind c kafka nats memory there h = ground (
    arith,
    known_kind c h,
    kafka,
    nats,
    memory,
    there,
    eq_iff c.kind "kafka",
    eq_iff c.kind "nats",
    eq_iff c.kind "memory",
    eq_iff c.kind "",
  )

  -- After SetDefaults, Validate accepts a configuration exactly if the service is named, its type is
  -- kafka, nats, memory or empty, and the settings of the type, of the publisher, of the subscriber,
  -- of the health check and of the security are in their ranges, where a number that is 0 and a text
  -- that is empty count as their defaults, and those of a part that is switched off do not matter.
  -- The number 1000.0 is taken to be positive.
  pub validate-set_defaults :
      (c : EventBusConfig fl)
      → (validate fl (set_defaults fl c) ≡ none)
        ↔ (CommonAccepted fl laws c × KindAccepted fl laws c)
  validate-set_defaults c = elim (Bool-cases (str_eq c.kind "kafka")) [
    | inl kafka ↦
        let e = (eq_iff c.kind "kafka").0 kafka in
        via c "kafka" (KafkaAccepted c.kafka) (given_kind c "kafka" e refl) (kafka_case fl laws c)
          (λ own. inl (e, own)) (own_kafka c e)
    | inr not_kafka ↦ elim (Bool-cases (str_eq c.kind "nats")) [
      | inl nats ↦
          let e = (eq_iff c.kind "nats").0 nats in
          via c "nats" (NatsAccepted c.nats) (given_kind c "nats" e refl) (nats_case fl laws c)
            (λ own. inr (inl (e, own))) (own_nats c e)
      | inr not_nats ↦ elim (Bool-cases (str_eq c.kind "memory")) [
        | inl memory ↦
            let e = (eq_iff c.kind "memory").0 memory in
            via c "memory" (MemoryAccepted c.memory) (given_kind c "memory" e refl)
              (memory_case fl laws c) (λ own. inr (inr (inl e, own)))
              (own_memory c not_kafka not_nats)
        | inr not_memory ↦ elim (Bool-cases (str_eq c.kind "")) [
          | inl missing ↦
              let e = (eq_iff c.kind "").0 missing in
              via c "memory" (MemoryAccepted c.memory) (rw missing) (memory_case fl laws c)
                (λ own. inr (inr (inr e, own))) (own_memory c not_kafka not_nats)
          | inr there ↦
              let at = ap (validate fl) (at_kind c c.kind (rw there)) in
              (
                λ v.
                    absurd (other_case fl laws c c.kind not_kafka not_nats not_memory (sym at ∙ v)),
                λ (_, kind). absurd (unknown_kind c not_kafka not_nats not_memory there kind),
              )
        ]
      ]
    ]
  ]
