-- ===== src/Outbox/Publisher/Lookup.antt =====
-- With which event PublishEvent goes on, by what is stored under its key (sdk/pkg/outbox/publisher.go).
use jxt_core.Base.{
  eq_iff, ◌⊎◌, inl, inr, refl, ap, sym, Bool-cases, str_eq, ◌↔◌, ◌≡◌, ◌≢◌, true, Option, none, some,
  if◌then◌else◌, arith,
}
use jxt_core.Outbox.Event.{
  EventStatus, status_eq, is_published, pending, published, failed, max_retry, OutboxEvent,
}
use mathlib.Core.Path.{subst}
use jxt_core.Outbox.Repository.{Result, ok, err}
use jxt_core.Outbox.Publisher.Defs.{OutboxPublisher, Lookup, already_published, proceed, decide}

status_published : (s : EventStatus) → (status_eq s published ≡ true) ↔ (s ≡ published)
status_published pending = ground arith
status_published published = ground arith
status_published failed = ground arith
status_published max_retry = ground arith

module _ (p : OutboxPublisher) where
  -- What the repository in state `s` answers for the event's key.
  abbrev pub stored_under : OutboxEvent → p.repo.Store → Result (Option OutboxEvent)
  stored_under e s = (p.repo.find_by_idempotency_key e.idempotency_key s).0

  -- The event that a call with `e` goes on with: `e` itself if it has no key or nothing is stored under
  -- its key, and else the event that is stored, unless that is published.
  abbrev pub Sends : OutboxEvent → p.repo.Store → OutboxEvent → Type 0
  Sends e s x =
      ((e.idempotency_key ≡ "") × (x ≡ e))
      ⊎ ((e.idempotency_key ≢ "") × (stored_under e s ≡ ok none) × (x ≡ e))
      ⊎ ((e.idempotency_key ≢ "") × (stored_under e s ≡ ok (some x)) × (x.status ≢ published))

  -- A published event is stored under the event's key.
  abbrev pub Stands : OutboxEvent → p.repo.Store → Type 0
  Stands e s =
      (e.idempotency_key ≢ "")
      × ((x : OutboxEvent) × (stored_under e s ≡ ok (some x)) × (x.status ≡ published))

  -- What the repository in state `s` says of the event's key.
  abbrev pub looked_up : OutboxEvent → p.repo.Store → Lookup p
  looked_up e s =
      if str_eq e.idempotency_key ""
      then proceed e
      else decide p e (p.repo.find_by_idempotency_key e.idempotency_key s).0

  -- What a lookup that answers `r` lets a call with `e` go on with.
  abbrev Found : OutboxEvent → Result (Option OutboxEvent) → OutboxEvent → Type 0
  Found e r x = ((r ≡ ok none) × (x ≡ e)) ⊎ ((r ≡ ok (some x)) × (x.status ≢ published))

  decide-Found :
      (e x : OutboxEvent) (r : Result (Option OutboxEvent)) → decide p e r ≡ proceed x → Found e r x
  unfolding decide is_published
  decide-Found e x (err problem) h = absurd (cc)
  decide-Found e x (ok none) h = inl (refl, cc)
  decide-Found e x (ok (some y)) h = elim (Bool-cases (status_eq y.status published)) [
    | inl there ↦ absurd (cc (rw there at h))
    | inr other ↦
        let same : y ≡ x = cc (rw other at h) in
        inr (
          ap (λ z. ok (some z)) same,
          subst (λ z. z.status ≢ published) same
              (λ is. cc ((status_published y.status).1 is, other)),
        )
  ]

  Found-decide :
      (e x : OutboxEvent) (r : Result (Option OutboxEvent)) → Found e r x → decide p e r ≡ proceed x
  unfolding decide is_published
  Found-decide e x r (inl (h, same)) = rw (h, same) refl
  Found-decide e x r (inr (h, open')) = elim (Bool-cases (status_eq x.status published)) [
    | inl there ↦ absurd (open' ((status_published x.status).0 there))
    | inr other ↦ rw (h, other) refl
  ]

  Published : Result (Option OutboxEvent) → Type 0
  Published r = (x : OutboxEvent) × (r ≡ ok (some x)) × (x.status ≡ published)

  decide-Published :
      (e : OutboxEvent) (r : Result (Option OutboxEvent))
      → decide p e r ≡ already_published
      → Published r
  unfolding decide is_published Published
  decide-Published e (err problem) h = absurd (cc)
  decide-Published e (ok none) h = absurd (cc)
  decide-Published e (ok (some y)) h = elim (Bool-cases (status_eq y.status published)) [
    | inl there ↦ (y, refl, (status_published y.status).0 there)
    | inr other ↦ absurd (cc (rw other at h))
  ]

  Published-decide :
      (e : OutboxEvent) (r : Result (Option OutboxEvent))
      → Published r
      → decide p e r ≡ already_published
  unfolding decide is_published Published
  Published-decide e r (x, h, is) = rw (h, (status_published x.status).1 is) refl

  pub looked_up-Sends :
      (e x : OutboxEvent) (s : p.repo.Store) → (looked_up e s ≡ proceed x) ↔ Sends e s x
  looked_up-Sends e x s = elim (Bool-cases (str_eq e.idempotency_key "")) [
    | inl bare ↦
        let none_is = (eq_iff e.idempotency_key "").0 bare in
        rw bare (
          λ h. inl (none_is, cc),
          λ g. elim g [
            | inl (_, same) ↦ ap proceed (sym same)
            | inr (inl (keyed, _, _)) ↦ absurd (keyed none_is)
            | inr (inr (keyed, _, _)) ↦ absurd (keyed none_is)
          ],
        )
    | inr keyed ↦
        let given : e.idempotency_key ≢ "" = λ is. cc (keyed, (eq_iff e.idempotency_key "").1 is) in
        rw keyed (
          λ h. elim (decide-Found e x (stored_under e s) h) [
            | inl (there, same) ↦ inr (inl (given, there, same))
            | inr (there, open') ↦ inr (inr (given, there, open'))
          ],
          λ g. elim g [
            | inl (bare, _) ↦ absurd (given bare)
            | inr (inl (_, there, same)) ↦ Found-decide e x (stored_under e s) (inl (there, same))
            | inr (inr (_, there, open')) ↦ Found-decide e x (stored_under e s) (inr (there, open'))
          ],
        )
  ]

  pub looked_up-Stands :
      (e : OutboxEvent) (s : p.repo.Store) → (looked_up e s ≡ already_published) ↔ Stands e s
  unfolding Published
  looked_up-Stands e s = elim (Bool-cases (str_eq e.idempotency_key "")) [
    | inl bare ↦ rw bare (λ h. cc, λ g. absurd (g.0 ((eq_iff e.idempotency_key "").0 bare)))
    | inr keyed ↦
        let given : e.idempotency_key ≢ "" = λ is. cc (keyed, (eq_iff e.idempotency_key "").1 is) in
        rw keyed (
          λ h. (given, decide-Published e (stored_under e s) h),
          λ g. Published-decide e (stored_under e s) g.1,
        )
  ]
