-- ===== src/Outbox/Gorm/Store.antt =====
-- The state of GormOutboxRepository (sdk/pkg/outbox/adapters/gorm/repository.go): the database and the number
-- of readings of the clock so far; and the helpers of its methods.
use jxt_core.Base.{
  ℕ, suc, ◌+◌, ◌-◌, ◌*◌, ℤ, pos, negsuc, eqb_ℤ, String, Option, none, some, List, [], ◌∷◌,
  if◌then◌else◌, State,
}
use jxt_core.Outbox.Event.{OutboxEvent}
use jxt_core.Outbox.Repository.{Result, ok, err}
use jxt_core.Outbox.Gorm.Table.{OutboxEventModel, to_entity, to_entities, Cond, tenant_is, Gorm}

pub record GormStore (Db : Type 0) : Type 0 where
  pub db : Db
  pub clock_reads : ℕ

-- `if tenantID != 0 { query = query.Where("tenant_id = ?", tenantID) }`
abbrev pub for_tenant : ℤ → List Cond
for_tenant t = if eqb_ℤ t (pos 0) then [] else tenant_is t ∷ []

abbrev pub entities : Result (List OutboxEventModel) → Result (List OutboxEvent)
entities (err e) = err e
entities (ok ms) = ok (to_entities ms)

abbrev pub entity : Result (Option OutboxEventModel) → Result (Option OutboxEvent)
entity (err e) = err e
entity (ok none) = ok none
entity (ok (some m)) = ok (some (to_entity m))

abbrev pub keys_of : List OutboxEventModel → List String
keys_of [] = []
keys_of (m ∷ ms) = m.idempotency_key ∷ keys_of ms

abbrev pub ids_of : List OutboxEvent → List String
ids_of [] = []
ids_of (e ∷ es) = e.id ∷ ids_of es

-- `now.Add(-delaySeconds * time.Second)`
abbrev pub seconds_ago : ℕ → ℤ → ℕ
seconds_ago now (pos n) = now - n * 1000000000
seconds_ago now (negsuc n) = now + suc n * 1000000000

module _ (g : Gorm) where
  abbrev pub Action : Type 0 → Type 0
  Action A = State (GormStore g.Db) A

  unfoldable pub on_db : {A : Type 0} → State g.Db A → Action A
  on_db call s = ((call s.db).0, record s { db = (call s.db).1 })

  unfoldable pub time_now : (ℕ → ℕ) → Action ℕ
  time_now clock s = (clock s.clock_reads, record s { clock_reads = suc s.clock_reads })
