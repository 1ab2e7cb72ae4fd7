-- ===== src/Outbox/Gorm/Table.antt =====
-- What sdk/pkg/outbox/adapters/gorm takes from gorm and the database behind it: a table of rows that
-- queries select from and updates rewrite. The conditions are the `Where` texts of repository.go and
-- the assignments its `Updates` maps; `record Gorm` is a parameter of the model, and its laws state
-- what these calls are documented to do.
use jxt_core.Base.{
  ℕ, suc, ◌≤◌, ℤ, pos, ltb_ℤ, eqb_ℤ, ltb, leb, int_incr, String, str_eq, ◌≡◌, ◌≢◌, Bool, true,
  false, ◌&&◌, ◌||◌, Option, none, some, List, [], ◌∷◌, ◌++◌, if◌then◌else◌, State, All, length,
}
use mathlib.Core.List.{Memᴰ}
use jxt_core.Outbox.Event.{Error, EventStatus, status_eq, OutboxEvent}
use jxt_core.Outbox.Repository.{Result, ok, err}

-- A row of outbox_events (model.go).
pub record OutboxEventModel : Type 0 where
  pub id : String
  pub tenant_id : ℤ
  pub aggregate_id : String
  pub aggregate_type : String
  pub event_type : String
  pub payload : List ℕ
  pub status : EventStatus
  pub retry_count : ℤ
  pub max_retries : ℤ
  pub last_error : String
  pub created_at : ℕ
  pub updated_at : ℕ
  pub published_at : Option ℕ
  pub scheduled_at : Option ℕ
  pub last_retry_at : Option ℕ
  pub version : ℤ
  pub trace_id : String
  pub correlation_id : String
  pub idempotency_key : String

unfoldable pub to_entity : OutboxEventModel → OutboxEvent
to_entity m = record {
  id = m.id;
  tenant_id = m.tenant_id;
  aggregate_id = m.aggregate_id;
  aggregate_type = m.aggregate_type;
  event_type = m.event_type;
  payload = m.payload;
  status = m.status;
  retry_count = m.retry_count;
  max_retries = m.max_retries;
  last_error = m.last_error;
  created_at = m.created_at;
  updated_at = m.updated_at;
  published_at = m.published_at;
  scheduled_at = m.scheduled_at;
  last_retry_at = m.last_retry_at;
  version = m.version;
  trace_id = m.trace_id;
  correlation_id = m.correlation_id;
  idempotency_key = m.idempotency_key;
}

unfoldable pub from_entity : OutboxEvent → OutboxEventModel
from_entity e = record {
  id = e.id;
  tenant_id = e.tenant_id;
  aggregate_id = e.aggregate_id;
  aggregate_type = e.aggregate_type;
  event_type = e.event_type;
  payload = e.payload;
  status = e.status;
  retry_count = e.retry_count;
  max_retries = e.max_retries;
  last_error = e.last_error;
  created_at = e.created_at;
  updated_at = e.updated_at;
  published_at = e.published_at;
  scheduled_at = e.scheduled_at;
  last_retry_at = e.last_retry_at;
  version = e.version;
  trace_id = e.trace_id;
  correlation_id = e.correlation_id;
  idempotency_key = e.idempotency_key;
}

unfoldable pub to_entities : List OutboxEventModel → List OutboxEvent
unfolding to_entity
to_entities [] = []
to_entities (m ∷ ms) = to_entity m ∷ to_entities ms

pub data Cond : Type 0 where
  status_is : EventStatus → Cond
  tenant_is : ℤ → Cond
  -- scheduled_at IS NULL OR scheduled_at <= ?
  due_at : ℕ → Cond
  id_is : String → Cond
  id_in : List String → Cond
  created_before : ℕ → Cond
  published_before : ℕ → Cond
  updated_before : ℕ → Cond
  retry_below : ℤ → Cond
  aggregate_is : String → Cond
  type_is : String → Cond
  key_is : String → Cond
  key_in : List String → Cond

abbrev pub is_in : String → List String → Bool
is_in x [] = false
is_in x (y ∷ ys) = str_eq x y || is_in x ys

abbrev pub due : Option ℕ → ℕ → Bool
due none now = true
due (some t) now = leb t now

-- A comparison with NULL does not hold.
abbrev pub before : Option ℕ → ℕ → Bool
before none t = false
before (some u) t = ltb u t

unfoldable pub holds : Cond → OutboxEventModel → Bool
holds (status_is s) m = status_eq m.status s
holds (tenant_is t) m = eqb_ℤ m.tenant_id t
holds (due_at now) m = due m.scheduled_at now
holds (id_is x) m = str_eq m.id x
holds (id_in xs) m = is_in m.id xs
holds (created_before t) m = ltb m.created_at t
holds (published_before t) m = before m.published_at t
holds (updated_before t) m = ltb m.updated_at t
holds (retry_below n) m = ltb_ℤ m.retry_count n
holds (aggregate_is x) m = str_eq m.aggregate_id x
holds (type_is x) m = str_eq m.aggregate_type x
holds (key_is k) m = str_eq m.idempotency_key k
holds (key_in ks) m = is_in m.idempotency_key ks

unfoldable pub matches : List Cond → OutboxEventModel → Bool
unfolding holds
matches [] m = true
matches (c ∷ cs) m = holds c m && matches cs m

pub data Assign : Type 0 where
  set_status : EventStatus → Assign
  set_published_at set_updated_at set_last_retry_at : ℕ → Assign
  set_last_error : String → Assign
  -- gorm.Expr("retry_count + 1")
  incr_retry_count : Assign

unfoldable pub assign : List Assign → OutboxEventModel → OutboxEventModel
assign [] m = m
assign (set_status s ∷ sets) m = assign sets (record m { status = s })
assign (set_published_at t ∷ sets) m = assign sets (record m { published_at = some t })
assign (set_updated_at t ∷ sets) m = assign sets (record m { updated_at = t })
assign (set_last_retry_at t ∷ sets) m = assign sets (record m { last_retry_at = some t })
assign (set_last_error x ∷ sets) m = assign sets (record m { last_error = x })
assign (incr_retry_count ∷ sets) m = assign sets (record m { retry_count = int_incr m.retry_count })

-- UPDATE … SET … WHERE …
unfoldable pub update_rows : List Cond → List Assign → List OutboxEventModel → List OutboxEventModel
update_rows cs sets [] = []
update_rows cs sets (m ∷ ms) = (if matches cs m then assign sets m else m) ∷ update_rows cs sets ms

-- Save: the row of this primary key is replaced, or the row is added.
unfoldable pub upsert : OutboxEventModel → List OutboxEventModel → List OutboxEventModel
upsert x [] = x ∷ []
upsert x (m ∷ ms) = if str_eq m.id x.id then x ∷ ms else m ∷ upsert x ms

-- DELETE … WHERE …
unfoldable pub delete_rows : List Cond → List OutboxEventModel → List OutboxEventModel
delete_rows cs [] = []
delete_rows cs (m ∷ ms) = let rest = delete_rows cs ms in if matches cs m then rest else m ∷ rest

-- SELECT COUNT(*) … WHERE …
unfoldable pub count_rows : List Cond → List OutboxEventModel → ℕ
count_rows cs [] = 0
count_rows cs (m ∷ ms) = let rest = count_rows cs ms in if matches cs m then suc rest else rest

pub record Query : Type 0 where
  pub wheres : List Cond
  -- Order("created_at ASC")
  pub by_creation : Bool
  pub limit : Option ℤ

-- At most `n` rows are returned under `Limit(n)`.
abbrev pub WithinLimit : Option ℤ → List OutboxEventModel → Type 0
WithinLimit (some (pos n)) ms = length ms ≤ n
WithinLimit _ ms = Unit

-- The rows of an answer are rows of the table that meet the conditions, at most as many as asked.
pub record Selected (q : Query) (table answer : List OutboxEventModel) : Type 0 where
  pub sound : All (λ m. Memᴰ m table × (matches q.wheres m ≡ true)) answer
  pub within : WithinLimit q.limit answer

pub record Gorm : Type 1 where
  pub Db : Type 0
  pub rows : Db → List OutboxEventModel
  pub find : Query → State Db (Result (List OutboxEventModel))
  -- First: `none` is ErrRecordNotFound.
  pub first : Query → State Db (Result (Option OutboxEventModel))
  pub updates : List Cond → List Assign → State Db (Option Error)
  pub create : OutboxEventModel → State Db (Option Error)
  pub save : OutboxEventModel → State Db (Option Error)
  pub delete : List Cond → State Db (Result ℕ)
  pub count : List Cond → State Db (Result ℕ)
  -- Select("status, COUNT(*) as count").Group("status"): a status with no row counts 0.
  pub count_by_status : List Cond → State Db (Result (EventStatus → ℕ))

-- What is documented of these calls: a read leaves the table alone and answers by it; a write that
-- reports no error has its effect, and one that fails has none.
pub record Laws (g : Gorm) : Type 0 where
  pub find_reads : (q : Query) (d : g.Db) → g.rows (g.find q d).1 ≡ g.rows d
  pub find_selects :
      (q : Query) (d : g.Db) {ms : List OutboxEventModel}
      → (g.find q d).0 ≡ ok ms
      → Selected q (g.rows d) ms
  pub first_reads : (q : Query) (d : g.Db) → g.rows (g.first q d).1 ≡ g.rows d
  pub first_selects :
      (q : Query) (d : g.Db) {m : OutboxEventModel}
      → (g.first q d).0 ≡ ok (some m)
      → Memᴰ m (g.rows d) × (matches q.wheres m ≡ true)
  pub updates_writes :
      (cs : List Cond) (sets : List Assign) (d : g.Db)
      → (g.updates cs sets d).0 ≡ none
      → g.rows (g.updates cs sets d).1 ≡ update_rows cs sets (g.rows d)
  pub updates_fails :
      (cs : List Cond) (sets : List Assign) (d : g.Db)
      → (g.updates cs sets d).0 ≢ none
      → g.rows (g.updates cs sets d).1 ≡ g.rows d
  -- Create inserts a row; a second row of the same primary key is refused.
  pub create_writes :
      (m : OutboxEventModel) (d : g.Db)
      → (g.create m d).0 ≡ none
      → g.rows (g.create m d).1 ≡ g.rows d ++ m ∷ []
  pub create_fails :
      (m : OutboxEventModel) (d : g.Db)
      → (g.create m d).0 ≢ none
      → g.rows (g.create m d).1 ≡ g.rows d
  pub create_refuses :
      (m : OutboxEventModel) (d : g.Db) (r : OutboxEventModel)
      → Memᴰ r (g.rows d)
      → r.id ≡ m.id
      → (g.create m d).0 ≢ none
  pub save_writes :
      (m : OutboxEventModel) (d : g.Db)
      → (g.save m d).0 ≡ none
      → g.rows (g.save m d).1 ≡ upsert m (g.rows d)
  pub save_fails :
      (m : OutboxEventModel) (d : g.Db) → (g.save m d).0 ≢ none → g.rows (g.save m d).1 ≡ g.rows d
  pub delete_writes :
      (cs : List Cond) (d : g.Db) {n : ℕ}
      → (g.delete cs d).0 ≡ ok n
      → g.rows (g.delete cs d).1 ≡ delete_rows cs (g.rows d)
  pub delete_fails :
      (cs : List Cond) (d : g.Db) {e : Error}
      → (g.delete cs d).0 ≡ err e
      → g.rows (g.delete cs d).1 ≡ g.rows d
  pub count_reads : (cs : List Cond) (d : g.Db) → g.rows (g.count cs d).1 ≡ g.rows d
  pub count_counts :
      (cs : List Cond) (d : g.Db) {n : ℕ} → (g.count cs d).0 ≡ ok n → n ≡ count_rows cs (g.rows d)
  pub group_reads : (cs : List Cond) (d : g.Db) → g.rows (g.count_by_status cs d).1 ≡ g.rows d
  pub group_counts :
      (cs : List Cond) (d : g.Db) {counts : EventStatus → ℕ}
      → (g.count_by_status cs d).0 ≡ ok counts
      → (s : EventStatus) → counts s ≡ count_rows (status_is s ∷ cs) (g.rows d)
