-- ===== src/Outbox/Examples/Memory.antt =====
-- A database of one table in memory, which every call reaches, and the laws of `Gorm` for it.
use jxt_core.Base.{
  ℕ, zero, suc, ◌≤◌, ℤ, pos, negsuc, ◌≡◌, ◌≢◌, ◌++◌, ◌||◌, Bool, false, String, str_eq, eq_iff,
  State, refl, sym, true, Option, none, some, List, [], ◌∷◌, if◌then◌else◌, All, length, take,
  Bool-cases, inl, inr, arith,
}
use mathlib.Core.Path.{subst, ap}
use mathlib.Core.List.{Memᴰ}
use jxt_core.Outbox.Event.{Error, foreign}
use jxt_core.Outbox.Repository.{ok, err}
use jxt_core.Outbox.Gorm.Table.{
  OutboxEventModel, Cond, status_is, matches, update_rows, upsert, delete_rows, count_rows,
  WithinLimit, Selected, Gorm, Laws,
}

unfoldable pub select : List Cond → List OutboxEventModel → List OutboxEventModel
unfolding matches
select cs [] = []
select cs (m ∷ ms) = if matches cs m then m ∷ select cs ms else select cs ms

abbrev pub limited : Option ℤ → List OutboxEventModel → List OutboxEventModel
limited (some (pos n)) ms = take n ms
limited _ ms = ms

unfoldable pub select_first : List Cond → List OutboxEventModel → Option OutboxEventModel
unfolding matches
select_first cs [] = none
select_first cs (m ∷ ms) = if matches cs m then some m else select_first cs ms

abbrev has_row : String → List OutboxEventModel → Bool
has_row x [] = false
has_row x (m ∷ ms) = str_eq m.id x || has_row x ms

has_row-mem :
    (x : String) (ms : List OutboxEventModel) (r : OutboxEventModel)
    → Memᴰ r ms
    → r.id ≡ x
    → has_row x ms ≡ true
has_row-mem x [] r there h = elim there [ ]
has_row-mem x (m ∷ ms) r (Memᴰ.head e) h = ground (arith, eq_iff m.id x, e, h)
has_row-mem x (m ∷ ms) r (Memᴰ.tail t) h = ground (arith, has_row-mem x ms r t h)

abbrev insert : OutboxEventModel → State (List OutboxEventModel) (Option Error)
insert m d =
    if has_row m.id d
    then (
      some (record { kind = foreign 0; text = "UNIQUE constraint failed: outbox_events.id" }),
      d,
    )
    else (none, d ++ m ∷ [])

insert-inserts :
    (m : OutboxEventModel) (d : List OutboxEventModel)
    → (insert m d).0 ≡ none
    → (insert m d).1 ≡ d ++ m ∷ []
insert-inserts m d h = elim (Bool-cases (has_row m.id d)) [
  | inl there ↦ absurd (cc (rw there at h))
  | inr new ↦ rw new refl
]

insert-fails :
    (m : OutboxEventModel) (d : List OutboxEventModel) → (insert m d).0 ≢ none → (insert m d).1 ≡ d
insert-fails m d h = elim (Bool-cases (has_row m.id d)) [
  | inl there ↦ rw there refl
  | inr new ↦ absurd (h (rw new refl))
]

insert-refuses :
    (m : OutboxEventModel) (d : List OutboxEventModel) (r : OutboxEventModel)
    → Memᴰ r d
    → r.id ≡ m.id
    → (insert m d).0 ≢ none
insert-refuses m d r there same = rw (has_row-mem m.id d r there same) (λ h. cc)

abbrev pub memory : Gorm
memory = record {
  Db = List OutboxEventModel;
  rows = λ d. d;
  find = λ q d. (ok (limited q.limit (select q.wheres d)), d);
  first = λ q d. (ok (select_first q.wheres d), d);
  updates = λ cs sets d. (none, update_rows cs sets d);
  create = insert;
  save = λ m d. (none, upsert m d);
  delete = λ cs d. (ok (count_rows cs d), delete_rows cs d);
  count = λ cs d. (ok (count_rows cs d), d);
  count_by_status = λ cs d. (ok (λ s. count_rows (status_is s ∷ cs) d), d);
}

Found : List Cond → List OutboxEventModel → OutboxEventModel → Type 0
Found cs table m = Memᴰ m table × (matches cs m ≡ true)

All-further :
    (cs : List Cond) (x : OutboxEventModel) (table ms : List OutboxEventModel)
    → All (Found cs table) ms
    → All (Found cs (x ∷ table)) ms
unfolding Found
All-further cs x table [] h = tt
All-further cs x table (m ∷ ms) h = ((Memᴰ.tail h.0.0, h.0.1), All-further cs x table ms h.1)

select-Found :
    (cs : List Cond) (table : List OutboxEventModel) → All (Found cs table) (select cs table)
unfolding select Found
select-Found cs [] = tt
select-Found cs (m ∷ ms) = elim (Bool-cases (matches cs m)) [
  | inl chosen ↦
      simp (chosen, select)
        ((Memᴰ.head refl, refl), All-further cs m ms (select cs ms) (select-Found cs ms))
  | inr other ↦ simp (other, select) (All-further cs m ms (select cs ms) (select-Found cs ms))
]

All-take :
    (P : OutboxEventModel → Type 0) (n : ℕ) (ms : List OutboxEventModel)
    → All P ms
    → All P (take n ms)
All-take P zero ms h = tt
All-take P (suc n) [] h = tt
All-take P (suc n) (m ∷ ms) h = (h.0, All-take P n ms h.1)

All-limited :
    (P : OutboxEventModel → Type 0) (o : Option ℤ) (ms : List OutboxEventModel)
    → All P ms
    → All P (limited o ms)
All-limited P none ms h = h
All-limited P (some (pos n)) ms h = All-take P n ms h
All-limited P (some (negsuc n)) ms h = h

length-take : (n : ℕ) (ms : List OutboxEventModel) → length (take n ms) ≤ n
length-take zero ms = omega arith
length-take (suc n) [] = omega arith
length-take (suc n) (m ∷ ms) = omega (arith, length-take n ms)

limited-WithinLimit : (o : Option ℤ) (ms : List OutboxEventModel) → WithinLimit o (limited o ms)
limited-WithinLimit none ms = tt
limited-WithinLimit (some (pos n)) ms = length-take n ms
limited-WithinLimit (some (negsuc n)) ms = tt

select_first-Found :
    (cs : List Cond) (table : List OutboxEventModel) (m : OutboxEventModel)
    → select_first cs table ≡ some m
    → Found cs table m
unfolding select_first Found
select_first-Found cs [] m h = absurd (ground arith)
select_first-Found cs (x ∷ ms) m h = elim (Bool-cases (matches cs x)) [
  | inl chosen ↦ let same : x ≡ m = ground arith in (Memᴰ.head (sym same), rw (← same) chosen)
  | inr other ↦
      let (there, chosen) = select_first-Found cs ms m (ground arith) in (Memᴰ.tail there, chosen)
]

ok_injective : {A : Type 0} (x y : A) → ok x ≡ ok y → x ≡ y
ok_injective x y h = cc

pub memory-Laws : Laws memory
unfolding Found
memory-Laws = record {
  find_reads = λ q d. refl;
  find_selects = λ q d h. subst (Selected q d) (ok_injective _ _ h) (record {
    sound = All-limited (Found q.wheres d) q.limit (select q.wheres d) (select-Found q.wheres d);
    within = limited-WithinLimit q.limit (select q.wheres d);
  });
  first_reads = λ q d. refl;
  first_selects = λ q d h. select_first-Found q.wheres d _ (ok_injective _ _ h);
  updates_writes = λ cs sets d h. refl;
  updates_fails = λ cs sets d h. absurd (h refl);
  create_writes = insert-inserts;
  create_fails = insert-fails;
  create_refuses = insert-refuses;
  save_writes = λ m d h. refl;
  save_fails = λ m d h. absurd (h refl);
  delete_writes = λ cs d h. refl;
  delete_fails = λ cs d h. absurd (err_ok _ _ h);
  count_reads = λ cs d. refl;
  count_counts = λ cs d h. sym (ok_injective _ _ h);
  group_reads = λ cs d. refl;
  group_counts = λ cs d h s. ap (λ f. f s) (sym (ok_injective _ _ h));
}
  where
    err_ok : {A : Type 0} (x : A) (e : Error) → ok x ≡ err e → ⊥
    err_ok x e h = cc h
