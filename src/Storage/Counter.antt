-- ===== src/Storage/Counter.antt =====
-- A counter of storage/cache/memory.go under a sequence of calls of IncrBy.
use jxt_core.Base.{
  ℕ, ◌+◌, ℤ, pos, IsInt, wrap_int-IsInt, add_int64, add_ℤ, ltb_ℤ, String, show_int, ◌≡◌, refl, ap,
  ◌∙◌, false, none, some, List, [], ◌∷◌, get_key, set_key, get_key-set_key, string_eq, eq_iff,
  arith,
}
use jxt_core.Outbox.Repository.{Result, ok}
use jxt_core.Storage.Cache.{Item, Items, Cast, get_item, incr_by, incr_item, default_memory_ttl}

-- What cast.ToInt64E does on the text of a number.
abbrev pub IsCast : Cast → Type 0
IsCast c = (n : ℤ) → IsInt n → c.to_int64 (show_int n) ≡ ok n

-- IncrBy at each of the times, with each of the numbers; the answers.
abbrev pub incr_all : Cast → String → List (ℕ × ℤ) → Items → List (Result ℤ) × Items
incr_all c key [] m = ([], m)
incr_all c key ((now, n) ∷ calls) m =
    let r = incr_by now c key n m in let rest = incr_all c key calls r.1 in (r.0 ∷ rest.0, rest.1)

-- The sums so far, each wrapped.
abbrev pub running : ℤ → List (ℕ × ℤ) → List (Result ℤ)
running total [] = []
running total ((now, n) ∷ calls) = ok (add_int64 total n) ∷ running (add_int64 total n) calls

abbrev pub AllBefore : ℤ → List (ℕ × ℤ) → Type 0
AllBefore limit [] = Unit
AllBefore limit ((now, n) ∷ calls) = (ltb_ℤ limit (pos now) ≡ false) × AllBefore limit calls

module _ (c : Cast) (cast : IsCast c) (key : String) where
  -- The item of a running counter.
  abbrev counter : ℤ → ℤ → Item
  counter total limit = record { value = show_int total; expired = limit }

  add_int64-IsInt : (a b : ℤ) → IsInt (add_int64 a b)
  unfolding add_int64
  add_int64-IsInt a b = wrap_int-IsInt (add_ℤ a b)

  get_item-early :
      (now : ℕ) (it : Item) (m : Items)
      → get_key key m ≡ some it
      → ltb_ℤ it.expired (pos now) ≡ false
      → get_item now key m ≡ (some it, m)
  unfolding get_item
  get_item-early now it m found early = rw (found, get_item, early) refl

  get_item-missing : (now : ℕ) (m : Items) → get_key key m ≡ none → get_item now key m ≡ (none, m)
  unfolding get_item
  get_item-missing now m missing = rw (missing, get_item) refl

  incr_by-counter :
      (now : ℕ) (n total limit : ℤ) (m : Items)
      → IsInt total
      → get_key key m ≡ some (counter total limit)
      → ltb_ℤ limit (pos now) ≡ false
      → incr_by now c key n m
        ≡ (ok (add_int64 total n), set_key key (counter (add_int64 total n) limit) m)
  unfolding incr_by incr_item
  incr_by-counter now n total limit m int found early =
      ap (incr_item now c key n) (get_item-early now (counter total limit) m found early)
      ∙ rw (cast total int, incr_item) refl

  zero_text : c.to_int64 "0" ≡ ok (pos 0)
  unfolding show_int
  zero_text = cast (pos 0) (omega arith)

  incr_by-fresh :
      (now : ℕ) (n : ℤ) (m : Items)
      → get_key key m ≡ none
      → incr_by now c key n m ≡ (
        ok (add_int64 (pos 0) n),
        set_key key (counter (add_int64 (pos 0) n) (pos (now + default_memory_ttl))) m,
      )
  unfolding incr_by incr_item
  incr_by-fresh now n m missing =
      ap (incr_item now c key n) (get_item-missing now m missing) ∙ rw (zero_text, incr_item) refl

  set_key-found : (it : Item) (m : Items) → get_key key (set_key key it m) ≡ some it
  set_key-found it m = ground (arith, get_key-set_key key key it m, eq_iff key key)

  incr_all-counter :
      (calls : List (ℕ × ℤ)) (total limit : ℤ) (m : Items)
      → IsInt total
      → get_key key m ≡ some (counter total limit)
      → AllBefore limit calls
      → (incr_all c key calls m).0 ≡ running total calls
  incr_all-counter [] total limit m int found early = refl
  incr_all-counter ((now, n) ∷ calls) total limit m int found early =
      rw (incr_by-counter now n total limit m int found early.0) (
        ap (λ rest. ok (add_int64 total n) ∷ rest)
          (incr_all-counter calls (add_int64 total n) limit _ (add_int64-IsInt total n)
            (set_key-found (counter (add_int64 total n) limit) m) early.1))

  -- Calls of IncrBy on a key that is not there answer the wrapped sums so far, as long as the later
  -- calls come no more than 24 hours after the first.
  pub incr_all-running :
      (now : ℕ) (n : ℤ) (calls : List (ℕ × ℤ)) (m : Items)
      → get_key key m ≡ none
      → AllBefore (pos (now + default_memory_ttl)) calls
      → (incr_all c key ((now, n) ∷ calls) m).0 ≡ running (pos 0) ((now, n) ∷ calls)
  incr_all-running now n calls m missing early = rw (incr_by-fresh now n m missing) (
      ap (λ rest. ok (add_int64 (pos 0) n) ∷ rest)
        (incr_all-counter calls (add_int64 (pos 0) n) (pos (now + default_memory_ttl)) _
          (add_int64-IsInt (pos 0) n)
          (set_key-found (counter (add_int64 (pos 0) n) (pos (now + default_memory_ttl))) m) early))
