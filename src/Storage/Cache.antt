-- ===== src/Storage/Cache.antt =====
-- storage/cache/memory.go. The map holds nothing but items, so that the test of an entry's type never
-- fails; the locks make each operation one step.
use jxt_core.Base.{
  ℕ, ◌==◌, ◌*◌, ◌+◌, ◌-◌, ℤ, pos, negsuc, add_int64, add_ℤ, wrap_int, ltb_ℤ, String, str_append,
  show_int, Bool, true, false, Option, none, some, List, [], ◌∷◌, if◌then◌else◌, get_key, set_key,
  delete_key, string_eq,
}
use jxt_core.Outbox.Event.{Error, errorf}
use jxt_core.Outbox.Repository.{Result, ok, err}

-- An instant is its nanoseconds since some origin.
pub record Item : Type 0 where
  pub value : String
  pub expired : ℤ

abbrev pub Items : Type 0
Items = List (String × Item)

-- The package cast: ToIntE and ToInt64E of a text.
pub record Cast : Type 0 where
  pub to_int : String → Result ℤ
  pub to_int64 : String → Result ℤ

abbrev pub second : ℕ
second = 1000000000

-- 24 * time.Hour
abbrev pub default_memory_ttl : ℕ
default_memory_ttl = 86400 * second

-- time.Duration(n) * time.Second
unfoldable pub seconds : ℤ → ℤ
seconds (pos n) = wrap_int (pos (n * second))
seconds (negsuc n) = wrap_int (negsuc ((n + 1) * second - 1))

abbrev pub value_or_empty : Option Item → String
value_or_empty none = ""
value_or_empty (some it) = it.value

abbrev pub is_there : Option Item → Bool
is_there none = false
is_there (some it) = true

abbrev pub not_exist : String → Error
not_exist key = errorf (key ∷ " not exist" ∷ [])

abbrev pub store : String → Item → Items → Option Error × Items
store key it m = (none, set_key key it m)

abbrev pub or_zero : Result ℤ → ℤ
or_zero (err e) = pos 0
or_zero (ok n) = n

-- Every operation takes the time of its calls of time.Now.
module _ (now : ℕ) where
  abbrev pub is_past : Item → Bool
  is_past it = ltb_ℤ it.expired (pos now)

  unfoldable pub get_item : String → Items → Option Item × Items
  get_item key m = elim (get_key key m) [
    | none ↦ (none, m)
    | some it ↦ if is_past it then (none, delete_key key m) else (some it, m)
  ]

  unfoldable pub get : String → Items → String × Items
  unfolding get_item
  get key m = (value_or_empty (get_item key m).0, (get_item key m).1)

  -- `val` is what cast.ToStringE makes of the value.
  unfoldable pub set : String → Result String → ℤ → Items → Option Error × Items
  unfolding seconds
  set key (err e) expire m = (some e, m)
  set key (ok s) expire m =
      (none, set_key key (record { value = s; expired = add_ℤ (pos now) (seconds expire) }) m)

  unfoldable pub hash_get : String → String → Items → String × Items
  unfolding get
  hash_get hk key m = get (str_append hk key) m

  unfoldable pub hash_set : String → String → Result String → Items → Option Error × Items
  hash_set hk key (err e) m = (some e, m)
  hash_set hk key (ok s) m = (
    none,
    set_key (str_append hk key) (record { value = s; expired = pos (now + default_memory_ttl) }) m,
  )

  unfoldable pub calculate : Cast → String → ℤ → Items → Option Error × Items
  unfolding get_item
  calculate c key num m = elim (get_item key m).0 [
    | none ↦ (some (not_exist key), (get_item key m).1)
    | some it ↦ elim (c.to_int it.value) [
      | err e ↦ (some e, (get_item key m).1)
      | ok n ↦ store key (record it { value = show_int (add_int64 n num) }) (get_item key m).1
    ]
  ]

  unfoldable pub increase : Cast → String → Items → Option Error × Items
  unfolding calculate
  increase c key m = calculate c key (pos 1) m

  unfoldable pub decrease : Cast → String → Items → Option Error × Items
  unfolding calculate
  decrease c key m = calculate c key (negsuc 0) m

  unfoldable pub expire : String → ℤ → Items → Option Error × Items
  unfolding get_item
  expire key dur m = elim (get_item key m).0 [
    | none ↦ (some (not_exist key), (get_item key m).1)
    | some it ↦ store key (record it { expired = add_ℤ (pos now) dur }) (get_item key m).1
  ]

  unfoldable pub exists : String → Items → Bool × Items
  unfolding get_item
  exists key m = (is_there (get_item key m).0, (get_item key m).1)

  abbrev pub add_new : String → Result String → ℤ → Items → Result Bool × Items
  add_new key (err e) ttl m = (err e, m)
  add_new key (ok s) ttl m =
      (ok true, set_key key (record { value = s; expired = add_ℤ (pos now) (seconds ttl) }) m)

  unfoldable pub set_nx : String → Result String → ℤ → Items → Result Bool × Items
  unfolding seconds
  set_nx key val ttl m = elim (get_key key m) [
    | some it ↦ (ok false, m)
    | none ↦ add_new key val ttl m
  ]

  -- The item, or a new counter.
  abbrev pub or_counter : Option Item → Item
  or_counter none = record { value = "0"; expired = pos (now + default_memory_ttl) }
  or_counter (some it) = it

  -- The item that is there, or a new one, with the number added, and what was stored before.
  unfoldable pub incr_item : Cast → String → ℤ → Option Item × Items → Result ℤ × Items
  incr_item c key n (it, m) = elim (c.to_int64 (or_counter it).value) [
    | err e ↦ (err e, m)
    | ok val ↦ (
      ok (add_int64 val n),
      set_key key (record (or_counter it) { value = show_int (add_int64 val n) }) m,
    )
  ]

  unfoldable pub incr_by : Cast → String → ℤ → Items → Result ℤ × Items
  unfolding get_item incr_item
  incr_by c key n m = incr_item c key n (get_item key m)

  -- time.Until, within its bounds of 292 years
  abbrev pub until : Item → ℤ
  until it = add_ℤ it.expired (if now == 0 then pos 0 else negsuc (now - 1))

  unfoldable pub ttl : String → Items → ℤ × Items
  unfolding get_item
  ttl key m = (elim (get_item key m).0 [ none ↦ pos 0 | some it ↦ until it ], (get_item key m).1)

  -- The first two arguments, if these are of the type int64.
  unfoldable pub run_script : Cast → List String → Option (ℤ × ℤ) → Items → Result ℤ × Items
  unfolding get_item seconds
  run_script c [] args m =
      (err (errorf ("RunScript: unsupported script pattern in memory adapter" ∷ [])), m)
  run_script c (key ∷ keys) none m =
      (err (errorf ("RunScript: unsupported script pattern in memory adapter" ∷ [])), m)
  run_script c (key ∷ keys) (some (n, expire_seconds)) m =
      let val = add_int64 (or_zero (c.to_int64 (or_counter (get_item key m).0).value)) n in
      (
        ok val,
        set_key key
            (record { value = show_int val; expired = add_ℤ (pos now) (seconds expire_seconds) })
            (get_item key m).1,
      )

unfoldable pub del : String → Items → Items
del key m = delete_key key m

unfoldable pub hash_del : String → String → Items → Items
unfolding del
hash_del hk key m = del (str_append hk key) m
