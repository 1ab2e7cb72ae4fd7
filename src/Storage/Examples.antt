-- ===== src/Storage/Examples.antt =====
-- Examples of the cache in memory (storage/cache/memory.go).
use jxt_core.Base.{
  ℤ, pos, ◌≡◌, refl, ap, true, false, Option, none, some, [], ◌∷◌, get_key, string_eq,
}
use jxt_core.Outbox.Event.{errorf}
use jxt_core.Outbox.Repository.{Result, ok, err}
use jxt_core.Tenant.Provider.Keys.{atoi}
use jxt_core.Tenant.Numbers.{atoi-show_int}
use jxt_core.Storage.Cache.{Item, Items, Cast, get, exists, set_nx}
use jxt_core.Storage.Counter.{IsCast}
use jxt_core.Storage.SetNx.{set_nx-past}

read : Option ℤ → Result ℤ
read none = err (errorf ("unable to cast" ∷ []))
read (some n) = ok n

abbrev casts : Cast
casts = record { to_int = λ s. read (atoi s); to_int64 = λ s. read (atoi s) }

casts-IsCast : IsCast casts
unfolding read
casts-IsCast n h = ap read (atoi-show_int n h)

abbrev lock : Item
lock = record { value = "worker-1"; expired = pos 100 }

abbrev locks : Items
locks = ("lock", lock) ∷ []

lock_found : get_key "lock" locks ≡ some lock
unfolding get_key
lock_found = refl

no_hits : get_key "hits" locks ≡ none
unfolding get_key
no_hits = refl

set_nx-past_example :
    ((exists 200 "lock" locks).0 ≡ false)
    × (set_nx 200 "lock" (ok "worker-2") (pos 30) locks ≡ (ok false, locks))
    × ((set_nx 200 "lock" (ok "worker-2") (pos 30) (exists 200 "lock" locks).1).0 ≡ ok true)
    × ((get 200 "lock" locks).0 ≡ "")
    × ((set_nx 200 "lock" (ok "worker-2") (pos 30) (get 200 "lock" locks).1).0 ≡ ok true)
set_nx-past_example = set_nx-past 200 "lock" locks lock lock_found "worker-2" (pos 30) refl
