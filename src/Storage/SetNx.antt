-- ===== src/Storage/SetNx.antt =====
-- Expired items of storage/cache/memory.go: what a read and SetNX make of them.
use jxt_core.Base.{
  ℕ, ℤ, String, ◌≡◌, refl, ap, true, false, none, some, get_key, delete_key, get_key-delete_key,
  string_eq, eq_iff, arith,
}
use jxt_core.Outbox.Repository.{ok}
use jxt_core.Storage.Cache.{Item, Items, is_past, is_there, get_item, get, exists, set_nx}

module _ (now : ℕ) (key : String) (m : Items) (it : Item) (found : get_key key m ≡ some it) where
  get_item-past : is_past now it ≡ true → get_item now key m ≡ (none, delete_key key m)
  unfolding get_item
  get_item-past h = rw (found, get_item, h) refl

  deleted-get_key : get_key key (delete_key key m) ≡ none
  deleted-get_key = ground (arith, get_key-delete_key key key m, eq_iff key key)

  -- SetNX does not look at an item's expiry: where a key's item has expired, Exists says that it is not
  -- there and SetNX all the same refuses the key, leaving the cache as it is; after the Exists, or after a
  -- Get (which answers the empty text), SetNX takes the key.
  pub set_nx-past :
      (value : String) (ttl : ℤ)
      → is_past now it ≡ true
      → ((exists now key m).0 ≡ false)
        × (set_nx now key (ok value) ttl m ≡ (ok false, m))
        × ((set_nx now key (ok value) ttl (exists now key m).1).0 ≡ ok true)
        × ((get now key m).0 ≡ "")
        × ((set_nx now key (ok value) ttl (get now key m).1).0 ≡ ok true)
  unfolding exists set_nx get
  set_nx-past value ttl h = (
    ap (λ r. is_there r.0) (get_item-past h),
    rw (found, set_nx) refl,
    rw (get_item-past h, exists) (rw (deleted-get_key, set_nx) refl),
    rw (get_item-past h, get) refl,
    rw (get_item-past h, get) (rw (deleted-get_key, set_nx) refl),
  )
