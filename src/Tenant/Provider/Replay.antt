-- ===== src/Tenant/Provider/Replay.antt =====
-- Loading the tenants' configuration and following its changes, as a replay on the view
-- (sdk/pkg/tenant/provider/provider.go).
use jxt_core.Base.{
  String, ◌≡◌, refl, ap, sym, ◌∙◌, true, Option, List, [], ◌∷◌, ◌++◌, All, int_eq, string_eq,
}
use mathlib.Core.Path.{subst}
use jxt_core.Tenant.Provider.Keys.{trim_prefix, is_known_watch_key}
use jxt_core.Tenant.Provider.Data.{TenantData, Codec, empty_data, copy_data}
use jxt_core.Tenant.Provider.Index.{build_indexes, get_tenant_id_by_domain, get_tenant_id_by_code}
use jxt_core.Tenant.Provider.Scan.{
  found_by_domain, found_by_code, get_tenant_id_by_domain-found, get_tenant_id_by_code-found,
}
use jxt_core.Outbox.Repository.{ok}
use jxt_core.Tenant.Provider.Load.{FileCache, load_all, process_key, process_keys}
use jxt_core.Tenant.Provider.Watch.{Change, put, dispatch, handle_watch_events}
use jxt_core.Tenant.Provider.View.{View, view_of, empty_view, step, target, replay}
use jxt_core.Tenant.Provider.Refine.{IsValid}
use jxt_core.Tenant.Provider.Events.{
  view-dispatch, process_key-dispatch, dispatch-IsValid, build_indexes-IsValid, view-build_indexes,
  empty_data-IsValid, view-empty_data, handle_watch_event-known, handle_watch_event-IsValid,
  view-handle_watch_event,
}

-- The pairs of an answer as events.
abbrev pub puts : String → List (String × String) → List (String × Change)
puts namespace [] = []
puts namespace ((k, x) ∷ kvs) = (trim_prefix k namespace, put x) ∷ puts namespace kvs

abbrev pub IsWatched : String × Change → Type 0
IsWatched ev = is_known_watch_key ev.0 ≡ true

module _ (j : Codec) where
  process_key-IsValid :
      (key value : String) (d : TenantData) → IsValid d → IsValid (process_key j key value d)
  process_key-IsValid key value d v =
      subst IsValid (sym (process_key-dispatch j key value d))
        (dispatch-IsValid j (put value) key d v)

  process_keys-IsValid :
      (namespace : String) (kvs : List (String × String)) (d : TenantData)
      → IsValid d
      → IsValid (process_keys j namespace kvs d)
  unfolding process_keys
  process_keys-IsValid namespace [] d v = v
  process_keys-IsValid namespace ((k, x) ∷ kvs) d v =
      process_keys-IsValid namespace kvs _ (process_key-IsValid (trim_prefix k namespace) x d v)

  view-process_keys :
      (namespace : String) (kvs : List (String × String)) (d : TenantData)
      → IsValid d
      → view_of (process_keys j namespace kvs d) ≡ replay j (puts namespace kvs) (view_of d)
  unfolding process_keys replay
  view-process_keys namespace [] d v = refl
  view-process_keys namespace ((k, x) ∷ kvs) d v =
      view-process_keys namespace kvs _ (process_key-IsValid (trim_prefix k namespace) x d v)
      ∙ ap (replay j (puts namespace kvs)) (
          ap view_of (process_key-dispatch j (trim_prefix k namespace) x d)
          ∙ view-dispatch j (put x) (trim_prefix k namespace) d v)

  view-handle_watch_events :
      (evs : List (String × Change)) (d : TenantData)
      → All IsWatched evs
      → IsValid d
      → view_of (handle_watch_events j evs d) ≡ replay j evs (view_of d)
  unfolding handle_watch_events replay
  view-handle_watch_events [] d known v = refl
  view-handle_watch_events ((key, ev) ∷ evs) d known v =
      view-handle_watch_events evs _ known.1 (handle_watch_event-IsValid j key ev d known.0 v)
      ∙ ap (replay j evs) (view-handle_watch_event j key ev d known.0 v)

  -- The indexes are those of the data.
  abbrev IsFresh : TenantData → Type 0
  IsFresh d = build_indexes j d ≡ d

  build_indexes-IsFresh : (d : TenantData) → IsFresh (build_indexes j d)
  unfolding build_indexes
  build_indexes-IsFresh d = refl

  handle_watch_events-IsFresh :
      (evs : List (String × Change)) (d : TenantData)
      → All IsWatched evs
      → IsFresh d
      → IsFresh (handle_watch_events j evs d)
  unfolding handle_watch_events
  handle_watch_events-IsFresh [] d known h = h
  handle_watch_events-IsFresh ((key, ev) ∷ evs) d known h =
      handle_watch_events-IsFresh evs _ known.1 (
        subst IsFresh (sym (handle_watch_event-known j key ev d known.0))
          (build_indexes-IsFresh (dispatch j ev key (copy_data d))))

  replay-append :
      (xs ys : List (String × Change)) (v : View)
      → replay j (xs ++ ys) v ≡ replay j ys (replay j xs v)
  unfolding replay
  replay-append [] ys v = refl
  replay-append ((key, ev) ∷ xs) ys v = replay-append xs ys (step j key (target key) ev v)

  module _ (namespace : String) (tenants common : List (String × String)) where
    load_all-ok :
        (cache : Option FileCache) (old : TenantData)
        → (load_all j namespace cache (ok tenants) (ok common) old).1
          ≡ build_indexes j
              (process_keys j namespace common (process_keys j namespace tenants empty_data))
    unfolding load_all
    load_all-ok cache old = refl

    load_all-IsValid :
        (cache : Option FileCache) (old : TenantData)
        → IsValid (load_all j namespace cache (ok tenants) (ok common) old).1
    load_all-IsValid cache old = subst IsValid (sym (load_all-ok cache old)) (
        build_indexes-IsValid j _ (
          process_keys-IsValid namespace common _
            (process_keys-IsValid namespace tenants empty_data (empty_data-IsValid j))))

    view-load_all :
        (cache : Option FileCache) (old : TenantData)
        → view_of (load_all j namespace cache (ok tenants) (ok common) old).1
          ≡ replay j (puts namespace tenants ++ puts namespace common) empty_view
    view-load_all cache old =
        ap view_of (load_all-ok cache old)
        ∙ view-build_indexes j _
        ∙ view-process_keys namespace common _
            (process_keys-IsValid namespace tenants empty_data (empty_data-IsValid j))
        ∙ ap (replay j (puts namespace common)) (
            view-process_keys namespace tenants empty_data (empty_data-IsValid j)
            ∙ ap (replay j (puts namespace tenants)) (view-empty_data j))
        ∙ sym (replay-append (puts namespace tenants) (puts namespace common) empty_view)

    loaded-followed :
        (cache : Option FileCache) (old : TenantData) (evs : List (String × Change))
        → All IsWatched evs
        → view_of
            (handle_watch_events j evs (load_all j namespace cache (ok tenants) (ok common) old).1)
          ≡ replay j ((puts namespace tenants ++ puts namespace common) ++ evs) empty_view
    loaded-followed cache old evs known =
        view-handle_watch_events evs _ known (load_all-IsValid cache old)
        ∙ ap (replay j evs) (view-load_all cache old)
        ∙ sym (replay-append (puts namespace tenants ++ puts namespace common) evs empty_view)

    -- What the lookups answer after a load and the events of the watch that follows, all on watched
    -- keys. Those by a tenant's number (and a name) answer what the same changes make of the abstract
    -- view, one after the other, from an empty one: the keys of the two answers as puts, without the
    -- namespace, and then the events. The lookup by a domain answers the tenant of the last name with
    -- the same normal form in the domain configurations of these data, and the one by a code the tenant
    -- of the last code whose normal form is that code in small letters, blank names left
    -- out (last in the order in which the map is walked).
    pub view-handle_watch_events-load_all :
        (cache : Option FileCache) (old : TenantData) (evs : List (String × Change))
        → All IsWatched evs
        → let d =
            handle_watch_events j evs (load_all j namespace cache (ok tenants) (ok common) old).1 in
          (view_of d
            ≡ replay j ((puts namespace tenants ++ puts namespace common) ++ evs) empty_view)
          × ((domain : String) → get_tenant_id_by_domain j d domain ≡ found_by_domain j d domain)
          × ((code : String) → get_tenant_id_by_code j d code ≡ found_by_code j d code)
    view-handle_watch_events-load_all cache old evs known =
        let d =
          handle_watch_events j evs (load_all j namespace cache (ok tenants) (ok common) old).1 in
        let fresh : build_indexes j d ≡ d = handle_watch_events-IsFresh evs _ known (
          subst IsFresh (sym (load_all-ok cache old)) (
            build_indexes-IsFresh
              (process_keys j namespace common (process_keys j namespace tenants empty_data)))) in
        (
          loaded-followed cache old evs known,
          λ domain.
              subst (λ c. get_tenant_id_by_domain j c domain ≡ found_by_domain j d domain) fresh
                (get_tenant_id_by_domain-found j d domain),
          λ code.
              subst (λ c. get_tenant_id_by_code j c code ≡ found_by_code j d code) fresh
                (get_tenant_id_by_code-found j d code),
        )
