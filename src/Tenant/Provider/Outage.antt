-- ===== src/Tenant/Provider/Outage.antt =====
-- LoadAll of sdk/pkg/tenant/provider/provider.go when etcd does not answer.
use jxt_core.Base.{
  concat, String, ◌≡◌, ◌≢◌, refl, ap, ◌∙◌, Option, none, some, List, [], ◌∷◌, ◌⊎◌, inl, inr,
  get_key, string_eq, Option-cases, arith,
}
use jxt_core.Outbox.Event.{Error}
use jxt_core.Outbox.Repository.{Result, ok, err}
use jxt_core.Tenant.Provider.Data.{TenantData, Codec}
use jxt_core.Tenant.Provider.Index.{get_tenant_id_by_domain, get_tenant_id_by_code}
use jxt_core.Tenant.Provider.Load.{FileCache, load_cache, from_cache, load_all, get_failed}

-- One of the two answers is an error.
abbrev pub IsUnavailable : {A : Type 0} → Result A → Result A → Type 0
IsUnavailable {A} tenants common =
    ((e : Error) × (tenants ≡ err e))
    ⊎ ((kvs : A) × (e : Error) × (tenants ≡ ok kvs) × (common ≡ err e))

-- Some cache is configured and can be read.
abbrev pub readable : Option FileCache → Option TenantData
readable none = none
readable (some c) = load_cache c

module _ (j : Codec) (namespace : String) (tenants common : Result (List (String × String)))
    (old : TenantData) where
  load_all-from_cache :
      (cache : Option FileCache)
      → IsUnavailable tenants common
      → (e : Error) × (load_all j namespace cache tenants common old ≡ from_cache cache e old)
  unfolding load_all
  load_all-from_cache cache (inl (e, failed)) =
      (get_failed (concat (namespace ∷ "tenants/" ∷ [])) e, rw (failed, load_all) refl)
  load_all-from_cache cache (inr (kvs, e, fine, failed)) =
      (get_failed (concat (namespace ∷ "common/" ∷ [])) e, rw (fine, failed, load_all) refl)

  from_cache-readable :
      (cache : Option FileCache) (e : Error) (d : TenantData)
      → readable cache ≡ some d
      → from_cache cache e old ≡ (none, d)
  unfolding from_cache
  from_cache-readable none e d h = absurd (ground (arith, h))
  from_cache-readable (some c) e d h = rw (h, from_cache) refl

  from_cache-unreadable :
      (cache : Option FileCache) (e : Error)
      → readable cache ≡ none
      → from_cache cache e old ≡ (some e, old)
  unfolding from_cache
  from_cache-unreadable none e h = refl
  from_cache-unreadable (some c) e h = rw (h, from_cache) refl

  -- When one of etcd's two answers is an error and the file cache cannot be read, LoadAll returns an
  -- error and the data stay what they were.
  load_all-unreadable :
      (cache : Option FileCache)
      → IsUnavailable tenants common
      → readable cache ≡ none
      → ((load_all j namespace cache tenants common old).0 ≢ none)
        × ((load_all j namespace cache tenants common old).1 ≡ old)
  load_all-unreadable cache down h =
      let (e, same) = load_all-from_cache cache down in
      let whole = same ∙ from_cache-unreadable cache e h in
      (λ fine. ground (arith, ap (λ r. r.0) whole, fine), ap (λ r. r.1) whole)

  readable_unindexed :
      (cache : Option FileCache) (d : TenantData)
      → readable cache ≡ some d
      → (d.domain_index ≡ []) × (d.code_index ≡ [])
  unfolding load_cache
  readable_unindexed none d h = absurd (ground (arith, h))
  readable_unindexed (some c) d h = elim (Option-cases c.file) [
    | inl missing ↦ absurd (ground (arith, h, missing))
    | inr (s, found) ↦ c.unindexed s {d = d} (ground (arith, h, found))
  ]

  unindexed-get_tenant_id_by_domain :
      (d : TenantData) (domain : String)
      → d.domain_index ≡ []
      → get_tenant_id_by_domain j d domain ≡ none
  unfolding get_tenant_id_by_domain get_key
  unindexed-get_tenant_id_by_domain d domain h = ground (arith, h)

  unindexed-get_tenant_id_by_code :
      (d : TenantData) (code : String) → d.code_index ≡ [] → get_tenant_id_by_code j d code ≡ none
  unfolding get_tenant_id_by_code get_key
  unindexed-get_tenant_id_by_code d code h = ground (arith, h)

  -- When one of etcd's two answers is an error and the file cache can be read, LoadAll returns no
  -- error and the data are the cached ones, but no domain and no code finds a tenant any more.
  pub load_all_offline :
      (cache : Option FileCache) (d : TenantData)
      → IsUnavailable tenants common
      → readable cache ≡ some d
      → (load_all j namespace cache tenants common old ≡ (none, d))
        × ((domain : String)
            → get_tenant_id_by_domain j (load_all j namespace cache tenants common old).1 domain
              ≡ none)
        × ((code : String)
            → get_tenant_id_by_code j (load_all j namespace cache tenants common old).1 code ≡ none)
  load_all_offline cache d down h =
      let (e, same) = load_all-from_cache cache down in
      let whole = same ∙ from_cache-readable cache e d h in
      let bare = readable_unindexed cache d h in
      (
        whole,
        λ domain.
            ap (λ r. get_tenant_id_by_domain j r.1 domain) whole
            ∙ unindexed-get_tenant_id_by_domain d domain bare.0,
        λ code.
            ap (λ r. get_tenant_id_by_code j r.1 code) whole
            ∙ unindexed-get_tenant_id_by_code d code bare.1,
      )
