-- ===== src/Tenant/Provider/Handlers.antt =====
-- Each handler of a watch event, seen through the view (sdk/pkg/tenant/provider/provider.go).
use jxt_core.Base.{
  ℤ, String, ◌≡◌, refl, ap, sym, ◌∙◌, Option, none, some, str_eq, ◌||◌, update, get_key, int_eq,
  string_eq, get_key-set_key, get_key-delete_key, Bool-cases, Option-cases, inl, inr,
}
use mathlib.Core.Path.{fun_ext}
use jxt_core.Tenant.Provider.Models.{TenantMeta, StorageConfig, DomainConfig}
use jxt_core.Tenant.Provider.Keys.{split_key, part_at}
use jxt_core.Tenant.Provider.Data.{
  TenantData, Codec, parse_string_or_json, get_service_database_config, get_tenant_meta,
  get_storage_config, get_wvp_config, get_domain_config,
}
use jxt_core.Tenant.Provider.Load.{
  tenant_of, domain_or_empty, fill_storage, fill_domain, is_incomplete,
}
use jxt_core.Tenant.Provider.Watch.{
  Change, put, deleted, handle_tenant_meta_change, handle_service_database_change,
  handle_ftp_config_change, handle_storage_change, handle_wvp_change, handle_domain_change,
  handle_resolver_config_change, change_domain_field,
}
use jxt_core.Tenant.Provider.View.{
  Target, nowhere, resolver_at, meta_at, database_at, ftp_at, storage_at, wvp_at, domain_at,
  for_tenant, view_of, step, named_storage, named_domain, or_new, with_field,
}
use jxt_core.Tenant.Provider.Refine.{IsValid, database-set, database-remove, ftp-set, ftp-remove}

for_tenant-none :
    (key : String) (f : ℤ → Target) → tenant_of key ≡ none → for_tenant key f ≡ nowhere
for_tenant-none key f h = rw (h, for_tenant) refl

for_tenant-some :
    (key : String) (f : ℤ → Target) (id : ℤ) → tenant_of key ≡ some id → for_tenant key f ≡ f id
for_tenant-some key f id h = rw (h, for_tenant) refl

module _ (j : Codec) (key : String) (d : TenantData) where
  -- A handler does nothing on a key with no tenant, and the step of the target on one with a tenant.
  by_tenant :
      (ev : Change) (d' : TenantData) (f : ℤ → Target)
      → (tenant_of key ≡ none → view_of d' ≡ view_of d)
      → ((id : ℤ) → tenant_of key ≡ some id → view_of d' ≡ step j key (f id) ev (view_of d))
      → view_of d' ≡ step j key (for_tenant key f) ev (view_of d)
  unfolding step
  by_tenant ev d' f idle acts = elim (Option-cases (tenant_of key)) [
    | inl missing ↦
        idle missing ∙ ap (λ t. step j key t ev (view_of d)) (sym (for_tenant-none key f missing))
    | inr (id, found) ↦
        acts id found ∙ ap (λ t. step j key t ev (view_of d)) (sym (for_tenant-some key f id found))
  ]

  pub view-meta :
      (ev : Change)
      → view_of (handle_tenant_meta_change j ev key d)
        ≡ step j key (for_tenant key (meta_at)) ev (view_of d)
  unfolding handle_tenant_meta_change step get_tenant_meta get_service_database_config
      get_storage_config get_wvp_config get_domain_config
  view-meta ev =
      by_tenant ev (handle_tenant_meta_change j ev key d) (meta_at)
        (λ missing. rw (missing, handle_tenant_meta_change) refl) (λ id found. at id found ev)
    where
      at :
          (id : ℤ)
          → tenant_of key ≡ some id
          → (ev : Change)
          → view_of (handle_tenant_meta_change j ev key d)
            ≡ step j key ((meta_at) id) ev (view_of d)
      at id found deleted =
          rw (found, handle_tenant_meta_change)
            (ap (λ f. record (view_of d) { meta = f })
              (fun_ext (λ i. get_key-delete_key id i d.metas)))
      at id found (put x) = elim (Option-cases (j.meta_json x)) [
        | inl bad ↦ rw (found, handle_tenant_meta_change) (rw (bad, step) refl)
        | inr (c, good) ↦
            rw (found, handle_tenant_meta_change)
              (rw (good, step)
                (ap (λ f. record (view_of d) { meta = f })
                  (fun_ext (λ i. get_key-set_key id i (record c { tenant_id = id }) d.metas))))
      ]

  pub view-database :
      (ev : Change)
      → view_of (handle_service_database_change j ev key d)
        ≡ step j key
            (for_tenant key (λ id. database_at id (part_at 3 (split_key key))))
            ev
            (view_of d)
  unfolding handle_service_database_change step get_tenant_meta get_service_database_config
      get_storage_config get_wvp_config get_domain_config
  view-database ev =
      by_tenant ev (handle_service_database_change j ev key d)
        (λ id. database_at id (part_at 3 (split_key key)))
        (λ missing. rw (missing, handle_service_database_change) refl) (λ id found. at id found ev)
    where
      at :
          (id : ℤ)
          → tenant_of key ≡ some id
          → (ev : Change)
          → view_of (handle_service_database_change j ev key d)
            ≡ step j key (database_at id (part_at 3 (split_key key))) ev (view_of d)
      at id found deleted =
          rw (found, handle_service_database_change)
            (ap (λ f. record (view_of d) { database = f })
              (fun_ext (λ i. fun_ext (λ n. database-remove d id (part_at 3 (split_key key)) i n))))
      at id found (put x) = elim (Option-cases (j.database_json x)) [
        | inl bad ↦ rw (found, handle_service_database_change) (rw (bad, step) refl)
        | inr (c, good) ↦
            rw (found, handle_service_database_change)
              (rw (good, step)
                (ap (λ f. record (view_of d) { database = f })
                  (fun_ext (λ i. fun_ext (λ n.
                    database-set d id (part_at 3 (split_key key)) (record c { tenant_id = id }) i
                      n)))))
      ]

  pub view-ftp :
      (ev : Change)
      → IsValid d
      → view_of (handle_ftp_config_change j ev key d)
        ≡ step j key (for_tenant key (λ id. ftp_at id (part_at 3 (split_key key)))) ev (view_of d)
  unfolding handle_ftp_config_change step get_tenant_meta get_service_database_config
      get_storage_config get_wvp_config get_domain_config
  view-ftp ev v =
      by_tenant ev (handle_ftp_config_change j ev key d)
        (λ id. ftp_at id (part_at 3 (split_key key)))
        (λ missing. rw (missing, handle_ftp_config_change) refl) (λ id found. at id found ev)
    where
      at :
          (id : ℤ)
          → tenant_of key ≡ some id
          → (ev : Change)
          → view_of (handle_ftp_config_change j ev key d)
            ≡ step j key (ftp_at id (part_at 3 (split_key key))) ev (view_of d)
      at id found deleted =
          rw (found, handle_ftp_config_change)
            (ap (λ f. record (view_of d) { ftp = f })
              (fun_ext (λ i. fun_ext (λ n. ftp-remove d id (part_at 3 (split_key key)) i n v))))
      at id found (put x) = elim (Option-cases (j.ftp_json x)) [
        | inl bad ↦ rw (found, handle_ftp_config_change) (rw (bad, step) refl)
        | inr (c, good) ↦
            rw (found, handle_ftp_config_change)
              (rw (good, step)
                (ap (λ f. record (view_of d) { ftp = f })
                  (fun_ext (λ i. fun_ext (λ n. ftp-set d id (record c { tenant_id = id }) i n)))))
      ]

  named_storage-same :
      (m : Option TenantMeta) (c : StorageConfig) → fill_storage m c ≡ named_storage m c
  named_storage-same none c = refl
  named_storage-same (some m) c = refl

  named_domain-same :
      (id : ℤ) (m : Option TenantMeta) (c : DomainConfig) → fill_domain id m c ≡ named_domain id m c
  named_domain-same id none c = refl
  named_domain-same id (some m) c = refl

  or_new-same : (o : Option DomainConfig) → domain_or_empty o ≡ or_new o
  or_new-same none = refl
  or_new-same (some c) = refl

  with_field-same :
      (ev : Change) (c : DomainConfig) → change_domain_field j ev key c ≡ with_field j ev key c
  unfolding change_domain_field parse_string_or_json
  with_field-same deleted c = refl
  with_field-same (put x) c = refl

  pub view-storage :
      (ev : Change)
      → view_of (handle_storage_change j ev key d)
        ≡ step j key (for_tenant key (storage_at)) ev (view_of d)
  unfolding handle_storage_change step get_tenant_meta get_service_database_config
      get_storage_config get_wvp_config get_domain_config
  view-storage ev =
      by_tenant ev (handle_storage_change j ev key d) (storage_at)
        (λ missing. rw (missing, handle_storage_change) refl) (λ id found. at id found ev)
    where
      at :
          (id : ℤ)
          → tenant_of key ≡ some id
          → (ev : Change)
          → view_of (handle_storage_change j ev key d) ≡ step j key ((storage_at) id) ev (view_of d)
      at id found deleted =
          rw (found, handle_storage_change)
            (ap (λ f. record (view_of d) { storage = f })
              (fun_ext (λ i. get_key-delete_key id i d.storages)))
      at id found (put x) = elim (Option-cases (j.storage_json x)) [
        | inl bad ↦ rw (found, handle_storage_change) (rw (bad, step) refl)
        | inr (c, good) ↦
            rw (found, handle_storage_change)
              (rw (good, step)
                (ap (λ f. record (view_of d) { storage = f })
                  (fun_ext (λ i.
                    get_key-set_key id i
                      (fill_storage (get_key id d.metas) (record c { tenant_id = id })) d.storages
                    ∙ ap (λ s. update (λ n. get_key n d.storages) id (some s) i)
                        (named_storage-same (get_key id d.metas) (record c { tenant_id = id }))))))
      ]

  pub view-wvp :
      (ev : Change)
      → view_of (handle_wvp_change j ev key d) ≡ step j key (for_tenant key (wvp_at)) ev (view_of d)
  unfolding handle_wvp_change is_incomplete step get_tenant_meta get_service_database_config
      get_storage_config get_wvp_config get_domain_config
  view-wvp ev =
      by_tenant ev (handle_wvp_change j ev key d) (wvp_at)
        (λ missing. rw (missing, handle_wvp_change) refl) (λ id found. at id found ev)
    where
      at :
          (id : ℤ)
          → tenant_of key ≡ some id
          → (ev : Change)
          → view_of (handle_wvp_change j ev key d) ≡ step j key ((wvp_at) id) ev (view_of d)
      at id found deleted =
          rw (found, handle_wvp_change)
            (ap (λ f. record (view_of d) { wvp = f })
              (fun_ext (λ i. get_key-delete_key id i d.wvps)))
      at id found (put x) = elim (Option-cases (j.wvp_json x)) [
        | inl bad ↦ rw (found, handle_wvp_change) (rw (bad, step) refl)
        | inr (c, good) ↦ elim (Bool-cases (str_eq c.api_url "" || str_eq c.realm "")) [
          | inl part ↦ rw (found, handle_wvp_change) (rw (good, step) (rw part refl))
          | inr whole ↦
              rw (found, handle_wvp_change)
                (rw (good, step)
                  (rw whole (
                    ap (λ f. record (view_of d) { wvp = f })
                      (fun_ext (λ i. get_key-set_key id i (record c { tenant_id = id }) d.wvps)))))
        ]
      ]

  pub view-domain :
      (ev : Change)
      → view_of (handle_domain_change j ev key d)
        ≡ step j key (for_tenant key (domain_at)) ev (view_of d)
  unfolding handle_domain_change step get_tenant_meta get_service_database_config get_storage_config
      get_wvp_config get_domain_config
  view-domain ev =
      by_tenant ev (handle_domain_change j ev key d) (domain_at)
        (λ missing. rw (missing, handle_domain_change) refl) (λ id found. at id found ev)
    where
      at :
          (id : ℤ)
          → tenant_of key ≡ some id
          → (ev : Change)
          → view_of (handle_domain_change j ev key d) ≡ step j key ((domain_at) id) ev (view_of d)
      at id found ev =
          rw (found, handle_domain_change)
            (ap (λ f. record (view_of d) { domain = f })
              (fun_ext (λ i.
                get_key-set_key id i
                  (fill_domain id (get_key id d.metas)
                    (change_domain_field j ev key (domain_or_empty (get_key id d.domains))))
                  d.domains
                ∙ ap (λ c. update (λ n. get_key n d.domains) id (some c) i)
                    (named_domain-same id (get_key id d.metas) _
                      ∙ ap (named_domain id (get_key id d.metas)) (
                          with_field-same ev (domain_or_empty (get_key id d.domains))
                          ∙ ap (with_field j ev key) (or_new-same (get_key id d.domains)))))))

  pub view-resolver :
      (ev : Change)
      → view_of (handle_resolver_config_change j ev d) ≡ step j key resolver_at ev (view_of d)
  unfolding handle_resolver_config_change step get_tenant_meta get_service_database_config
      get_storage_config get_wvp_config get_domain_config
  view-resolver deleted = refl
  view-resolver (put x) = elim (Option-cases (j.resolver_json x)) [
    | inl bad ↦ rw (bad, handle_resolver_config_change, step) refl
    | inr (c, good) ↦ rw (good, handle_resolver_config_change, step) refl
  ]
