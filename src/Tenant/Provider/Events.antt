-- ===== src/Tenant/Provider/Events.antt =====
-- One change of a key, loaded or watched, as a step of the view
-- (sdk/pkg/tenant/provider/provider.go).
use jxt_core.Base.{
  ℤ, String, ◌≡◌, refl, ap, sym, ◌∙◌, true, ◌||◌, some, List, ◌⊎◌, get_key, eqb_ℤ, set_key, int_eq,
  string_eq, get_key-set_key, Bool-cases, Option-cases, inl, inr, arith,
}
use mathlib.Core.Path.{subst}
use jxt_core.Tenant.Provider.Models.{FtpConfigDetail}
use jxt_core.Tenant.Provider.Keys.{
  split_key, part_at, is_tenant_meta_key, is_service_database_key, is_ftp_config_key,
  is_storage_config_key, is_domain_primary_key, is_domain_aliases_key, is_domain_internal_key,
  is_wvp_config_key, is_resolver_config_key, is_known_watch_key,
}
use jxt_core.Tenant.Provider.Data.{
  TenantData, Codec, empty_data, copy_data, get_service_database_config, get_tenant_meta,
  get_storage_config, get_wvp_config, get_domain_config,
}
use jxt_core.Tenant.Provider.Index.{build_indexes}
use jxt_core.Tenant.Provider.Load.{
  tenant_of, or_empty, process_key, parse_domain_config, set_domain_field, parse_resolver_config,
  parse_tenant_meta, parse_service_database_config, parse_ftp_config, parse_storage_config,
  parse_wvp_config,
}
use jxt_core.Tenant.Provider.Watch.{
  Change, put, deleted, dispatch, handle_watch_event, handle_tenant_meta_change,
  handle_service_database_change, handle_ftp_config_change, handle_storage_change,
  handle_wvp_change, handle_domain_change, handle_resolver_config_change, change_domain_field,
}
use jxt_core.Tenant.Provider.View.{view_of, empty_view, step, target}
use jxt_core.Tenant.Provider.Refine.{Unique, IsValid, append_or_update-Unique, remove-Unique}
use jxt_core.Tenant.Provider.Handlers.{
  view-meta, view-database, view-ftp, view-storage, view-wvp, view-domain, view-resolver,
}

module _ (j : Codec) where
  pub view-dispatch :
      (ev : Change) (key : String) (d : TenantData)
      → IsValid d
      → view_of (dispatch j ev key d) ≡ step j key (target key) ev (view_of d)
  unfolding dispatch target step
  view-dispatch ev key d v = elim (Bool-cases (is_resolver_config_key key)) [
    | inl b ↦ rw b (view-resolver j key d ev)
    | inr n0 ↦ elim (Bool-cases (is_tenant_meta_key key)) [
      | inl b ↦ rw (n0, b) (view-meta j key d ev)
      | inr n1 ↦ elim (Bool-cases (is_service_database_key key)) [
        | inl b ↦ rw (n0, n1, b) (view-database j key d ev)
        | inr n2 ↦ elim (Bool-cases (is_ftp_config_key key)) [
          | inl b ↦ rw (n0, n1, n2, b) (view-ftp j key d ev v)
          | inr n3 ↦ elim (Bool-cases (is_storage_config_key key)) [
            | inl b ↦ rw (n0, n1, n2, n3, b) (view-storage j key d ev)
            | inr n4 ↦ elim (Bool-cases (is_wvp_config_key key)) [
              | inl b ↦ rw (n0, n1, n2, n3, n4, b) (view-wvp j key d ev)
              | inr n5 ↦
                  elim (Bool-cases (
                    is_domain_primary_key key
                    || is_domain_aliases_key key
                    || is_domain_internal_key key)) [
                      | inl b ↦ rw (n0, n1, n2, n3, n4, n5, b) (view-domain j key d ev)
                      | inr n6 ↦ rw (n0, n1, n2, n3, n4, n5, n6) refl
                    ]
            ]
          ]
        ]
      ]
    ]
  ]

  -- A key that is read from an answer is handled as a put of a watch is.
  pub process_key-dispatch :
      (key value : String) (d : TenantData)
      → process_key j key value d ≡ dispatch j (put value) key d
  unfolding process_key dispatch handle_resolver_config_change parse_resolver_config
      handle_tenant_meta_change parse_tenant_meta handle_service_database_change
      parse_service_database_config handle_ftp_config_change parse_ftp_config handle_storage_change
      parse_storage_config handle_wvp_change parse_wvp_config handle_domain_change
      parse_domain_config change_domain_field set_domain_field
  process_key-dispatch key value d = refl

  Valid-ftps : (d d' : TenantData) → d'.ftps ≡ d.ftps → IsValid d → IsValid d'
  unfolding IsValid
  Valid-ftps d d' same v id = subst (λ m. Unique (or_empty (get_key id m))) (sym same) (v id)

  Unique-set :
      (id : ℤ) (cs : List FtpConfigDetail) (d : TenantData)
      → Unique cs
      → IsValid d
      → IsValid (record d { ftps = set_key id cs d.ftps })
  unfolding IsValid
  Unique-set id cs d u v i = elim (Bool-cases (eqb_ℤ id i)) [
    | inl same ↦ rw (get_key-set_key id i cs d.ftps, same) u
    | inr other ↦ rw (get_key-set_key id i cs d.ftps, other) (v i)
  ]

  handle_ftp_config_change-IsValid :
      (ev : Change) (key : String) (d : TenantData)
      → IsValid d
      → IsValid (handle_ftp_config_change j ev key d)
  unfolding handle_ftp_config_change IsValid
  handle_ftp_config_change-IsValid ev key d v = elim (Option-cases (tenant_of key)) [
    | inl missing ↦ rw (missing, handle_ftp_config_change) v
    | inr (id, found) ↦ at id found ev
  ]
    where
      at :
          (id : ℤ)
          → tenant_of key ≡ some id
          → (ev : Change) → IsValid (handle_ftp_config_change j ev key d)
      at id found deleted =
          rw (found, handle_ftp_config_change)
            (Unique-set id _ d (remove-Unique (part_at 3 (split_key key)) _ (v id)) v)
      at id found (put x) = elim (Option-cases (j.ftp_json x)) [
        | inl bad ↦ rw (found, handle_ftp_config_change) (rw bad v)
        | inr (c, good) ↦
            rw (found, handle_ftp_config_change)
              (rw good (Unique-set id _ d (append_or_update-Unique _ _ (v id)) v))
      ]

  ftps-dispatch :
      (ev : Change) (key : String) (d : TenantData)
      → ((dispatch j ev key d).ftps ≡ d.ftps)
        ⊎ (dispatch j ev key d ≡ handle_ftp_config_change j ev key d)
  unfolding dispatch handle_tenant_meta_change handle_service_database_change handle_storage_change
      handle_wvp_change handle_domain_change handle_resolver_config_change
  ftps-dispatch deleted key d = ground arith
  ftps-dispatch (put x) key d = ground arith

  pub dispatch-IsValid :
      (ev : Change) (key : String) (d : TenantData) → IsValid d → IsValid (dispatch j ev key d)
  dispatch-IsValid ev key d v = elim (ftps-dispatch ev key d) [
    | inl same ↦ Valid-ftps d _ same v
    | inr ftp ↦ subst IsValid (sym ftp) (handle_ftp_config_change-IsValid ev key d v)
  ]

  pub handle_watch_event-known :
      (key : String) (ev : Change) (d : TenantData)
      → is_known_watch_key key ≡ true
      → handle_watch_event j key ev d ≡ build_indexes j (dispatch j ev key (copy_data d))
  unfolding handle_watch_event
  handle_watch_event-known key ev d known = rw known refl

  pub view-build_indexes : (d : TenantData) → view_of (build_indexes j d) ≡ view_of d
  unfolding build_indexes get_tenant_meta get_service_database_config get_storage_config
      get_wvp_config get_domain_config
  view-build_indexes d = refl

  view-copy_data : (d : TenantData) → view_of (copy_data d) ≡ view_of d
  unfolding copy_data get_tenant_meta get_service_database_config get_storage_config get_wvp_config
      get_domain_config
  view-copy_data d = refl

  pub build_indexes-IsValid : (d : TenantData) → IsValid d → IsValid (build_indexes j d)
  unfolding build_indexes IsValid
  build_indexes-IsValid d v = v

  copy_data-IsValid : (d : TenantData) → IsValid d → IsValid (copy_data d)
  unfolding copy_data IsValid
  copy_data-IsValid d v = v

  pub empty_data-IsValid : IsValid empty_data
  unfolding empty_data IsValid Unique get_key
  empty_data-IsValid id = tt

  pub view-empty_data : view_of empty_data ≡ empty_view
  unfolding empty_data get_tenant_meta get_service_database_config get_storage_config get_wvp_config
      get_domain_config get_key
  view-empty_data = refl

  -- An event on a watched key keeps the user names of a tenant's FTP accounts distinct.
  pub handle_watch_event-IsValid :
      (key : String) (ev : Change) (d : TenantData)
      → is_known_watch_key key ≡ true
      → IsValid d
      → IsValid (handle_watch_event j key ev d)
  handle_watch_event-IsValid key ev d known v =
      subst IsValid (sym (handle_watch_event-known key ev d known))
        (build_indexes-IsValid _ (dispatch-IsValid ev key _ (copy_data-IsValid d v)))

  pub view-handle_watch_event :
      (key : String) (ev : Change) (d : TenantData)
      → is_known_watch_key key ≡ true
      → IsValid d
      → view_of (handle_watch_event j key ev d) ≡ step j key (target key) ev (view_of d)
  view-handle_watch_event key ev d known v =
      ap view_of (handle_watch_event-known key ev d known)
      ∙ view-build_indexes (dispatch j ev key (copy_data d))
      ∙ view-dispatch ev key (copy_data d) (copy_data-IsValid d v)
      ∙ ap (step j key (target key) ev) (view-copy_data d)
