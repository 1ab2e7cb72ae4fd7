-- ===== src/Tenant/Provider/Watch.antt =====
-- The watch of sdk/pkg/tenant/provider/provider.go: one handler for each kind of key, and the waits
-- between reconnections.
use jxt_core.Base.{
  ℕ, ◌*◌, ◌/◌, ltb, ℤ, String, not, ◌||◌, Option, none, some, List, [], ◌∷◌, if◌then◌else◌, get_key,
  set_key, delete_key, int_eq, string_eq,
}
use jxt_core.Tenant.Provider.Models.{
  ServiceDatabaseConfig, DomainConfig, append_or_update_ftp_config, remove_ftp_config_by_username,
}
use jxt_core.Tenant.Provider.Keys.{
  split_key, part_at, is_tenant_meta_key, is_service_database_key, is_ftp_config_key,
  is_storage_config_key, is_domain_primary_key, is_domain_aliases_key, is_domain_internal_key,
  is_wvp_config_key, is_resolver_config_key, is_known_watch_key,
}
use jxt_core.Tenant.Provider.Data.{TenantData, Codec, copy_data, parse_string_or_json}
use jxt_core.Tenant.Provider.Index.{build_indexes}
use jxt_core.Tenant.Provider.Load.{
  tenant_of, or_empty, domain_or_empty, fill_storage, fill_domain, is_incomplete,
}

-- The kind of an event, with the value of a put.
pub data Change : Type 0 where
  put : String → Change
  deleted : Change

abbrev pub remove_service :
    ℤ
    → String
    → Option (List (String × ServiceDatabaseConfig))
    → List (ℤ × List (String × ServiceDatabaseConfig))
    → List (ℤ × List (String × ServiceDatabaseConfig))
remove_service id code none m = m
remove_service id code (some services) m = set_key id (delete_key code services) m

module _ (j : Codec) where
  unfoldable pub handle_tenant_meta_change : Change → String → TenantData → TenantData
  handle_tenant_meta_change ev key d = elim (tenant_of key) [
    | none ↦ d
    | some id ↦ elim ev [
      | deleted ↦ record d { metas = delete_key id d.metas }
      | put value ↦ elim (j.meta_json value) [
        | none ↦ d
        | some m ↦ record d { metas = set_key id (record m { tenant_id = id }) d.metas }
      ]
    ]
  ]

  unfoldable pub handle_service_database_change : Change → String → TenantData → TenantData
  handle_service_database_change ev key d = elim (tenant_of key) [
    | none ↦ d
    | some id ↦ elim ev [
      | deleted ↦ record d {
        databases =
            remove_service id (part_at 3 (split_key key)) (get_key id d.databases) d.databases;
      }
      | put value ↦ elim (j.database_json value) [
        | none ↦ d
        | some c ↦ record d {
          databases =
              set_key id
                (set_key (part_at 3 (split_key key)) (record c { tenant_id = id })
                  (or_empty (get_key id d.databases)))
                d.databases;
        }
      ]
    ]
  ]

  -- A delete names the user by the key, a put by the value.
  unfoldable pub handle_ftp_config_change : Change → String → TenantData → TenantData
  unfolding append_or_update_ftp_config remove_ftp_config_by_username
  handle_ftp_config_change ev key d = elim (tenant_of key) [
    | none ↦ d
    | some id ↦ elim ev [
      | deleted ↦ record d {
        ftps =
            set_key id
              (remove_ftp_config_by_username (or_empty (get_key id d.ftps))
                (part_at 3 (split_key key)))
              d.ftps;
      }
      | put value ↦ elim (j.ftp_json value) [
        | none ↦ d
        | some c ↦ record d {
          ftps =
              set_key id
                (append_or_update_ftp_config (or_empty (get_key id d.ftps))
                  (record c { tenant_id = id }))
                d.ftps;
        }
      ]
    ]
  ]

  unfoldable pub handle_storage_change : Change → String → TenantData → TenantData
  handle_storage_change ev key d = elim (tenant_of key) [
    | none ↦ d
    | some id ↦ elim ev [
      | deleted ↦ record d { storages = delete_key id d.storages }
      | put value ↦ elim (j.storage_json value) [
        | none ↦ d
        | some c ↦ record d {
          storages =
              set_key id (fill_storage (get_key id d.metas) (record c { tenant_id = id }))
                d.storages;
        }
      ]
    ]
  ]

  unfoldable pub handle_wvp_change : Change → String → TenantData → TenantData
  unfolding is_incomplete
  handle_wvp_change ev key d = elim (tenant_of key) [
    | none ↦ d
    | some id ↦ elim ev [
      | deleted ↦ record d { wvps = delete_key id d.wvps }
      | put value ↦ elim (j.wvp_json value) [
        | none ↦ d
        | some c ↦
            if is_incomplete c
            then d
            else record d { wvps = set_key id (record c { tenant_id = id }) d.wvps }
      ]
    ]
  ]

  -- The field that the key names, set or cleared.
  unfoldable pub change_domain_field : Change → String → DomainConfig → DomainConfig
  unfolding parse_string_or_json
  change_domain_field deleted key c =
      if is_domain_primary_key key
      then record c { primary = "" }
      else if is_domain_aliases_key key
      then record c { aliases = [] }
      else if is_domain_internal_key key
      then record c { internal = "" }
      else c
  change_domain_field (put value) key c =
      if is_domain_primary_key key
      then record c { primary = parse_string_or_json j value }
      else if is_domain_aliases_key key
      then record c { aliases = j.aliases_json value }
      else if is_domain_internal_key key
      then record c { internal = parse_string_or_json j value }
      else c

  unfoldable pub handle_domain_change : Change → String → TenantData → TenantData
  unfolding change_domain_field
  handle_domain_change ev key d = elim (tenant_of key) [
    | none ↦ d
    | some id ↦ record d {
      domains =
          set_key id
            (fill_domain id (get_key id d.metas)
              (change_domain_field ev key (domain_or_empty (get_key id d.domains))))
            d.domains;
    }
  ]

  unfoldable pub handle_resolver_config_change : Change → TenantData → TenantData
  handle_resolver_config_change deleted d = record d { resolver = none }
  handle_resolver_config_change (put value) d = elim (j.resolver_json value) [
    | none ↦ d
    | some c ↦ record d { resolver = some c }
  ]

  -- The switch over the kinds of key.
  unfoldable pub dispatch : Change → String → TenantData → TenantData
  dispatch ev key d =
      if is_resolver_config_key key
      then handle_resolver_config_change ev d
      else if is_tenant_meta_key key
      then handle_tenant_meta_change ev key d
      else if is_service_database_key key
      then handle_service_database_change ev key d
      else if is_ftp_config_key key
      then handle_ftp_config_change ev key d
      else if is_storage_config_key key
      then handle_storage_change ev key d
      else if is_wvp_config_key key
      then handle_wvp_change ev key d
      else if is_domain_primary_key key || is_domain_aliases_key key || is_domain_internal_key key
      then handle_domain_change ev key d
      else d

  -- `key` is the key of the event without the namespace. The copy to the file cache runs on its own.
  unfoldable pub handle_watch_event : String → Change → TenantData → TenantData
  unfolding copy_data dispatch build_indexes
  handle_watch_event key ev d =
      if not (is_known_watch_key key) then d else build_indexes j (dispatch ev key (copy_data d))

  -- The events of the answers to a watch, in order.
  unfoldable pub handle_watch_events : List (String × Change) → TenantData → TenantData
  unfolding handle_watch_event
  handle_watch_events [] d = d
  handle_watch_events ((key, ev) ∷ evs) d = handle_watch_events evs (handle_watch_event key ev d)

abbrev pub initial_backoff : ℕ
initial_backoff = 1000000000

abbrev pub max_backoff : ℕ
max_backoff = 30000000000

-- `time.Duration(float64(current) * 1.5)`: a float64 is exact for the durations that arise.
unfoldable pub calculate_backoff : ℕ → ℕ
calculate_backoff current =
    let next = current * 3 / 2 in if ltb max_backoff next then max_backoff else next
