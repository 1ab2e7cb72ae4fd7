-- ===== src/Tenant/Provider/Load.antt =====
-- LoadAll of sdk/pkg/tenant/provider/provider.go: the parse functions, one for each kind of key. An
-- error of a parse function leaves the data as it is.
use jxt_core.Base.{
  ℤ, String, concat, ◌≡◌, str_eq, Bool, ◌||◌, Option, none, some, List, [], ◌∷◌, if◌then◌else◌,
  get_key, set_key, int_eq, string_eq,
}
use jxt_core.Outbox.Event.{Error, wrapf}
use jxt_core.Outbox.Repository.{Result, ok, err}
use jxt_core.Tenant.Provider.Models.{
  TenantMeta, StorageConfig, WvpConfig, DomainConfig, empty_domain, append_or_update_ftp_config,
}
use jxt_core.Tenant.Provider.Keys.{
  split_key, part_at, atoi, trim_prefix, is_tenant_meta_key, is_service_database_key,
  is_ftp_config_key, is_storage_config_key, is_domain_primary_key, is_domain_aliases_key,
  is_domain_internal_key, is_wvp_config_key, is_resolver_config_key,
}
use jxt_core.Tenant.Provider.Data.{TenantData, Codec, empty_data, parse_string_or_json}
use jxt_core.Tenant.Provider.Index.{build_indexes}

-- parts[1], as a number
abbrev pub tenant_of : String → Option ℤ
tenant_of key = atoi (part_at 1 (split_key key))

-- data.Databases[tenantID], made where it is missing
abbrev pub or_empty : {A : Type 0} → Option (List A) → List A
or_empty none = []
or_empty (some l) = l

abbrev pub domain_or_empty : Option DomainConfig → DomainConfig
domain_or_empty none = empty_domain
domain_or_empty (some c) = c

-- The code and the name come from the tenant's metadata, where these are there.
abbrev pub fill_storage : Option TenantMeta → StorageConfig → StorageConfig
fill_storage none c = c
fill_storage (some m) c = record c { code = m.code; name = m.name }

abbrev pub fill_domain : ℤ → Option TenantMeta → DomainConfig → DomainConfig
fill_domain id none c = c
fill_domain id (some m) c = record c { tenant_id = id; code = m.code; name = m.name }

unfoldable pub is_incomplete : WvpConfig → Bool
is_incomplete c = str_eq c.api_url "" || str_eq c.realm ""

module _ (j : Codec) where
  unfoldable pub parse_tenant_meta : String → String → TenantData → TenantData
  parse_tenant_meta key value d = elim (tenant_of key) [
    | none ↦ d
    | some id ↦ elim (j.meta_json value) [
      | none ↦ d
      | some m ↦ record d { metas = set_key id (record m { tenant_id = id }) d.metas }
    ]
  ]

  unfoldable pub parse_service_database_config : String → String → TenantData → TenantData
  parse_service_database_config key value d = elim (tenant_of key) [
    | none ↦ d
    | some id ↦ elim (j.database_json value) [
      | none ↦ d
      | some c ↦ record d {
        databases =
            set_key id
              (set_key (part_at 3 (split_key key)) (record c { tenant_id = id })
                (or_empty (get_key id d.databases)))
              d.databases;
      }
    ]
  ]

  unfoldable pub parse_ftp_config : String → String → TenantData → TenantData
  unfolding append_or_update_ftp_config
  parse_ftp_config key value d = elim (tenant_of key) [
    | none ↦ d
    | some id ↦ elim (j.ftp_json value) [
      | none ↦ d
      | some c ↦ record d {
        ftps =
            set_key id
              (append_or_update_ftp_config (or_empty (get_key id d.ftps))
                (record c { tenant_id = id }))
              d.ftps;
      }
    ]
  ]

  unfoldable pub parse_storage_config : String → String → TenantData → TenantData
  parse_storage_config key value d = elim (tenant_of key) [
    | none ↦ d
    | some id ↦ elim (j.storage_json value) [
      | none ↦ d
      | some c ↦ record d {
        storages =
            set_key id (fill_storage (get_key id d.metas) (record c { tenant_id = id })) d.storages;
      }
    ]
  ]

  unfoldable pub parse_wvp_config : String → String → TenantData → TenantData
  unfolding is_incomplete
  parse_wvp_config key value d = elim (tenant_of key) [
    | none ↦ d
    | some id ↦ elim (j.wvp_json value) [
      | none ↦ d
      | some c ↦
          if is_incomplete c
          then d
          else record d { wvps = set_key id (record c { tenant_id = id }) d.wvps }
    ]
  ]

  -- The field that the key names.
  unfoldable pub set_domain_field : String → String → DomainConfig → DomainConfig
  unfolding parse_string_or_json
  set_domain_field key value c =
      if is_domain_primary_key key
      then record c { primary = parse_string_or_json j value }
      else if is_domain_aliases_key key
      then record c { aliases = j.aliases_json value }
      else if is_domain_internal_key key
      then record c { internal = parse_string_or_json j value }
      else c

  unfoldable pub parse_domain_config : String → String → TenantData → TenantData
  unfolding set_domain_field
  parse_domain_config key value d = elim (tenant_of key) [
    | none ↦ d
    | some id ↦ record d {
      domains =
          set_key id
            (fill_domain id (get_key id d.metas)
              (set_domain_field key value (domain_or_empty (get_key id d.domains))))
            d.domains;
    }
  ]

  unfoldable pub parse_resolver_config : String → TenantData → TenantData
  parse_resolver_config value d = elim (j.resolver_json value) [
    | none ↦ d
    | some c ↦ record d { resolver = some c }
  ]

  -- `key` without the namespace.
  unfoldable pub process_key : String → String → TenantData → TenantData
  process_key key value d =
      if is_resolver_config_key key
      then parse_resolver_config value d
      else if is_tenant_meta_key key
      then parse_tenant_meta key value d
      else if is_service_database_key key
      then parse_service_database_config key value d
      else if is_ftp_config_key key
      then parse_ftp_config key value d
      else if is_storage_config_key key
      then parse_storage_config key value d
      else if is_wvp_config_key key
      then parse_wvp_config key value d
      else if is_domain_primary_key key || is_domain_aliases_key key || is_domain_internal_key key
      then parse_domain_config key value d
      else d

  -- The pairs of one answer, in its order.
  unfoldable pub process_keys : String → List (String × String) → TenantData → TenantData
  unfolding process_key
  process_keys namespace [] d = d
  process_keys namespace ((k, v) ∷ kvs) d =
      process_keys namespace kvs (process_key (trim_prefix k namespace) v d)

-- The file cache: the content of its file, if it can be read, and the JSON encoding of the data. The
-- fields domainIndex and codeIndex are not exported, so decoding leaves them nil.
pub record FileCache : Type 0 where
  pub file : Option String
  pub decode : String → Option TenantData
  pub unindexed :
      (s : String) {d : TenantData}
      → decode s ≡ some d
      → (d.domain_index ≡ []) × (d.code_index ≡ [])

unfoldable pub load_cache : FileCache → Option TenantData
load_cache c = elim c.file [ none ↦ none | some s ↦ c.decode s ]

abbrev pub get_failed : String → Error → Error
get_failed prefix e = wrapf (concat ("ETCD Get failed for prefix " ∷ prefix ∷ ": " ∷ [])) e

-- The cached data, where the cache is configured and can be read.
unfoldable pub from_cache : Option FileCache → Error → TenantData → Option Error × TenantData
unfolding load_cache
from_cache none e old = (some e, old)
from_cache (some c) e old = elim (load_cache c) [ none ↦ (some e, old) | some d ↦ (none, d) ]

module _ (j : Codec) (namespace : String) where
  -- The two answers of etcd, for the prefixes tenants/ and common/; the data before; the error and
  -- the data after. The copy to the file cache runs on its own.
  unfoldable pub load_all :
      Option FileCache
      → Result (List (String × String))
      → Result (List (String × String))
      → TenantData
      → Option Error × TenantData
  unfolding from_cache process_keys build_indexes
  load_all cache (err e) common old =
      from_cache cache (get_failed (concat (namespace ∷ "tenants/" ∷ [])) e) old
  load_all cache (ok tenants) (err e) old =
      from_cache cache (get_failed (concat (namespace ∷ "common/" ∷ [])) e) old
  load_all cache (ok tenants) (ok common) old = (
    none,
    build_indexes j (process_keys j namespace common (process_keys j namespace tenants empty_data)),
  )
