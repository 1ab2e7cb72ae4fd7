-- ===== src/Tenant/Clients.antt =====
-- The configuration caches over the provider: sdk/pkg/tenant/database, ftp, storage and wvp. Each reads
-- the provider's data at one moment.
use jxt_core.Base.{
  ℤ, String, show_int, ◌≡◌, refl, ◌∙◌, Option, none, some, List, [], ◌∷◌, get_key, int_eq,
  string_eq, Option-cases, inl, inr, arith,
}
use jxt_core.Outbox.Event.{errorf}
use jxt_core.Outbox.Repository.{Result, ok, err}
use jxt_core.Tenant.Provider.Models.{TenantMeta, ServiceDatabaseConfig, FtpConfigDetail}
use jxt_core.Tenant.Provider.Data.{
  TenantData, get_service_database_config, get_tenant_meta, get_ftp_configs,
  get_ftp_config_by_username, get_active_ftp_configs, get_storage_config, get_wvp_config,
}

pub record TenantDatabaseConfig : Type 0 where
  pub tenant_id : ℤ
  pub code : String
  pub name : String
  pub service_code : String
  pub driver : String
  pub host : String
  pub port : ℤ
  pub db_name : String
  pub username : String
  pub password : String
  pub ssl_mode : String
  pub max_open_conns : ℤ
  pub max_idle_conns : ℤ

pub record TenantFtpConfigDetail : Type 0 where
  pub tenant_id : ℤ
  pub code : String
  pub name : String
  pub username : String
  pub password_hash : String
  pub description : String
  pub status : String

pub record TenantStorageConfig : Type 0 where
  pub tenant_id : ℤ
  pub code : String
  pub name : String
  pub quota_bytes : ℤ
  pub max_file_size_bytes : ℤ
  pub max_concurrent_uploads : ℤ

pub record TenantWvpConfig : Type 0 where
  pub tenant_id : ℤ
  pub code : String
  pub name : String
  pub api_url : String
  pub realm : String

abbrev pub meta_not_found : {A : Type 0} → ℤ → Result A
meta_not_found id = err (errorf ("tenant meta not found for tenant " ∷ show_int id ∷ []))

-- The tenant's metadata, or the error for its absence.
abbrev pub with_meta : {A : Type 0} → TenantData → ℤ → (TenantMeta → A) → Result A
with_meta d id f = elim (get_tenant_meta d id) [ none ↦ meta_not_found id | some m ↦ ok (f m) ]

-- The password is left empty.
abbrev pub database_of : TenantMeta → ServiceDatabaseConfig → TenantDatabaseConfig
database_of m c = record {
  tenant_id = c.tenant_id;
  code = m.code;
  name = m.name;
  service_code = c.service_code;
  driver = c.driver;
  host = c.host;
  port = c.port;
  db_name = c.database;
  username = c.username;
  password = "";
  ssl_mode = c.ssl_mode;
  max_open_conns = c.max_open_conns;
  max_idle_conns = c.max_idle_conns;
}

abbrev pub ftp_of : TenantMeta → FtpConfigDetail → TenantFtpConfigDetail
ftp_of m c = record {
  tenant_id = c.tenant_id;
  code = m.code;
  name = m.name;
  username = c.username;
  password_hash = c.password_hash;
  description = c.description;
  status = c.status;
}

abbrev pub ftps_of : TenantMeta → List FtpConfigDetail → List TenantFtpConfigDetail
ftps_of m [] = []
ftps_of m (c ∷ cs) = ftp_of m c ∷ ftps_of m cs

abbrev pub databases_of :
    TenantMeta → List (String × ServiceDatabaseConfig) → List (String × TenantDatabaseConfig)
databases_of m [] = []
databases_of m ((service, c) ∷ cs) = (service, database_of m c) ∷ databases_of m cs

unfoldable pub get_by_service : TenantData → ℤ → String → Result TenantDatabaseConfig
get_by_service d id service = elim (get_service_database_config d id service) [
  | none ↦
      err (
        errorf
          ("database config not found for tenant " ∷ show_int id ∷ ", service " ∷ service ∷ []))
  | some c ↦ with_meta d id (λ m. database_of m c)
]

unfoldable pub get_all_services : TenantData → ℤ → Result (List (String × TenantDatabaseConfig))
get_all_services d id = elim (get_key id d.databases) [
  | none ↦ err (errorf ("no database configs found for tenant " ∷ show_int id ∷ []))
  | some cs ↦ with_meta d id (λ m. databases_of m cs)
]

unfoldable pub get_all_ftps : TenantData → ℤ → Result (List TenantFtpConfigDetail)
get_all_ftps d id = elim (get_ftp_configs d id) [
  | none ↦ err (errorf ("no ftp configs found for tenant " ∷ show_int id ∷ []))
  | some cs ↦ with_meta d id (λ m. ftps_of m cs)
]

unfoldable pub get_ftp_by_username : TenantData → String → Result TenantFtpConfigDetail
get_ftp_by_username d user = elim (get_ftp_config_by_username d user) [
  | none ↦ err (errorf ("ftp config not found for username " ∷ user ∷ []))
  | some c ↦ with_meta d c.tenant_id (λ m. ftp_of m c)
]

unfoldable pub get_active_ftps : TenantData → ℤ → Result (List TenantFtpConfigDetail)
get_active_ftps d id = elim (get_active_ftp_configs d id) [
  | [] ↦ err (errorf ("no active ftp configs found for tenant " ∷ show_int id ∷ []))
  | c ∷ cs ↦ with_meta d id (λ m. ftps_of m (c ∷ cs))
]

unfoldable pub get_storage_by_id : TenantData → ℤ → Result TenantStorageConfig
get_storage_by_id d id = elim (get_storage_config d id) [
  | none ↦ err (errorf ("tenant " ∷ show_int id ∷ " storage config not found" ∷ []))
  | some c ↦ ok (record {
    tenant_id = c.tenant_id;
    code = c.code;
    name = c.name;
    quota_bytes = c.quota_bytes;
    max_file_size_bytes = c.max_file_size_bytes;
    max_concurrent_uploads = c.max_concurrent_uploads;
  })
]

abbrev pub name_wvp : Option TenantMeta → TenantWvpConfig → TenantWvpConfig
name_wvp none c = c
name_wvp (some m) c = record c { code = m.code; name = m.name }

unfoldable pub get_wvp_by_id : TenantData → ℤ → Result TenantWvpConfig
get_wvp_by_id d id = elim (get_wvp_config d id) [
  | none ↦ err (errorf ("tenant " ∷ show_int id ∷ " WVP config not found" ∷ []))
  | some c ↦ ok (
      name_wvp (get_tenant_meta d id) (record {
        tenant_id = c.tenant_id;
        code = "";
        name = "";
        api_url = c.api_url;
        realm = c.realm;
      }))
]

-- The entry for one service, of an answer of all.
abbrev pub entry_of :
    String → Result (List (String × TenantDatabaseConfig)) → Option TenantDatabaseConfig
entry_of service (err e) = none
entry_of service (ok cs) = get_key service cs

abbrev pub value_of : {A : Type 0} → Result A → Option A
value_of (err e) = none
value_of (ok a) = some a

databases_of-get_key :
    (m : TenantMeta) (service : String) (cs : List (String × ServiceDatabaseConfig))
    → get_key service (databases_of m cs)
      ≡ elim (get_key service cs) [ none ↦ none | some c ↦ some (database_of m c) ]
unfolding get_key
databases_of-get_key m service [] = refl
databases_of-get_key m service ((s, c) ∷ cs) = ground (arith, databases_of-get_key m service cs)

-- GetAllServices answers for each service just what GetByService does.
pub get_all_services-get_by_service :
    (d : TenantData) (id : ℤ) (service : String)
    → entry_of service (get_all_services d id) ≡ value_of (get_by_service d id service)
unfolding get_all_services get_by_service get_service_database_config
get_all_services-get_by_service d id service = elim (Option-cases (get_key id d.databases)) [
  | inl missing ↦ rw (missing, get_all_services, get_by_service, get_service_database_config) refl
  | inr (cs, found) ↦ elim (Option-cases (get_tenant_meta d id)) [
    | inl nameless ↦ elim (Option-cases (get_key service cs)) [
      | inl absent ↦
          rw (found, absent, get_all_services, get_by_service, get_service_database_config)
            (rw (nameless, with_meta) refl)
      | inr (c, present) ↦
          rw (found, present, get_all_services, get_by_service, get_service_database_config)
            (rw (nameless, with_meta) refl)
    ]
    | inr (m, named) ↦
        rw (found, get_all_services, get_by_service, get_service_database_config)
          (rw (named, with_meta)
            (databases_of-get_key m service cs ∙ (elim (Option-cases (get_key service cs)) [
              | inl absent ↦ rw absent refl
              | inr (c, present) ↦ rw present (rw (named, with_meta) refl)
            ])))
  ]
]
