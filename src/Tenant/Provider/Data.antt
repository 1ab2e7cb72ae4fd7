-- ===== src/Tenant/Provider/Data.antt =====
-- tenantData of sdk/pkg/tenant/provider/provider.go, the decoding of values, and what a lookup of
-- the data answers. A value stands for the pointer to it: a snapshot is a value of its own.
use jxt_core.Base.{
  ℤ, pos, String, str_eq, Bool, false, ◌||◌, Option, none, some, List, [], ◌∷◌, if◌then◌else◌,
  get_key, int_eq, string_eq,
}
use jxt_core.Tenant.Provider.Models.{
  TenantMeta, is_enabled, StorageConfig, WvpConfig, ServiceDatabaseConfig, FtpConfigDetail,
  DomainConfig, ResolverConfig,
}

-- `none` is a null value; a map that is nil is empty here, which no lookup tells apart.
pub record TenantData : Type 0 where
  pub metas : List (ℤ × TenantMeta)
  pub databases : List (ℤ × List (String × ServiceDatabaseConfig))
  pub ftps : List (ℤ × List FtpConfigDetail)
  pub storages : List (ℤ × StorageConfig)
  pub wvps : List (ℤ × WvpConfig)
  pub domains : List (ℤ × DomainConfig)
  pub resolver : Option ResolverConfig
  pub domain_index : List (String × ℤ)
  pub code_index : List (String × ℤ)

unfoldable pub empty_data : TenantData
empty_data = record {
  metas = [];
  databases = [];
  ftps = [];
  storages = [];
  wvps = [];
  domains = [];
  resolver = none;
  domain_index = [];
  code_index = [];
}

-- copyData: all but the indexes, which the caller builds again.
unfoldable pub copy_data : TenantData → TenantData
copy_data d = record d { domain_index = []; code_index = [] }

-- What comes from outside the repository: json.Unmarshal of a value into each type (`none` is an
-- error; `aliases_json` is what the variable holds after the call, whose error is ignored), the
-- JSON encoding of the file cache, and two functions on text.
pub record Codec : Type 0 where
  pub meta_json : String → Option TenantMeta
  pub database_json : String → Option ServiceDatabaseConfig
  pub ftp_json : String → Option FtpConfigDetail
  pub storage_json : String → Option StorageConfig
  pub wvp_json : String → Option WvpConfig
  pub string_json : String → Option String
  pub aliases_json : String → List String
  pub resolver_json : String → Option ResolverConfig
  pub trim_space : String → String
  pub to_lower : String → String

-- parseStringOrJSON
unfoldable pub parse_string_or_json : Codec → String → String
parse_string_or_json j value = elim (j.string_json value) [ some s ↦ s | none ↦ j.trim_space value ]

unfoldable pub get_service_database_config : TenantData → ℤ → String → Option ServiceDatabaseConfig
get_service_database_config d id code = elim (get_key id d.databases) [
  | none ↦ none
  | some m ↦ get_key code m
]

unfoldable pub find_username : String → List FtpConfigDetail → Option FtpConfigDetail
find_username u [] = none
find_username u (c ∷ cs) = if str_eq c.username u then some c else find_username u cs

unfoldable pub get_ftp_configs : TenantData → ℤ → Option (List FtpConfigDetail)
get_ftp_configs d id = get_key id d.ftps

-- The map is searched in the order of its entries.
unfoldable pub ftp_config_in : String → List (ℤ × List FtpConfigDetail) → Option FtpConfigDetail
unfolding find_username
ftp_config_in u [] = none
ftp_config_in u ((id, cs) ∷ m) = elim (find_username u cs) [
  | some c ↦ some c
  | none ↦ ftp_config_in u m
]

unfoldable pub get_ftp_config_by_username : TenantData → String → Option FtpConfigDetail
unfolding ftp_config_in
get_ftp_config_by_username d u = ftp_config_in u d.ftps

unfoldable pub active_configs : List FtpConfigDetail → List FtpConfigDetail
active_configs [] = []
active_configs (c ∷ cs) =
    let rest = active_configs cs in
    if str_eq c.status "" || str_eq c.status "active" then c ∷ rest else rest

-- The second result of the source is whether the list is not empty.
unfoldable pub get_active_ftp_configs : TenantData → ℤ → List FtpConfigDetail
unfolding active_configs
get_active_ftp_configs d id = elim (get_key id d.ftps) [ none ↦ [] | some cs ↦ active_configs cs ]

unfoldable pub get_domain_config : TenantData → ℤ → Option DomainConfig
get_domain_config d id = get_key id d.domains

unfoldable pub get_storage_config : TenantData → ℤ → Option StorageConfig
get_storage_config d id = get_key id d.storages

unfoldable pub get_wvp_config : TenantData → ℤ → Option WvpConfig
get_wvp_config d id = get_key id d.wvps

unfoldable pub get_tenant_meta : TenantData → ℤ → Option TenantMeta
get_tenant_meta d id = get_key id d.metas

abbrev pub keys : {K V : Type 0} → List (K × V) → List K
keys [] = []
keys ((k, v) ∷ m) = k ∷ keys m

unfoldable pub get_all_tenant_ids : TenantData → List ℤ
get_all_tenant_ids d = keys d.metas

unfoldable pub is_tenant_enabled : TenantData → ℤ → Bool
unfolding get_tenant_meta is_enabled
is_tenant_enabled d id = elim (get_tenant_meta d id) [ none ↦ false | some m ↦ is_enabled m ]

unfoldable pub get_resolver_config_or_default : TenantData → ResolverConfig
get_resolver_config_or_default d = elim d.resolver [
  | some c ↦ c
  | none ↦ record {
    id = pos 0;
    http_type = "header";
    http_header_name = "X-Tenant-ID";
    http_query_param = "";
    http_path_index = pos 0;
    http_host_mode = "";
    ftp_type = "username";
  }
]
