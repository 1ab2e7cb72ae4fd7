-- ===== src/Tenant/Provider/Models.antt =====
-- sdk/pkg/tenant/provider/models.go.
use jxt_core.Base.{
  ℤ, pos, String, str_eq, Bool, not, ◌&&◌, Option, none, some, List, [], ◌∷◌, if◌then◌else◌,
}

pub record TenantMeta : Type 0 where
  pub tenant_id : ℤ
  pub code : String
  pub name : String
  pub status : String
  pub billing_plan : String

unfoldable pub is_enabled : TenantMeta → Bool
is_enabled m = str_eq m.status "active"

pub record StorageConfig : Type 0 where
  pub tenant_id : ℤ
  pub code : String
  pub name : String
  pub quota_bytes : ℤ
  pub max_file_size_bytes : ℤ
  pub max_concurrent_uploads : ℤ

pub record WvpConfig : Type 0 where
  pub tenant_id : ℤ
  pub api_url : String
  pub realm : String

pub record ServiceDatabaseConfig : Type 0 where
  pub tenant_id : ℤ
  pub service_code : String
  pub driver : String
  pub host : String
  pub port : ℤ
  pub database : String
  pub username : String
  pub password : String
  pub ssl_mode : String
  pub max_open_conns : ℤ
  pub max_idle_conns : ℤ
  pub password_encrypted : Bool

unfoldable pub has_encrypted_password : ServiceDatabaseConfig → Bool
has_encrypted_password c = c.password_encrypted && not (str_eq c.password "")

pub record FtpConfigDetail : Type 0 where
  pub tenant_id : ℤ
  pub username : String
  pub password_hash : String
  pub description : String
  pub status : String
  pub home_directory : String
  pub write_permission : Bool

pub record DomainConfig : Type 0 where
  pub tenant_id : ℤ
  pub code : String
  pub name : String
  pub primary : String
  pub aliases : List String
  pub internal : String

abbrev pub empty_domain : DomainConfig
empty_domain = record {
  tenant_id = pos 0;
  code = "";
  name = "";
  primary = "";
  aliases = [];
  internal = "";
}

-- The two times of the record are left out: nothing reads them.
pub record ResolverConfig : Type 0 where
  pub id : ℤ
  pub http_type : String
  pub http_header_name : String
  pub http_query_param : String
  pub http_path_index : ℤ
  pub http_host_mode : String
  pub ftp_type : String

-- A nil pointer is `none`.
unfoldable pub get_http_host_mode_or_default : Option ResolverConfig → String
get_http_host_mode_or_default none = "numeric"
get_http_host_mode_or_default (some c) =
    if str_eq c.http_host_mode "" then "numeric" else c.http_host_mode

unfoldable pub append_or_update_ftp_config :
    List FtpConfigDetail → FtpConfigDetail → List FtpConfigDetail
append_or_update_ftp_config [] new = new ∷ []
append_or_update_ftp_config (c ∷ cs) new =
    let rest = append_or_update_ftp_config cs new in
    if str_eq c.username new.username then new ∷ cs else c ∷ rest

unfoldable pub remove_ftp_config_by_username : List FtpConfigDetail → String → List FtpConfigDetail
remove_ftp_config_by_username [] username = []
remove_ftp_config_by_username (c ∷ cs) username =
    let rest = remove_ftp_config_by_username cs username in
    if str_eq c.username username then cs else c ∷ rest
