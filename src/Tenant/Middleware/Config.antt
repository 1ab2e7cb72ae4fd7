-- ===== src/Tenant/Middleware/Config.antt =====
-- The configuration of sdk/pkg/tenant/middleware/extract_tenant_id.go and its options.
use jxt_core.Base.{ℤ, pos, String, str_eq, not, Option, none, some, List, [], ◌∷◌, if◌then◌else◌}
use jxt_core.Tenant.Provider.Models.{ResolverConfig}
use jxt_core.Tenant.Provider.Data.{TenantData, Codec}
use jxt_core.Tenant.Provider.Index.{get_tenant_id_by_domain, get_tenant_id_by_code}

-- ProviderConfigurer: DomainLookuper, CodeLookuper and ResolverConfigProvider. A config's lookup is
-- always one of these, so that the type assertion to CodeLookuper holds.
pub record ProviderConfigurer : Type 0 where
  pub tenant_id_by_domain : String → Option ℤ
  pub tenant_id_by_code : String → Option ℤ
  pub resolver_config : Option ResolverConfig

-- The provider as the middleware sees it, at one moment.
abbrev pub provider_of : Codec → TenantData → ProviderConfigurer
provider_of j d = record {
  tenant_id_by_domain = get_tenant_id_by_domain j d;
  tenant_id_by_code = get_tenant_id_by_code j d;
  resolver_config = d.resolver;
}

pub record Config : Type 0 where
  pub resolver_type : String
  pub header_name : String
  pub query_param : String
  pub path_index : ℤ
  pub on_missing_tenant : String
  pub domain_lookup : Option ProviderConfigurer
  pub host_config : Option ResolverConfig

unfoldable pub with_resolver_type : String → Config → Config
with_resolver_type t c = record c { resolver_type = t }

unfoldable pub with_header_name : String → Config → Config
with_header_name n c = record c { header_name = n }

unfoldable pub with_query_param : String → Config → Config
with_query_param p c = record c { query_param = p }

unfoldable pub with_path_index : ℤ → Config → Config
with_path_index i c = record c { path_index = i }

unfoldable pub with_on_missing_tenant : String → Config → Config
with_on_missing_tenant m c = record c { on_missing_tenant = m }

-- The field that belongs to the type of the resolver.
unfoldable pub set_resolver_field : ResolverConfig → Config → Config
set_resolver_field r c =
    if str_eq r.http_type "header"
    then (if not (str_eq r.http_header_name "")
        then record c { header_name = r.http_header_name }
        else c)
    else if str_eq r.http_type "query"
    then (if not (str_eq r.http_query_param "")
        then record c { query_param = r.http_query_param }
        else c)
    else if str_eq r.http_type "path"
    then record c { path_index = r.http_path_index }
    else c

unfoldable pub set_resolver_type : ResolverConfig → Config → Config
set_resolver_type r c =
    if not (str_eq r.http_type "") then record c { resolver_type = r.http_type } else c

unfoldable pub with_provider_config : ProviderConfigurer → Config → Config
unfolding set_resolver_field set_resolver_type
with_provider_config p c = elim p.resolver_config [
  | none ↦ record c { domain_lookup = some p }
  | some r ↦
      set_resolver_field r
        (set_resolver_type r (record c { domain_lookup = some p; host_config = some r }))
]

unfoldable pub default_config : Config
default_config = record {
  resolver_type = "header";
  header_name = "X-Tenant-ID";
  query_param = "tenant";
  path_index = pos 0;
  on_missing_tenant = "Abort";
  domain_lookup = none;
  host_config = none;
}

-- The options, in their order.
unfoldable pub apply_options : List (Config → Config) → Config → Config
apply_options [] c = c
apply_options (opt ∷ opts) c = apply_options opts (opt c)
