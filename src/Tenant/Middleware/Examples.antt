-- ===== src/Tenant/Middleware/Examples.antt =====
-- Examples of the tenants' middleware (sdk/pkg/tenant/middleware).
use mathlib.Core.List.{Memᴰ}
use jxt_core.Base.{
  ℤ, pos, String, ◌≡◌, ◌≢◌, refl, ap, str_eq, false, some, [], ◌∷◌, arith, string_eq, int_eq,
}
use jxt_core.Tenant.Provider.Models.{ResolverConfig}
use jxt_core.Tenant.Provider.Keys.{split_on, part_at, atoi}
use jxt_core.Tenant.Provider.Data.{TenantData}
use jxt_core.Tenant.Provider.Index.{build_indexes, normalize_domain}
use jxt_core.Tenant.Provider.Lookups.{Claims}
use jxt_core.Tenant.Provider.Examples.{bare, domain_data}
use jxt_core.Tenant.Middleware.Config.{provider_of, with_provider_config, default_config}
use jxt_core.Tenant.Middleware.Extract.{
  Request, served, rejected, before_colon, dot, lacks_subdomain, handle, extract_tenant_id,
}
use jxt_core.Tenant.Middleware.Laws.{extract_tenant_id_by_domain}

abbrev same_case : String → String
same_case s = s

abbrev resolver_of : ResolverConfig
resolver_of = record {
  id = pos 1;
  http_type = "host";
  http_header_name = "";
  http_query_param = "";
  http_path_index = pos 0;
  http_host_mode = "domain";
  ftp_type = "username";
}

abbrev resolved_data : TenantData
resolved_data = record domain_data { resolver = some resolver_of }

abbrev request : Request
request = record {
  host = "acme.com:8080";
  get_header = λ s. "0";
  get_query = λ s. "";
  url_path = "/tenants/7";
}

-- By default the number is read from a header.
rejected_test : handle same_case default_config request ≡ rejected "tenant ID cannot be 0" "header"
unfolding handle default_config atoi
rejected_test = refl

acme_host : before_colon "acme.com:8080" ≡ "acme.com"
unfolding before_colon
acme_host = refl

acme_parts : lacks_subdomain (split_on dot (before_colon request.host)) ≡ false
unfolding before_colon split_on part_at
acme_parts = refl

acme_only :
    (other : ℤ)
    → Claims bare resolved_data other (normalize_domain bare (before_colon request.host))
    → other ≡ pos 7
acme_only other (name, Memᴰ.head same, norm) = ap (λ x. x.0) same
acme_only other (name, Memᴰ.tail (Memᴰ.head same), norm) = ap (λ x. x.0) same
acme_only other (name, Memᴰ.tail (Memᴰ.tail (Memᴰ.head same)), norm) = ap (λ x. x.0) same
acme_only other (name, Memᴰ.tail (Memᴰ.tail (Memᴰ.tail m)), norm) = elim m [ ]

acme_norm : normalize_domain bare "acme.com" ≡ normalize_domain bare (before_colon request.host)
unfolding before_colon
acme_norm = refl

acme_full : str_eq (normalize_domain bare (before_colon request.host)) "" ≡ false
unfolding before_colon normalize_domain
acme_full = refl

seven : pos 7 ≢ pos 0
seven h = ground (arith, h)

extract_tenant_id_by_domain_example :
    extract_tenant_id same_case
      (with_provider_config (provider_of bare (build_indexes bare resolved_data)) ∷ [])
      request
    ≡ served (pos 7) "host"
extract_tenant_id_by_domain_example =
    extract_tenant_id_by_domain bare same_case resolved_data resolver_of refl refl refl request
      "acme.com" (pos 7) refl acme_parts (Memᴰ.tail (Memᴰ.head refl)) acme_norm refl acme_full
      acme_only (omega arith) seven
