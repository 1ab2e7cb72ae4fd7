-- ===== src/Tenant/Middleware/Extract.antt =====
-- The handler of sdk/pkg/tenant/middleware/extract_tenant_id.go.
use Prim.Native.Char.{code}
use jxt_core.Base.{
  ℕ, ◌==◌, ltb, leb, length, ℤ, pos, negsuc, eqb_ℤ, String, str_eq, Bool, ◌||◌, Option, none, some,
  List, [], ◌∷◌, if◌then◌else◌, show_int,
}
use jxt_core.Outbox.Event.{errorf}
use jxt_core.Outbox.Repository.{Result, ok, err}
use jxt_core.Tenant.Provider.Models.{ResolverConfig, get_http_host_mode_or_default}
use jxt_core.Tenant.Provider.Keys.{split_on, part_at, slash, trim_prefix, atoi}
use jxt_core.Tenant.Middleware.Config.{ProviderConfigurer, Config, default_config, apply_options}

-- What the handler reads of a request: the field Host, gin's GetHeader and Query, and URL.Path.
pub record Request : Type 0 where
  pub host : String
  pub get_header : String → String
  pub get_query : String → String
  pub url_path : String

-- `host` up to its first colon
unfoldable pub before_colon : String → String
before_colon String.[] = ""
before_colon (String.◌∷◌ c s) =
    let rest = before_colon s in if code c == 58 then "" else String.◌∷◌ c rest

abbrev pub dot : ℕ
dot = 46

abbrev pub show_id : Option ℤ → Option String
show_id none = none
show_id (some id) = some (show_int id)

abbrev pub if_numeric : String → Option ℤ → Option String
if_numeric s none = none
if_numeric s (some n) = some s

abbrev pub if_present : String → Option String
if_present s = if str_eq s "" then none else some s

-- The first part of a host's name that can name a tenant.
abbrev pub lacks_subdomain : List String → Bool
lacks_subdomain parts =
    ltb (length parts) 2 || str_eq (part_at 0 parts) "" || str_eq (part_at 0 parts) "www"

unfoldable pub by_mode :
    (String → String) → String → String → Option ProviderConfigurer → String → Option String
by_mode to_lower mode host lookup subdomain =
    if str_eq mode "domain"
    then elim lookup [ none ↦ none | some p ↦ show_id (p.tenant_id_by_domain host) ]
    else if str_eq mode "code"
    then elim lookup [ none ↦ none | some p ↦ show_id (p.tenant_id_by_code (to_lower subdomain)) ]
    else if_numeric subdomain (atoi subdomain)

unfoldable pub extract_from_host :
    (String → String) → String → Option ProviderConfigurer → Option ResolverConfig → Option String
unfolding by_mode before_colon split_on part_at
extract_from_host to_lower host lookup config =
    if str_eq host ""
    then none
    else if lacks_subdomain (split_on dot (before_colon host))
    then none
    else by_mode to_lower (get_http_host_mode_or_default config) (before_colon host) lookup
        (part_at 0 (split_on dot (before_colon host)))

-- parts[pathIndex], if it is there and not empty
abbrev pub part_at_index : ℤ → List String → Option String
part_at_index (negsuc n) parts = none
part_at_index (pos n) parts = if leb (length parts) n then none else if_present (part_at n parts)

unfoldable pub extract_from_path : String → ℤ → Option String
unfolding split_on part_at trim_prefix
extract_from_path path i =
    if str_eq path "" || str_eq path "/"
    then none
    else part_at_index i (split_on slash (trim_prefix path "/"))

-- `to_lower` is strings.ToLower.
unfoldable pub extract_from_request : (String → String) → Config → Request → Option String
unfolding extract_from_host extract_from_path
extract_from_request to_lower cfg c =
    if str_eq cfg.resolver_type "host"
    then extract_from_host to_lower c.host cfg.domain_lookup cfg.host_config
    else if str_eq cfg.resolver_type "header"
    then if_present (c.get_header cfg.header_name)
    else if str_eq cfg.resolver_type "query"
    then if_present (c.get_query cfg.query_param)
    else if str_eq cfg.resolver_type "path"
    then extract_from_path c.url_path cfg.path_index
    else none

-- What the handler does: it goes on with the tenant's number and the resolver's type in the context, or
-- without them, or answers 400 with an error's text and the resolver's type.
pub data Outcome : Type 0 where
  served : ℤ → String → Outcome
  passed : Outcome
  rejected : String → String → Outcome

unfoldable pub on_missing : Config → String → Outcome
on_missing cfg message =
    if str_eq cfg.on_missing_tenant "Continue" then passed else rejected message cfg.resolver_type

-- The number of the text: an error is `none`, and 0 is refused.
unfoldable pub serve : Config → Option ℤ → Outcome
unfolding on_missing
serve cfg none = on_missing cfg "tenant ID must be numeric"
serve cfg (some id) =
    if eqb_ℤ id (pos 0) then on_missing cfg "tenant ID cannot be 0" else served id cfg.resolver_type

unfoldable pub handle : (String → String) → Config → Request → Outcome
unfolding extract_from_request serve on_missing
handle to_lower cfg c = elim (extract_from_request to_lower cfg c) [
  | none ↦ on_missing cfg "tenant ID missing or invalid"
  | some text ↦ serve cfg (atoi text)
]

unfoldable pub extract_tenant_id : (String → String) → List (Config → Config) → Request → Outcome
unfolding handle apply_options
extract_tenant_id to_lower opts c = handle to_lower (apply_options opts default_config) c

-- GetTenantID after the handler.
unfoldable pub get_tenant_id : Outcome → ℤ
get_tenant_id (served id t) = id
get_tenant_id passed = pos 0
get_tenant_id (rejected m t) = pos 0

unfoldable pub get_tenant_id_as_int : Outcome → Result ℤ
unfolding get_tenant_id
get_tenant_id_as_int o =
    if eqb_ℤ (get_tenant_id o) (pos 0)
    then err (errorf ("tenant ID not found in context" ∷ []))
    else ok (get_tenant_id o)
