-- ===== src/Tenant/Middleware/Laws.antt =====
-- What sdk/pkg/tenant/middleware/extract_tenant_id.go makes of a request.
use mathlib.Core.List.{Memᴰ}
use text.Mathlib.TextLemmas.{cons-ne-nil}
use jxt_core.Base.{
  ℤ, IsInt, pos, eqb_ℤ, eqb_ℤ_iff, String, str_eq, eq_iff, false, ◌≡◌, ◌≢◌, refl, ap, sym, ◌∙◌,
  Option, none, some, [], ◌∷◌, show_int, arith, Option-cases, Bool-cases, inl, inr,
}
use jxt_core.Tenant.Numbers.{atoi-show_int}
use jxt_core.Tenant.Provider.Models.{ResolverConfig, get_http_host_mode_or_default}
use jxt_core.Tenant.Provider.Keys.{atoi, split_on}
use jxt_core.Tenant.Provider.Data.{TenantData, Codec}
use jxt_core.Tenant.Provider.Index.{build_indexes, normalize_domain, get_tenant_id_by_domain}
use jxt_core.Tenant.Provider.Lookups.{claims, Claims, get_tenant_id_by_domain_complete}
use jxt_core.Tenant.Middleware.Config.{
  Config, ProviderConfigurer, provider_of, with_provider_config, set_resolver_field,
  set_resolver_type, default_config, apply_options,
}
use jxt_core.Tenant.Middleware.Extract.{
  Request, Outcome, served, passed, rejected, before_colon, dot, lacks_subdomain, by_mode,
  extract_from_host, extract_from_request, on_missing, serve, handle, extract_tenant_id,
}

-- A tenant in the context is never 0, and a request without one goes on exactly if the configuration
-- says so.
abbrev pub Allowed : Config → Outcome → Type 0
Allowed cfg (served id t) = (id ≢ pos 0) × (t ≡ cfg.resolver_type)
Allowed cfg passed = cfg.on_missing_tenant ≡ "Continue"
Allowed cfg (rejected m t) = (cfg.on_missing_tenant ≢ "Continue") × (t ≡ cfg.resolver_type)

on_missing-Allowed : (cfg : Config) (m : String) → Allowed cfg (on_missing cfg m)
unfolding on_missing
on_missing-Allowed cfg m = elim (Bool-cases (str_eq cfg.on_missing_tenant "Continue")) [
  | inl go ↦ rw (go, on_missing) ((eq_iff cfg.on_missing_tenant "Continue").0 go)
  | inr stop ↦
      rw (stop, on_missing)
        (
          λ same. ground (arith, sym ((eq_iff cfg.on_missing_tenant "Continue").1 same) ∙ stop),
          refl,
        )
]

serve-Allowed : (cfg : Config) (n : Option ℤ) → Allowed cfg (serve cfg n)
unfolding serve
serve-Allowed cfg none = on_missing-Allowed cfg "tenant ID must be numeric"
serve-Allowed cfg (some id) = elim (Bool-cases (eqb_ℤ id (pos 0))) [
  | inl zero_id ↦ rw (zero_id, serve) (on_missing-Allowed cfg "tenant ID cannot be 0")
  | inr valid ↦ rw (valid, serve) (λ same. ground (arith, same, valid, eqb_ℤ_iff id (pos 0)), refl)
]

-- The handler lets a tenant through only under a number that is not 0, lets a request without one go
-- on only if the configuration says "Continue", and refuses it only if it does not say so; the
-- resolver's type that it hands on is the configured one.
pub handle-Allowed :
    (to_lower : String → String) (cfg : Config) (c : Request) → Allowed cfg (handle to_lower cfg c)
unfolding handle
handle-Allowed to_lower cfg c = elim (Option-cases (extract_from_request to_lower cfg c)) [
  | inl missing ↦ rw (missing, handle) (on_missing-Allowed cfg "tenant ID missing or invalid")
  | inr (text, found) ↦ rw (found, handle) (serve-Allowed cfg (atoi text))
]

serve-show_int :
    (cfg : Config) (id : ℤ)
    → IsInt id
    → id ≢ pos 0
    → serve cfg (atoi (show_int id)) ≡ served id cfg.resolver_type
unfolding serve
serve-show_int cfg id int valid =
    ap (serve cfg) (atoi-show_int id int) ∙ ground (arith, valid, eqb_ℤ_iff id (pos 0))

not_empty : (h : String) → lacks_subdomain (split_on dot h) ≡ false → str_eq h "" ≡ false
unfolding split_on
not_empty String.[] sub = sub
not_empty (String.◌∷◌ c s) sub = ground (arith, eq_iff (String.◌∷◌ c s) "", cons-ne-nil c s)

module _ (j : Codec) (to_lower : String → String) (d : TenantData) (r : ResolverConfig)
    (configured : d.resolver ≡ some r) (by_host : r.http_type ≡ "host")
    (by_domain : r.http_host_mode ≡ "domain") where
  abbrev served_by : ProviderConfigurer
  served_by = provider_of j (build_indexes j d)

  abbrev config_of : Config
  config_of = apply_options (with_provider_config served_by ∷ []) default_config

  config_of-resolver_type : config_of.resolver_type ≡ "host"
  unfolding apply_options with_provider_config set_resolver_field set_resolver_type build_indexes
  config_of-resolver_type =
      rw (configured, with_provider_config, by_host, set_resolver_field, set_resolver_type) refl

  config_of-domain_lookup : config_of.domain_lookup ≡ some served_by
  unfolding apply_options with_provider_config set_resolver_field set_resolver_type build_indexes
  config_of-domain_lookup =
      simp (configured, with_provider_config, by_host, set_resolver_field, set_resolver_type) refl

  config_of-host_config : config_of.host_config ≡ some r
  unfolding apply_options with_provider_config set_resolver_field set_resolver_type build_indexes
  config_of-host_config =
      rw (configured, with_provider_config, by_host, set_resolver_field, set_resolver_type) refl

  extract_from_host-domain :
      (host : String) (id : ℤ)
      → str_eq host "" ≡ false
      → lacks_subdomain (split_on dot (before_colon host)) ≡ false
      → get_tenant_id_by_domain j (build_indexes j d) (before_colon host) ≡ some id
      → extract_from_host to_lower host (some served_by) (some r) ≡ some (show_int id)
  unfolding extract_from_host by_mode get_http_host_mode_or_default
  extract_from_host-domain host id full sub found =
      rw (full, sub, extract_from_host, by_domain, found) refl

  -- With the provider's configuration set to hosts and domains, a request is served under the tenant
  -- that has a name whose normal form is that of its host without the port: where no other tenant has
  -- such a name, neither the name nor the host is empty or blank, the host has a dot and its first part
  -- is neither empty nor "www", and the tenant's number is an `int` that is not 0.
  pub extract_tenant_id_by_domain :
      (c : Request) (name : String) (id : ℤ)
      → str_eq c.host "" ≡ false
      → lacks_subdomain (split_on dot (before_colon c.host)) ≡ false
      → Memᴰ (id, name) (claims d.domains)
      → normalize_domain j name ≡ normalize_domain j (before_colon c.host)
      → str_eq name "" ≡ false
      → str_eq (normalize_domain j (before_colon c.host)) "" ≡ false
      → ((other : ℤ) → Claims j d other (normalize_domain j (before_colon c.host)) → other ≡ id)
      → IsInt id
      → id ≢ pos 0
      → extract_tenant_id to_lower (with_provider_config served_by ∷ []) c ≡ served id "host"
  unfolding extract_tenant_id extract_from_request handle
  extract_tenant_id_by_domain c name id full sub m norm e blank only int valid =
      rw (extracted, handle)
        (serve-show_int config_of id int valid ∙ ap (served id) config_of-resolver_type)
    where
      found : get_tenant_id_by_domain j (build_indexes j d) (before_colon c.host) ≡ some id
      found =
          get_tenant_id_by_domain_complete j d (before_colon c.host) name id m norm e
            (not_empty (before_colon c.host) sub) blank only

      extracted : extract_from_request to_lower config_of c ≡ some (show_int id)
      extracted =
          rw
            (
              config_of-resolver_type, config_of-domain_lookup, config_of-host_config,
              extract_from_request,
            )
            (extract_from_host-domain c.host id full sub found)
