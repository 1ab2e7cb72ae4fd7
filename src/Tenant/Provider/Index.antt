-- ===== src/Tenant/Provider/Index.antt =====
-- buildIndexes of sdk/pkg/tenant/provider/provider.go, and the lookups by domain and by code. The maps
-- are walked in the order of their entries.
use jxt_core.Base.{
  ℤ, String, str_eq, Option, none, List, [], ◌∷◌, ◌++◌, if◌then◌else◌, get_key, set_key, int_eq,
  string_eq,
}
use jxt_core.Tenant.Provider.Models.{TenantMeta, DomainConfig}
use jxt_core.Tenant.Provider.Data.{TenantData, Codec}

abbrev pub Index : Type 0
Index = List (String × ℤ)

-- The primary domain, the aliases, the internal domain.
abbrev pub names_of : DomainConfig → List String
names_of c = c.primary ∷ (c.aliases ++ c.internal ∷ [])

module _ (j : Codec) where
  unfoldable pub normalize_domain : String → String
  normalize_domain domain = j.to_lower (j.trim_space domain)

  -- One name of a tenant: an empty one, and one of blanks, is left out.
  unfoldable pub index_name : ℤ → String → Index → Index
  unfolding normalize_domain
  index_name id name index =
      if str_eq name ""
      then index
      else if str_eq (normalize_domain name) ""
      then index
      else set_key (normalize_domain name) id index

  unfoldable pub index_names : ℤ → List String → Index → Index
  unfolding index_name
  index_names id [] index = index
  index_names id (name ∷ names) index = index_names id names (index_name id name index)

  unfoldable pub index_domains : List (ℤ × DomainConfig) → Index → Index
  unfolding index_names
  index_domains [] index = index
  index_domains ((id, c) ∷ m) index = index_domains m (index_names id (names_of c) index)

  unfoldable pub index_codes : List (ℤ × TenantMeta) → Index → Index
  unfolding index_name
  index_codes [] index = index
  index_codes ((id, meta) ∷ m) index = index_codes m (index_name id meta.code index)

  unfoldable pub build_indexes : TenantData → TenantData
  unfolding index_domains index_codes
  build_indexes d = record d {
    domain_index = index_domains d.domains [];
    code_index = index_codes d.metas [];
  }

  unfoldable pub get_tenant_id_by_domain : TenantData → String → Option ℤ
  unfolding normalize_domain
  get_tenant_id_by_domain d domain =
      if str_eq domain ""
      then none
      else if str_eq (normalize_domain domain) ""
      then none
      else get_key (normalize_domain domain) d.domain_index

  -- The code is not trimmed here.
  unfoldable pub get_tenant_id_by_code : TenantData → String → Option ℤ
  get_tenant_id_by_code d code =
      if str_eq code "" then none else get_key (j.to_lower code) d.code_index
