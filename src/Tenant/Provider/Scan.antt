-- ===== src/Tenant/Provider/Scan.antt =====
-- The lookups by domain and by code as a search through the configurations, with no index
-- (sdk/pkg/tenant/provider/provider.go).
use jxt_core.Base.{
  ℤ, String, str_eq, ◌≡◌, refl, ap, ◌∙◌, not, ◌&&◌, ◌||◌, Option, none, some, List, [], ◌∷◌,
  if◌then◌else◌, get_key, get_key-set_key, string_eq, int_eq, arith,
}
use jxt_core.Tenant.Provider.Models.{TenantMeta}
use jxt_core.Tenant.Provider.Data.{TenantData, Codec}
use jxt_core.Tenant.Provider.Index.{
  Index, normalize_domain, index_name, index_codes, build_indexes, get_tenant_id_by_domain,
  get_tenant_id_by_code,
}
use jxt_core.Tenant.Provider.Lookups.{claims, index_claims, domain_index-claims}

-- Each tenant's code, with the tenant.
abbrev pub codes : List (ℤ × TenantMeta) → List (ℤ × String)
codes [] = []
codes ((id, meta) ∷ m) = (id, meta.code) ∷ codes m

abbrev or_else : Option ℤ → Option ℤ → Option ℤ
or_else none o = o
or_else (some i) o = some i

module _ (j : Codec) where
  -- Blanks cut, in small letters.
  abbrev pub normal : String → String
  normal s = j.to_lower (j.trim_space s)

  -- The tenant of the last name with this normal form, blank names left out.
  abbrev pub last_with : String → List (ℤ × String) → Option ℤ
  last_with k [] = none
  last_with k ((id, name) ∷ cs) = or_else (last_with k cs) (
      if not (str_eq name "") && not (str_eq (normal name) "") && str_eq (normal name) k
      then some id
      else none)

  abbrev pub found_by_domain : TenantData → String → Option ℤ
  found_by_domain d domain =
      if str_eq domain "" || str_eq (normal domain) ""
      then none
      else last_with (normal domain) (claims d.domains)

  abbrev pub found_by_code : TenantData → String → Option ℤ
  found_by_code d code =
      if str_eq code "" then none else last_with (j.to_lower code) (codes d.metas)

  get_key-index_name :
      (k : String) (id : ℤ) (name : String) (index : Index)
      → get_key k (index_name j id name index)
        ≡ or_else
            (if not (str_eq name "") && not (str_eq (normal name) "") && str_eq (normal name) k
              then some id
              else none)
            (get_key k index)
  unfolding index_name normalize_domain
  get_key-index_name k id name index = ground (arith, get_key-set_key (normal name) k id index)

  or_else_assoc : (a b c : Option ℤ) → or_else a (or_else b c) ≡ or_else (or_else a b) c
  or_else_assoc none b c = refl
  or_else_assoc (some i) b c = refl

  get_key-index_claims :
      (k : String) (cs : List (ℤ × String)) (index : Index)
      → get_key k (index_claims j cs index) ≡ or_else (last_with k cs) (get_key k index)
  get_key-index_claims k [] index = refl
  get_key-index_claims k ((id, name) ∷ cs) index =
      get_key-index_claims k cs (index_name j id name index)
      ∙ ap (or_else (last_with k cs)) (get_key-index_name k id name index)
      ∙ or_else_assoc (last_with k cs) _ (get_key k index)

  or_else-none : (a : Option ℤ) → or_else a none ≡ a
  or_else-none none = refl
  or_else-none (some i) = refl

  index_codes-claims :
      (m : List (ℤ × TenantMeta)) (index : Index)
      → index_codes j m index ≡ index_claims j (codes m) index
  unfolding index_codes
  index_codes-claims [] index = refl
  index_codes-claims ((id, meta) ∷ m) index = index_codes-claims m (index_name j id meta.code index)

  fresh_key :
      (k : String) (cs : List (ℤ × String)) → get_key k (index_claims j cs []) ≡ last_with k cs
  unfolding get_key
  fresh_key k cs = get_key-index_claims k cs [] ∙ or_else-none (last_with k cs)

  -- With fresh indexes, the lookup by a domain answers the tenant of the last name with the same normal
  -- form.
  pub get_tenant_id_by_domain-found :
      (d : TenantData) (domain : String)
      → get_tenant_id_by_domain j (build_indexes j d) domain ≡ found_by_domain d domain
  unfolding get_tenant_id_by_domain normalize_domain
  get_tenant_id_by_domain-found d domain =
      let key =
        ap (get_key (normal domain)) (domain_index-claims j d)
        ∙ fresh_key (normal domain) (claims d.domains) in
      ground (arith, key)

  code_index-claims :
      (d : TenantData) → (build_indexes j d).code_index ≡ index_claims j (codes d.metas) []
  unfolding build_indexes
  code_index-claims d = index_codes-claims d.metas []

  -- With fresh indexes, the lookup by a code answers the tenant of the last code whose normal form is
  -- that code in small letters.
  pub get_tenant_id_by_code-found :
      (d : TenantData) (code : String)
      → get_tenant_id_by_code j (build_indexes j d) code ≡ found_by_code d code
  unfolding get_tenant_id_by_code
  get_tenant_id_by_code-found d code =
      let key =
        ap (get_key (j.to_lower code)) (code_index-claims d)
        ∙ fresh_key (j.to_lower code) (codes d.metas) in
      ground (arith, key)
