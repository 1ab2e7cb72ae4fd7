-- ===== src/Tenant/Provider/Lookups.antt =====
-- The lookup of a tenant by a domain in the index that buildIndexes makes
-- (sdk/pkg/tenant/provider/provider.go).
use jxt_core.Base.{
  ℤ, String, str_eq, eq_iff, ◌≡◌, ◌≢◌, refl, sym, ap, ◌∙◌, false, ◌⊎◌, inl, inr, none, some, List,
  [], ◌∷◌, ◌++◌, get_key, get_key-set_key, string_eq, int_eq, Option-cases, arith,
}
use mathlib.Core.List.{Memᴰ}
use mathlib.Core.Path.{subst}
use jxt_core.Tenant.Provider.Models.{DomainConfig}
use jxt_core.Tenant.Provider.Data.{TenantData, Codec}
use jxt_core.Tenant.Provider.Index.{
  Index, normalize_domain, index_name, index_names, names_of, index_domains, build_indexes,
  get_tenant_id_by_domain,
}

-- Each name of each tenant, with the tenant.
abbrev pub claims_of : ℤ → List String → List (ℤ × String) → List (ℤ × String)
claims_of id [] rest = rest
claims_of id (name ∷ names) rest = (id, name) ∷ claims_of id names rest

abbrev pub claims : List (ℤ × DomainConfig) → List (ℤ × String)
claims [] = []
claims ((id, c) ∷ m) = claims_of id (c.primary ∷ (c.aliases ++ c.internal ∷ [])) (claims m)

module _ (j : Codec) where
  -- A tenant that has a name of this normal form.
  abbrev pub Claims : TenantData → ℤ → String → Type 0
  Claims d id k =
      (name : String) × Memᴰ (id, name) (claims d.domains) × (normalize_domain j name ≡ k)

  abbrev pub index_claims : List (ℤ × String) → Index → Index
  index_claims [] index = index
  index_claims ((id, name) ∷ cs) index = index_claims cs (index_name j id name index)

  index_claims-claims_of :
      (id : ℤ) (names : List String) (rest : List (ℤ × String)) (index : Index)
      → index_claims (claims_of id names rest) index
        ≡ index_claims rest (index_names j id names index)
  unfolding index_names
  index_claims-claims_of id [] rest index = refl
  index_claims-claims_of id (name ∷ names) rest index =
      index_claims-claims_of id names rest (index_name j id name index)

  pub index_claims-claims :
      (m : List (ℤ × DomainConfig)) (index : Index)
      → index_domains j m index ≡ index_claims (claims m) index
  unfolding index_domains
  index_claims-claims [] index = refl
  index_claims-claims ((id, c) ∷ m) index =
      index_claims-claims m (index_names j id (names_of c) index)
      ∙ sym (index_claims-claims_of id (names_of c) (claims m) index)

  -- What an entry of the index comes from.
  index_name-get_key :
      (k : String) (i id : ℤ) (name : String) (index : Index)
      → get_key k (index_name j id name index) ≡ some i
      → (get_key k index ≡ some i) ⊎ ((id ≡ i) × (normalize_domain j name ≡ k))
  unfolding index_name
  index_name-get_key k i id name index h = ground (
    arith,
    get_key-set_key (normalize_domain j name) k id index,
    eq_iff (normalize_domain j name) k,
  )

  index_claims_sound :
      (k : String) (i : ℤ) (cs : List (ℤ × String)) (index : Index)
      → get_key k (index_claims cs index) ≡ some i
      → (get_key k index ≡ some i)
        ⊎ ((name : String) × Memᴰ (i, name) cs × (normalize_domain j name ≡ k))
  index_claims_sound k i [] index h = inl h
  index_claims_sound k i ((id, name) ∷ cs) index h =
      elim (index_claims_sound k i cs (index_name j id name index) h) [
        | inr found ↦ inr (found.0, Memᴰ.tail found.1, found.2)
        | inl before ↦ elim (index_name-get_key k i id name index before) [
          | inl older ↦ inl older
          | inr new ↦ inr (name, Memᴰ.head (ap (λ x. (x, name)) (sym new.0)), new.1)
        ]
      ]

  -- An entry is replaced, never lost.
  index_name_keeps :
      (k : String) (id : ℤ) (name : String) (index : Index)
      → get_key k index ≢ none
      → get_key k (index_name j id name index) ≢ none
  unfolding index_name
  index_name_keeps k id name index h = ground (
    arith,
    get_key-set_key (normalize_domain j name) k id index,
    eq_iff (normalize_domain j name) k,
  )

  index_name_adds :
      (k : String) (id : ℤ) (name : String) (index : Index)
      → str_eq name "" ≡ false
      → normalize_domain j name ≡ k
      → str_eq k "" ≡ false
      → get_key k (index_name j id name index) ≢ none
  unfolding index_name
  index_name_adds k id name index e same full = ground (
    arith,
    get_key-set_key (normalize_domain j name) k id index,
    eq_iff (normalize_domain j name) k,
  )

  index_claims_keeps :
      (k : String) (cs : List (ℤ × String)) (index : Index)
      → get_key k index ≢ none
      → get_key k (index_claims cs index) ≢ none
  index_claims_keeps k [] index h = h
  index_claims_keeps k ((id, name) ∷ cs) index h =
      index_claims_keeps k cs _ (index_name_keeps k id name index h)

  index_claims_complete :
      (k : String) (id : ℤ) (name : String) (cs : List (ℤ × String)) (index : Index)
      → Memᴰ (id, name) cs
      → str_eq name "" ≡ false
      → normalize_domain j name ≡ k
      → str_eq k "" ≡ false
      → get_key k (index_claims cs index) ≢ none
  index_claims_complete k id name [] index m e norm full = elim m [ ]
  index_claims_complete k id name (c ∷ cs) index (Memᴰ.head same) e norm full =
      index_claims_keeps k cs _ (
        subst (λ (x : ℤ × String). get_key k (index_name j x.0 x.1 index) ≢ none) same
          (index_name_adds k id name index e norm full))
  index_claims_complete k id name (c ∷ cs) index (Memᴰ.tail m) e norm full =
      index_claims_complete k id name cs _ m e norm full

  pub domain_index-claims :
      (d : TenantData) → (build_indexes j d).domain_index ≡ index_claims (claims d.domains) []
  unfolding build_indexes
  domain_index-claims d = index_claims-claims d.domains []

  none_is_not_some : (i : ℤ) → none ≢ some i
  none_is_not_some i h = ground (arith, h)

  -- A lookup by domain in data with fresh indexes answers none but a tenant that has a name with
  -- the same normal form.
  pub get_tenant_id_by_domain_sound :
      (d : TenantData) (domain : String) (id : ℤ)
      → get_tenant_id_by_domain j (build_indexes j d) domain ≡ some id
      → Claims d id (normalize_domain j domain)
  unfolding get_tenant_id_by_domain get_key
  get_tenant_id_by_domain_sound d domain id h =
      elim (index_claims_sound (normalize_domain j domain) id (claims d.domains) []
        (ap (get_key (normalize_domain j domain)) (sym (domain_index-claims d)) ∙ found)) [
          | inl nothing ↦ absurd (none_is_not_some id nothing)
          | inr claim ↦ claim
        ]
    where
      found : get_key (normalize_domain j domain) (build_indexes j d).domain_index ≡ some id
      found = ground arith

  -- A lookup by a domain answers a tenant that has a name with the same normal form, where no
  -- other tenant has one, and neither the name nor the domain is empty or blank.
  pub get_tenant_id_by_domain_complete :
      (d : TenantData) (domain name : String) (id : ℤ)
      → Memᴰ (id, name) (claims d.domains)
      → normalize_domain j name ≡ normalize_domain j domain
      → str_eq name "" ≡ false
      → str_eq domain "" ≡ false
      → str_eq (normalize_domain j domain) "" ≡ false
      → ((other : ℤ) → Claims d other (normalize_domain j domain) → other ≡ id)
      → get_tenant_id_by_domain j (build_indexes j d) domain ≡ some id
  unfolding get_tenant_id_by_domain
  get_tenant_id_by_domain_complete d domain name id m norm e e' full only =
      elim (Option-cases (get_tenant_id_by_domain j (build_indexes j d) domain)) [
        | inl missing ↦ absurd (
            index_claims_complete (normalize_domain j domain) id name (claims d.domains) [] m e norm
              full
              (ap (get_key (normalize_domain j domain)) (sym (domain_index-claims d))
                ∙ ground (arith, missing)))
        | inr (other, found) ↦
            found ∙ ap some (only other (get_tenant_id_by_domain_sound d domain other found))
      ]
