-- ===== src/Tenant/Provider/View.antt =====
-- The abstract view of the tenants' configuration: what each lookup answers, as functions, and what
-- one change of an etcd key does to it (sdk/pkg/tenant/provider).
use jxt_core.Base.{
  ℤ, pos, String, str_eq, ◌&&◌, ◌||◌, Option, none, some, List, [], ◌∷◌, if◌then◌else◌, get_key,
  update, int_eq, string_eq, eqb_ℤ,
}
use jxt_core.Tenant.Provider.Models.{
  TenantMeta, StorageConfig, WvpConfig, ServiceDatabaseConfig, FtpConfigDetail, DomainConfig,
  ResolverConfig,
}
use jxt_core.Tenant.Provider.Keys.{
  split_key, part_at, is_tenant_meta_key, is_service_database_key, is_ftp_config_key,
  is_storage_config_key, is_domain_primary_key, is_domain_aliases_key, is_domain_internal_key,
  is_wvp_config_key, is_resolver_config_key,
}
use jxt_core.Tenant.Provider.Data.{
  TenantData, Codec, get_service_database_config, find_username, get_tenant_meta,
  get_storage_config, get_wvp_config, get_domain_config,
}
use jxt_core.Tenant.Provider.Load.{tenant_of}
use jxt_core.Tenant.Provider.Watch.{Change, put, deleted}

-- What a key stands for.
pub data Target : Type 0 where
  nowhere resolver_at : Target
  meta_at storage_at wvp_at domain_at : ℤ → Target
  database_at ftp_at : ℤ → String → Target

abbrev pub for_tenant : String → (ℤ → Target) → Target
for_tenant key f = elim (tenant_of key) [ none ↦ nowhere | some id ↦ f id ]

unfoldable pub target : String → Target
target key =
    if is_resolver_config_key key
    then resolver_at
    else if is_tenant_meta_key key
    then for_tenant key meta_at
    else if is_service_database_key key
    then for_tenant key (λ id. database_at id (part_at 3 (split_key key)))
    else if is_ftp_config_key key
    then for_tenant key (λ id. ftp_at id (part_at 3 (split_key key)))
    else if is_storage_config_key key
    then for_tenant key storage_at
    else if is_wvp_config_key key
    then for_tenant key wvp_at
    else if is_domain_primary_key key || is_domain_aliases_key key || is_domain_internal_key key
    then for_tenant key domain_at
    else nowhere

pub record View : Type 0 where
  pub meta : ℤ → Option TenantMeta
  pub database : ℤ → String → Option ServiceDatabaseConfig
  pub ftp : ℤ → String → Option FtpConfigDetail
  pub storage : ℤ → Option StorageConfig
  pub wvp : ℤ → Option WvpConfig
  pub domain : ℤ → Option DomainConfig
  pub resolver : Option ResolverConfig

-- The FTP account of a tenant with this user name.
abbrev pub ftp_account : TenantData → ℤ → String → Option FtpConfigDetail
ftp_account d id u = elim (get_key id d.ftps) [ none ↦ none | some cs ↦ find_username u cs ]

abbrev pub view_of : TenantData → View
view_of d = record {
  meta = get_tenant_meta d;
  database = get_service_database_config d;
  ftp = ftp_account d;
  storage = get_storage_config d;
  wvp = get_wvp_config d;
  domain = get_domain_config d;
  resolver = d.resolver;
}

abbrev pub empty_view : View
empty_view = record {
  meta = λ _. none;
  database = λ _ _. none;
  ftp = λ _ _. none;
  storage = λ _. none;
  wvp = λ _. none;
  domain = λ _. none;
  resolver = none;
}

-- A configuration with the code and the name of the tenant's metadata, if there are any; a domain
-- configuration gets the number as well.
abbrev pub named_storage : Option TenantMeta → StorageConfig → StorageConfig
named_storage none c = c
named_storage (some m) c = record c { code = m.code; name = m.name }

abbrev pub named_domain : ℤ → Option TenantMeta → DomainConfig → DomainConfig
named_domain id none c = c
named_domain id (some m) c = record c { tenant_id = id; code = m.code; name = m.name }

abbrev pub or_new : Option DomainConfig → DomainConfig
or_new (some c) = c
or_new none = record {
  tenant_id = pos 0;
  code = "";
  name = "";
  primary = "";
  aliases = [];
  internal = "";
}

-- A function of a tenant and a name, changed at one pair.
abbrev pub update_at :
    {V : Type 0} → (ℤ → String → Option V) → ℤ → String → Option V → ℤ → String → Option V
update_at f id name o i n = if eqb_ℤ id i && str_eq name n then o else f i n

module _ (j : Codec) where
  -- A text, or what it is as JSON.
  abbrev pub text_of : String → String
  text_of x = elim (j.string_json x) [ some s ↦ s | none ↦ j.trim_space x ]

  -- The field of a domain configuration that the key names, set or cleared.
  abbrev pub with_field : Change → String → DomainConfig → DomainConfig
  with_field deleted key c =
      if is_domain_primary_key key
      then record c { primary = "" }
      else if is_domain_aliases_key key
      then record c { aliases = [] }
      else if is_domain_internal_key key
      then record c { internal = "" }
      else c
  with_field (put x) key c =
      if is_domain_primary_key key
      then record c { primary = text_of x }
      else if is_domain_aliases_key key
      then record c { aliases = j.aliases_json x }
      else if is_domain_internal_key key
      then record c { internal = text_of x }
      else c

  -- What one change does to the view. A value that cannot be decoded, or a platform without its
  -- address or its realm, leaves the old one; a delete clears just its own entry, but a field of a
  -- domain configuration leaves the configuration there.
  unfoldable pub step : String → Target → Change → View → View
  step key nowhere ev v = v
  step key resolver_at deleted v = record v { resolver = none }
  step key resolver_at (put x) v = elim (j.resolver_json x) [
    | none ↦ v
    | some c ↦ record v { resolver = some c }
  ]
  step key (meta_at id) deleted v = record v { meta = update v.meta id none }
  step key (meta_at id) (put x) v = elim (j.meta_json x) [
    | none ↦ v
    | some m ↦ record v { meta = update v.meta id (some (record m { tenant_id = id })) }
  ]
  step key (database_at id code) deleted v = record v {
    database = update_at v.database id code none;
  }
  step key (database_at id code) (put x) v = elim (j.database_json x) [
    | none ↦ v
    | some c ↦ record v {
      database = update_at v.database id code (some (record c { tenant_id = id }));
    }
  ]
  step key (ftp_at id user) deleted v = record v { ftp = update_at v.ftp id user none }
  step key (ftp_at id user) (put x) v = elim (j.ftp_json x) [
    | none ↦ v
    | some c ↦ record v { ftp = update_at v.ftp id c.username (some (record c { tenant_id = id })) }
  ]
  step key (storage_at id) deleted v = record v { storage = update v.storage id none }
  step key (storage_at id) (put x) v = elim (j.storage_json x) [
    | none ↦ v
    | some c ↦ record v {
      storage =
          update v.storage id (some (named_storage (v.meta id) (record c { tenant_id = id })));
    }
  ]
  step key (wvp_at id) deleted v = record v { wvp = update v.wvp id none }
  step key (wvp_at id) (put x) v = elim (j.wvp_json x) [
    | none ↦ v
    | some c ↦
        if str_eq c.api_url "" || str_eq c.realm ""
        then v
        else record v { wvp = update v.wvp id (some (record c { tenant_id = id })) }
  ]
  step key (domain_at id) ev v = record v {
    domain =
        update v.domain id
          (some (named_domain id (v.meta id) (with_field ev key (or_new (v.domain id)))));
  }

  -- The changes one after the other.
  unfoldable pub replay : List (String × Change) → View → View
  unfolding step target
  replay [] v = v
  replay ((key, ev) ∷ evs) v = replay evs (step key (target key) ev v)
