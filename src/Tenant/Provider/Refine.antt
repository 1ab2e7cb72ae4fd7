-- ===== src/Tenant/Provider/Refine.antt =====
-- The provider's data under a change, seen through its view (sdk/pkg/tenant/provider/provider.go).
use jxt_core.Base.{
  ℤ, String, str_eq, eq_iff, ◌≡◌, refl, ap, sym, ◌∙◌, none, some, List, [], ◌∷◌, if◌then◌else◌,
  get_key, set_key, delete_key, int_eq, string_eq, eqb_ℤ_iff, get_key-set_key, get_key-delete_key,
  Bool-cases, Option-cases, inl, inr, arith,
}
use jxt_core.Tenant.Provider.Models.{
  ServiceDatabaseConfig, FtpConfigDetail, append_or_update_ftp_config,
  remove_ftp_config_by_username,
}
use jxt_core.Tenant.Provider.Data.{TenantData, get_service_database_config, find_username}
use jxt_core.Tenant.Provider.Load.{or_empty}
use jxt_core.Tenant.Provider.Watch.{remove_service}
use jxt_core.Tenant.Provider.View.{ftp_account, update_at}

-- No user name stands twice.
unfoldable pub Unique : List FtpConfigDetail → Type 0
unfolding find_username
Unique [] = Unit
Unique (c ∷ cs) = (find_username c.username cs ≡ none) × Unique cs

find_username-append_or_update :
    (u : String) (c : FtpConfigDetail) (cs : List FtpConfigDetail)
    → find_username u (append_or_update_ftp_config cs c)
      ≡ (if str_eq c.username u then some c else find_username u cs)
unfolding find_username append_or_update_ftp_config
find_username-append_or_update u c [] = refl
find_username-append_or_update u c (x ∷ cs) = ground (
  arith,
  eq_iff c.username u,
  eq_iff x.username u,
  eq_iff x.username c.username,
  find_username-append_or_update u c cs,
)

pub append_or_update-Unique :
    (c : FtpConfigDetail) (cs : List FtpConfigDetail)
    → Unique cs
    → Unique (append_or_update_ftp_config cs c)
unfolding Unique append_or_update_ftp_config
append_or_update-Unique c [] h = (refl, tt)
append_or_update-Unique c (x ∷ cs) h = elim (Bool-cases (str_eq x.username c.username)) [
  | inl same ↦
      let is = (eq_iff x.username c.username).0 same in
      simp (same) ((ap (λ u. find_username u cs) (sym is) ∙ h.0), h.1)
  | inr other ↦ simp (other) (
    ground (
      arith,
      eq_iff x.username c.username,
      eq_iff c.username x.username,
      find_username-append_or_update x.username c cs,
      h.0,
    ),
    append_or_update-Unique c cs h.1,
  )
]

find_username-remove :
    (u name : String) (cs : List FtpConfigDetail)
    → Unique cs
    → find_username u (remove_ftp_config_by_username cs name)
      ≡ (if str_eq name u then none else find_username u cs)
unfolding find_username remove_ftp_config_by_username Unique
find_username-remove u name [] h = ground arith
find_username-remove u name (x ∷ cs) h = ground (
  arith,
  eq_iff name u,
  eq_iff x.username u,
  eq_iff x.username name,
  h.0,
  find_username-remove u name cs h.1,
)

find_username-remove_none :
    (u name : String) (cs : List FtpConfigDetail)
    → find_username u cs ≡ none
    → find_username u (remove_ftp_config_by_username cs name) ≡ none
unfolding find_username remove_ftp_config_by_username
find_username-remove_none u name [] h = refl
find_username-remove_none u name (x ∷ cs) h = ground (arith, find_username-remove_none u name cs)

pub remove-Unique :
    (name : String) (cs : List FtpConfigDetail)
    → Unique cs
    → Unique (remove_ftp_config_by_username cs name)
unfolding Unique remove_ftp_config_by_username
remove-Unique name [] h = tt
remove-Unique name (x ∷ cs) h = elim (Bool-cases (str_eq x.username name)) [
  | inl same ↦ simp (same) h.1
  | inr other ↦
      simp (other) (find_username-remove_none x.username name cs h.0, remove-Unique name cs h.1)
]

-- Setting one part of the view.
pub database-set :
    (d : TenantData) (id : ℤ) (code : String) (c : ServiceDatabaseConfig) (i : ℤ) (n : String)
    → get_service_database_config
        (record d {
          databases = set_key id (set_key code c (or_empty (get_key id d.databases))) d.databases;
        })
        i
        n
      ≡ update_at (get_service_database_config d) id code (some c) i n
unfolding get_service_database_config get_key
database-set d id code c i n = ground (
  arith,
  eqb_ℤ_iff id i,
  get_key-set_key id i (set_key code c (or_empty (get_key id d.databases))) d.databases,
  get_key-set_key code n c (or_empty (get_key id d.databases)),
)

pub database-remove :
    (d : TenantData) (id : ℤ) (code : String) (i : ℤ) (n : String)
    → get_service_database_config
        (record d { databases = remove_service id code (get_key id d.databases) d.databases })
        i
        n
      ≡ update_at (get_service_database_config d) id code none i n
unfolding get_service_database_config
database-remove d id code i n = elim (Option-cases (get_key id d.databases)) [
  | inl missing ↦ rw missing (ground (arith, eqb_ℤ_iff id i, missing))
  | inr (services, found) ↦ rw found (
      ground (
        arith,
        eqb_ℤ_iff id i,
        found,
        get_key-set_key id i (delete_key code services) d.databases,
        get_key-delete_key code n services,
      ))
]

pub ftp-set :
    (d : TenantData) (id : ℤ) (c : FtpConfigDetail) (i : ℤ) (u : String)
    → ftp_account
        (record d {
          ftps = set_key id (append_or_update_ftp_config (or_empty (get_key id d.ftps)) c) d.ftps;
        })
        i
        u
      ≡ update_at (ftp_account d) id c.username (some c) i u
unfolding find_username
ftp-set d id c i u = ground (
  arith,
  eqb_ℤ_iff id i,
  get_key-set_key id i (append_or_update_ftp_config (or_empty (get_key id d.ftps)) c) d.ftps,
  find_username-append_or_update u c (or_empty (get_key id d.ftps)),
)

-- In every tenant's list no user name stands twice.
unfoldable pub IsValid : TenantData → Type 0
IsValid d = (id : ℤ) → Unique (or_empty (get_key id d.ftps))

pub ftp-remove :
    (d : TenantData) (id : ℤ) (name : String) (i : ℤ) (u : String)
    → IsValid d
    → ftp_account
        (record d {
          ftps =
              set_key id (remove_ftp_config_by_username (or_empty (get_key id d.ftps)) name) d.ftps;
        })
        i
        u
      ≡ update_at (ftp_account d) id name none i u
unfolding find_username IsValid
ftp-remove d id name i u v = ground (
  arith,
  eqb_ℤ_iff id i,
  get_key-set_key id i (remove_ftp_config_by_username (or_empty (get_key id d.ftps)) name) d.ftps,
  find_username-remove u name (or_empty (get_key id d.ftps)) (v id),
)
