-- ===== src/Tenant/Provider/Examples.antt =====
-- Examples of the provider of the tenants' configuration (sdk/pkg/tenant/provider).
use jxt_core.Base.{
  ℤ, pos, String, ◌≡◌, refl, ap, sym, true, Option, none, some, List, [], ◌∷◌, ◌++◌, All, get_key,
  set_key, inr, string_eq, int_eq,
}
use jxt_core.Outbox.Event.{Error, errorf}
use jxt_core.Outbox.Repository.{ok, err}
use jxt_core.Tenant.Provider.Keys.{is_known_watch_key}
use jxt_core.Tenant.Provider.Data.{TenantData, Codec, empty_data}
use jxt_core.Tenant.Provider.Index.{
  build_indexes, normalize_domain, get_tenant_id_by_domain, get_tenant_id_by_code,
}
use jxt_core.Tenant.Provider.Load.{FileCache, load_all, load_cache}
use jxt_core.Tenant.Provider.Watch.{Change, put, deleted, handle_watch_events}
use jxt_core.Tenant.Provider.View.{view_of, empty_view, replay}
use jxt_core.Tenant.Provider.Replay.{puts, IsWatched, view-handle_watch_events-load_all}
use jxt_core.Tenant.Provider.Scan.{found_by_domain, found_by_code}
use jxt_core.Tenant.Provider.Lookups.{Claims, get_tenant_id_by_domain_sound}
use jxt_core.Tenant.Provider.Loop.{
  Message, closed, watch_error, answer, cancelled, watch_loop, started, received,
  watch_loop-handle_watch_events,
}
use jxt_core.Tenant.Provider.Outage.{load_all_offline}

-- A codec whose values are bare texts.
abbrev pub bare : Codec
bare = record {
  meta_json = λ s.
      some (record { tenant_id = pos 0; code = s; name = s; status = "active"; billing_plan = "" });
  database_json = λ s. none;
  ftp_json = λ s. some (record {
    tenant_id = pos 0;
    username = s;
    password_hash = "";
    description = "";
    status = "";
    home_directory = "";
    write_permission = true;
  });
  storage_json = λ s. none;
  wvp_json = λ s. some (record { tenant_id = pos 0; api_url = s; realm = "" });
  string_json = λ s. none;
  aliases_json = λ s. s ∷ [];
  resolver_json = λ s. some (record {
    id = pos 1;
    http_type = "host";
    http_header_name = "";
    http_query_param = "";
    http_path_index = pos 0;
    http_host_mode = s;
    ftp_type = "";
  });
  trim_space = λ s. s;
  to_lower = λ s. s;
}

abbrev stored : List (String × String)
stored =
    ("jxt/tenants/7/domain/primary", "acme.io")
    ∷ ("jxt/tenants/7/ftp/ann", "ann")
    ∷ ("jxt/tenants/7/meta", "acme")
    ∷ []

abbrev common_stored : List (String × String)
common_stored = ("jxt/common/resolver", "domain") ∷ []

abbrev changes : List (String × Change)
changes = ("tenants/7/ftp/ann", deleted) ∷ ("tenants/8/meta", put "other") ∷ []

changes-IsWatched : All IsWatched changes
unfolding is_known_watch_key
changes-IsWatched = (refl, (refl, tt))

abbrev followed : TenantData
followed =
    handle_watch_events bare changes
      (load_all bare "jxt/" none (ok stored) (ok common_stored) empty_data).1

view-handle_watch_events-load_all_example :
    (view_of followed
      ≡ replay bare ((puts "jxt/" stored ++ puts "jxt/" common_stored) ++ changes) empty_view)
    × ((domain : String)
        → get_tenant_id_by_domain bare followed domain ≡ found_by_domain bare followed domain)
    × ((code : String)
        → get_tenant_id_by_code bare followed code ≡ found_by_code bare followed code)
view-handle_watch_events-load_all_example =
    view-handle_watch_events-load_all bare "jxt/" stored common_stored none empty_data changes
      changes-IsWatched

abbrev messages : List Message
messages = closed ∷ closed ∷ answer changes ∷ watch_error ∷ closed ∷ cancelled ∷ []

watch_loop-handle_watch_events_example :
    (watch_loop bare messages (started empty_data)).data_now
    ≡ handle_watch_events bare (received messages) empty_data
watch_loop-handle_watch_events_example =
    watch_loop-handle_watch_events bare messages (started empty_data)

abbrev pub domain_data : TenantData
domain_data = record empty_data {
  domains =
      (
        pos 7,
        record {
          tenant_id = pos 7;
          code = "acme";
          name = "Acme";
          primary = "acme.io";
          aliases = "acme.com" ∷ [];
          internal = "";
        },
      )
      ∷ [];
}

lookup_test :
    get_tenant_id_by_domain bare (build_indexes bare domain_data) "acme.com" ≡ some (pos 7)
unfolding get_tenant_id_by_domain build_indexes empty_data get_key set_key
lookup_test = refl

get_tenant_id_by_domain_sound_example :
    Claims bare domain_data (pos 7) (normalize_domain bare "acme.com")
get_tenant_id_by_domain_sound_example =
    get_tenant_id_by_domain_sound bare domain_data "acme.com" (pos 7) lookup_test

indexes : Option TenantData → List (String × ℤ) × List (String × ℤ)
indexes none = ([], [])
indexes (some d) = (d.domain_index, d.code_index)

unindexed_data :
    {d : TenantData} → some domain_data ≡ some d → (d.domain_index ≡ []) × (d.code_index ≡ [])
unfolding empty_data indexes
unindexed_data h = (ap (λ o. (indexes o).0) (sym h), ap (λ o. (indexes o).1) (sym h))

-- A cache file whose content is the data of one tenant.
abbrev cache_file : FileCache
cache_file = record {
  file = some "{}";
  decode = λ s. some domain_data;
  unindexed = λ s h. unindexed_data h;
}

abbrev down : Error
down = errorf ("etcdserver: no leader" ∷ [])

load_cache_test : load_cache cache_file ≡ some domain_data
unfolding load_cache
load_cache_test = refl

load_all_offline_example :
    (load_all bare "jxt/" (some cache_file) (ok stored) (err down) empty_data ≡ (none, domain_data))
    × ((domain : String)
        → get_tenant_id_by_domain bare
            (load_all bare "jxt/" (some cache_file) (ok stored) (err down) empty_data).1
            domain
          ≡ none)
    × ((code : String)
        → get_tenant_id_by_code bare
            (load_all bare "jxt/" (some cache_file) (ok stored) (err down) empty_data).1
            code
          ≡ none)
load_all_offline_example =
    load_all_offline bare "jxt/" (ok stored) (err down) empty_data (some cache_file) domain_data
      (inr (stored, down, refl, refl)) load_cache_test
