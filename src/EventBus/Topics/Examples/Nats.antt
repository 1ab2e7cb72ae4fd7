-- ===== src/EventBus/Topics/Examples/Nats.antt =====
-- The theorems on NATS topics at concrete inputs.
use jxt_core.Base.{
  is_none, ◌&&◌, Bool-cases, inl, inr, get_key, set_key, String, str_eq, eq_iff, true, false,
  Option, none, some, List, [], ◌∷◌, if◌then◌else◌, State, ◌≡◌, ◌↔◌, refl, sym, arith,
}
use mathlib.Core.Path.{subst}
use jxt_core.Outbox.Event.{Error, errorf}
use jxt_core.EventBus.Topics.Options.{is_persistent, default_topic_options}
use jxt_core.EventBus.Topics.Names.{validate_topic_name}
use jxt_core.EventBus.Topics.Compare.Defs.{strategy_create_or_update, should_create_or_update}
use jxt_core.EventBus.Topics.Nats.Subjects.{tokens, subject_matches, Covers, subject_matches-Covers}
use jxt_core.EventBus.Topics.Nats.Defs as Nats
use jxt_core.EventBus.Topics.Nats.Publish.{NatsTopics, route}
use jxt_core.EventBus.Topics.Nats.Coverage.{IsJetStream, Covered}
use jxt_core.EventBus.Topics.Nats.Runs.{configure_call, publish_call, remove_call, route-Covered}
use jxt_core.EventBus.Topics.Nats.Runs as Nats_Runs

subject_matches-Covers_example :
    (subject_matches "orders.*" "orders.created" ≡ true)
    ↔ Covers (tokens "orders.*") (tokens "orders.created")
subject_matches-Covers_example = subject_matches-Covers "orders.*" "orders.created"

-- A server with at most one stream.
abbrev info_of : Option Nats.StreamConfig → String → Nats.StreamInfo
info_of none n = Nats.not_found
info_of (some c) n = if str_eq c.name n then Nats.found c else Nats.not_found

abbrev refused : String → Option Error
refused text = some (errorf (text ∷ []))

abbrev add_to : Nats.StreamConfig → State (Option Nats.StreamConfig) (Option Error)
add_to c none = (none, some c)
add_to c (some d) = (refused "nats: insufficient resources", some d)

abbrev update_in : Nats.StreamConfig → State (Option Nats.StreamConfig) (Option Error)
update_in c none = (refused "nats: stream not found", none)
update_in c (some d) =
    if str_eq c.name d.name then (none, some c) else (refused "nats: stream not found", some d)

abbrev subjects_in : String → Option Nats.StreamConfig → Option (List String)
subjects_in n none = none
subjects_in n (some d) = if str_eq n d.name then some d.subjects else none

abbrev small_server : Nats.JetStream
small_server = record {
  Store = Option Nats.StreamConfig;
  unavailable = λ s. none;
  stream_info = λ n s. (info_of s n, s);
  add_stream = add_to;
  update_stream = update_in;
  stream_not_found = errorf ("nats: stream not found" ∷ []);
  Message = String;
  publish_async = λ t m s. (none, s);
  disconnected = λ s. none;
  publish_core = λ t m s. (none, s);
}

info_of-found :
    (n : String) (s : Option Nats.StreamConfig) (c : Nats.StreamConfig)
    → info_of s n ≡ Nats.found c
    → (c.name ≡ n) × (subjects_in n s ≡ some c.subjects)
info_of-found n none c h = absurd (cc)
info_of-found n (some d) c h = elim (Bool-cases (str_eq d.name n)) [
  | inr other ↦ absurd (cc (rw other at h))
  | inl same ↦
      let named = (eq_iff d.name n).0 same in
      let found_d : d ≡ c = cc (rw same at h) in
      subst (λ e. (e.name ≡ n) × (subjects_in n (some d) ≡ some e.subjects)) found_d
        (named, rw ((eq_iff n d.name).1 (sym named)) refl)
]

added_in :
    (n : String) (c : Nats.StreamConfig) (s : Option Nats.StreamConfig)
    → subjects_in n (add_to c s).1
      ≡ (if is_none (add_to c s).0 && str_eq n c.name then some c.subjects else subjects_in n s)
added_in n c none = refl
added_in n c (some d) = refl

added_again_in :
    (c : Nats.StreamConfig) (s : Option Nats.StreamConfig) (ss : List String)
    → (add_to c s).0 ≡ none
    → subjects_in c.name s ≡ some ss
    → ss ≡ c.subjects
added_again_in c none ss done h = absurd (cc)
added_again_in c (some d) ss done h = absurd (cc)

updated_in :
    (n : String) (c : Nats.StreamConfig) (s : Option Nats.StreamConfig)
    → subjects_in n (update_in c s).1
      ≡ (if is_none (update_in c s).0 && str_eq n c.name then some c.subjects else subjects_in n s)
updated_in n c none = refl
updated_in n c (some d) = ground (arith, eq_iff c.name d.name, eq_iff n c.name, eq_iff n d.name)

small_server_laws : IsJetStream small_server
small_server_laws = record {
  subjects_of = subjects_in;
  info_reads = λ n s. refl;
  info_found = info_of-found;
  added = added_in;
  added_again = added_again_in;
  updated = updated_in;
  publish_async_keeps = λ n t m s. refl;
  publish_core_keeps = λ n t m s. refl;
}

abbrev nats_bus : NatsTopics small_server
nats_bus = record {
  topic_configs = [];
  strategy = strategy_create_or_update;
  on_mismatch = record { log_level = "warn"; fail_fast = false };
  jet_stream_enabled = true;
  stream_name = "EVENTS";
  ensured_topics = [];
  closed = false;
  error_count = 0;
  published_messages = 0;
  metrics = none;
  server = none;
}

abbrev before : List (Nats_Runs.Call small_server)
before = configure_call "orders.paid" default_topic_options ∷ publish_call "orders.paid" "1" 0 ∷ []

abbrev after : List (Nats_Runs.Call small_server)
after = publish_call "users" "2" 1 ∷ remove_call "orders.created" ∷ []

route-Covered_example :
    Covered small_server small_server_laws "EVENTS" "orders.created"
      (Nats_Runs.run small_server after
        (route small_server "orders.created" (Nats_Runs.run small_server before nats_bus)).1).server
unfolding Nats.get_stream_name_for_topic Nats_Runs.run Nats_Runs.apply route validate_topic_name
    get_key is_persistent set_key should_create_or_update subject_matches
route-Covered_example =
    route-Covered small_server small_server_laws nats_bus before after "orders.created" refl
      (λ e. cc ((eq_iff "create_or_update" "skip").1 e)) refl
