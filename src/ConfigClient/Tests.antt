-- ===== src/ConfigClient/Tests.antt =====
-- Runs of the client's rounds.
use nekoq_component.Base.{All, List, [], false, length, none, refl, some, true, ℕ, ◌∷◌, ◌≡◌}
use nekoq_component.Base.Str.{bytes}
use nekoq_component.Base.Map.{insert, lookup, nat_eq, str_key}
use nekoq_component.Base.Result.{ok}
use nekoq_component.ConfigApi.{
  AcquireConfigurationReq, Configuration, RequestedConfigurationKey, cache, cache_in, cache_value,
  new_selectors, trim_left, trim_right, trim_space,
}
use nekoq_component.ConfigServer.{cfg_key, get_configuration, has_update}
use nekoq_component.ConfigServer.Server.{
  Server, entry_store, get_selectors_general, next_id, respond, retrieve, retrieve_or_wait,
  store_at, updates, updates_at,
}
use nekoq_component.ConfigHttp.{
  Codec, accumulate, answer_reply, handle_retrieve_and_listen, read_retrieve_request, receive,
  select, write_accumulated, write_object,
}
use nekoq_component.ConfigClient.{
  Client, ClientCodec, ClientOptions, add_configuration_requirement, add_selector, call,
  callback_of, finish_round, get_configuration_key, get_configuration_key_from_cfg,
  mark_startup_configure_loaded, new_client, process_round, read_reply, send_retrieve_request,
  set_version, start_client, to_opt_selectors, to_selectors, trigger_updates, update_versions,
}
use nekoq_component.ConfigClient.Versions.{IsLabelled}
use nekoq_component.ConfigClient.Rounds.{Understands, exchange_with, round_catches_up}
use nekoq_component.ConfigClient.Requirements.{
  ClientStep, IsRegistered, adds, client_run, client_run-IsRegistered, client_step, rounds, starts,
}
use nekoq_component.ConfigClient.Env.{
  EnvClient, case_insensitive, get_string, get_string-case_insensitive, lower, lower_keys, to_lower,
}

abbrev stored : Configuration
stored = record {
  group = bytes "g";
  key = bytes "k";
  version = bytes "2";
  value_bytes = [];
  signature = [];
  selectors = record { data_map = []; cached = [] };
  optional_selectors = record { data_map = []; cached = [] };
  timestamp = 0;
}

abbrev one_server : Server
one_server = record {
  cached_id = 1;
  selectors_map = ([], record { selectors_store = 0; opt_selectors_store = [] }) ∷ [];
  stores = (0, record { configurations = (bytes "g||k", stored) ∷ []; listeners = [] }) ∷ [];
  next_store = 1;
  channels = [];
  next_channel = 0;
}

abbrev asked_key : RequestedConfigurationKey
asked_key = record { req_group = bytes "g"; req_key = bytes "k"; req_version = [] }

abbrev asked : AcquireConfigurationReq
asked = record {
  requested = asked_key ∷ [];
  req_selectors = record { data_map = []; cached = [] };
  req_optional_selectors = record { data_map = []; cached = [] };
}

abbrev sample_client : Client
sample_client = record {
  server_lists = bytes "http://a" ∷ [];
  lock_requests = true;
  requests = asked;
  req_callbacks = (bytes "g||k", some 7) ∷ [];
  close_ch_closed = false;
  startup_load_ch_closed = false;
}

abbrev sample_codec : Codec
sample_codec = record {
  unmarshal_req = λ sent. some asked;
  unmarshal_configuration = λ sent. none;
  marshal_res = λ cfgs. some (length cfgs ∷ []);
  marshal_get = λ res. none;
}

abbrev sample_client_codec : ClientCodec
sample_client_codec = record {
  marshal_req = λ req. some (bytes "req");
  unmarshal_res = λ sent. some (stored ∷ []);
}

sample_updates : updates_at asked one_server ≡ some (0, stored ∷ [])
unfolding updates_at updates get_selectors_general lookup entry_store cache_value cache cache_in
    get_configuration store_at cfg_key has_update
sample_updates = refl

sample-IsLabelled : All (IsLabelled (store_at 0 one_server)) asked.requested
unfolding get_configuration store_at cfg_key lookup
sample-IsLabelled = (λ c e. (cc, cc), tt)

sample_understood : Understands sample_codec sample_client_codec asked (stored ∷ [])
sample_understood = ((bytes "req", refl, refl), (1 ∷ [], refl, refl))

round_catches_up_example :
    (next : Client) × (calls : List (ℕ × Configuration)) × (process_round sample_client_codec 0
        (exchange_with sample_codec one_server)
        sample_client
      ≡ ok (next, calls, true))
    × (updates_at next.requests one_server ≡ some (0, []))
    × (next.startup_load_ch_closed ≡ true)
round_catches_up_example =
    round_catches_up sample_codec sample_client_codec one_server 0 stored [] sample_client 0
      (bytes "http://a") refl refl sample_updates sample-IsLabelled sample_understood

abbrev no_options : ClientOptions
no_options = record {
  selector_environment = [];
  selector_datacenter = [];
  selector_namespace = [];
  selector_app = [];
  selector_cluster = [];
  selector_host_name = [];
  selector_beta = [];
  override_selectors = none;
  override_optional_selectors = none;
}

abbrev sample_steps : List ClientStep
sample_steps =
    adds (record { required = asked_key; callback = some 7 })
    ∷ starts
    ∷ rounds 0 (exchange_with sample_codec one_server)
    ∷ []

abbrev started_client : Client
started_client = record {
  server_lists = bytes "http://a" ∷ [];
  lock_requests = true;
  requests = record asked {
    requested = record { req_group = bytes "g"; req_key = bytes "k"; req_version = bytes "2" } ∷ [];
  };
  req_callbacks = (bytes "g||k", some 7) ∷ [];
  close_ch_closed = false;
  startup_load_ch_closed = true;
}

sample_run :
    client_run sample_client_codec sample_steps (new_client (bytes "http://a" ∷ []) no_options)
    ≡ ok started_client
unfolding client_run client_step add_configuration_requirement start_client process_round
    send_retrieve_request read_reply finish_round trigger_updates update_versions set_version
    mark_startup_configure_loaded new_client to_selectors to_opt_selectors add_selector
    new_selectors trim_space trim_left trim_right get_configuration_key lookup insert
    handle_retrieve_and_listen read_retrieve_request retrieve_or_wait retrieve next_id respond
    answer_reply select receive write_accumulated accumulate write_object updates_at updates
    get_selectors_general entry_store cache_value cache cache_in get_configuration store_at cfg_key
    has_update callback_of call get_configuration_key_from_cfg
sample_run = refl

client_run-IsRegistered_example : IsRegistered started_client
client_run-IsRegistered_example =
    client_run-IsRegistered sample_client_codec sample_steps (bytes "http://a" ∷ []) no_options
      started_client sample_run

abbrev sample_env : EnvClient
sample_env = record {
  envs = (bytes "Home", bytes "a") ∷ (bytes "PATH", bytes "b") ∷ [];
  lowers_keys = false;
  parser_warning = false;
}

sample_unwarned : (case_insensitive sample_env).parser_warning ≡ false
unfolding case_insensitive lower_keys insert to_lower lower
sample_unwarned = refl

sample_variable : lookup (bytes "PATH") sample_env.envs ≡ some (bytes "b")
unfolding lookup
sample_variable = refl

same_in_lower : to_lower (bytes "Path") ≡ to_lower (bytes "PATH")
unfolding to_lower lower
same_in_lower = refl

get_string-case_insensitive_example :
    get_string (bytes "Path") (case_insensitive sample_env) ≡ ok (bytes "b")
get_string-case_insensitive_example =
    get_string-case_insensitive sample_env (bytes "PATH") (bytes "Path") (bytes "b") sample_unwarned
      sample_variable same_in_lower
