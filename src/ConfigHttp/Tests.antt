-- ===== src/ConfigHttp/Tests.antt =====
-- Runs of the handlers.
use nekoq_component.Base.{
  List, [], arith, false, length, none, refl, some, true, ℕ, ◌*◌, ◌<◌, ◌^◌, ◌↔◌, ◌∷◌, ◌≡◌, ◌≢◌, ◌≤◌,
  ◌⊎◌,
}
use nekoq_component.Base.Str.{bytes}
use nekoq_component.Base.Map.{lookup, nat_eq, str_key}
use nekoq_component.Base.Result.{ok}
use nekoq_component.Base.Sort.{insert_sorted, sort}
use nekoq_component.ConfigApi.{
  AcquireConfigurationReq, Configuration, cache, cache_in, cache_value, entry, is_space,
  join_entries, keep_or_trim, keys, more_entries, trim_left, trim_right, trim_space, value,
}
use nekoq_component.ConfigServer.{cfg_key, get_configuration, has_update}
use nekoq_component.ConfigServer.Server.{
  Server, entry_store, get_configuration_via_plain_request, get_selectors_general, store_at,
  updates, updates_at,
}
use nekoq_component.ConfigHttp.{
  Codec, DataWriter, Request, application_cbor, channel_ready, delete_configuration_at,
  get_max_wait_time_for_update, handle_get_configuration, handle_retrieve_and_listen,
  read_configuration_path, read_retrieve_request, save_configuration, second, write_object,
}
use nekoq_component.ConfigHttp.Status.{IsRefusal, get_answers_lookup, is_well_formed, plain_lookup}
use nekoq_component.ConfigHttp.Retrieving.{
  after_respond, max_wait_time_bounds, retrieving_answers_at_once,
}
use nekoq_component.ConfigHttp.Writes.{Carries, delete_answers_removal, save_reaches_writer}

abbrev stored : Configuration
stored = record {
  group = bytes "g";
  key = bytes "k";
  version = bytes "2";
  value_bytes = [];
  signature = [];
  selectors = record { data_map = (bytes "env", bytes "p") ∷ []; cached = [] };
  optional_selectors = record { data_map = []; cached = [] };
  timestamp = 0;
}

abbrev one_server : Server
one_server = record {
  cached_id = 1;
  selectors_map = (bytes "env=p", record { selectors_store = 0; opt_selectors_store = [] }) ∷ [];
  stores = (0, record { configurations = (bytes "g||k", stored) ∷ []; listeners = [] }) ∷ [];
  next_store = 1;
  channels = [];
  next_channel = 0;
}

abbrev asked : AcquireConfigurationReq
asked = record {
  requested = record { req_group = bytes "g"; req_key = bytes "k"; req_version = bytes "1" } ∷ [];
  req_selectors = record { data_map = (bytes "env", bytes "p") ∷ []; cached = [] };
  req_optional_selectors = record { data_map = []; cached = [] };
}

-- A codec of this one request, and of answers by their count.
abbrev sample_codec : Codec
sample_codec = record {
  unmarshal_req = λ sent. some asked;
  unmarshal_configuration = λ sent. some stored;
  marshal_res = λ cfgs. some (length cfgs ∷ []);
  marshal_get = λ res. some res.found.version;
}

abbrev get_request : Request
get_request = record {
  accept = application_cbor;
  content_type = application_cbor;
  configuration_sel = bytes " env=p ";
  configuration_opt_sel = [];
  body = some (bytes "x");
  url_group = bytes "g";
  url_key = bytes "k";
}

got :
    handle_get_configuration sample_codec get_request one_server
    ≡ record { status = 200; response_type = application_cbor; response_body = bytes "2" }
unfolding handle_get_configuration read_configuration_path trim_space trim_left trim_right
    keep_or_trim is_space get_configuration_via_plain_request get_selectors_general lookup
    entry_store get_configuration store_at cfg_key write_object
got = refl

get_answers_lookup_example :
    let res = handle_get_configuration sample_codec get_request one_server in
    (((res.status ≡ 200) × (res.response_body ≡ bytes "2")) ↔ (
      (cfg : Configuration) × (is_well_formed get_request ≡ true)
      × (plain_lookup get_request one_server ≡ some cfg)
      × (sample_codec.marshal_get
            (record { code = bytes "200"; message = bytes "success"; found = cfg })
          ≡ some (bytes "2"))))
    × ((res.status ≡ 404)
        ↔ ((is_well_formed get_request ≡ true) × (plain_lookup get_request one_server ≡ none)))
get_answers_lookup_example = get_answers_lookup sample_codec get_request one_server (bytes "2")

abbrev half_a_minute : ℕ
half_a_minute = 30

max_wait_time_bounds_example :
    let wait = get_max_wait_time_for_update half_a_minute in
    (((half_a_minute ≡ 0) ⊎ (2 ^ 63 ≤ half_a_minute)) → wait ≡ 60 * second)
    × (1 ≤ half_a_minute
        → half_a_minute ≤ 9223372036
        → (wait ≡ half_a_minute * second) × (second ≤ wait) × (wait < 2 ^ 63))
    × (half_a_minute ≡ 9223372037 → 2 ^ 63 ≤ wait)
max_wait_time_bounds_example = max_wait_time_bounds half_a_minute (omega arith)

sample_asks : read_retrieve_request sample_codec get_request ≡ ok asked
unfolding read_retrieve_request
sample_asks = refl

sample_updates : updates_at asked one_server ≡ some (0, stored ∷ [])
unfolding updates_at updates get_selectors_general lookup entry_store cache_value cache cache_in
    join_entries more_entries entry value keys sort insert_sorted get_configuration store_at cfg_key
    has_update
sample_updates = refl

retrieving_answers_at_once_example :
    (handle_retrieve_and_listen sample_codec get_request (λ t. t) (λ t. t) channel_ready one_server
      ≡ ok (
        after_respond (stored ∷ []) one_server,
        write_object (sample_codec.marshal_res (stored ∷ [])),
      ))
    × (updates_at asked (after_respond (stored ∷ []) one_server) ≡ updates_at asked one_server)
retrieving_answers_at_once_example =
    retrieving_answers_at_once sample_codec get_request asked (λ t. t) one_server 0 stored []
      sample_asks sample_updates

-- A writer whose state is the list of what it saved, and that removes nothing.
abbrev sample_writer : DataWriter (List Configuration)
sample_writer = record {
  writer_startup = λ w. (w, none);
  writer_stop = λ w. (w, none);
  save = λ cfg w. (cfg ∷ w, none);
  remove = λ group key sel opt w. (w, ok false);
}

save_reaches_writer_example :
    ((cfg : Configuration) × Carries sample_codec get_request cfg
      × ((save_configuration sample_writer sample_codec get_request []).0
          ≡ (sample_writer.save cfg []).0)
      × (((save_configuration sample_writer sample_codec get_request []).1.status ≡ 200)
          ↔ ((sample_writer.save cfg []).1 ≡ none)))
    ⊎ (((cfg : Configuration) → ¬ Carries sample_codec get_request cfg)
        × ((save_configuration sample_writer sample_codec get_request []).0 ≡ [])
        × ((save_configuration sample_writer sample_codec get_request []).1.status ≢ 200))
save_reaches_writer_example = save_reaches_writer sample_writer sample_codec get_request []

delete_answers_removal_example :
    let removal =
      sample_writer.remove get_request.url_group get_request.url_key
        (trim_space get_request.configuration_sel)
        (trim_space get_request.configuration_opt_sel)
        [] in
    let done = delete_configuration_at sample_writer get_request [] in
    ((is_well_formed get_request ≡ true)
      → (done.0 ≡ removal.0)
        × ((done.1.status ≡ 200) ↔ (removal.1 ≡ ok true))
        × ((done.1.status ≡ 404) ↔ (removal.1 ≡ ok false)))
    × ((is_well_formed get_request ≡ false) → (done.0 ≡ []) × IsRefusal done.1.status)
delete_answers_removal_example = delete_answers_removal sample_writer get_request []
