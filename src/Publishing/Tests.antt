-- ===== src/Publishing/Tests.antt =====
-- A run from a save to a request.
use nekoq_component.Base.{Option, [], arith, none, refl, some, true, ◌∷◌, ◌≡◌}
use nekoq_component.Base.Str.{Str, bytes}
use nekoq_component.Base.Map.{insert, lookup, nat_eq, str_key}
use nekoq_component.Base.Sort.{insert_sorted, sort}
use nekoq_component.Base.Result.{ok}
use nekoq_component.ConfigApi.Signature.{generate_signature, validate_signature}
use nekoq_component.Hex.{hex_digit, hex_encode}
use nekoq_component.ConfigApi.{
  Configuration, cache, cache_in, cache_value, entry, is_space, join_entries, keep_or_trim, keys,
  more_entries, trim_left, trim_right, trim_space, value,
}
use nekoq_component.ConfigServer.{new_selectors_store}
use nekoq_component.ConfigServer.Server.{
  Server, get_or_create_selectors_general, new_server, new_store, store_at,
}
use nekoq_component.ConfigServer.Pump.{cache_selectors, pump_round}
use nekoq_component.ConfigServer.Serving.{HasNoListener}
use nekoq_component.ConfigHttp.{
  Codec, Request, application_cbor, handle_get_configuration, read_save_request, save_configuration,
  write_header, write_object,
}
use nekoq_component.ConfigHttp.Status.{is_well_formed}
use nekoq_component.ConfigHttp.Writes.{Carries}
use nekoq_component.ConfigStore.{
  Session, StoreCodec, Table, conflicts, database_writer, get_existing_configuration,
  in_transaction, insert_configuration, lock_taken, retry_update, store_save, update_configuration,
  update_once, update_rows, update_table,
}
use nekoq_component.ConfigStore.Pump.{scan_round}
use nekoq_component.ConfigStore.Written.{HasIds, row_to_write}
use nekoq_component.Publishing.{Names, saved_is_served}

abbrev sample : Configuration
sample = record {
  group = bytes "g";
  key = bytes "k";
  version = bytes "2";
  value_bytes = [];
  signature = bytes "sha256:ab";
  selectors = record { data_map = (bytes "env", bytes "p") ∷ []; cached = [] };
  optional_selectors = record { data_map = []; cached = [] };
  timestamp = 0;
}

abbrev empty_table : Table
empty_table = record { rows = []; next_cfg_id = 1; next_sequence = 1 }

abbrev good_session : Session
good_session = record {
  acquires = true;
  begins = true;
  selects = true;
  inserts = true;
  attempts = λ i. lock_taken;
  commits = true;
}

abbrev sample_http : Codec
sample_http = record {
  unmarshal_req = λ sent. none;
  unmarshal_configuration = λ sent. some sample;
  marshal_res = λ cfgs. none;
  marshal_get = λ res. some res.found.version;
}

abbrev sample_store : StoreCodec
sample_store = record { sha256 = λ value. 171 ∷ []; marshal = λ cfg. some (bytes "x") }

abbrev unmarshal_sample : Str → Option Configuration
unmarshal_sample encoded = some sample

abbrev sample_request : Request
sample_request = record {
  accept = application_cbor;
  content_type = application_cbor;
  configuration_sel = bytes " env=p";
  configuration_opt_sel = [];
  body = some (bytes "x");
  url_group = bytes "g";
  url_key = bytes "k";
}

sample_carried : Carries sample_http sample_request sample
sample_carried = (refl, refl, (bytes "x", refl, refl), (λ e. cc), λ e. cc)

empty-HasIds : HasIds empty_table
empty-HasIds = (tt, tt, omega arith)

sample_live :
    (row_to_write
      (cache_value sample.selectors)
      (cache_value sample.optional_selectors)
      sample
      (bytes "x")
      9
      empty_table).cfg_status
    ≡ 0
sample_live = refl

nobody_waits : HasNoListener (cache_selectors sample) new_server
unfolding get_or_create_selectors_general lookup cache_value cache cache_in cache_selectors store_at
    new_server new_store new_selectors_store insert
nobody_waits = refl

sample_named :
    Names sample_request
      (cache_value (cache_selectors sample).selectors)
      (cache_value (cache_selectors sample).optional_selectors)
      sample.group
      sample.key
unfolding is_well_formed trim_space trim_left trim_right keep_or_trim is_space cache_value cache
    cache_in cache_selectors sort insert_sorted join_entries more_entries entry value keys lookup
sample_named = (refl, refl, refl, refl, refl)

sample_accepted :
    (save_configuration
      (database_writer sample_store true good_session 9)
      sample_http
      sample_request
      empty_table).1.status
    ≡ 200
unfolding save_configuration read_save_request database_writer store_save validate_signature
    generate_signature hex_encode hex_digit in_transaction get_existing_configuration conflicts
    insert_configuration retry_update update_once update_configuration update_table update_rows
    write_header
sample_accepted = refl

saved_is_served_example :
    (later : Server) × (pump_round
        (scan_round unmarshal_sample true 0
          (save_configuration
            (database_writer sample_store true good_session 9)
            sample_http
            sample_request
            empty_table).0.rows).events
        new_server
      ≡ ok later)
    × (handle_get_configuration sample_http sample_request later
        ≡ write_object (
            sample_http.marshal_get (record {
              code = bytes "200";
              message = bytes "success";
              found = cache_selectors (cache_selectors sample);
            })))
saved_is_served_example =
    saved_is_served sample_http sample_store unmarshal_sample true good_session 9 0 sample_request
      sample_request sample sample (bytes "x") empty_table new_server sample_carried empty-HasIds
      refl refl sample_live tt (omega arith) (omega arith) nobody_waits sample_named sample_accepted
