-- ===== src/ConfigStore/Tests.antt =====
-- Runs on a small table.
use nekoq_component.Base.{
  List, Option, [], arith, false, none, refl, some, true, ℕ, ◌<◌, ◌^◌, ◌∷◌, ◌≡◌,
}
use nekoq_component.Base.Str.{Str, bytes}
use nekoq_component.Base.Map.{nat_eq, str_key}
use nekoq_component.ConfigApi.Signature.{generate_signature, validate_signature}
use nekoq_component.Hex.{hex_digit, hex_encode}
use nekoq_component.ConfigApi.{Configuration, cache, cache_in, cache_value}
use nekoq_component.ConfigStore.{
  Row, Session, StoreCodec, Table, get_existing_configuration, in_transaction, is_row_of,
  lock_taken, retry_update, store_delete, store_save, update_configuration, update_once,
  update_rows, update_table,
}
use nekoq_component.ConfigStore.Pump.{scan_round}
use nekoq_component.ConfigStore.Saving.{row_of}
use nekoq_component.ConfigStore.Written.{HasIds, row_to_write}
use nekoq_component.ConfigStore.Scanning.{AllUpTo, one_event, saved_is_scanned}
use nekoq_component.ConfigStore.Deleting.{after_delete, save_does_not_revive}
use nekoq_component.ConfigStore.Invariant.{IsSound}
use nekoq_component.ConfigStore.History.{
  StoreStep, deletes, new_table, saves, store_run, store_run-IsSound,
}

abbrev sample : Configuration
sample = record {
  group = bytes "g";
  key = bytes "k";
  version = bytes "2";
  value_bytes = [];
  signature = bytes "sha256:ab";
  selectors = record { data_map = []; cached = [] };
  optional_selectors = record { data_map = []; cached = [] };
  timestamp = 0;
}

abbrev row_numbered : ℕ → ℕ → Row
row_numbered id seq = record {
  cfg_id = id;
  row_selectors = [];
  row_optional_selectors = [];
  cfg_group = bytes "g";
  cfg_key_column = bytes "k";
  cfg_version = bytes "1";
  cfg_status = 0;
  raw_cfg_value = bytes "x";
  time_created = 5;
  time_updated = 5;
  row_sequence = seq;
}

abbrev one_table : Table
one_table = record { rows = row_numbered 1 1 ∷ []; next_cfg_id = 2; next_sequence = 17 }

one_table-HasIds : HasIds one_table
one_table-HasIds = (((omega arith, omega arith), tt), (tt, tt), omega arith)

abbrev good_session : Session
good_session = record {
  acquires = true;
  begins = true;
  selects = true;
  inserts = true;
  attempts = λ i. lock_taken;
  commits = true;
}

abbrev sample_codec : StoreCodec
sample_codec = record { sha256 = λ value. 171 ∷ []; marshal = λ cfg. some (bytes "x") }

abbrev unmarshal_sample : Str → Option Configuration
unmarshal_sample encoded = some sample

abbrev two_rows : List Row
two_rows = row_numbered 1 33 ∷ row_numbered 2 17 ∷ []

abbrev after_save : Table
after_save = (store_save sample_codec good_session 9 sample one_table).0

sample_saved : store_save sample_codec good_session 9 sample one_table ≡ (after_save, none)
unfolding store_save validate_signature generate_signature hex_encode hex_digit in_transaction
    get_existing_configuration is_row_of retry_update update_once update_configuration update_table
    update_rows cache_value cache cache_in
sample_saved = refl

saved_is_scanned_example :
    scan_round unmarshal_sample true 1 after_save.rows
    ≡ one_event 17
        (row_to_write
          (cache_value sample.selectors)
          (cache_value sample.optional_selectors)
          sample
          (bytes "x")
          9
          one_table).cfg_status
        sample
saved_is_scanned_example =
    saved_is_scanned sample_codec unmarshal_sample good_session 9 1 sample sample (bytes "x")
      one_table after_save one_table-HasIds refl refl (omega arith, tt) (omega arith) (omega arith)
      sample_saved

abbrev deleted_table : Table
deleted_table =
    after_delete 8 (bytes "g") (bytes "k") (cache_value sample.selectors)
      (cache_value sample.optional_selectors) one_table

abbrev after_both : Table
after_both = (store_save sample_codec good_session 9 sample deleted_table).0

sample_row :
    row_of
      (cache_value sample.selectors)
      (cache_value sample.optional_selectors)
      sample.group
      sample.key
      one_table.rows
    ≡ some (row_numbered 1 1)
unfolding is_row_of cache_value cache cache_in
sample_row = refl

deleted_low :
    AllUpTo 17 deleted_table.rows
    × (17 < deleted_table.next_sequence)
    × (deleted_table.next_sequence < 2 ^ 63)
unfolding store_delete update_table update_rows is_row_of cache_value cache cache_in
deleted_low = ((omega arith, tt), omega arith, omega arith)

both_saved : store_save sample_codec good_session 9 sample deleted_table ≡ (after_both, none)
unfolding store_save validate_signature generate_signature hex_encode hex_digit store_delete
    in_transaction get_existing_configuration is_row_of retry_update update_once
    update_configuration update_table update_rows cache_value cache cache_in
both_saved = refl

save_does_not_revive_example :
    (scan_round unmarshal_sample true 17 after_both.rows).events
    ≡ record { configuration = some sample; created = false; modified = false; deleted = true } ∷ []
save_does_not_revive_example =
    save_does_not_revive sample_codec unmarshal_sample good_session 8 9 17 sample sample (bytes "x")
      one_table after_both (row_numbered 1 1) one_table-HasIds sample_row refl refl deleted_low.0
      deleted_low.1 deleted_low.2 both_saved

abbrev sample_steps : List StoreStep
sample_steps =
    saves good_session 9 sample
    ∷ deletes true lock_taken 10 (bytes "g") (bytes "k") [] []
    ∷ saves good_session 11 sample
    ∷ []

store_run-IsSound_example : IsSound (store_run sample_codec sample_steps new_table)
store_run-IsSound_example = store_run-IsSound sample_codec sample_steps
