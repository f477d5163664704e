-- ===== src/ConfigStore.antt =====
-- The configurations' table and the writer of it: configure/cfgimpl/datawriter.go. Each SQL statement
-- of the source is a function on the table; the codec, SHA-256, the clock and what
-- the database answers besides the table's rows are parameters.
pub mod Pump
pub mod Ordering
pub mod Dump
pub mod Saving
pub mod Written
pub mod Saved
pub mod Scanning
pub mod Deleting
pub mod Invariant
pub mod History
mod Tests
use nekoq_component.Base.{
  Bool, List, Option, [], arith, false, if◌then◌else◌, ltb, none, not, some, suc, zero, ℕ, ◌&&◌,
  ◌++◌, ◌+◌, ◌==◌, ◌||◌, ◌∷◌,
}
use nekoq_component.Base.Str.{Str, str_eq}
use nekoq_component.Base.Map.{nat_eq, str_key}
use nekoq_component.Base.Result.{Result, err, ok, ◌>>=◌}
use nekoq_component.ConfigApi.Signature.{validate_signature}
use nekoq_component.ConfigApi.{Configuration, cache_value}
use nekoq_component.ConfigHttp.{DataWriter, WriteError, write_failed}

pub record Row : Type 0 where
  pub cfg_id : ℕ
  pub row_selectors : Str
  pub row_optional_selectors : Str
  pub cfg_group : Str
  pub cfg_key_column : Str
  pub cfg_version : Str
  -- 0 for a valid row, 1 for a deleted one
  pub cfg_status : ℕ
  pub raw_cfg_value : Str
  pub time_created : ℕ
  pub time_updated : ℕ
  pub row_sequence : ℕ

-- The table with its serial and the sequence cfg_seq, which grows by 16.
pub record Table : Type 0 where
  pub rows : List Row
  pub next_cfg_id : ℕ
  pub next_sequence : ℕ

unfoldable pub is_row_of : Str → Str → Str → Str → Row → Bool
is_row_of sel opt group key r =
    str_eq r.row_selectors sel
    && str_eq r.row_optional_selectors opt
    && str_eq r.cfg_group group
    && str_eq r.cfg_key_column key

-- getExistingConfiguration: the id of a row with this key, or 0.
unfoldable pub get_existing_configuration : Str → Str → Str → Str → List Row → ℕ
get_existing_configuration sel opt group key [] = 0
get_existing_configuration sel opt group key (r ∷ rs) =
    if is_row_of sel opt group key r
    then r.cfg_id
    else get_existing_configuration sel opt group key rs

pub data StoreError : Type 0 where
  invalid_signature : StoreError
  marshal_error : StoreError
  database_error : StoreError
  -- a unique index refuses the row
  unique_violation : StoreError
  too_many_retries : StoreError

-- A row that has the key or the sequence number of the one to insert.
unfoldable pub conflicts : Str → Str → Str → Str → List Row → Bool
conflicts sel opt group key [] = false
conflicts sel opt group key (r ∷ rs) =
    (is_row_of sel opt group key r || (r.row_sequence == 0)) || conflicts sel opt group key rs

unfoldable pub insert_configuration :
    Str → Str → Configuration → Str → ℕ → Table → Table × Result StoreError ℕ
insert_configuration sel opt cfg encoded now t =
    let taken = record t { next_cfg_id = suc t.next_cfg_id } in
    if conflicts sel opt cfg.group cfg.key t.rows then (taken, err unique_violation) else (
      record taken {
        rows =
            t.rows
            ++ record {
              cfg_id = t.next_cfg_id;
              row_selectors = sel;
              row_optional_selectors = opt;
              cfg_group = cfg.group;
              cfg_key_column = cfg.key;
              cfg_version = cfg.version;
              cfg_status = 0;
              raw_cfg_value = encoded;
              time_created = now;
              time_updated = now;
              row_sequence = 0;
            }
              ∷ [];
      },
      ok t.next_cfg_id,
    )

-- A statement that updates rows: an error, or whether pg_try_advisory_xact_lock gets the lock.
pub data Attempt : Type 0 where
  attempt_failed : Attempt
  lock_missed : Attempt
  lock_taken : Attempt

-- The rows after an update that gives each row it affects the next sequence number, that number
-- after it, and how many rows it affects.
unfoldable pub update_rows : (Row → Bool) → (Row → Row) → List Row → ℕ → List Row × ℕ × ℕ
update_rows where_ set [] seq = ([], seq, 0)
update_rows where_ set (r ∷ rs) seq =
    if where_ r
    then (let rest = update_rows where_ set rs (seq + 16) in
        (record (set r) { row_sequence = seq } ∷ rest.0, rest.1, suc rest.2))
    else (let rest = update_rows where_ set rs seq in (r ∷ rest.0, rest.1, rest.2))

-- Whether the update affects a row.
unfoldable pub update_table :
    Attempt → (Row → Bool) → (Row → Row) → Table → Table × Result StoreError Bool
update_table attempt_failed where_ set t = (t, err database_error)
update_table lock_missed where_ set t = (t, ok false)
update_table lock_taken where_ set t =
    let u = update_rows where_ set t.rows t.next_sequence in
    (record t { rows = u.0; next_sequence = u.1 }, ok (not (u.2 == 0)))

unfoldable pub update_configuration_sequence :
    Attempt → ℕ → ℕ → Table → Table × Result StoreError Bool
update_configuration_sequence attempt now id t =
    update_table attempt (λ r. r.cfg_id == id) (λ r. record r { time_updated = now }) t

unfoldable pub update_configuration :
    Attempt → Configuration → Str → ℕ → ℕ → Table → Table × Result StoreError Bool
update_configuration attempt cfg encoded now id t =
    update_table attempt (λ r. r.cfg_id == id)
      (λ r. record r { cfg_version = cfg.version; raw_cfg_value = encoded; time_updated = now }) t

-- One trial of the loop, for an id that the table has or for none.
unfoldable pub update_once :
    Attempt → Configuration → Str → ℕ → ℕ → Table → Table × Result StoreError Bool
update_once attempt cfg encoded now id t =
    if ltb 0 id
    then update_configuration attempt cfg encoded now id t
    else update_configuration_sequence attempt now id t

abbrev pub n_retry : ℕ
n_retry = 10

-- The loop of retries, from the attempt numbered `i`.
unfoldable pub retry_update :
    ℕ → ℕ → (ℕ → Attempt) → Configuration → Str → ℕ → ℕ → Table → Table × Option StoreError
retry_update zero i attempts cfg encoded now id t = (t, some too_many_retries)
retry_update (suc n) i attempts cfg encoded now id t =
    let u = update_once (attempts i) cfg encoded now id t in
    let again = retry_update n (suc i) attempts cfg encoded now id u.0 in
    elim u.1 [ err e ↦ (u.0, some e) | ok updated ↦ if updated then (u.0, none) else again ]

-- What the database answers to one save.
pub record Session : Type 0 where
  pub acquires : Bool
  pub begins : Bool
  pub selects : Bool
  pub inserts : Bool
  pub attempts : ℕ → Attempt
  pub commits : Bool

-- The function that runs in the transaction.
unfoldable pub in_transaction :
    Session → Str → Str → Configuration → Str → ℕ → Table → Table × Option StoreError
in_transaction w sel opt cfg encoded now t =
    let id = get_existing_configuration sel opt cfg.group cfg.key t.rows in
    let p = insert_configuration sel opt cfg encoded now t in
    if not w.selects
    then (t, some database_error)
    else (if ltb 0 id
        then retry_update n_retry 0 w.attempts cfg encoded now id t
        else (if not w.inserts then (t, some database_error) else elim p.1 [
          | err e ↦ (p.0, some e)
          | ok new_id ↦ retry_update n_retry 0 w.attempts cfg encoded now new_id p.0
        ]))

-- A transaction that is not committed leaves the rows; the serial and the sequence have gone on.
unfoldable pub roll_back : Table → Table → Table
roll_back before t = record t { rows = before.rows }

-- sha256.Sum256 and cbor.Marshal
pub record StoreCodec : Type 0 where
  pub sha256 : List ℕ → List ℕ
  pub marshal : Configuration → Option Str

unfoldable pub store_save :
    StoreCodec → Session → ℕ → Configuration → Table → Table × Option StoreError
store_save codec w now cfg t =
    if not (validate_signature codec.sha256 cfg)
    then (t, some invalid_signature)
    else elim (codec.marshal cfg) [
      | none ↦ (t, some marshal_error)
      | some encoded ↦
          let f =
            in_transaction w (cache_value cfg.selectors) (cache_value cfg.optional_selectors) cfg
              encoded now t in
          if not w.acquires || not w.begins then (t, some database_error) else elim f.1 [
            | some e ↦ (roll_back t f.0, some e)
            | none ↦ if w.commits then (f.0, none) else (roll_back t f.0, some database_error)
          ]
    ]

unfoldable pub store_delete :
    Bool → Attempt → ℕ → Str → Str → Str → Str → Table → Table × Result StoreError Bool
store_delete acquires attempt now group key sel opt t =
    if not acquires
    then (t, err database_error)
    else update_table attempt (is_row_of sel opt group key)
        (λ r. record r { cfg_status = 1; time_updated = now }) t

abbrev to_write_error : Option StoreError → Option WriteError
to_write_error none = none
to_write_error (some e) = some write_failed

abbrev to_write_result : Result StoreError Bool → Result WriteError Bool
to_write_result (ok removed) = ok removed
to_write_result (err e) = err write_failed

-- DatabaseDataWriter as the write API's data writer; `opens` is whether a pool is made, and a delete
-- acquires its connection and tries the lock as the session's first attempt does.
unfoldable pub database_writer : StoreCodec → Bool → Session → ℕ → DataWriter Table
database_writer codec opens w now = record {
  writer_startup = λ t. (t, if opens then none else some write_failed);
  writer_stop = λ t. (t, none);
  save = λ cfg t. let done = store_save codec w now cfg t in (done.0, to_write_error done.1);
  remove = λ group key sel opt t.
      let done = store_delete w.acquires (w.attempts 0) now group key sel opt t in
      (done.0, to_write_result done.1);
}
