-- ===== src/ConfigStore/Pump.antt =====
-- The pump that reads the configurations' table: configure/cfgimpl/datapump.go. What a query answers
-- besides rows is a list of Booleans: whether each of its trials works. It is the fuel of the loops
-- that retry without end.
use nekoq_component.Base.{
  Bool, List, Option, [], false, if◌then◌else◌, leb, ltb, map, none, some, take, true, ℕ, ◌&&◌,
  ◌++◌, ◌-◌, ◌==◌, ◌^◌, ◌∷◌,
}
use nekoq_component.Base.Str.{Str}
use nekoq_component.ConfigApi.{Configuration, Event}
use nekoq_component.ConfigStore.{Row}

abbrev pub max_row_per_query : ℕ
max_row_per_query = 100

unfoldable pub insert_row : Row → List Row → List Row
insert_row r [] = r ∷ []
insert_row r (s ∷ rs) =
    if leb r.row_sequence s.row_sequence then r ∷ s ∷ rs else s ∷ insert_row r rs

-- order by sequence asc
unfoldable pub order_by_sequence : List Row → List Row
order_by_sequence [] = []
order_by_sequence (r ∷ rs) = insert_row r (order_by_sequence rs)

-- where sequence > start and sequence <= max
unfoldable pub between : ℕ → ℕ → List Row → List Row
between start max [] = []
between start max (r ∷ rs) =
    if ltb start r.row_sequence && leb r.row_sequence max
    then r ∷ between start max rs
    else between start max rs

unfoldable pub query_max_sequence : List Row → ℕ
query_max_sequence [] = 0
query_max_sequence (r ∷ rs) =
    let rest = query_max_sequence rs in if ltb rest r.row_sequence then r.row_sequence else rest

-- The sequence number, the status and the configuration of a row.
pub record Scanned : Type 0 where
  pub seq : ℕ
  pub status : ℕ
  pub scanned : Configuration

-- The loop over the rows of a query, where cbor.Unmarshal may fail.
unfoldable pub scan_rows : (Str → Option Configuration) → List Row → Option (List Scanned)
scan_rows unmarshal [] = some []
scan_rows unmarshal (r ∷ rs) = elim (unmarshal r.raw_cfg_value) [
  | none ↦ none
  | some cfg ↦ elim (scan_rows unmarshal rs) [
    | none ↦ none
    | some rest ↦
        some (record { seq = r.row_sequence; status = r.cfg_status; scanned = cfg } ∷ rest)
  ]
]

unfoldable pub query_configurations :
    (Str → Option Configuration) → ℕ → ℕ → List Row → Option (List Scanned)
query_configurations unmarshal start max rs =
    scan_rows unmarshal (take max_row_per_query (between start max (order_by_sequence rs)))

unfoldable pub event_of : Scanned → Event
event_of v = record {
  configuration = some v.scanned;
  created = v.status == 0;
  modified = false;
  deleted = v.status == 1;
}

-- list[len(list)-1].Seq of a list with a first element
unfoldable pub last_seq : Scanned → List Scanned → ℕ
last_seq v [] = v.seq
last_seq v (x ∷ xs) = last_seq x xs

-- The loop of the dump over the pages; none if the trials end before it does.
unfoldable pub dump_pages :
    (Str → Option Configuration) → List Bool → ℕ → ℕ → List Row → Option (List Event)
dump_pages unmarshal [] start max rs = none
dump_pages unmarshal (false ∷ trials) start max rs = dump_pages unmarshal trials start max rs
dump_pages unmarshal (true ∷ trials) start max rs =
    elim (query_configurations unmarshal start max rs) [
      | none ↦ dump_pages unmarshal trials start max rs
      | some [] ↦ some []
      | some (v ∷ vs) ↦ elim (dump_pages unmarshal trials (last_seq v vs) max rs) [
        | none ↦ none
        | some events ↦ some (map event_of (v ∷ vs) ++ events)
      ]
    ]

-- The dump with the sequence number from which the scan goes on.
unfoldable pub dump : (Str → Option Configuration) → List Bool → List Row → Option (List Event × ℕ)
dump unmarshal [] rs = none
dump unmarshal (false ∷ trials) rs = dump unmarshal trials rs
dump unmarshal (true ∷ trials) rs =
    let last = query_max_sequence rs in
    elim (dump_pages unmarshal trials 0 last rs) [ none ↦ none | some events ↦ some (events, last) ]

-- One round of scanLoop: its events, the next updateScanId, and whether it goes on at once.
pub record ScanRound : Type 0 where
  pub events : List Event
  pub update_scan_id : ℕ
  pub has_more : Bool

unfoldable pub scan_round : (Str → Option Configuration) → Bool → ℕ → List Row → ScanRound
scan_round unmarshal false id rs = record { events = []; update_scan_id = id; has_more = true }
scan_round unmarshal true id rs = elim (query_configurations unmarshal id (2 ^ 63 - 1) rs) [
  | none ↦ record { events = []; update_scan_id = id; has_more = true }
  | some [] ↦ record { events = []; update_scan_id = id; has_more = false }
  | some (v ∷ vs) ↦ record {
    events = map event_of (v ∷ vs);
    update_scan_id = last_seq v vs;
    has_more = true;
  }
]
