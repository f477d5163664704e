-- ===== src/ConfigStore/Scanning.antt =====
-- A save is scanned: the writer of configure/cfgimpl/datawriter.go with scanLoop of
-- configure/cfgimpl/datapump.go.
use nekoq_component.Base.{
  All, List, Option, [], ap, arith, none, refl, some, true, ℕ, ◌++◌, ◌-◌, ◌<◌, ◌^◌, ◌∙◌, ◌∷◌, ◌≡◌,
  ◌≤◌,
}
use nekoq_component.Base.Str.{Str}
use nekoq_component.ConfigApi.{Configuration, cache_value}
use nekoq_component.ConfigStore.{Row, Session, StoreCodec, Table, store_save}
use nekoq_component.ConfigStore.Pump.{
  ScanRound, between, event_of, insert_row, last_seq, order_by_sequence, query_configurations,
  scan_round, scan_rows,
}
use nekoq_component.ConfigStore.Saving.{renumbered}
use nekoq_component.ConfigStore.Written.{HasIds, overwritten, row_to_write}
use nekoq_component.ConfigStore.Saved.{store_save-IsWritten}

abbrev pub AllUpTo : ℕ → List Row → Type 0
AllUpTo start rs = All (λ s. s.row_sequence ≤ start) rs

insert_low :
    (start max : ℕ) (r : Row) (rs : List Row)
    → r.row_sequence ≤ start
    → between start max (insert_row r rs) ≡ between start max rs
unfolding between insert_row
insert_low start max r [] h = ground arith
insert_low start max r (s ∷ rs) h = ground (arith, insert_low start max r rs h)

insert_high :
    (start max : ℕ) (r : Row) (rs : List Row)
    → start < r.row_sequence
    → r.row_sequence ≤ max
    → between start max rs ≡ []
    → between start max (insert_row r rs) ≡ r ∷ []
unfolding between insert_row
insert_high start max r [] h m e = ground arith
insert_high start max r (s ∷ rs) h m e = ground (arith, insert_high start max r rs h m)

order_low :
    (start max : ℕ) (rs : List Row)
    → AllUpTo start rs
    → between start max (order_by_sequence rs) ≡ []
unfolding between order_by_sequence
order_low start max [] a = refl
order_low start max (r ∷ rs) a =
    insert_low start max r (order_by_sequence rs) a.0 ∙ order_low start max rs a.1

-- The one row that is later than the scan.
order_one :
    (start max : ℕ) (before : List Row) (r : Row) (behind : List Row)
    → AllUpTo start before
    → AllUpTo start behind
    → start < r.row_sequence
    → r.row_sequence ≤ max
    → between start max (order_by_sequence (before ++ r ∷ behind)) ≡ r ∷ []
unfolding order_by_sequence
order_one start max [] r behind a b h m =
    insert_high start max r (order_by_sequence behind) h m (order_low start max behind b)
order_one start max (s ∷ before) r behind a b h m =
    insert_low start max s (order_by_sequence (before ++ r ∷ behind)) a.0
    ∙ order_one start max before r behind a.1 b h m

-- The round of the scan that finds one row.
abbrev pub one_event : ℕ → ℕ → Configuration → ScanRound
one_event seq status cfg = record {
  events = event_of (record { seq = seq; status = status; scanned = cfg }) ∷ [];
  update_scan_id = seq;
  has_more = true;
}

scan_one :
    (unmarshal : Str → Option Configuration) (start : ℕ) (rs : List Row) (r : Row)
    (cfg : Configuration)
    → between start (2 ^ 63 - 1) (order_by_sequence rs) ≡ r ∷ []
    → unmarshal r.raw_cfg_value ≡ some cfg
    → scan_round unmarshal true start rs ≡ one_event r.row_sequence r.cfg_status cfg
unfolding scan_round query_configurations scan_rows last_seq
scan_one unmarshal start rs r cfg e u = rw (scan_round, e, u) refl

-- A scan that has seen all rows before a save that succeeds finds one event, for the saved row.
pub saved_is_scanned :
    (codec : StoreCodec) (unmarshal : Str → Option Configuration) (w : Session) (now start : ℕ)
    (cfg decoded : Configuration) (encoded : Str) (t later : Table)
    → HasIds t
    → codec.marshal cfg ≡ some encoded
    → unmarshal encoded ≡ some decoded
    → AllUpTo start t.rows
    → start < t.next_sequence
    → t.next_sequence < 2 ^ 63
    → store_save codec w now cfg t ≡ (later, none)
    → scan_round unmarshal true start later.rows
      ≡ one_event t.next_sequence
          (row_to_write
            (cache_value cfg.selectors)
            (cache_value cfg.optional_selectors)
            cfg
            encoded
            now
            t).cfg_status
          decoded
saved_is_scanned codec unmarshal w now start cfg decoded encoded t later h m u low next fits d =
    let (before, behind, whole, moved, kept) =
      store_save-IsWritten codec w now cfg encoded t later h m d in
    let (a, b) = kept start low in
    let r = renumbered t.next_sequence (
      overwritten cfg encoded now (
        row_to_write (cache_value cfg.selectors) (cache_value cfg.optional_selectors) cfg encoded
          now t)) in
    scan_one unmarshal start later.rows r decoded
      (ap (λ rs. between start (2 ^ 63 - 1) (order_by_sequence rs)) whole
        ∙ order_one start (2 ^ 63 - 1) before r behind a b next (omega (arith, fits)))
      u
