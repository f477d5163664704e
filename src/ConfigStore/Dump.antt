-- ===== src/ConfigStore/Dump.antt =====
-- The dump sends every row once: TriggerDumpToChannel of configure/cfgimpl/datapump.go.
use nekoq_component.Base.{
  All, Bool, Bool-cases, List, Option, [], false, if◌then◌else◌, inl, inr, leb, ltb, map, refl,
  some, suc, true, ℕ, ◌∷◌, ◌≡◌,
}
use mathlib.Core.List.{Permᴰ}
use mathlib.Core.List.Permᴰ
use nekoq_component.Base.Str.{Str}
use nekoq_component.ConfigApi.{Configuration, Event}
use nekoq_component.ConfigStore.{Row}
use nekoq_component.ConfigStore.Pump.{
  Scanned, between, event_of, insert_row, order_by_sequence, scan_rows,
}
use nekoq_component.ConfigStore.Ordering.{IsAscending}

abbrev pub trials_that_work : List Bool → ℕ
trials_that_work [] = 0
trials_that_work (true ∷ ts) = suc (trials_that_work ts)
trials_that_work (false ∷ ts) = trials_that_work ts

module _ (unmarshal : Str → Option Configuration) (config : Row → Configuration) where
  -- The row's value is the encoding of its configuration.
  abbrev pub Decodes : Row → Type 0
  Decodes r = unmarshal r.raw_cfg_value ≡ some (config r)

  abbrev pub scanned_row : Row → Scanned
  scanned_row r = record { seq = r.row_sequence; status = r.cfg_status; scanned = config r }

  pub scan_rows_decoded :
      (rs : List Row) → All Decodes rs → scan_rows unmarshal rs ≡ some (map scanned_row rs)
  unfolding scan_rows
  scan_rows_decoded [] a = refl
  scan_rows_decoded (r ∷ rs) a = rw (scan_rows, a.0, scan_rows_decoded rs a.1) refl

  abbrev pub row_events : List Row → List Event
  row_events rs = map event_of (map scanned_row rs)

  module _ (rs : List Row) (max : ℕ) (ordered : IsAscending (order_by_sequence rs))
      (decoded : All Decodes (order_by_sequence rs)) where
    abbrev rest_from : ℕ → List Row
    rest_from start = between start max (order_by_sequence rs)

-- The rows that have got a sequence number.
unfoldable pub numbered : List Row → List Row
numbered [] = []
numbered (r ∷ rs) = if ltb 0 r.row_sequence then r ∷ numbered rs else numbered rs

insert_row-Permᴰ : (r : Row) (rs : List Row) → Permᴰ (insert_row r rs) (r ∷ rs)
unfolding insert_row
insert_row-Permᴰ r [] = Permᴰ.refl (r ∷ [])
insert_row-Permᴰ r (s ∷ rs) = elim (Bool-cases (leb r.row_sequence s.row_sequence)) [
  | inl e ↦ rw e (Permᴰ.refl (r ∷ s ∷ rs))
  | inr e ↦ rw e (Permᴰ.trans (Permᴰ.cons refl (insert_row-Permᴰ r rs)) (Permᴰ.swap refl refl))
]

-- The order has the same rows.
pub order_by_sequence-Permᴰ : (rs : List Row) → Permᴰ (order_by_sequence rs) rs
unfolding order_by_sequence
order_by_sequence-Permᴰ [] = Permᴰ.nil
order_by_sequence-Permᴰ (r ∷ rs) =
    Permᴰ.trans (insert_row-Permᴰ r (order_by_sequence rs))
      (Permᴰ.cons refl (order_by_sequence-Permᴰ rs))
