-- ===== src/ConfigStore/Written.antt =====
-- The row that a save writes, and its update in the loop of trials: configure/cfgimpl/datawriter.go.
use nekoq_component.Base.{
  ==_iff, All, List, [], ap, arith, ltb, none, refl, some, sym, true, ℕ, ◌++◌, ◌+◌, ◌<◌, ◌==◌, ◌∙◌,
  ◌∷◌, ◌≡◌, ◌≤◌,
}
use nekoq_component.Base.Str.{Str}
use nekoq_component.Base.Map.{beq_refl, nat_eq, str_key}
use nekoq_component.Base.Result.{ok}
use nekoq_component.ConfigApi.{Configuration}
use nekoq_component.ConfigStore.{
  Attempt, Row, Table, lock_taken, retry_update, update_configuration, update_table,
}
use nekoq_component.ConfigStore.Saving.{
  AreIdsApart, IsOtherId, renumbered, retry_update-done, row_of, update_rows_one,
}

abbrev pub overwritten : Configuration → Str → ℕ → Row → Row
overwritten cfg encoded now r = record r {
  cfg_version = cfg.version;
  raw_cfg_value = encoded;
  time_updated = now;
}

-- The table with one row overwritten and given the next sequence number.
abbrev pub with_row : Table → List Row → Row → List Row → Table
with_row t before r behind = record t {
  rows = before ++ renumbered t.next_sequence r ∷ behind;
  next_sequence = t.next_sequence + 16;
}

pub update_configuration_one :
    (cfg : Configuration) (encoded : Str) (now : ℕ) (r : Row) (before behind : List Row) (t : Table)
    → t.rows ≡ before ++ r ∷ behind
    → All (IsOtherId r.cfg_id) before
    → All (IsOtherId r.cfg_id) behind
    → update_configuration lock_taken cfg encoded now r.cfg_id t
      ≡ (with_row t before (overwritten cfg encoded now r) behind, ok true)
unfolding update_configuration update_table
update_configuration_one cfg encoded now r before behind t e a b =
    rw
      (
        e,
        update_rows_one (λ s. s.cfg_id == r.cfg_id) (overwritten cfg encoded now) before r behind
            t.next_sequence a (beq_refl r.cfg_id) b,
      )
      refl

pub retry_update_one :
    (n : ℕ) (attempts : ℕ → Attempt) (cfg : Configuration) (encoded : Str) (now : ℕ) (r : Row)
    (before behind : List Row) (t later : Table)
    → ltb 0 r.cfg_id ≡ true
    → t.rows ≡ before ++ r ∷ behind
    → All (IsOtherId r.cfg_id) before
    → All (IsOtherId r.cfg_id) behind
    → retry_update n 0 attempts cfg encoded now r.cfg_id t ≡ (later, none)
    → later ≡ with_row t before (overwritten cfg encoded now r) behind
retry_update_one n attempts cfg encoded now r before behind t later p e a b d =
    let u = update_configuration_one cfg encoded now r before behind t e a b in
    sym (retry_update-done n 0 attempts cfg encoded now r.cfg_id t later p (ap (λ z. z.1) u) d)
    ∙ ap (λ z. z.0) u

-- The ids of the rows are positive, below the next one, and apart.
abbrev pub HasIds : Table → Type 0
HasIds t =
    All (λ r. (0 < r.cfg_id) × (r.cfg_id < t.next_cfg_id)) t.rows
    × AreIdsApart t.rows
    × (0 < t.next_cfg_id)

pub below_next :
    (n : ℕ) (rs : List Row) → All (λ r. (0 < r.cfg_id) × (r.cfg_id < n)) rs → All (IsOtherId n) rs
below_next n [] a = tt
below_next n (r ∷ rs) a = (ground (arith, ==_iff r.cfg_id n, a.0), below_next n rs a.1)

abbrev pub fresh_row : Str → Str → Configuration → Str → ℕ → Table → Row
fresh_row sel opt cfg encoded now t = record {
  cfg_id = t.next_cfg_id;
  row_selectors = sel;
  row_optional_selectors = opt;
  cfg_group = cfg.group;
  cfg_key_column = cfg.key;
  cfg_version = cfg.version;
  cfg_status = 0;
  raw_cfg_value = encoded;
  time_created = now;
  time_updated = now;
  row_sequence = 0;
}

-- The row that is there for the key, or else the one that is inserted.
abbrev pub row_to_write : Str → Str → Configuration → Str → ℕ → Table → Row
row_to_write sel opt cfg encoded now t = elim (row_of sel opt cfg.group cfg.key t.rows) [
  | some r ↦ r
  | none ↦ fresh_row sel opt cfg encoded now t
]

-- The rows of a table after a save: those of before, around the row that was written.
abbrev pub IsWritten : Str → Str → Configuration → Str → ℕ → Table → Table → Type 0
IsWritten sel opt cfg encoded now t later =
    (before : List Row) × (behind : List Row) × (later.rows
      ≡ before
        ++ renumbered t.next_sequence
            (overwritten cfg encoded now (row_to_write sel opt cfg encoded now t))
          ∷ behind)
    × (later.next_sequence ≡ t.next_sequence + 16)
    × ((start : ℕ)
        → All (λ s. s.row_sequence ≤ start) t.rows
        → All (λ s. s.row_sequence ≤ start) before × All (λ s. s.row_sequence ≤ start) behind)
