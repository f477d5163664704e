-- ===== src/ConfigStore/Saved.antt =====
-- The row that a save leaves: SaveConfiguration of configure/cfgimpl/datawriter.go.
use nekoq_component.Base.{
  All, Bool-cases, List, Option, Option-cases, [], ap, arith, false, inl, inr, ltb, lt→ltb, none,
  not, refl, some, subst, suc, sym, true, ℕ, ◌++◌, ◌<◌, ◌||◌, ◌∙◌, ◌∷◌, ◌≡◌, ◌≤◌,
}
use nekoq_component.Base.Str.{Str}
use nekoq_component.Base.Map.{nat_eq, str_key}
use nekoq_component.Base.Result.{Result, err, ok}
use nekoq_component.ConfigApi.Signature.{validate_signature}
use nekoq_component.ConfigApi.{Configuration, cache_value}
use nekoq_component.ConfigStore.{
  Row, Session, StoreCodec, StoreError, Table, conflicts, database_error,
  get_existing_configuration, in_transaction, insert_configuration, n_retry, retry_update,
  store_save, unique_violation,
}
use nekoq_component.ConfigStore.Saving.{
  error_remains, existing_none, existing_of, renumbered, row_of, row_of-Around,
}
use nekoq_component.ConfigStore.Written.{
  overwritten, HasIds, fresh_row, row_to_write, IsWritten, retry_update_one, below_next,
}

All-parts {ℓ} :
    (P : Row → Type ℓ) (before : List Row) (r : Row) (behind : List Row)
    → All P (before ++ r ∷ behind)
    → P r × All P before × All P behind
All-parts P [] r behind a = (a.0, tt, a.1)
All-parts P (s ∷ before) r behind a =
    let (x, y, z) = All-parts P before r behind a.1 in (x, (a.0, y), z)

module _ (w : Session) (sel opt : Str) (cfg : Configuration) (encoded : Str) (now : ℕ)
    (t later : Table) where
  pub select_failed :
      w.selects ≡ false → in_transaction w sel opt cfg encoded now t ≡ (later, none) → ⊥
  unfolding in_transaction
  select_failed s d = error_remains database_error t later (sym (rw (in_transaction, s) refl) ∙ d)

  pub tried_existing :
      (id : ℕ)
      → get_existing_configuration sel opt cfg.group cfg.key t.rows ≡ id
      → ltb 0 id ≡ true
      → w.selects ≡ true
      → in_transaction w sel opt cfg encoded now t
        ≡ retry_update n_retry 0 w.attempts cfg encoded now id t
  unfolding in_transaction
  tried_existing id q p s = rw (in_transaction, s, q, p) refl

  pub to_write_existing :
      (r : Row)
      → row_of sel opt cfg.group cfg.key t.rows ≡ some r
      → row_to_write sel opt cfg encoded now t ≡ r
  to_write_existing r e = rw (row_to_write, e) refl

  to_write_new :
      row_of sel opt cfg.group cfg.key t.rows ≡ none
      → row_to_write sel opt cfg encoded now t ≡ fresh_row sel opt cfg encoded now t
  to_write_new e = rw (row_to_write, e) refl

  existing-IsWritten :
      (r : Row)
      → HasIds t
      → row_of sel opt cfg.group cfg.key t.rows ≡ some r
      → in_transaction w sel opt cfg encoded now t ≡ (later, none)
      → IsWritten sel opt cfg encoded now t later
  existing-IsWritten r h e d = elim (Bool-cases w.selects) [
    | inr s ↦ absurd (select_failed s d)
    | inl s ↦
        let (before, behind, whole, a, b) =
          row_of-Around sel opt cfg.group cfg.key t.rows r e h.1 in
        let positive : ltb 0 r.cfg_id ≡ true =
          lt→ltb 0 r.cfg_id
            (All-parts (λ s. (0 < s.cfg_id) × (s.cfg_id < t.next_cfg_id)) before r behind
              (subst (All (λ s. (0 < s.cfg_id) × (s.cfg_id < t.next_cfg_id))) whole h.0)).0.0 in
        let done =
          retry_update_one n_retry w.attempts cfg encoded now r before behind t later positive whole
            a b
            (sym (
                tried_existing r.cfg_id (existing_of sel opt cfg.group cfg.key t.rows r e) positive
                  s)
              ∙ d) in
        (
          before,
          behind,
          ap (λ z. z.rows) done
              ∙ ap
                  (λ x.
                    before ++ renumbered t.next_sequence (overwritten cfg encoded now x) ∷ behind)
                  (sym (to_write_existing r e)),
          ap (λ z. z.next_sequence) done,
          λ start low.
              let (x, y, z) =
                All-parts (λ s. s.row_sequence ≤ start) before r behind
                  (subst (All (λ s. s.row_sequence ≤ start)) whole low) in
              (y, z),
        )
  ]

  abbrev inserted : Table
  inserted = record t {
    rows = t.rows ++ fresh_row sel opt cfg encoded now t ∷ [];
    next_cfg_id = suc t.next_cfg_id;
  }

  insert_failed :
      get_existing_configuration sel opt cfg.group cfg.key t.rows ≡ 0
      → w.selects ≡ true
      → w.inserts ≡ false
      → in_transaction w sel opt cfg encoded now t ≡ (later, none)
      → ⊥
  unfolding in_transaction
  insert_failed q s i d =
      error_remains database_error t later (sym (rw (in_transaction, s, q, i) refl) ∙ d)

  abbrev pub after_insert : Table × Result StoreError ℕ → Table × Option StoreError
  after_insert p = elim p.1 [
    | err e ↦ (p.0, some e)
    | ok new_id ↦ retry_update n_retry 0 w.attempts cfg encoded now new_id p.0
  ]

  pub tried_insert :
      get_existing_configuration sel opt cfg.group cfg.key t.rows ≡ 0
      → w.selects ≡ true
      → w.inserts ≡ true
      → in_transaction w sel opt cfg encoded now t
        ≡ after_insert (insert_configuration sel opt cfg encoded now t)
  unfolding in_transaction
  tried_insert q s i = rw (in_transaction, s, q, i) refl

  insert_configuration_refused :
      conflicts sel opt cfg.group cfg.key t.rows ≡ true
      → insert_configuration sel opt cfg encoded now t
        ≡ (record t { next_cfg_id = suc t.next_cfg_id }, err unique_violation)
  unfolding insert_configuration
  insert_configuration_refused c = rw (insert_configuration, c) refl

  insert_configuration_new :
      conflicts sel opt cfg.group cfg.key t.rows ≡ false
      → insert_configuration sel opt cfg encoded now t ≡ (inserted, ok t.next_cfg_id)
  unfolding insert_configuration
  insert_configuration_new c = rw (insert_configuration, c) refl

  insert_refused :
      get_existing_configuration sel opt cfg.group cfg.key t.rows ≡ 0
      → w.selects ≡ true
      → w.inserts ≡ true
      → conflicts sel opt cfg.group cfg.key t.rows ≡ true
      → in_transaction w sel opt cfg encoded now t ≡ (later, none)
      → ⊥
  insert_refused q s i c d =
      error_remains unique_violation (record t { next_cfg_id = suc t.next_cfg_id }) later
        (sym (tried_insert q s i ∙ ap after_insert (insert_configuration_refused c)) ∙ d)

  tried_new :
      get_existing_configuration sel opt cfg.group cfg.key t.rows ≡ 0
      → w.selects ≡ true
      → w.inserts ≡ true
      → conflicts sel opt cfg.group cfg.key t.rows ≡ false
      → in_transaction w sel opt cfg encoded now t
        ≡ retry_update n_retry 0 w.attempts cfg encoded now t.next_cfg_id inserted
  tried_new q s i c = tried_insert q s i ∙ ap after_insert (insert_configuration_new c)

  new-IsWritten :
      HasIds t
      → row_of sel opt cfg.group cfg.key t.rows ≡ none
      → in_transaction w sel opt cfg encoded now t ≡ (later, none)
      → IsWritten sel opt cfg encoded now t later
  new-IsWritten h e d =
      let q = existing_none sel opt cfg.group cfg.key t.rows e in
      elim (Bool-cases w.selects) [
        | inr s ↦ absurd (select_failed s d)
        | inl s ↦ elim (Bool-cases w.inserts) [
          | inr i ↦ absurd (insert_failed q s i d)
          | inl i ↦ elim (Bool-cases (conflicts sel opt cfg.group cfg.key t.rows)) [
            | inl c ↦ absurd (insert_refused q s i c d)
            | inr c ↦
                let fresh = fresh_row sel opt cfg encoded now t in
                let done =
                  retry_update_one n_retry w.attempts cfg encoded now fresh t.rows [] inserted later
                    (lt→ltb 0 t.next_cfg_id h.2) refl (below_next t.next_cfg_id t.rows h.0) tt
                    (sym (tried_new q s i c) ∙ d) in
                (
                  t.rows,
                  [],
                  ap (λ z. z.rows) done
                      ∙ ap
                          (λ x.
                            t.rows
                            ++ renumbered t.next_sequence (overwritten cfg encoded now x) ∷ [])
                          (sym (to_write_new e)),
                  ap (λ z. z.next_sequence) done,
                  λ start low. (low, tt),
                )
          ]
        ]
      ]

  in_transaction-IsWritten :
      HasIds t
      → in_transaction w sel opt cfg encoded now t ≡ (later, none)
      → IsWritten sel opt cfg encoded now t later
  in_transaction-IsWritten h d = elim (Option-cases (row_of sel opt cfg.group cfg.key t.rows)) [
    | inl e ↦ new-IsWritten h e d
    | inr (r, e) ↦ existing-IsWritten r h e d
  ]

store_save-done :
    (codec : StoreCodec) (w : Session) (now : ℕ) (cfg : Configuration) (encoded : Str)
    (t later : Table)
    → codec.marshal cfg ≡ some encoded
    → store_save codec w now cfg t ≡ (later, none)
    → in_transaction w
        (cache_value cfg.selectors)
        (cache_value cfg.optional_selectors)
        cfg
        encoded
        now
        t
      ≡ (later, none)
unfolding store_save
store_save-done codec w now cfg encoded t later m d =
    elim (Bool-cases (validate_signature codec.sha256 cfg)) [
      | inr v ↦ absurd (grind arith)
      | inl v ↦ elim (Bool-cases (not w.acquires || not w.begins)) [
        | inl b ↦ absurd (grind arith)
        | inr b ↦
            elim (Option-cases
              (in_transaction w (cache_value cfg.selectors) (cache_value cfg.optional_selectors) cfg
                encoded now t).1) [
                  | inr (x, f) ↦ absurd (grind arith)
                  | inl f ↦ elim (Bool-cases w.commits) [
                    | inr c ↦ absurd (grind arith)
                    | inl c ↦ grind arith
                  ]
                ]
      ]
    ]

-- A save that succeeds writes one row: the row that is there for the key, or else a new one, gets
-- the configuration's version and encoding and the next sequence number; all other rows are kept.
pub store_save-IsWritten :
    (codec : StoreCodec) (w : Session) (now : ℕ) (cfg : Configuration) (encoded : Str)
    (t later : Table)
    → HasIds t
    → codec.marshal cfg ≡ some encoded
    → store_save codec w now cfg t ≡ (later, none)
    → IsWritten
        (cache_value cfg.selectors)
        (cache_value cfg.optional_selectors)
        cfg
        encoded
        now
        t
        later
store_save-IsWritten codec w now cfg encoded t later h m d =
    in_transaction-IsWritten w (cache_value cfg.selectors) (cache_value cfg.optional_selectors) cfg
      encoded now t later h (store_save-done codec w now cfg encoded t later m d)
