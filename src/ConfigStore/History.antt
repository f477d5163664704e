-- ===== src/ConfigStore/History.antt =====
-- Every history of saves and deletes: configure/cfgimpl/datawriter.go.
use nekoq_component.Base.{
  All, Bool, Bool-cases, List, Option, Option-cases, [], arith, false, if◌then◌else◌, inl, inr, ltb,
  none, not, refl, some, subst, sym, true, ℕ, ◌<◌, ◌||◌, ◌∷◌, ◌≡◌, ◌≤◌,
}
use nekoq_component.Base.Str.{Str}
use nekoq_component.Base.Result.{Result, err, ok}
use nekoq_component.ConfigApi.Signature.{validate_signature}
use nekoq_component.ConfigApi.{Configuration, cache_value}
use nekoq_component.ConfigStore.{
  Attempt, Row, Session, StoreCodec, StoreError, Table, database_error, get_existing_configuration,
  in_transaction, insert_configuration, invalid_signature, is_row_of, marshal_error, n_retry,
  retry_update, roll_back, store_delete, store_save,
}
use nekoq_component.ConfigStore.Saved.{after_insert, tried_existing, tried_insert}
use nekoq_component.ConfigStore.Deleting.{mark_deleted}
use nekoq_component.ConfigStore.Invariant.{
  AllBelow-later, Follows, Follows-later, IsSound, insert_configuration-Follows,
  retry_update-Follows, update_table-Follows,
}

module _ (w : Session) (sel opt : Str) (cfg : Configuration) (encoded : Str) (now : ℕ)
    (t : Table) where
  ended_insert :
      (p : Table × Result StoreError ℕ)
      → Follows t p.0
      → Follows t (after_insert w sel opt cfg encoded now t t p).0
  ended_insert (after, err e) f = f
  ended_insert (after, ok id) f =
      Follows-later t after (retry_update n_retry 0 w.attempts cfg encoded now id after).0 f
        (retry_update-Follows n_retry 0 w.attempts cfg encoded now id after f.0)

  in_transaction-Follows : IsSound t → Follows t (in_transaction w sel opt cfg encoded now t).0
  unfolding in_transaction
  in_transaction-Follows h =
      let id = get_existing_configuration sel opt cfg.group cfg.key t.rows in
      let same : Follows t t = (h, omega arith, omega arith) in
      elim (Bool-cases w.selects) [
        | inr s ↦
            let q : in_transaction w sel opt cfg encoded now t ≡ (t, some database_error) =
              rw (in_transaction, s) refl in
            subst (λ z. Follows t z.0) (sym q) same
        | inl s ↦ elim (Bool-cases (ltb 0 id)) [
          | inl p ↦
              subst (λ z. Follows t z.0)
                (sym (tried_existing w sel opt cfg encoded now t t id refl p s))
                (retry_update-Follows n_retry 0 w.attempts cfg encoded now id t h)
          | inr p ↦ elim (Bool-cases w.inserts) [
            | inr i ↦
                let q : in_transaction w sel opt cfg encoded now t ≡ (t, some database_error) =
                  rw (in_transaction, s, p, i) refl in
                subst (λ z. Follows t z.0) (sym q) same
            | inl i ↦
                subst (λ z. Follows t z.0)
                  (sym (tried_insert w sel opt cfg encoded now t t (ground arith) s i))
                  (ended_insert (insert_configuration sel opt cfg encoded now t)
                    (insert_configuration-Follows sel opt cfg encoded now t h))
          ]
        ]
      ]

ids_wider :
    (a b : ℕ) (rs : List Row)
    → a ≤ b
    → All (λ r. (0 < r.cfg_id) × (r.cfg_id < a)) rs
    → All (λ r. (0 < r.cfg_id) × (r.cfg_id < b)) rs
ids_wider a b [] h p = tt
ids_wider a b (r ∷ rs) h p = (omega (arith, h, p.0), ids_wider a b rs h p.1)

roll_back-Follows : (t after : Table) → IsSound t → Follows t after → Follows t (roll_back t after)
unfolding roll_back
roll_back-Follows t after ((ids, others, next), apart, below, positive) (k, x, y) = (
  (
    (ids_wider t.next_cfg_id after.next_cfg_id t.rows x ids, others, omega (arith, next, x)),
    apart,
    AllBelow-later t.next_sequence after.next_sequence t.rows y below,
    omega (arith, positive, y),
  ),
  x,
  y,
)

abbrev ended : Table → Bool → Table × Option StoreError → Table × Option StoreError
ended t commits f = elim f.1 [
  | some e ↦ (roll_back t f.0, some e)
  | none ↦ if commits then (f.0, none) else (roll_back t f.0, some database_error)
]

ended-Follows :
    (t : Table) (commits : Bool) (f : Table × Option StoreError)
    → IsSound t
    → Follows t f.0
    → Follows t (ended t commits f).0
ended-Follows t commits (after, some e) h f = roll_back-Follows t after h f
ended-Follows t true (after, none) h f = f
ended-Follows t false (after, none) h f = roll_back-Follows t after h f

pub store_save-Follows :
    (codec : StoreCodec) (w : Session) (now : ℕ) (cfg : Configuration) (t : Table)
    → IsSound t
    → Follows t (store_save codec w now cfg t).0
unfolding store_save
store_save-Follows codec w now cfg t h =
    let same : Follows t t = (h, omega arith, omega arith) in
    let kept : (e : StoreError)
        → store_save codec w now cfg t ≡ (t, some e)
        → Follows t (store_save codec w now cfg t).0 =
      λ e q. subst (λ z. Follows t z.0) (sym q) same in
    elim (Bool-cases (validate_signature codec.sha256 cfg)) [
      | inr v ↦ kept invalid_signature (rw (store_save, v) refl)
      | inl v ↦ elim (Option-cases (codec.marshal cfg)) [
        | inl m ↦ kept marshal_error (rw (store_save, v, m) refl)
        | inr (encoded, m) ↦ elim (Bool-cases (not w.acquires || not w.begins)) [
          | inl b ↦ kept database_error (rw (store_save, v, m, b) refl)
          | inr b ↦
              let f =
                in_transaction w (cache_value cfg.selectors) (cache_value cfg.optional_selectors)
                  cfg encoded now t in
              let q : store_save codec w now cfg t ≡ ended t w.commits f =
                rw (store_save, v, m, b) refl in
              subst (λ z. Follows t z.0) (sym q)
                (ended-Follows t w.commits f h (
                  in_transaction-Follows w (cache_value cfg.selectors)
                    (cache_value cfg.optional_selectors) cfg encoded now t h))
        ]
      ]
    ]

pub store_delete-Follows :
    (acquires : Bool) (attempt : Attempt) (now : ℕ) (group key sel opt : Str) (t : Table)
    → IsSound t
    → Follows t (store_delete acquires attempt now group key sel opt t).0
unfolding store_delete
store_delete-Follows false attempt now group key sel opt t h = (h, omega arith, omega arith)
store_delete-Follows true attempt now group key sel opt t h =
    update_table-Follows attempt (is_row_of sel opt group key) (mark_deleted now) t (λ r. refl) h

-- A call of the writer, with what the database answers and the time.
pub data StoreStep : Type 0 where
  saves : Session → ℕ → Configuration → StoreStep
  deletes : Bool → Attempt → ℕ → Str → Str → Str → Str → StoreStep

unfoldable pub store_step : StoreCodec → StoreStep → Table → Table
store_step codec (saves w now cfg) t = (store_save codec w now cfg t).0
store_step codec (deletes acquires attempt now group key sel opt) t =
    (store_delete acquires attempt now group key sel opt t).0

unfoldable pub store_run : StoreCodec → List StoreStep → Table → Table
store_run codec [] t = t
store_run codec (step ∷ steps) t = store_run codec steps (store_step codec step t)

-- The table as it is created: ids and sequence numbers start at 1.
abbrev pub new_table : Table
new_table = record { rows = []; next_cfg_id = 1; next_sequence = 1 }

store_run-kept :
    (codec : StoreCodec) (steps : List StoreStep) (t : Table)
    → IsSound t
    → Follows t (store_run codec steps t)
unfolding store_run store_step
store_run-kept codec [] t h = (h, omega arith, omega arith)
store_run-kept codec (saves w now cfg ∷ steps) t h =
    let f = store_save-Follows codec w now cfg t h in
    Follows-later t (store_save codec w now cfg t).0
      (store_run codec steps (store_save codec w now cfg t).0) f
      (store_run-kept codec steps (store_save codec w now cfg t).0 f.0)
store_run-kept codec (deletes acquires attempt now group key sel opt ∷ steps) t h =
    let after = (store_delete acquires attempt now group key sel opt t).0 in
    let f = store_delete-Follows acquires attempt now group key sel opt t h in
    Follows-later t after (store_run codec steps after) f (store_run-kept codec steps after f.0)

-- After any history of saves and deletes on a new table, whatever the database answers, the ids of
-- the rows are positive, apart and below the next id, and their sequence numbers are apart and
-- below the next sequence number.
pub store_run-IsSound :
    (codec : StoreCodec) (steps : List StoreStep) → IsSound (store_run codec steps new_table)
store_run-IsSound codec steps =
    (store_run-kept codec steps new_table ((tt, tt, omega arith), tt, tt, omega arith)).0
