-- ===== src/ConfigStore/Deleting.antt =====
-- A deleted row stays deleted: DeleteConfiguration and SaveConfiguration of
-- configure/cfgimpl/datawriter.go, as scanLoop of configure/cfgimpl/datapump.go sees them.
use nekoq_component.Base.{
  All, Bool, Bool-cases, List, Option, [], ap, arith, false, inl, inr, none, refl, some, sym, true,
  ℕ, ◌+◌, ◌<◌, ◌^◌, ◌∙◌, ◌∷◌, ◌≡◌, ◌≤◌,
}
use nekoq_component.Base.Str.{Str}
use nekoq_component.ConfigApi.{Configuration, cache_value}
use nekoq_component.ConfigStore.{
  Attempt, Row, Session, StoreCodec, Table, attempt_failed, is_row_of, lock_missed, lock_taken,
  store_delete, store_save, update_rows, update_table,
}
use nekoq_component.ConfigStore.Pump.{event_of, scan_round}
use nekoq_component.ConfigStore.Saving.{AreIdsApart, IsOtherId, renumbered, row_of}
use nekoq_component.ConfigStore.Written.{HasIds}
use nekoq_component.ConfigStore.Saved.{to_write_existing}
use nekoq_component.ConfigStore.Scanning.{AllUpTo, saved_is_scanned}

abbrev pub mark_deleted : ℕ → Row → Row
mark_deleted now r = record r { cfg_status = 1; time_updated = now }

module _ (where_ : Row → Bool) (set : Row → Row) where
  pub update_rows-All {ℓ} :
      (P : Row → Type ℓ) (rs : List Row) (seq : ℕ)
      → ((r : Row) (n : ℕ) → seq ≤ n → P r → P (renumbered n (set r)))
      → All P rs
      → All P (update_rows where_ set rs seq).0
  unfolding update_rows
  update_rows-All P [] seq f a = tt
  update_rows-All P (r ∷ rs) seq f a = elim (Bool-cases (where_ r)) [
    | inl e ↦ rw e (
      f r seq (omega arith) a.0,
      update_rows-All P rs (seq + 16) (λ s n h p. f s n (omega (arith, h)) p) a.1,
    )
    | inr e ↦ rw e (a.0, update_rows-All P rs seq f a.1)
  ]

  pub update_rows-AreIdsApart :
      (rs : List Row) (seq : ℕ)
      → ((r : Row) → (set r).cfg_id ≡ r.cfg_id)
      → AreIdsApart rs
      → AreIdsApart (update_rows where_ set rs seq).0
  unfolding update_rows
  update_rows-AreIdsApart [] seq f a = tt
  update_rows-AreIdsApart (r ∷ rs) seq f a = elim (Bool-cases (where_ r)) [
    | inl e ↦
        rw (e, f r)
          (
            update_rows-All (IsOtherId r.cfg_id) rs (seq + 16) (λ s n h p. rw (f s) p) a.0,
            update_rows-AreIdsApart rs (seq + 16) f a.1,
          )
    | inr e ↦ rw e (
      update_rows-All (IsOtherId r.cfg_id) rs seq (λ s n h p. rw (f s) p) a.0,
      update_rows-AreIdsApart rs seq f a.1,
    )
  ]

pub update_table-HasIds :
    (attempt : Attempt) (where_ : Row → Bool) (set : Row → Row) (t : Table)
    → ((r : Row) → (set r).cfg_id ≡ r.cfg_id)
    → HasIds t
    → HasIds (update_table attempt where_ set t).0
unfolding update_table
update_table-HasIds attempt_failed where_ set t f h = h
update_table-HasIds lock_missed where_ set t f h = h
update_table-HasIds lock_taken where_ set t f (a, b, c) = (
  update_rows-All where_ set (λ r. (0 < r.cfg_id) × (r.cfg_id < t.next_cfg_id)) t.rows
      t.next_sequence (λ r n h p. rw (f r) p) a,
  update_rows-AreIdsApart where_ set t.rows t.next_sequence f b,
  c,
)

module _ (sel opt group key : Str) where
  row_hit :
      (r : Row) (rs : List Row)
      → is_row_of sel opt group key r ≡ true
      → row_of sel opt group key (r ∷ rs) ≡ some r
  row_hit r rs q = rw (row_of, q) refl

  row_missed :
      (r : Row) (rs : List Row)
      → is_row_of sel opt group key r ≡ false
      → row_of sel opt group key (r ∷ rs) ≡ row_of sel opt group key rs
  row_missed r rs q = rw (row_of, q) refl

  update_hit :
      (set : Row → Row) (r : Row) (rs : List Row) (seq : ℕ)
      → is_row_of sel opt group key r ≡ true
      → (update_rows (is_row_of sel opt group key) set (r ∷ rs) seq).0
        ≡ renumbered seq (set r) ∷ (update_rows (is_row_of sel opt group key) set rs (seq + 16)).0
  unfolding update_rows
  update_hit set r rs seq q = rw (q) refl

  update_missed :
      (set : Row → Row) (r : Row) (rs : List Row) (seq : ℕ)
      → is_row_of sel opt group key r ≡ false
      → (update_rows (is_row_of sel opt group key) set (r ∷ rs) seq).0
        ≡ r ∷ (update_rows (is_row_of sel opt group key) set rs seq).0
  unfolding update_rows
  update_missed set r rs seq q = rw (q) refl

  still_of :
      (now seq : ℕ) (r : Row)
      → is_row_of sel opt group key r ≡ true
      → is_row_of sel opt group key (renumbered seq (mark_deleted now r)) ≡ true
  unfolding is_row_of
  still_of now seq r q = q

  deleted_row :
      (now : ℕ) (rs : List Row) (seq : ℕ) (r : Row)
      → row_of sel opt group key rs ≡ some r
      → (later : Row) × (row_of sel opt group key
            (update_rows (is_row_of sel opt group key) (mark_deleted now) rs seq).0
          ≡ some later)
        × (later.cfg_status ≡ 1)
  deleted_row now [] seq r e = absurd (cc)
  deleted_row now (s ∷ rs) seq r e = elim (Bool-cases (is_row_of sel opt group key s)) [
    | inl q ↦ (
      renumbered seq (mark_deleted now s),
      ap (row_of sel opt group key) (update_hit (mark_deleted now) s rs seq q)
          ∙ row_hit (renumbered seq (mark_deleted now s))
              (update_rows (is_row_of sel opt group key) (mark_deleted now) rs (seq + 16)).0
              (still_of now seq s q),
      refl,
    )
    | inr q ↦
        let (later, found, gone) = deleted_row now rs seq r (sym (row_missed s rs q) ∙ e) in
        (
          later,
          ap (row_of sel opt group key) (update_missed (mark_deleted now) s rs seq q)
              ∙ row_missed s (update_rows (is_row_of sel opt group key) (mark_deleted now) rs seq).0
                  q
              ∙ found,
          gone,
        )
  ]

pub update_rows-moves :
    (where_ : Row → Bool) (set : Row → Row) (rs : List Row) (seq : ℕ)
    → seq ≤ (update_rows where_ set rs seq).1
unfolding update_rows
update_rows-moves where_ set [] seq = omega arith
update_rows-moves where_ set (r ∷ rs) seq =
    ground (arith, update_rows-moves where_ set rs seq, update_rows-moves where_ set rs (seq + 16))

-- The table after a delete that got the lock.
abbrev pub after_delete : ℕ → Str → Str → Str → Str → Table → Table
after_delete now group key sel opt t = (store_delete true lock_taken now group key sel opt t).0

-- A configuration that was deleted and is then saved again, with success, reaches the scan as an
-- event that is marked as deleted and not as created, when the ids are sound, the scan has seen
-- all rows as the deletion left them, the sequence is below 2^63 and the encoding decodes.
pub save_does_not_revive :
    (codec : StoreCodec) (unmarshal : Str → Option Configuration) (w : Session)
    (deleted_at now start : ℕ) (cfg decoded : Configuration) (encoded : Str) (t later : Table)
    (r : Row)
    → HasIds t
    → row_of
        (cache_value cfg.selectors)
        (cache_value cfg.optional_selectors)
        cfg.group
        cfg.key
        t.rows
      ≡ some r
    → codec.marshal cfg ≡ some encoded
    → unmarshal encoded ≡ some decoded
    → let gone =
        after_delete deleted_at cfg.group cfg.key
          (cache_value cfg.selectors)
          (cache_value cfg.optional_selectors)
          t in
      AllUpTo start gone.rows
      → start < gone.next_sequence
      → gone.next_sequence < 2 ^ 63
      → store_save codec w now cfg gone ≡ (later, none)
      → (scan_round unmarshal true start later.rows).events
        ≡ record { configuration = some decoded; created = false; modified = false; deleted = true }
          ∷ []
unfolding store_delete update_table event_of
save_does_not_revive codec unmarshal w deleted_at now start cfg decoded encoded t later r h e m u
      low next fits d =
    let sel = cache_value cfg.selectors in
    let opt = cache_value cfg.optional_selectors in
    let (dead, found, status) =
      deleted_row sel opt cfg.group cfg.key deleted_at t.rows t.next_sequence r e in
    ap (λ z. z.events)
      (saved_is_scanned codec unmarshal w now start cfg decoded encoded
        (after_delete deleted_at cfg.group cfg.key sel opt t) later
        (update_table-HasIds lock_taken (is_row_of sel opt cfg.group cfg.key)
          (mark_deleted deleted_at) t (λ s. refl) h)
        m u low next fits d)
    ∙ ap
        (λ z.
          event_of (record {
            seq = (after_delete deleted_at cfg.group cfg.key sel opt t).next_sequence;
            status = z;
            scanned = decoded;
          })
          ∷ [])
        (ap (λ x. x.cfg_status)
            (to_write_existing w sel opt cfg encoded now
              (after_delete deleted_at cfg.group cfg.key sel opt t) later dead found)
          ∙ status)
