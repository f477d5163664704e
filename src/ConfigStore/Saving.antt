-- ===== src/ConfigStore/Saving.antt =====
-- What a save or a delete does to the table: configure/cfgimpl/datawriter.go.
use nekoq_component.Base.{
  ==_iff, All, Bool, Bool-cases, List, Option, [], ap, arith, false, if◌then◌else◌, inl, inr, ltb,
  none, refl, some, subst, suc, sym, true, zero, ℕ, ◌++◌, ◌+◌, ◌==◌, ◌∙◌, ◌∷◌, ◌≡◌, ◌⊎◌,
}
use nekoq_component.Base.Str.{Str}
use nekoq_component.Base.Result.{Result, err, ok}
use nekoq_component.ConfigApi.{Configuration}
use nekoq_component.ConfigStore.{
  Attempt, Row, StoreError, Table, attempt_failed, database_error, get_existing_configuration,
  is_row_of, lock_missed, lock_taken, retry_update, too_many_retries, update_configuration,
  update_once, update_rows, update_table,
}

-- The row that an update gives the next sequence number.
abbrev pub renumbered : ℕ → Row → Row
renumbered seq r = record r { row_sequence = seq }

module _ (where_ : Row → Bool) (set : Row → Row) where
  update_rows_none :
      (rs : List Row) (seq : ℕ)
      → All (λ r. where_ r ≡ false) rs
      → update_rows where_ set rs seq ≡ (rs, seq, 0)
  unfolding update_rows
  update_rows_none [] seq a = refl
  update_rows_none (r ∷ rs) seq a = rw (update_rows, a.0, update_rows_none rs seq a.1) refl

  pub update_rows_one :
      (before : List Row) (r : Row) (behind : List Row) (seq : ℕ)
      → All (λ s. where_ s ≡ false) before
      → where_ r ≡ true
      → All (λ s. where_ s ≡ false) behind
      → update_rows where_ set (before ++ r ∷ behind) seq
        ≡ (before ++ renumbered seq (set r) ∷ behind, seq + 16, 1)
  unfolding update_rows
  update_rows_one [] r behind seq a b c =
      rw (update_rows, b, update_rows_none behind (seq + 16) c) refl
  update_rows_one (s ∷ before) r behind seq a b c =
      rw (update_rows, a.0, update_rows_one before r behind seq a.1 b c) refl

-- No other row has the id.
abbrev pub IsOtherId : ℕ → Row → Type 0
IsOtherId id r = (r.cfg_id == id) ≡ false

abbrev pub AreIdsApart : List Row → Type 0
AreIdsApart [] = Unit
AreIdsApart (r ∷ rs) = All (IsOtherId r.cfg_id) rs × AreIdsApart rs

-- The table around a row, whose id no other row has.
abbrev pub Around : Row → List Row → Type 0
Around r rs =
    (before : List Row) × (behind : List Row) × (rs ≡ before ++ r ∷ behind)
    × All (IsOtherId r.cfg_id) before
    × All (IsOtherId r.cfg_id) behind

abbrev pub row_of : Str → Str → Str → Str → List Row → Option Row
row_of sel opt group key [] = none
row_of sel opt group key (r ∷ rs) =
    if is_row_of sel opt group key r then some r else row_of sel opt group key rs

pub existing_of :
    (sel opt group key : Str) (rs : List Row) (r : Row)
    → row_of sel opt group key rs ≡ some r
    → get_existing_configuration sel opt group key rs ≡ r.cfg_id
unfolding get_existing_configuration
existing_of sel opt group key [] r e = absurd (cc)
existing_of sel opt group key (s ∷ rs) r e = elim (Bool-cases (is_row_of sel opt group key s)) [
  | inl q ↦ grind arith
  | inr q ↦ ground (arith, existing_of sel opt group key rs r)
]

pub existing_none :
    (sel opt group key : Str) (rs : List Row)
    → row_of sel opt group key rs ≡ none
    → get_existing_configuration sel opt group key rs ≡ 0
unfolding get_existing_configuration
existing_none sel opt group key [] e = refl
existing_none sel opt group key (s ∷ rs) e = elim (Bool-cases (is_row_of sel opt group key s)) [
  | inl q ↦ absurd (grind arith)
  | inr q ↦ ground (arith, existing_none sel opt group key rs)
]

All-middle {ℓ} :
    (P : Row → Type ℓ) (before : List Row) (r : Row) (behind : List Row)
    → All P (before ++ r ∷ behind)
    → P r
All-middle P [] r behind a = a.0
All-middle P (s ∷ before) r behind a = All-middle P before r behind a.1

other_way : (r s : Row) → IsOtherId r.cfg_id s → IsOtherId s.cfg_id r
other_way r s h = ground (arith, ==_iff s.cfg_id r.cfg_id, ==_iff r.cfg_id s.cfg_id)

pub row_of-Around :
    (sel opt group key : Str) (rs : List Row) (r : Row)
    → row_of sel opt group key rs ≡ some r
    → AreIdsApart rs
    → Around r rs
row_of-Around sel opt group key [] r e a = absurd (cc)
row_of-Around sel opt group key (s ∷ rs) r e a = elim (Bool-cases (is_row_of sel opt group key s)) [
  | inl q ↦
      let same : s ≡ r = grind arith in subst (λ x. Around x (s ∷ rs)) same ([], rs, refl, tt, a.0)
  | inr q ↦
      let later : row_of sel opt group key rs ≡ some r = grind arith in
      let (before, behind, whole, x, y) = row_of-Around sel opt group key rs r later a.1 in
      (
        s ∷ before,
        behind,
        ap (λ z. s ∷ z) whole,
        (
          other_way s r (
              All-middle (IsOtherId s.cfg_id) before r behind
                (subst (All (IsOtherId s.cfg_id)) whole a.0)),
          x,
        ),
        y,
      )
]

Attempt-cases : (a : Attempt) → (a ≡ attempt_failed) ⊎ (a ≡ lock_missed) ⊎ (a ≡ lock_taken)
Attempt-cases attempt_failed = inl refl
Attempt-cases lock_missed = inr (inl refl)
Attempt-cases lock_taken = inr (inr refl)

once_existing :
    (attempt : Attempt) (cfg : Configuration) (encoded : Str) (now id : ℕ) (t : Table)
    → ltb 0 id ≡ true
    → update_once attempt cfg encoded now id t ≡ update_configuration attempt cfg encoded now id t
unfolding update_once
once_existing attempt cfg encoded now id t p = rw (update_once, p) refl

module _ (n i : ℕ) (attempts : ℕ → Attempt) (cfg : Configuration) (encoded : Str) (now id : ℕ)
    (t : Table) (p : ltb 0 id ≡ true) where
  abbrev retried : Table × Result StoreError Bool → Table × Option StoreError
  retried u = elim u.1 [
    | err e ↦ (u.0, some e)
    | ok updated ↦
        if updated then (u.0, none) else retry_update n (suc i) attempts cfg encoded now id u.0
  ]

  retried-update_once :
      (attempt : Attempt)
      → attempts i ≡ attempt
      → retry_update (suc n) i attempts cfg encoded now id t
        ≡ retried (update_configuration attempt cfg encoded now id t)
  unfolding retry_update
  retried-update_once attempt a = ap retried (
      ap (λ z. update_once z cfg encoded now id t) a ∙ once_existing attempt cfg encoded now id t p)

  retry_failed :
      attempts i ≡ attempt_failed
      → retry_update (suc n) i attempts cfg encoded now id t ≡ (t, some database_error)
  unfolding update_configuration update_table
  retry_failed a = retried-update_once attempt_failed a

  retry_missed :
      attempts i ≡ lock_missed
      → retry_update (suc n) i attempts cfg encoded now id t
        ≡ retry_update n (suc i) attempts cfg encoded now id t
  unfolding update_configuration update_table
  retry_missed a = retried-update_once lock_missed a

  retry_taken :
      attempts i ≡ lock_taken
      → (update_configuration lock_taken cfg encoded now id t).1 ≡ ok true
      → retry_update (suc n) i attempts cfg encoded now id t
        ≡ ((update_configuration lock_taken cfg encoded now id t).0, none)
  retry_taken a u = retried-update_once lock_taken a ∙ rw u refl

abbrev pub answered : Table → Option StoreError → Table × Option StoreError
answered t o = (t, o)

pub error_remains : (x : StoreError) (t later : Table) → answered t (some x) ≡ (later, none) → ⊥
error_remains x t later e = cc

no_retry :
    (attempts : ℕ → Attempt) (cfg : Configuration) (encoded : Str) (now id i : ℕ) (t later : Table)
    → retry_update zero i attempts cfg encoded now id t ≡ (later, none)
    → ⊥
unfolding retry_update
no_retry attempts cfg encoded now id i t later e = error_remains too_many_retries t later e

-- A loop of retries that succeeds has made one update, of a table that was as before.
pub retry_update-done :
    (n i : ℕ) (attempts : ℕ → Attempt) (cfg : Configuration) (encoded : Str) (now id : ℕ)
    (t later : Table)
    → ltb 0 id ≡ true
    → (update_configuration lock_taken cfg encoded now id t).1 ≡ ok true
    → retry_update n i attempts cfg encoded now id t ≡ (later, none)
    → (update_configuration lock_taken cfg encoded now id t).0 ≡ later
retry_update-done zero i attempts cfg encoded now id t later p u e =
    absurd (no_retry attempts cfg encoded now id i t later e)
retry_update-done (suc n) i attempts cfg encoded now id t later p u e =
    elim (Attempt-cases (attempts i)) [
      | inl a ↦ absurd (
          error_remains database_error t later
            (sym (retry_failed n i attempts cfg encoded now id t p a) ∙ e))
      | inr (inl a) ↦
          retry_update-done n (suc i) attempts cfg encoded now id t later p u
            (sym (retry_missed n i attempts cfg encoded now id t p a) ∙ e)
      | inr (inr a) ↦ ap (λ z. z.0) (sym (retry_taken n i attempts cfg encoded now id t p a u) ∙ e)
    ]
