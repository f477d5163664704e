-- ===== src/ConfigStore/Invariant.antt =====
-- The invariant of the configurations' table, over every save and delete:
-- configure/cfgimpl/datawriter.go.
use nekoq_component.Base.{
  ==_iff, All, All-append, Bool, Bool-cases, List, Option, [], arith, false, if◌then◌else◌, inl,
  inr, ltb, none, refl, some, suc, true, zero, ℕ, ◌++◌, ◌+◌, ◌<◌, ◌==◌, ◌∷◌, ◌≡◌, ◌≢◌, ◌≤◌,
}
use nekoq_component.Base.Str.{Str}
use nekoq_component.Base.Result.{Result, err, ok}
use nekoq_component.ConfigApi.{Configuration}
use nekoq_component.ConfigStore.{
  Attempt, Row, StoreError, Table, attempt_failed, conflicts, insert_configuration, lock_missed,
  lock_taken, retry_update, update_configuration, update_configuration_sequence, update_once,
  update_rows, update_table,
}
use nekoq_component.ConfigStore.Ordering.{AreApart}
use nekoq_component.ConfigStore.Saving.{AreIdsApart, IsOtherId}
use nekoq_component.ConfigStore.Written.{HasIds, fresh_row, overwritten}
use nekoq_component.ConfigStore.Deleting.{update_rows-All, update_rows-moves, update_table-HasIds}

abbrev pub AllBelow : ℕ → List Row → Type 0
AllBelow n rs = All (λ r. r.row_sequence < n) rs

-- Positive ids apart and below the next one; sequence numbers apart and below the next one.
abbrev pub IsSound : Table → Type 0
IsSound t = HasIds t × AreApart t.rows × AllBelow t.next_sequence t.rows × (0 < t.next_sequence)

pub AllBelow-later : (a b : ℕ) (rs : List Row) → a ≤ b → AllBelow a rs → AllBelow b rs
AllBelow-later a b [] h p = tt
AllBelow-later a b (r ∷ rs) h p = (omega (arith, h, p.0), AllBelow-later a b rs h p.1)

AllBelow-apart : (n : ℕ) (rs : List Row) → AllBelow n rs → All (λ s. n ≢ s.row_sequence) rs
AllBelow-apart n [] p = tt
AllBelow-apart n (r ∷ rs) p = (λ e. omega (arith, e, p.0), AllBelow-apart n rs p.1)

module _ (where_ : Row → Bool) (set : Row → Row) where
  update_rows-AllBelow :
      (rs : List Row) (seq : ℕ)
      → AllBelow seq rs
      → AllBelow (update_rows where_ set rs seq).1 (update_rows where_ set rs seq).0
  unfolding update_rows
  update_rows-AllBelow [] seq a = tt
  update_rows-AllBelow (r ∷ rs) seq a = elim (Bool-cases (where_ r)) [
    | inl e ↦ rw e (
      omega (arith, update_rows-moves where_ set rs (seq + 16)),
      update_rows-AllBelow rs (seq + 16) (AllBelow-later seq (seq + 16) rs (omega arith) a.1),
    )
    | inr e ↦
        rw e
          (omega (arith, a.0, update_rows-moves where_ set rs seq), update_rows-AllBelow rs seq a.1)
  ]

  update_rows-AreApart :
      (rs : List Row) (seq : ℕ)
      → AllBelow seq rs
      → AreApart rs
      → AreApart (update_rows where_ set rs seq).0
  unfolding update_rows
  update_rows-AreApart [] seq a d = tt
  update_rows-AreApart (r ∷ rs) seq a d = elim (Bool-cases (where_ r)) [
    | inl e ↦ rw e (
      update_rows-All where_ set (λ s. seq ≢ s.row_sequence) rs (seq + 16)
          (λ s n h p q. omega (arith, h, q)) (AllBelow-apart seq rs a.1),
      update_rows-AreApart rs (seq + 16) (AllBelow-later seq (seq + 16) rs (omega arith) a.1) d.1,
    )
    | inr e ↦ rw e (
      update_rows-All where_ set (λ s. r.row_sequence ≢ s.row_sequence) rs seq
          (λ s n h p q. omega (arith, h, q, a.0)) d.0,
      update_rows-AreApart rs seq a.1 d.1,
    )
  ]

-- A sound table whose counters have not gone back.
abbrev pub Follows : Table → Table → Type 0
Follows t later =
    IsSound later × (t.next_cfg_id ≤ later.next_cfg_id) × (t.next_sequence ≤ later.next_sequence)

pub update_table-Follows :
    (attempt : Attempt) (where_ : Row → Bool) (set : Row → Row) (t : Table)
    → ((r : Row) → (set r).cfg_id ≡ r.cfg_id)
    → IsSound t
    → Follows t (update_table attempt where_ set t).0
unfolding update_table
update_table-Follows attempt_failed where_ set t f h = (h, omega arith, omega arith)
update_table-Follows lock_missed where_ set t f h = (h, omega arith, omega arith)
update_table-Follows lock_taken where_ set t f (ids, apart, below, positive) =
    let moved = update_rows-moves where_ set t.rows t.next_sequence in
    (
      (
        update_table-HasIds lock_taken where_ set t f ids,
        update_rows-AreApart where_ set t.rows t.next_sequence below apart,
        update_rows-AllBelow where_ set t.rows t.next_sequence below,
        omega (arith, positive, moved),
      ),
      omega arith,
      moved,
    )

update_once-Follows :
    (attempt : Attempt) (cfg : Configuration) (encoded : Str) (now id : ℕ) (t : Table)
    → IsSound t
    → Follows t (update_once attempt cfg encoded now id t).0
unfolding update_once update_configuration update_configuration_sequence
update_once-Follows attempt cfg encoded now id t h = elim (Bool-cases (ltb 0 id)) [
  | inl e ↦ rw e (
      update_table-Follows attempt (λ r. r.cfg_id == id) (overwritten cfg encoded now) t (λ r. refl)
        h)
  | inr e ↦ rw e (
      update_table-Follows attempt (λ r. r.cfg_id == id) (λ r. record r { time_updated = now }) t
        (λ r. refl) h)
]

pub Follows-later : (a b c : Table) → Follows a b → Follows b c → Follows a c
Follows-later a b c (h, x, y) (k, z, w) = (k, omega (arith, x, z), omega (arith, y, w))

trial_ended :
    (t : Table) (r : Result StoreError Bool) (after : Table) (again : Table × Option StoreError)
    → Follows t after
    → Follows t again.0
    → Follows t
        (elim r as (λ x. Table × Option StoreError) [
          | err e ↦ (after, some e)
          | ok updated ↦ if updated then (after, none) else again
        ]).0
trial_ended t (err e) after again f g = f
trial_ended t (ok true) after again f g = f
trial_ended t (ok false) after again f g = g

pub retry_update-Follows :
    (n i : ℕ) (attempts : ℕ → Attempt) (cfg : Configuration) (encoded : Str) (now id : ℕ)
    (t : Table)
    → IsSound t
    → Follows t (retry_update n i attempts cfg encoded now id t).0
unfolding retry_update
retry_update-Follows zero i attempts cfg encoded now id t h = (h, omega arith, omega arith)
retry_update-Follows (suc n) i attempts cfg encoded now id t h =
    let u = update_once (attempts i) cfg encoded now id t in
    let first = update_once-Follows (attempts i) cfg encoded now id t h in
    trial_ended t u.1 u.0 (retry_update n (suc i) attempts cfg encoded now id u.0) first (
      Follows-later t u.0 (retry_update n (suc i) attempts cfg encoded now id u.0).0 first
        (retry_update-Follows n (suc i) attempts cfg encoded now id u.0 first.0))

AllBelow-append :
    (n : ℕ) (rs : List Row) (r : Row)
    → AllBelow n rs
    → r.row_sequence < n
    → AllBelow n (rs ++ r ∷ [])
AllBelow-append n rs r a b = All-append (λ s. s.row_sequence < n) rs (r ∷ []) a (b, tt)

AreApart-append :
    (rs : List Row) (r : Row)
    → AreApart rs
    → All (λ s. s.row_sequence ≢ r.row_sequence) rs
    → AreApart (rs ++ r ∷ [])
AreApart-append [] r a b = (tt, tt)
AreApart-append (s ∷ rs) r a b = (
  All-append (λ x. s.row_sequence ≢ x.row_sequence) rs (r ∷ []) a.0 (b.0, tt),
  AreApart-append rs r a.1 b.1,
)

AreIdsApart-append :
    (rs : List Row) (r : Row)
    → AreIdsApart rs
    → All (λ s. s.cfg_id < r.cfg_id) rs
    → AreIdsApart (rs ++ r ∷ [])
AreIdsApart-append [] r a b = (tt, tt)
AreIdsApart-append (s ∷ rs) r a b = (
  All-append (IsOtherId s.cfg_id) rs (r ∷ []) a.0
      (ground (arith, ==_iff r.cfg_id s.cfg_id, b.0), tt),
  AreIdsApart-append rs r a.1 b.1,
)

numbered-All :
    (sel opt group key : Str) (rs : List Row)
    → conflicts sel opt group key rs ≡ false
    → All (λ s. s.row_sequence ≢ 0) rs
unfolding conflicts
numbered-All sel opt group key [] e = tt
numbered-All sel opt group key (r ∷ rs) e =
    (ground (arith, ==_iff r.row_sequence 0), numbered-All sel opt group key rs (ground arith))

ids_later :
    (n : ℕ) (rs : List Row)
    → All (λ r. (0 < r.cfg_id) × (r.cfg_id < n)) rs
    → All (λ r. (0 < r.cfg_id) × (r.cfg_id < suc n)) rs × All (λ r. r.cfg_id < n) rs
ids_later n [] a = (tt, tt)
ids_later n (r ∷ rs) a =
    let (x, y) = ids_later n rs a.1 in ((omega (arith, a.0), x), (omega (arith, a.0), y))

-- An insert, refused or not.
pub insert_configuration-Follows :
    (sel opt : Str) (cfg : Configuration) (encoded : Str) (now : ℕ) (t : Table)
    → IsSound t
    → Follows t (insert_configuration sel opt cfg encoded now t).0
unfolding insert_configuration
insert_configuration-Follows sel opt cfg encoded now t
      ((ids, others, next), apart, below, positive) =
    let (wider, lower) = ids_later t.next_cfg_id t.rows ids in
    let fresh = fresh_row sel opt cfg encoded now t in
    elim (Bool-cases (conflicts sel opt cfg.group cfg.key t.rows)) [
      | inl c ↦
          rw c (
            ((wider, others, omega (arith, next)), apart, below, positive),
            omega arith,
            omega arith,
          )
      | inr c ↦ rw c (
        (
          (
            All-append (λ r. (0 < r.cfg_id) × (r.cfg_id < suc t.next_cfg_id)) t.rows (fresh ∷ [])
                wider ((next, omega arith), tt),
            AreIdsApart-append t.rows fresh others lower,
            omega (arith, next),
          ),
          AreApart-append t.rows fresh apart (numbered-All sel opt cfg.group cfg.key t.rows c),
          AllBelow-append t.next_sequence t.rows fresh below positive,
          positive,
        ),
        omega arith,
        omega arith,
      )
    ]
