-- ===== src/ConfigStore/Ordering.antt =====
-- Rows in the order of their sequence numbers, and pages of them: the queries of
-- configure/cfgimpl/datapump.go.
use nekoq_component.Base.{
  All, Bool-cases, List, [], arith, drop, inl, inr, leb, ltb, refl, suc, take, zero, ℕ, ◌&&◌, ◌<◌,
  ◌∙◌, ◌∷◌, ◌≡◌, ◌≢◌, ◌≤◌,
}
use nekoq_component.ConfigStore.{Row}
use nekoq_component.ConfigStore.Pump.{between, insert_row, order_by_sequence}

abbrev pub IsAscending : List Row → Type 0
IsAscending [] = Unit
IsAscending (r ∷ rs) = All (λ s. r.row_sequence < s.row_sequence) rs × IsAscending rs

-- No two rows have the same sequence number.
abbrev pub AreApart : List Row → Type 0
AreApart [] = Unit
AreApart (r ∷ rs) = All (λ s. r.row_sequence ≢ s.row_sequence) rs × AreApart rs

pub insert_row-All {ℓ} :
    (P : Row → Type ℓ) (r : Row) (rs : List Row) → P r → All P rs → All P (insert_row r rs)
unfolding insert_row
insert_row-All P r [] p a = (p, tt)
insert_row-All P r (s ∷ rs) p a = elim (Bool-cases (leb r.row_sequence s.row_sequence)) [
  | inl e ↦ rw e (p, a)
  | inr e ↦ rw e (a.0, insert_row-All P r rs p a.1)
]

pub order_by_sequence-All {ℓ} :
    (P : Row → Type ℓ) (rs : List Row) → All P rs → All P (order_by_sequence rs)
unfolding order_by_sequence
order_by_sequence-All P [] a = tt
order_by_sequence-All P (r ∷ rs) a =
    insert_row-All P r (order_by_sequence rs) a.0 (order_by_sequence-All P rs a.1)

All-above :
    (a b : ℕ) (rs : List Row)
    → a < b
    → All (λ s. b < s.row_sequence) rs
    → All (λ s. a < s.row_sequence) rs
All-above a b [] h p = tt
All-above a b (r ∷ rs) h p = (omega (arith, h, p.0), All-above a b rs h p.1)

insert_row-IsAscending :
    (r : Row) (rs : List Row)
    → All (λ s. r.row_sequence ≢ s.row_sequence) rs
    → IsAscending rs
    → IsAscending (insert_row r rs)
unfolding insert_row
insert_row-IsAscending r [] n a = (tt, tt)
insert_row-IsAscending r (s ∷ rs) n a = elim (Bool-cases (leb r.row_sequence s.row_sequence)) [
  | inl e ↦
      let below : r.row_sequence < s.row_sequence = ground (arith, n.0) in
      rw e ((below, All-above r.row_sequence s.row_sequence rs below a.0), a)
  | inr e ↦ rw e (
    insert_row-All (λ t. s.row_sequence < t.row_sequence) r rs (ground arith) a.0,
    insert_row-IsAscending r rs n.1 a.1,
  )
]

pub order_by_sequence-IsAscending :
    (rs : List Row) → AreApart rs → IsAscending (order_by_sequence rs)
unfolding order_by_sequence
order_by_sequence-IsAscending [] a = tt
order_by_sequence-IsAscending (r ∷ rs) a =
    insert_row-IsAscending r (order_by_sequence rs)
      (order_by_sequence-All (λ s. r.row_sequence ≢ s.row_sequence) rs a.0)
      (order_by_sequence-IsAscending rs a.1)

pub between-All {ℓ} :
    (P : Row → Type ℓ) (start max : ℕ) (rs : List Row) → All P rs → All P (between start max rs)
unfolding between
between-All P start max [] a = tt
between-All P start max (r ∷ rs) a =
    elim (Bool-cases (ltb start r.row_sequence && leb r.row_sequence max)) [
      | inl e ↦ rw e (a.0, between-All P start max rs a.1)
      | inr e ↦ rw e (between-All P start max rs a.1)
    ]

pub between-IsAscending :
    (start max : ℕ) (rs : List Row) → IsAscending rs → IsAscending (between start max rs)
unfolding between
between-IsAscending start max [] a = tt
between-IsAscending start max (r ∷ rs) a =
    elim (Bool-cases (ltb start r.row_sequence && leb r.row_sequence max)) [
      | inl e ↦ rw e (
        between-All (λ s. r.row_sequence < s.row_sequence) start max rs a.0,
        between-IsAscending start max rs a.1,
      )
      | inr e ↦ rw e (between-IsAscending start max rs a.1)
    ]

-- What is between is between.
pub between-bounds :
    (start max : ℕ) (rs : List Row)
    → All (λ s. (start < s.row_sequence) × (s.row_sequence ≤ max)) (between start max rs)
unfolding between
between-bounds start max [] = tt
between-bounds start max (r ∷ rs) =
    elim (Bool-cases (ltb start r.row_sequence && leb r.row_sequence max)) [
      | inl e ↦ rw e (ground arith, between-bounds start max rs)
      | inr e ↦ rw e (between-bounds start max rs)
    ]

pub between-between :
    (start later max : ℕ) (rs : List Row)
    → start ≤ later
    → between later max (between start max rs) ≡ between later max rs
unfolding between
between-between start later max [] h = refl
between-between start later max (r ∷ rs) h = ground (arith, between-between start later max rs h)

pub between_whole :
    (start max : ℕ) (rs : List Row)
    → All (λ s. start < s.row_sequence) rs
    → All (λ s. s.row_sequence ≤ max) rs
    → between start max rs ≡ rs
unfolding between
between_whole start max [] a b = refl
between_whole start max (r ∷ rs) a b = ground (arith, a.0, b.0, between_whole start max rs a.1 b.1)

abbrev pub last_row : Row → List Row → ℕ
last_row r [] = r.row_sequence
last_row r (x ∷ xs) = last_row x xs

pub last_row-ge :
    (n : ℕ) (r : Row) (rs : List Row)
    → IsAscending (r ∷ rs)
    → r.row_sequence ≤ last_row r (take n rs)
last_row-ge zero r rs a = omega arith
last_row-ge (suc n) r [] a = omega arith
last_row-ge (suc n) r (x ∷ xs) a = omega (arith, a.0.0, last_row-ge n x xs a.1)

pub between_first :
    (start max : ℕ) (r : Row) (rs : List Row)
    → r.row_sequence ≤ start
    → between start max (r ∷ rs) ≡ between start max rs
unfolding between
between_first start max r rs h = ground arith

-- Behind the last row of a page stand the rows that the page left.
pub page_dropped :
    (n max : ℕ) (r : Row) (rs : List Row)
    → IsAscending (r ∷ rs)
    → All (λ s. s.row_sequence ≤ max) rs
    → between (last_row r (take n rs)) max (r ∷ rs) ≡ drop n rs
page_dropped zero max r rs a b =
    between_first r.row_sequence max r rs (omega arith) ∙ between_whole r.row_sequence max rs a.0 b
page_dropped (suc n) max r [] a b =
    between_first r.row_sequence max r [] (omega arith) ∙ between_whole r.row_sequence max [] tt tt
page_dropped (suc n) max r (x ∷ xs) a b =
    between_first (last_row x (take n xs)) max r (x ∷ xs)
      (omega (arith, a.0.0, last_row-ge n x xs a.1))
    ∙ page_dropped n max x xs a.1 b.1

pub All-upper :
    (start max : ℕ) (rs : List Row)
    → All (λ s. (start < s.row_sequence) × (s.row_sequence ≤ max)) rs
    → All (λ s. s.row_sequence ≤ max) rs
All-upper start max [] a = tt
All-upper start max (r ∷ rs) a = (a.0.1, All-upper start max rs a.1)
