-- ===== src/Storage/Rows.antt =====
-- The rows that the statements of configure/secretimpl/secret.pg.go choose.
use nekoq_component.Base.{
  All, Bool, Bool-cases, List, Option-cases, [], arith, false, inl, inr, ltb, ltb→lt, lt→ltb,
  ltb_false→le, map, none, refl, some, subst, ap, ◌∙◌, true, ℕ, ◌&&◌, ◌<◌, ◌==◌, ◌∷◌, ◌≡◌, ◌≤◌,
  ==_iff,
}
use nekoq_component.Base.Str.{Str, str_eq}
use nekoq_component.Storage.{Level2Row, latest, retire, with_id}

pub All-weaken {ℓ κ μ} :
    {A : Type ℓ} {P : A → Type κ} {Q : A → Type μ} (xs : List A)
    → ((x : A) → P x → Q x)
    → All P xs
    → All Q xs
All-weaken [] f a = tt
All-weaken (x ∷ xs) f a = (f x a.0, All-weaken xs f a.1)

module _ {R : Type 0} (version : R → ℕ) (where_ : R → Bool) where
  -- The chosen row is one of the rows, and the condition holds for it.
  pub latest_has :
      (P : R → Type 0) (rs : List R) (q : R) → All P rs → latest version where_ rs ≡ some q → P q
  unfolding latest
  latest_has P [] q a h = absurd (cc)
  latest_has P (r ∷ rs) q a h = elim (Option-cases (latest version where_ rs)) [
    | inl e ↦ elim (Bool-cases (where_ r)) [
      | inl w ↦ let same : r ≡ q = grind arith in rw (← same) a.0
      | inr w ↦ absurd (grind arith)
    ]
    | inr (p, e) ↦ elim (Bool-cases (where_ r && ltb (version p) (version r))) [
      | inl w ↦ let same : r ≡ q = grind arith in rw (← same) a.0
      | inr w ↦ let same : p ≡ q = grind arith in rw (← same) (latest_has P rs p a.1 e)
    ]
  ]

  pub latest-none : (rs : List R) → latest version where_ rs ≡ none → All (λ r. where_ r ≡ false) rs
  unfolding latest
  latest-none [] h = tt
  latest-none (r ∷ rs) h = elim (Option-cases (latest version where_ rs)) [
    | inl e ↦ (grind arith, latest-none rs e)
    | inr (p, e) ↦ absurd (grind arith)
  ]

  -- No row that the condition holds for has a greater version.
  pub latest_greatest :
      (rs : List R) (q : R)
      → latest version where_ rs ≡ some q
      → All (λ r. where_ r ≡ true → version r ≤ version q) rs
  unfolding latest
  latest_greatest [] q h = tt
  latest_greatest (r ∷ rs) q h = elim (Option-cases (latest version where_ rs)) [
    | inl e ↦ (
      λ w. let same : r ≡ q = grind arith in rw (same) (omega arith),
      All-weaken rs (λ s f w. absurd (grind arith)) (latest-none rs e),
    )
    | inr (p, e) ↦ elim (Bool-cases (where_ r && ltb (version p) (version r))) [
      | inl w ↦
          let same : r ≡ q = grind arith in
          let less : version p < version r = ltb→lt (version p) (version r) (grind arith) in
          (
            λ v. rw (same) (omega arith),
            All-weaken rs (λ s f v. let below = f v in rw (← same) (omega arith))
                (latest_greatest rs p e),
          )
      | inr w ↦
          let same : p ≡ q = grind arith in
          (
            λ v. rw (← same) (ltb_false→le (version p) (version r) (grind arith)),
            subst (λ x. All (λ s. where_ s ≡ true → version s ≤ version x) rs) same
                (latest_greatest rs p e),
          )
    ]
  ]

  pub latest-empty :
      (rs : List R) → All (λ r. where_ r ≡ false) rs → latest version where_ rs ≡ none
  unfolding latest
  latest-empty [] a = refl
  latest-empty (r ∷ rs) a = rw (latest, latest-empty rs a.1, a.0) refl

-- What `retire` leaves of a row.
pub retire_other :
    (now : ℕ) (name : Str) (next : ℕ) (r : Level2Row)
    → (str_eq r.key_name name ≡ true → r.key_version < next)
    → (str_eq (retire now name next r).key_name name && ((retire now name next r).key_status == 0))
      ≡ false
unfolding retire
retire_other now name next r h = elim (Bool-cases (str_eq r.key_name name)) [
  | inl q ↦ rw (retire, q, lt→ltb r.key_version next (h q)) rw (q) refl
  | inr q ↦ rw (retire, q) rw (q) refl
]

pub retire_kept :
    (now : ℕ) (name : Str) (next : ℕ) (r : Level2Row)
    → ((retire now name next r).key_id ≡ r.key_id)
      × ((retire now name next r).use_key_id ≡ r.use_key_id)
      × ((retire now name next r).key_type_text ≡ r.key_type_text)
      × ((retire now name next r).key_encrypted ≡ r.key_encrypted)
unfolding retire
retire_kept now name next r = elim (Bool-cases (str_eq r.key_name name && ltb r.key_version next)) [
  | inl q ↦ rw (retire, q) (refl, refl, refl, refl)
  | inr q ↦ rw (retire, q) (refl, refl, refl, refl)
]

pub with_id_here :
    (id : ℕ) (r : Level2Row) (rs : List Level2Row)
    → (r.key_id == id) ≡ true
    → with_id (λ x. x.key_id) id (r ∷ rs) ≡ some r
unfolding with_id
with_id_here id r rs e = rw (with_id, e) refl

pub with_id_next :
    (id : ℕ) (r : Level2Row) (rs : List Level2Row)
    → (r.key_id == id) ≡ false
    → with_id (λ x. x.key_id) id (r ∷ rs) ≡ with_id (λ x. x.key_id) id rs
unfolding with_id
with_id_next id r rs e = rw (with_id, e) refl

-- A row by its id after the update, and the ids below the serial.
pub with_id-retire :
    (now : ℕ) (name : Str) (next id : ℕ) (rs : List Level2Row) (q : Level2Row)
    → with_id (λ r. r.key_id) id rs ≡ some q
    → with_id (λ r. r.key_id) id (map (retire now name next) rs) ≡ some (retire now name next q)
unfolding with_id
with_id-retire now name next id [] q h = absurd (cc)
with_id-retire now name next id (r ∷ rs) q h = elim (Bool-cases (r.key_id == id)) [
  | inl e ↦
      let same : r ≡ q = grind arith in
      with_id_here id (retire now name next r) (map (retire now name next) rs)
        (ap (λ x. x == id) (retire_kept now name next r).0 ∙ e)
      ∙ ap (λ x. some (retire now name next x)) same
  | inr e ↦
      with_id_next id (retire now name next r) (map (retire now name next) rs)
        (ap (λ x. x == id) (retire_kept now name next r).0 ∙ e)
      ∙ with_id-retire now name next id rs q (grind arith)
]

pub with_id_below :
    (id n : ℕ) (rs : List Level2Row) (q : Level2Row)
    → All (λ r. r.key_id < n) rs
    → with_id (λ r. r.key_id) id rs ≡ some q
    → id < n
unfolding with_id
with_id_below id n [] q a h = absurd (cc)
with_id_below id n (r ∷ rs) q a h = elim (Bool-cases (r.key_id == id)) [
  | inl e ↦ let same : r.key_id ≡ id = (==_iff r.key_id id).0 e in rw (← same) a.0
  | inr e ↦ with_id_below id n rs q a.1 (grind arith)
]

pub retire-All :
    (now : ℕ) (name : Str) (next n : ℕ) (rs : List Level2Row)
    → All (λ r. r.key_id < n) rs
    → All (λ r. r.key_id < n) (map (retire now name next) rs)
retire-All now name next n [] a = tt
retire-All now name next n (r ∷ rs) a =
    (rw ((retire_kept now name next r).0) a.0, retire-All now name next n rs a.1)

pub map-retire :
    (now : ℕ) (name : Str) (next : ℕ) (rs : List Level2Row)
    → All (λ r. str_eq r.key_name name ≡ true → r.key_version < next) rs
    → All
        (λ r. (str_eq r.key_name name && (r.key_status == 0)) ≡ false)
        (map (retire now name next) rs)
map-retire now name next [] a = tt
map-retire now name next (r ∷ rs) a =
    (retire_other now name next r a.0, map-retire now name next rs a.1)
