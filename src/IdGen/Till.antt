-- ===== src/IdGen/Till.antt =====
-- `tillNextMillisecond` of id.go: the busy loop ends at the first reading past the given time.
use nekoq_component.Base.{
  ℕ, zero, suc, ◌+◌, ◌<◌, ◌≡◌, refl, ◌∙◌, true, false, some, arith, inl, inr, Bool-cases,
}
use nekoq_component.Base.Words.{lt64}
use nekoq_component.IdGen.{Instant, get_time_millis, till_next_millisecond}

till_hit :
    (fuel : ℕ) (clock : ℕ → Instant) (i t : ℕ)
    → lt64 t (get_time_millis (clock i)) ≡ true
    → till_next_millisecond (suc fuel) clock i t ≡ some (get_time_millis (clock i))
unfolding till_next_millisecond
till_hit fuel clock i t hit = rw hit refl

till_miss :
    (fuel : ℕ) (clock : ℕ → Instant) (i t : ℕ)
    → lt64 t (get_time_millis (clock i)) ≡ false
    → till_next_millisecond (suc fuel) clock i t ≡ till_next_millisecond fuel clock (i + 1) t
unfolding till_next_millisecond
till_miss fuel clock i t miss = rw miss refl

-- What every reading has, the result has; and it is past the time.
pub till_sound :
    (P : ℕ → Type 0) (fuel : ℕ) (clock : ℕ → Instant) (i t : ℕ) {v : ℕ}
    → ((k : ℕ) → P (get_time_millis (clock k)))
    → till_next_millisecond fuel clock i t ≡ some v
    → P v × (lt64 t v ≡ true)
till_sound P zero clock i t p e = absurd (unfold till_next_millisecond in cc)
till_sound P (suc fuel) clock i t {v} p e = elim (Bool-cases (lt64 t (get_time_millis (clock i)))) [
  | inl hit ↦
      let at : get_time_millis (clock i) ≡ v = cc (till_hit fuel clock i t hit) in
      (rw at at (p i), rw at at hit)
  | inr miss ↦ till_sound P fuel clock (i + 1) t p (rw (till_miss fuel clock i t miss) at e)
]

-- As many readings as it takes for one to be past the time are enough.
pub till_total :
    (fuel : ℕ) (clock : ℕ → Instant) (i k t : ℕ)
    → k < fuel
    → lt64 t (get_time_millis (clock (i + k))) ≡ true
    → (v : ℕ) × (till_next_millisecond fuel clock i t ≡ some v)
till_total zero clock i k t h e = absurd (omega arith)
till_total (suc fuel) clock i zero t h e =
    let same : i + zero ≡ i = omega arith in
    (get_time_millis (clock i), till_hit fuel clock i t (rw same at e))
till_total (suc fuel) clock i (suc k) t h e =
    elim (Bool-cases (lt64 t (get_time_millis (clock i)))) [
      | inl hit ↦ (get_time_millis (clock i), till_hit fuel clock i t hit)
      | inr miss ↦
          let same : i + suc k ≡ i + 1 + k = omega arith in
          let (v, later) = till_total fuel clock (i + 1) k t (omega arith) (rw same at e) in
          (v, till_miss fuel clock i t miss ∙ later)
    ]
