-- ===== src/IdGen/Clock.antt =====
-- When a call of `Next` returns an id, and when it fails.
use nekoq_component.Base.{
  ℕ, ◌+◌, ◌^◌, ◌≤◌, ◌<◌, ◌≡◌, ◌≢◌, ◌↔◌, refl, ap, true, false, Option, none, some, arith, ltb→lt,
  ltb_false→le, lt→ltb,
}
use nekoq_component.Base.Words.{lt64, lt64_nonneg}
use nekoq_component.IdGen.{
  IdGen, IdType, Readings, Outcome, returned, failed, clock_backward, next, make_next_id,
  get_time_millis, advance_or_wait, till_next_millisecond,
}
use nekoq_component.IdGen.Ids.{get_time_millis-lt}
use nekoq_component.IdGen.Till.{till_total}
use nekoq_component.IdGen.Next.{IsValid, next_cases}

le_of_not_past : (a b : ℕ) → a < 2 ^ 63 → b < 2 ^ 63 → lt64 a b ≡ false → b ≤ a
le_of_not_past a b h k e = ltb_false→le a b (rw (lt64_nonneg a b h k) at e)

advance_or_wait_returns :
    (g : IdGen) (o : Option ℕ) (v : ℕ)
    → o ≡ some v
    → (i : IdType) × ((advance_or_wait g o).1 ≡ returned i)
advance_or_wait_returns g o v e = (make_next_id g v 0, rw e refl)

-- A clock that is not behind the generator's time, and that passes its reading among the readings
-- that the waiting loop takes, makes Next return an id.
pub next_returns :
    (g : IdGen) (r : Readings) (k : ℕ)
    → IsValid g
    → g.time ≤ get_time_millis r.now
    → k < r.count
    → get_time_millis r.now < get_time_millis (r.clock k)
    → (i : IdType) × ((next g r).1 ≡ returned i)
next_returns g r k v a h p =
    next_cases (λ s. (i : IdType) × (s.1 ≡ returned i)) g r
      (λ _. (make_next_id g (get_time_millis r.now) 0, refl)) (λ _ _. (_, refl))
      (λ _ _. advance_or_wait_returns g _ passed.0 passed.1)
      (λ b ne. absurd (ne (omega (arith, not_later b))))
  where
    beyond : lt64 (get_time_millis r.now) (get_time_millis (r.clock (0 + k))) ≡ true
    beyond =
        let same : 0 + k ≡ k = omega arith in
        rw (same, lt64_nonneg _ _ (get_time_millis-lt r.now) (get_time_millis-lt (r.clock k)))
          (lt→ltb _ _ p)

    passed : (t : ℕ) × (till_next_millisecond r.count r.clock 0 (get_time_millis r.now) ≡ some t)
    passed = till_total r.count r.clock 0 k (get_time_millis r.now) h beyond

    not_later : lt64 g.time (get_time_millis r.now) ≡ false → get_time_millis r.now ≤ g.time
    not_later =
        le_of_not_past g.time (get_time_millis r.now) v.time_nonneg (get_time_millis-lt r.now)

never_fails : (g : IdGen) (o : Option ℕ) → (advance_or_wait g o).1 ≢ failed clock_backward
never_fails g none e = cc
never_fails g (some t) e = cc

-- Next on a valid generator ends with the clock-backward error and an unchanged generator exactly
-- when the clock reading is before the generator's time.
pub next_failed_iff :
    (g : IdGen) (r : Readings)
    → IsValid g
    → (next g r ≡ (g, failed clock_backward)) ↔ (get_time_millis r.now < g.time)
next_failed_iff g r v = (
  next_cases (λ s. s ≡ (g, failed clock_backward) → now < g.time) g r
      (λ _ e. absurd (cc (ap (λ (s : IdGen × Outcome IdType). s.1) e)))
      (λ _ _ e. absurd (cc (ap (λ (s : IdGen × Outcome IdType). s.1) e)))
      (λ _ _ e. absurd (never_fails g _ (ap (λ (s : IdGen × Outcome IdType). s.1) e)))
      (λ b ne _.
        strictly (le_of_not_past g.time now v.time_nonneg (get_time_millis-lt r.now) b) ne),
  λ h.
      next_cases (λ s. s ≡ (g, failed clock_backward)) g r (λ a. absurd (omega (arith, h, later a)))
        (λ b _. absurd (omega (arith, h, b))) (λ b _. absurd (omega (arith, h, b))) (λ _ _. refl),
)
  where
    now : ℕ
    now = get_time_millis r.now

    strictly : now ≤ g.time → now ≢ g.time → now < g.time
    strictly h ne = omega arith

    later : lt64 g.time now ≡ true → g.time < now
    later a =
        ltb→lt g.time now
          (rw (lt64_nonneg g.time now v.time_nonneg (get_time_millis-lt r.now)) at a)
