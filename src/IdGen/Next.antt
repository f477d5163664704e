-- ===== src/IdGen/Next.antt =====
-- `Next` of id.go: the id that a call returns, and the generator after it.
use nekoq_component.Base.{
  ℕ, ◌+◌, ◌-◌, ◌*◌, ◌%◌, ◌^◌, ◌≤◌, ◌<◌, ◌≡◌, ◌≢◌, refl, true, false, Option, none, some, arith, inl,
  inr, Bool-cases, ltb→lt, ==_iff, ◌==◌, bit_and, bit_and_low,
}
use nekoq_component.Base.Words.{lt32, lt64, lt64_nonneg, add32, max_int32}
use nekoq_component.IdGen.{
  IdGen, IdGenOption, get_time_millis, IdType, Readings, Outcome, returned, failed, waiting,
  clock_backward, next, new_id_gen, make_next_id, advance, advance_or_wait, till_next_millisecond,
}
use nekoq_component.IdGen.Ids.{get_time_millis-lt}
use nekoq_component.IdGen.Till.{till_sound}

-- The masks fill their fields, and neither the time nor the sequence number is negative.
pub record IsValid (g : IdGen) : Type 0 where
  pub time_nonneg : g.time < 2 ^ 63
  pub seq_nonneg : g.seq < 2 ^ 31
  pub node_fits : g.node_id_mask < 2 ^ 16
  pub element_low : g.element_id_mask % 2 ^ 32 ≡ 0
  pub element_fits : g.element_id_mask < 2 ^ 64

-- The readings of one call are what `getTimeMillis` gives from the generator's start on, as long
-- as 47 bits of milliseconds last.
pub record InWindow (start : ℕ) (r : Readings) : Type 0 where
  pub now_after : start ≤ get_time_millis r.now
  pub now_before : get_time_millis r.now < start + 2 ^ 47
  pub clock_after : (i : ℕ) → start ≤ get_time_millis (r.clock i)
  pub clock_before : (i : ℕ) → get_time_millis (r.clock i) < start + 2 ^ 47

abbrev pub key : IdGen → ℕ
key g = g.time * 2 ^ 32 + g.seq

node_mask_fits : (x : ℕ) → bit_and x (2 ^ 16 - 1) < 2 ^ 16
node_mask_fits x = rw (bit_and_low 16 x) (omega arith)

pub new_id_gen-IsValid :
    (node element : ℕ) (opt : IdGenOption) → IsValid (new_id_gen node element opt)
unfolding new_id_gen
new_id_gen-IsValid node element opt = record {
  time_nonneg = omega arith;
  seq_nonneg = omega arith;
  node_fits = node_mask_fits _;
  element_low = omega arith;
  element_fits = omega arith;
}

-- An id issued after position `k` of a generator, up to position `m`.
pub record Issued (g : IdGen) (k m : ℕ) (i : IdType) : Type 0 where
  pub time : ℕ
  pub seq : ℕ
  pub is_made : i ≡ make_next_id g time seq
  pub after_start : g.opt.start_time_millis ≤ time
  pub in_window : time < g.opt.start_time_millis + 2 ^ 47
  pub seq_fits : seq < 2 ^ 31
  pub above : k < time * 2 ^ 32 + seq
  pub reached : time * 2 ^ 32 + seq ≤ m

abbrev pub SameConfig : IdGen → IdGen → Type 0
SameConfig g h =
    (h.node_id_mask ≡ g.node_id_mask) × (h.element_id_mask ≡ g.element_id_mask) × (h.opt ≡ g.opt)

-- What a call leaves: a valid generator that never goes back, and the id if it returns one.
pub record Served (g h : IdGen) (o : Outcome IdType) : Type 0 where
  pub valid : IsValid h
  pub config : SameConfig g h
  pub forward : key g ≤ key h
  pub issued : (i : IdType) → o ≡ returned i → Issued g (key g) (key h) i

advance-Served :
    (g : IdGen) (t : ℕ)
    → IsValid g
    → g.opt.start_time_millis ≤ t
    → t < g.opt.start_time_millis + 2 ^ 47
    → t < 2 ^ 63
    → g.time < t
    → Served g (advance g t).0 (advance g t).1
unfolding lt32
advance-Served g t v a b c d = record {
  valid = ground arith;
  config = (refl, refl, refl);
  forward = ground arith;
  issued = λ i e. record {
    time = t;
    seq = 0;
    is_made = cc;
    after_start = a;
    in_window = b;
    seq_fits = omega arith;
    above = ground arith;
    reached = ground arith;
  };
}

next_seq-Served :
    (g : IdGen) (t : ℕ)
    → IsValid g
    → g.opt.start_time_millis ≤ t
    → t < g.opt.start_time_millis + 2 ^ 47
    → t ≡ g.time
    → lt32 g.seq max_int32 ≡ true
    → Served g (record g { seq = add32 g.seq 1 }) (returned (make_next_id g t (add32 g.seq 1)))
unfolding lt32 add32
next_seq-Served g t v a b e room = record {
  valid = ground arith;
  config = (refl, refl, refl);
  forward = ground arith;
  issued = λ i r. record {
    time = t;
    seq = add32 g.seq 1;
    is_made = cc;
    after_start = a;
    in_window = b;
    seq_fits = ground arith;
    above = ground arith;
    reached = ground arith;
  };
}

stay-Served :
    (g : IdGen) (o : Outcome IdType) → IsValid g → ((i : IdType) → o ≢ returned i) → Served g g o
stay-Served g o v h = record {
  valid = v;
  config = (refl, refl, refl);
  forward = omega arith;
  issued = λ i e. absurd (h i e);
}

advance_or_wait-Served :
    (g : IdGen) (o : Option ℕ)
    → IsValid g
    → ((v : ℕ)
        → o ≡ some v
        → (g.opt.start_time_millis ≤ v)
          × (v < g.opt.start_time_millis + 2 ^ 47)
          × (v < 2 ^ 63)
          × (g.time < v))
    → Served g (advance_or_wait g o).0 (advance_or_wait g o).1
advance_or_wait-Served g none v h = stay-Served g waiting v (λ i e. cc)
advance_or_wait-Served g (some t) v h = let (a, b, c, d) = h t refl in advance-Served g t v a b c d

-- The four ways through `Next`.
pub next_cases {ℓ} :
    (P : IdGen × Outcome IdType → Type ℓ) (g : IdGen) (r : Readings)
    → (lt64 g.time (get_time_millis r.now) ≡ true → P (advance g (get_time_millis r.now)))
    → (get_time_millis r.now ≡ g.time
        → lt32 g.seq max_int32 ≡ true
        → P (
          record g { seq = add32 g.seq 1 },
          returned (make_next_id g (get_time_millis r.now) (add32 g.seq 1)),
        ))
    → (get_time_millis r.now ≡ g.time
        → lt32 g.seq max_int32 ≡ false
        → P (advance_or_wait g (till_next_millisecond r.count r.clock 0 (get_time_millis r.now))))
    → (lt64 g.time (get_time_millis r.now) ≡ false
        → get_time_millis r.now ≢ g.time
        → P (g, failed clock_backward))
    → P (next g r)
unfolding next
next_cases P g r later room full back = elim (Bool-cases (lt64 g.time (get_time_millis r.now))) [
  | inl a ↦ rw a (later a)
  | inr a ↦ elim (Bool-cases (get_time_millis r.now == g.time)) [
    | inl b ↦ elim (Bool-cases (lt32 g.seq max_int32)) [
      | inl c ↦ rw (a, b, c) (room ((==_iff _ _).0 b) c)
      | inr c ↦ rw (a, b, c) (full ((==_iff _ _).0 b) c)
    ]
    | inr b ↦ rw (a, b) (back a (λ e. cc ((==_iff _ _).1 e)))
  ]
]

-- From a valid generator and readings in the window, a call of Next leaves a valid generator with
-- the same configuration that has not gone back, and an id that it returns was made from a time
-- and a sequence number past all that the generator had reached.
pub next-Served :
    (g : IdGen) (r : Readings)
    → IsValid g
    → InWindow g.opt.start_time_millis r
    → Served g (next g r).0 (next g r).1
next-Served g r v w =
    next_cases (λ p. Served g p.0 p.1) g r
      (λ a.
        advance-Served g now v w.now_after w.now_before (get_time_millis-lt r.now)
          (past now a (get_time_millis-lt r.now)))
      (λ b c. next_seq-Served g now v w.now_after w.now_before b c)
      (λ b c.
        advance_or_wait-Served g (till_next_millisecond r.count r.clock 0 now) v
          (λ t e. waited b t e))
      (λ a b. stay-Served g (failed clock_backward) v (λ i e. cc))
  where
    now : ℕ
    now = get_time_millis r.now

    past : (t : ℕ) → lt64 g.time t ≡ true → t < 2 ^ 63 → g.time < t
    past t a h = ltb→lt g.time t (rw (lt64_nonneg g.time t v.time_nonneg h) at a)

    waited :
        now ≡ g.time
        → (t : ℕ) → till_next_millisecond r.count r.clock 0 now ≡ some t
        → (g.opt.start_time_millis ≤ t)
          × (t < g.opt.start_time_millis + 2 ^ 47)
          × (t < 2 ^ 63)
          × (g.time < t)
    waited b t e =
        let (p, q) =
          till_sound
            (λ x.
              (g.opt.start_time_millis ≤ x) × (x < g.opt.start_time_millis + 2 ^ 47) × (x < 2 ^ 63))
            r.count r.clock 0 now
            (λ k. (w.clock_after k, w.clock_before k, get_time_millis-lt (r.clock k))) e in
        (p.0, p.1, p.2, past t (rw b at q) p.2)
