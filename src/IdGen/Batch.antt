-- ===== src/IdGen/Batch.antt =====
-- `NextN` of id.go: the ids of a batch, and what goes wrong within one millisecond.
use nekoq_component.Base.{
  ℕ, zero, suc, ◌+◌, ◌-◌, ◌%◌, ◌^◌, ◌<◌, ◌≡◌, refl, ap, true, false, List, [], ◌∷◌, ◌++◌,
  append-nil, some, arith, lt→ltb, le→ltb_false, ==_iff, replicate,
}
use nekoq_component.Base.Words.{
  le32, lt64, lt64_nonneg, lt32_nonneg, add32, sub64, int32_of_int64, max_int32,
}
use nekoq_component.IdGen.{
  IdGen, IdType, zero_id, Readings, Outcome, returned, next, next_n, make_next_id, make_id_range,
  get_time_millis, count_less_one, make_batch, range_outcome,
}
use nekoq_component.IdGen.Ids.{get_time_millis-lt}
use nekoq_component.IdGen.Next.{IsValid}

-- `n` ids of one millisecond, with sequence numbers from `s` on.
unfoldable pub id_run : IdGen → ℕ → ℕ → ℕ → List IdType
id_run g t s zero = []
id_run g t s (suc n) = make_next_id g t s ∷ id_run g t (s + 1) n

range_done :
    (start end : ℕ)
    → end < 2 ^ 32
    → (end + 1) % 2 ^ 32 ≡ start + 0
    → start + 0 < 2 ^ 31
    → le32 start end ≡ false
unfolding le32
range_done start end a b c = ground arith

range_more :
    (start end n : ℕ)
    → end < 2 ^ 32
    → (end + 1) % 2 ^ 32 ≡ start + suc n
    → start + suc n < 2 ^ 31
    → le32 start end ≡ true
unfolding le32
range_more start end n a b c = ground arith

next_start : (s : ℕ) → s + 1 < 2 ^ 32 → add32 s 1 ≡ s + 1
unfolding add32
next_start s h = omega arith

-- The range from `start` to `end` fills `n` slots and leaves the others.
make_id_range_lem :
    (g : IdGen) (t start end n : ℕ) (rest : List IdType)
    → end < 2 ^ 32
    → (end + 1) % 2 ^ 32 ≡ start + n
    → start + n < 2 ^ 31
    → make_id_range t g.node_id_mask g.element_id_mask
        (replicate n zero_id ++ rest)
        start
        end
        g.opt.start_time_millis
      ≡ some (id_run g t start n ++ rest)
unfolding make_id_range id_run
make_id_range_lem g t start end zero [] a b c = rw (range_done start end a b c) refl
make_id_range_lem g t start end zero (x ∷ xs) a b c = rw (range_done start end a b c) refl
make_id_range_lem g t start end (suc n) rest a b c =
    rw
      (
        range_more start end n a b c,
        next_start start (omega arith),
        make_id_range_lem g t (start + 1) end n rest a (omega arith) (omega arith),
      )
      refl

replicate_last : (n : ℕ) → replicate (suc n) zero_id ≡ replicate n zero_id ++ (zero_id ∷ [])
replicate_last zero = refl
replicate_last (suc n) = ap (λ l. zero_id ∷ l) (replicate_last n)

small_count : (n : ℕ) → suc n < 2 ^ 31 → count_less_one (suc n) ≡ n
unfolding sub64 int32_of_int64
small_count n h = omega arith

make_batch_full :
    (g : IdGen) (t n : ℕ)
    → suc n < 2 ^ 31
    → make_batch g t (replicate (suc n) zero_id) 0 n ≡ returned (id_run g t 0 (suc n))
make_batch_full g t n h = ap range_outcome (
    simp append-nil at
      (make_id_range_lem g t 0 n (suc n) [] (omega arith) (omega arith) (omega arith)))

make_batch_short :
    (g : IdGen) (t s n : ℕ)
    → s + n < 2 ^ 31 - 1
    → make_batch g t (replicate (suc n) zero_id) s (add32 (s + n) (2 ^ 32 - 1))
      ≡ returned (id_run g t s n ++ (zero_id ∷ []))
unfolding add32
make_batch_short g t s n h =
    rw
      (
        replicate_last n,
        make_id_range_lem g t s ((s + n + (2 ^ 32 - 1)) % 2 ^ 32) n (zero_id ∷ []) (omega arith)
            (omega arith) (omega arith),
      )
      refl

count_positive : (n : ℕ) → suc n < 2 ^ 31 → lt64 (suc n) 0 ≡ false
unfolding lt64
count_positive n h = ground arith

small_add : (s n : ℕ) → s + n < 2 ^ 32 → add32 s n ≡ s + n
unfolding add32
small_add s n h = omega arith

-- When the clock is past the generator's time, NextN of a count from 1 to 2^31 - 1 returns exactly
-- that many ids of the new millisecond, with the sequence numbers 0, 1, 2 and so on, and moves the
-- generator to that millisecond.
pub next_n_later :
    (g : IdGen) (r : Readings) (n : ℕ)
    → IsValid g
    → suc n < 2 ^ 31
    → g.time < get_time_millis r.now
    → next_n g (suc n) r ≡ (
      record g { time = get_time_millis r.now; seq = add32 g.seq n },
      returned (id_run g (get_time_millis r.now) 0 (suc n)),
    )
unfolding next_n
next_n_later g r n v h p =
    rw
      (
        count_positive n h,
        lt64_nonneg g.time (get_time_millis r.now) v.time_nonneg (get_time_millis-lt r.now),
        lt→ltb g.time (get_time_millis r.now) p,
        small_count n h,
        make_batch_full g (get_time_millis r.now) n h,
      )
      refl

-- Within the generator's millisecond, as long as the sequence numbers last, NextN of a positive
-- count returns one id less than it was asked for: the last entry is the zero id, and the entries
-- before it start at the sequence number that the generator has reached already.
pub next_n_same_millisecond :
    (g : IdGen) (r : Readings) (n : ℕ)
    → IsValid g
    → get_time_millis r.now ≡ g.time
    → g.seq + n < max_int32
    → next_n g (suc n) r
      ≡ (record g { seq = g.seq + n }, returned (id_run g g.time g.seq n ++ (zero_id ∷ [])))
unfolding next_n
next_n_same_millisecond g r n v e h =
    rw
      (
        count_positive n (omega arith),
        e,
        lt64_nonneg g.time g.time v.time_nonneg v.time_nonneg,
        le→ltb_false g.time g.time (omega arith),
        (==_iff g.time g.time).1 refl,
        small_count n (omega arith),
        small_add g.seq n (omega arith),
        lt32_nonneg (g.seq + n) max_int32 (omega arith) (omega arith),
        lt→ltb (g.seq + n) max_int32 h,
        make_batch_short g g.time g.seq n (omega arith),
      )
      refl

next_same_millisecond :
    (g : IdGen) (r : Readings)
    → IsValid g
    → get_time_millis r.now ≡ g.time
    → g.seq < max_int32
    → next g r ≡ (record g { seq = g.seq + 1 }, returned (make_next_id g g.time (g.seq + 1)))
unfolding next
next_same_millisecond g r v e h =
    rw
      (
        e,
        lt64_nonneg g.time g.time v.time_nonneg v.time_nonneg,
        le→ltb_false g.time g.time (omega arith),
        (==_iff g.time g.time).1 refl,
        lt32_nonneg g.seq max_int32 (omega arith) (omega arith),
        lt→ltb g.seq max_int32 h,
        small_add g.seq 1 (omega arith),
      )
      refl

-- An id that Next has just issued within the generator's millisecond is issued once more, as the
-- first one, by a NextN of two or more within the same millisecond, as long as the sequence
-- numbers last.
pub next_n_repeats :
    (g : IdGen) (r r' : Readings) (n : ℕ)
    → IsValid g
    → get_time_millis r.now ≡ g.time
    → get_time_millis r'.now ≡ g.time
    → g.seq + n + 2 < max_int32
    → (i : IdType) × (rest : List IdType) × ((next g r).1 ≡ returned i)
      × ((next_n (next g r).0 (suc (suc n)) r').1 ≡ returned (i ∷ rest))
unfolding id_run
next_n_repeats g r r' n v e e' h = (
  make_next_id g g.time (g.seq + 1),
  id_run h' h'.time (h'.seq + 1) n ++ (zero_id ∷ []),
  ap (λ (s : IdGen × Outcome IdType). s.1) first,
  second,
)
  where
    h' : IdGen
    h' = record g { seq = g.seq + 1 }

    valid : IsValid h'
    valid = record {
      time_nonneg = v.time_nonneg;
      seq_nonneg = omega arith;
      node_fits = v.node_fits;
      element_low = v.element_low;
      element_fits = v.element_fits;
    }

    first : next g r ≡ (h', returned (make_next_id g g.time (g.seq + 1)))
    first = next_same_millisecond g r v e (omega arith)

    second :
        (next_n (next g r).0 (suc (suc n)) r').1
        ≡ returned (
            make_next_id g g.time (g.seq + 1)
            ∷ (id_run h' h'.time (h'.seq + 1) n ++ (zero_id ∷ [])))
    second = rw first (
        ap (λ (s : IdGen × Outcome (List IdType)). s.1)
          (next_n_same_millisecond h' r' (suc n) valid e' (omega arith)))
