-- ===== src/IdGen/Tests.antt =====
-- Concrete runs of id.go's functions, and the theorems at inputs that meet their hypotheses.
use nekoq_component.Base.{ℕ, ◌+◌, ◌-◌, ◌*◌, ◌%◌, ◌^◌, ◌<◌, ◌≡◌, ◌↔◌, refl, List, [], ◌∷◌, arith}
use nekoq_component.Base.Words.{lt32, lt64, add32}
use nekoq_component.IdGen.{
  IdGen, IdType, Instant, Readings, returned, failed, clock_backward, new_id_gen, make_id, next,
  next_n, get_time_millis,
}
use nekoq_component.IdGen.Ids.{make_id_injective}
use nekoq_component.IdGen.Next.{IsValid, InWindow, Served, new_id_gen-IsValid, next-Served}
use nekoq_component.IdGen.Order.{run_next, Ascending, run_next-Ascending}
use nekoq_component.IdGen.Clock.{next_returns, next_failed_iff}
use nekoq_component.IdGen.Batch.{next_n_repeats}

-- Node 7, element 3, from the default start.
abbrev fresh : IdGen
fresh = new_id_gen 7 3 (record { do_not_rewind_element_id_before = 0; start_time_millis = 0 })

fresh-IsValid : IsValid fresh
fresh-IsValid = new_id_gen-IsValid 7 3 _

-- One day after the start, at 5 ms past a second.
abbrev day_one : Instant
day_one = record { unix = 1521725400; nanosecond = 5000000 }

abbrev day_two : Instant
day_two = record { unix = 1521811800; nanosecond = 0 }

abbrev on_day_one : Readings
on_day_one = record { now = day_one; clock = λ _. day_two; count = 1 }

abbrev on_day_two : Readings
on_day_two = record { now = day_two; clock = λ _. day_two; count = 1 }

two_ids :
    run_next fresh (on_day_one ∷ on_day_one ∷ [])
    ≡ record { high = 86400005 * 2 ^ 16 + 7; low = 3 * 2 ^ 32 }
      ∷ record { high = 86400005 * 2 ^ 16 + 7; low = 3 * 2 ^ 32 + 1 }
      ∷ []
unfolding run_next next make_id get_time_millis new_id_gen lt64 lt32 add32
two_ids = refl

millis_one : get_time_millis day_one ≡ 1521725400005
unfolding get_time_millis
millis_one = refl

millis_two : get_time_millis day_two ≡ 1521811800000
unfolding get_time_millis
millis_two = refl

fresh_start : fresh.opt.start_time_millis ≡ 1521639000000
unfolding new_id_gen
fresh_start = refl

fresh_time : fresh.time ≡ 0
unfolding new_id_gen
fresh_time = refl

on_day_one-InWindow : InWindow fresh.opt.start_time_millis on_day_one
unfolding new_id_gen
on_day_one-InWindow = record {
  now_after = omega (arith, millis_one);
  now_before = omega (arith, millis_one);
  clock_after = λ i. omega (arith, millis_two);
  clock_before = λ i. omega (arith, millis_two);
}

on_day_two-InWindow : InWindow fresh.opt.start_time_millis on_day_two
unfolding new_id_gen
on_day_two-InWindow = record {
  now_after = omega (arith, millis_two);
  now_before = omega (arith, millis_two);
  clock_after = λ i. omega (arith, millis_two);
  clock_before = λ i. omega (arith, millis_two);
}

-- The clock goes back from the second day to the first: the third call fails.
backward_history :
    run_next fresh (on_day_one ∷ on_day_two ∷ on_day_one ∷ on_day_two ∷ [])
    ≡ record { high = 86400005 * 2 ^ 16 + 7; low = 3 * 2 ^ 32 }
      ∷ record { high = 172800000 * 2 ^ 16 + 7; low = 3 * 2 ^ 32 }
      ∷ record { high = 172800000 * 2 ^ 16 + 7; low = 3 * 2 ^ 32 + 1 }
      ∷ []
unfolding run_next next make_id get_time_millis new_id_gen lt64 lt32 add32
backward_history = refl

run_next-Ascending_example : Ascending (run_next fresh (on_day_one ∷ on_day_two ∷ on_day_one ∷ []))
run_next-Ascending_example =
    run_next-Ascending fresh (on_day_one ∷ on_day_two ∷ on_day_one ∷ []) fresh-IsValid
      (on_day_one-InWindow, (on_day_two-InWindow, (on_day_one-InWindow, tt)))

next-Served_example : Served fresh (next fresh on_day_one).0 (next fresh on_day_one).1
next-Served_example = next-Served fresh on_day_one fresh-IsValid on_day_one-InWindow

next_returns_example : (i : IdType) × ((next fresh on_day_one).1 ≡ returned i)
next_returns_example =
    next_returns fresh on_day_one 0 fresh-IsValid (omega (arith, fresh_time)) (omega arith)
      (omega (arith, millis_one, millis_two))

-- A generator in its last sequence number of the first day's millisecond.
abbrev full : IdGen
full = record fresh { time = 1521725400005; seq = 2 ^ 31 - 1 }

full-IsValid : IsValid full
unfolding new_id_gen
full-IsValid = record {
  time_nonneg = omega arith;
  seq_nonneg = omega arith;
  node_fits = fresh-IsValid.node_fits;
  element_low = fresh-IsValid.element_low;
  element_fits = fresh-IsValid.element_fits;
}

next_failed_iff_example :
    (next full on_day_one ≡ (full, failed clock_backward)) ↔ (get_time_millis day_one < full.time)
next_failed_iff_example = next_failed_iff full on_day_one full-IsValid

-- The node mask and sequence number of one id.
abbrev some_id : IdType
some_id = record { high = 0x1234_5678_9abc_def0; low = 2 ^ 64 - 1 }

make_id_injective_example :
    (◌≡◌ {A = ℕ} 7 7)
    × (◌≡◌ {A = ℕ} 3 3)
    × (◌≡◌ {A = ℕ} 1 1)
    × ((9 + 2 ^ 64 - 5) % 2 ^ 48 ≡ (9 + 2 ^ 64 - 5) % 2 ^ 48)
make_id_injective_example =
    make_id_injective 9 7 3 1 9 7 3 1 5 (omega arith) (omega arith) (omega arith) (omega arith)
      (omega arith) (omega arith) refl

-- The generator after one id in the first day's millisecond.
abbrev busy : IdGen
busy = record fresh { time = 1521725400005; seq = 4 }

busy-IsValid : IsValid busy
unfolding new_id_gen
busy-IsValid = record {
  time_nonneg = omega arith;
  seq_nonneg = omega arith;
  node_fits = fresh-IsValid.node_fits;
  element_low = fresh-IsValid.element_low;
  element_fits = fresh-IsValid.element_fits;
}

next_n_repeats_example :
    (i : IdType) × (rest : List IdType) × ((next busy on_day_one).1 ≡ returned i)
    × ((next_n (next busy on_day_one).0 2 on_day_one).1 ≡ returned (i ∷ rest))
next_n_repeats_example =
    next_n_repeats busy on_day_one on_day_one 0 busy-IsValid millis_one millis_one (omega arith)
