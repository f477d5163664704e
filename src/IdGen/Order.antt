-- ===== src/IdGen/Order.antt =====
-- Histories of `Next` on one generator: the order of the ids, and when a call returns one.
use nekoq_component.Base.{
  ℕ, ◌+◌, ◌*◌, ◌/◌, ◌^◌, ◌≤◌, ◌<◌, ◌≡◌, refl, sym, List, [], ◌∷◌, arith, All,
}
use mathlib.Core.Path.{subst₂}
use nekoq_component.Base.Words.{lt64}
use nekoq_component.IdGen.{
  IdGen, IdType, Readings, Outcome, returned, failed, waiting, panicked, before, compare_to, next,
  make_id,
}
use nekoq_component.IdGen.Ids.{high-make_id, low-make_id}
use nekoq_component.IdGen.Next.{IsValid, InWindow, Issued, Served, SameConfig, key, next-Served}

-- Callers that come one after the other. A call that is still waiting keeps the lock, and nobody
-- after it is served.
pub after_call : IdGen × Outcome IdType → (IdGen → List IdType) → List IdType
after_call (g, returned i) rest = i ∷ rest g
after_call (g, failed e) rest = rest g
after_call (g, waiting) rest = []
after_call (g, panicked) rest = []

unfoldable pub run_next : IdGen → List Readings → List IdType
unfolding after_call
run_next g [] = []
run_next g (r ∷ rs) = after_call (next g r) (λ h. run_next h rs)

abbrev pub Ascending : List IdType → Type 0
Ascending [] = Unit
Ascending (i ∷ is) = All (λ j. compare_to i j ≡ before) is × Ascending is

make_id_before :
    (t n e s t' s' start : ℕ)
    → start ≤ t
    → t < start + 2 ^ 47
    → start ≤ t'
    → t' < start + 2 ^ 47
    → n < 2 ^ 16
    → e < 2 ^ 32
    → s < 2 ^ 31
    → s' < 2 ^ 31
    → t * 2 ^ 32 + s < t' * 2 ^ 32 + s'
    → compare_to (make_id t n (e * 2 ^ 32) s start) (make_id t' n (e * 2 ^ 32) s' start) ≡ before
unfolding compare_to lt64
make_id_before t n e s t' s' start a b a' b' c d f f' k = ground (
  arith,
  high-make_id t n (e * 2 ^ 32) s start c,
  high-make_id t' n (e * 2 ^ 32) s' start c,
  low-make_id t n e s start (omega arith),
  low-make_id t' n e s' start (omega arith),
)

-- An id issued up to `k` comes before one issued after `k` under the same configuration.
Issued_before :
    (g h : IdGen) (a k m : ℕ) (i j : IdType)
    → IsValid g
    → SameConfig g h
    → Issued g a k i
    → Issued h k m j
    → compare_to i j ≡ before
Issued_before g h a k m i j v c p q =
    subst₂ (λ x y. compare_to x y ≡ before) (sym i_made) (sym j_made)
      (make_id_before p.time g.node_id_mask e p.seq q.time q.seq g.opt.start_time_millis
        p.after_start p.in_window q_after q_window v.node_fits (omega arith) p.seq_fits q.seq_fits
        (omega (arith, p.reached, q.above)))
  where
    e : ℕ
    e = g.element_id_mask / 2 ^ 32

    mask : e * 2 ^ 32 ≡ g.element_id_mask
    mask = omega (arith, v.element_low)

    i_made : i ≡ make_id p.time g.node_id_mask (e * 2 ^ 32) p.seq g.opt.start_time_millis
    i_made = rw mask p.is_made

    j_made : j ≡ make_id q.time g.node_id_mask (e * 2 ^ 32) q.seq g.opt.start_time_millis
    j_made = rw mask (cc (q.is_made, c.0, c.1, c.2))

    start_eq : h.opt.start_time_millis ≡ g.opt.start_time_millis
    start_eq = cc (c.2)

    q_after : g.opt.start_time_millis ≤ q.time
    q_after = omega (arith, q.after_start, start_eq)

    q_window : q.time < g.opt.start_time_millis + 2 ^ 47
    q_window = omega (arith, q.in_window, start_eq)

-- Every id of a history was issued after the key of its first generator.
LaterThan : IdGen → List IdType → Type 0
LaterThan g is = All (λ j. (m : ℕ) × Issued g (key g) m j) is

record Run (g : IdGen) (is : List IdType) : Type 0 where
  later : All (λ j. (m : ℕ) × Issued g (key g) m j) is
  ascending : Ascending is

Issued-weaken :
    (g h : IdGen) (m : ℕ) (j : IdType)
    → SameConfig g h
    → key g ≤ key h
    → Issued h (key h) m j
    → Issued g (key g) m j
Issued-weaken g h m j c f q = record {
  time = q.time;
  seq = q.seq;
  is_made = cc (q.is_made, c.0, c.1, c.2);
  after_start = omega (arith, q.after_start, start_eq);
  in_window = omega (arith, q.in_window, start_eq);
  seq_fits = q.seq_fits;
  above = omega (arith, q.above);
  reached = q.reached;
}
  where
    start_eq : h.opt.start_time_millis ≡ g.opt.start_time_millis
    start_eq = cc (c.2)

All-later :
    (g h : IdGen) (is : List IdType)
    → SameConfig g h
    → key g ≤ key h
    → All (λ j. (m : ℕ) × Issued h (key h) m j) is
    → All (λ j. (m : ℕ) × Issued g (key g) m j) is
All-later g h [] c f p = tt
All-later g h (j ∷ is) c f p =
    ((p.0.0, Issued-weaken g h p.0.0 j c f p.0.1), All-later g h is c f p.1)

All-before :
    (g h : IdGen) (a : ℕ) (i : IdType) (is : List IdType)
    → IsValid g
    → SameConfig g h
    → Issued g a (key h) i
    → All (λ j. (m : ℕ) × Issued h (key h) m j) is
    → All (λ j. compare_to i j ≡ before) is
All-before g h a i [] v c q p = tt
All-before g h a i (j ∷ is) v c q p =
    (Issued_before g h a (key h) p.0.0 i j v c q p.0.1, All-before g h a i is v c q p.1)

after_call-Run :
    (g h : IdGen) (o : Outcome IdType) (rest : IdGen → List IdType)
    → IsValid g
    → Served g h o
    → Run h (rest h)
    → Run g (after_call (h, o) rest)
unfolding after_call
after_call-Run g h (returned i) rest v s r = record {
  later = ((key h, s.issued i refl), All-later g h (rest h) s.config s.forward r.later);
  ascending = (All-before g h (key g) i (rest h) v s.config (s.issued i refl) r.later, r.ascending);
}
after_call-Run g h (failed e) rest v s r = record {
  later = All-later g h (rest h) s.config s.forward r.later;
  ascending = r.ascending;
}
after_call-Run g h waiting rest v s r = record { later = tt; ascending = tt }
after_call-Run g h panicked rest v s r = record { later = tt; ascending = tt }

abbrev AllInWindow : ℕ → List Readings → Type 0
AllInWindow start rs = All (InWindow start) rs

run_next-Run :
    (g : IdGen) (rs : List Readings)
    → IsValid g
    → All (InWindow g.opt.start_time_millis) rs
    → Run g (run_next g rs)
unfolding run_next
run_next-Run g [] v w = record { later = tt; ascending = tt }
run_next-Run g (r ∷ rs) v w =
    let s = next-Served g r v w.0 in
    let same : (next g r).0.opt ≡ g.opt = s.config.2 in
    let still : All (InWindow (next g r).0.opt.start_time_millis) rs = rw same w.1 in
    after_call-Run g (next g r).0 (next g r).1 (λ h. run_next h rs) v s
      (run_next-Run (next g r).0 rs s.valid still)

-- Whatever the clock readings are within 47 bits of milliseconds from the start time, the ids that
-- successive calls of Next return on one valid generator are strictly ascending by CompareTo, so
-- that no two are the same.
pub run_next-Ascending :
    (g : IdGen) (rs : List Readings)
    → IsValid g
    → All (InWindow g.opt.start_time_millis) rs
    → Ascending (run_next g rs)
run_next-Ascending g rs v w = (run_next-Run g rs v w).ascending
