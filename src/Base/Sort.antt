-- ===== src/Base/Sort.antt =====
-- `slices.Sort` of strings: the order by bytes, and a sorted list that does not depend on the order of
-- its input.
use mathlib.Core.Path.{◌≡◌, refl, ◌∙◌}
use mathlib.Core.Bool.{true, false}
use mathlib.Core.List.{List, [], ◌∷◌, Perm, Permᴰ}
use mathlib.Core.Logic.{∥∥₁_elim}
use native.Mathlib.Omega.{arith}
use native.Mathlib.Decide.{ℕ_discrete}
use nekoq_component.Base.Tests.{if◌then◌else◌}
use nekoq_component.Base.Str.{Str, str_lt}

pub str_lt_irrefl : (s : Str) → str_lt s s ≡ false
str_lt_irrefl [] = refl
str_lt_irrefl (c ∷ s) = ground (arith, str_lt_irrefl s)

pub str_lt_trans : (s t u : Str) → str_lt s t ≡ true → str_lt t u ≡ true → str_lt s u ≡ true
str_lt_trans s t [] p q = cc
str_lt_trans s [] (e ∷ u) p q = cc
str_lt_trans [] (d ∷ t) (e ∷ u) p q = refl
str_lt_trans (c ∷ s) (d ∷ t) (e ∷ u) p q = ground (arith, str_lt_trans s t u)

-- Two strings of which neither is less are the same.
pub str_lt_total : (s t : Str) → str_lt s t ≡ false → str_lt t s ≡ false → s ≡ t
str_lt_total [] [] p q = refl
str_lt_total [] (d ∷ t) p q = cc
str_lt_total (c ∷ s) [] p q = cc
str_lt_total (c ∷ s) (d ∷ t) p q = ground (arith, str_lt_total s t)

unfoldable pub insert_sorted : Str → List Str → List Str
insert_sorted k [] = k ∷ []
insert_sorted k (j ∷ js) = if str_lt j k then j ∷ insert_sorted k js else k ∷ j ∷ js

unfoldable pub sort : List Str → List Str
sort [] = []
sort (k ∷ ks) = insert_sorted k (sort ks)

insert_sorted_comm :
    (a b : Str) (l : List Str)
    → insert_sorted a (insert_sorted b l) ≡ insert_sorted b (insert_sorted a l)
unfolding insert_sorted
insert_sorted_comm a b [] = ground (arith, str_lt_trans a b a, str_lt_irrefl a, str_lt_total a b)
insert_sorted_comm a b (j ∷ js) = ground (
  arith,
  insert_sorted_comm a b js,
  str_lt_trans a b a,
  str_lt_irrefl a,
  str_lt_total a b,
  str_lt_trans j a b,
  str_lt_trans j b a,
  str_lt_trans b j a,
  str_lt_trans a j b,
)

sort-Permᴰ : {k l : List Str} → Permᴰ k l → sort k ≡ sort l
unfolding sort
sort-Permᴰ Permᴰ.nil = refl
sort-Permᴰ (Permᴰ.cons e p) = rw (e, sort-Permᴰ p) refl
sort-Permᴰ (Permᴰ.swap {a} {b} {a'} {b'} {l} e f) = rw (insert_sorted_comm a b (sort l), e, f) refl
sort-Permᴰ (Permᴰ.trans p q) = sort-Permᴰ p ∙ sort-Permᴰ q

-- Sorting forgets the order of its input.
pub sort-Perm : {k l : List Str} → Perm k l → sort k ≡ sort l
sort-Perm p = ∥∥₁_elim p (hlevel ℕ_discrete) sort-Permᴰ
