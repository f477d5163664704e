-- ===== src/ConfigApi/Blank.antt =====
-- A blank before a key: configure/configapi/protocol.go, Fill.
use nekoq_component.Base.{
  All-append, List, [], ap, arith, drop, false, length, length-append, refl, suc, take, zero, ℕ,
  ◌++◌, ◌+◌, ◌∷◌, ◌≡◌,
}
use nekoq_component.Base.Str.{Str}
use nekoq_component.Base.Map.{Map, insert, nat_eq, str_key}
use nekoq_component.ConfigApi.{fill_splits, is_space, trim_left, trim_space}
use nekoq_component.ConfigApi.Words.{IsClean, IsClean-NoBlank, NoBlank, index_clean, trim_space_id}

take_key : (k cs v : Str) → take (length k) ((k ++ cs) ++ v) ≡ k
take_key [] cs v = refl
take_key (d ∷ k) cs v = ap (λ t. d ∷ t) (take_key k cs v)

drop_key : (k : Str) (c : ℕ) (cs v : Str) → drop (suc (length k)) ((k ++ c ∷ cs) ++ v) ≡ cs ++ v
drop_key [] c cs v = refl
drop_key (d ∷ k) c cs v = drop_key k c cs v

-- As many blanks as a text has bytes.
unfoldable pub blanks_of : Str → Str
blanks_of [] = []
blanks_of (c ∷ cs) = 32 ∷ blanks_of cs

trim_blanks : (cs s : Str) → NoBlank s → trim_space (blanks_of cs ++ s) ≡ s
unfolding trim_space trim_left is_space blanks_of
trim_blanks [] s h = trim_space_id s h
trim_blanks (c ∷ cs) s h = trim_blanks cs s h

equals-NoBlank : (k v : Str) → IsClean k → IsClean v → NoBlank (k ++ 61 ∷ v)
unfolding is_space
equals-NoBlank k v h g =
    All-append (λ c. is_space c ≡ false) k (61 ∷ v) (IsClean-NoBlank k h)
      (refl, IsClean-NoBlank v g)

take_blanks :
    (ds k cs v : Str) (n : ℕ)
    → n ≡ length ds + length k
    → take n (blanks_of ds ++ ((k ++ cs) ++ v)) ≡ blanks_of ds ++ k
unfolding blanks_of
take_blanks [] k cs v n e =
    let same : n ≡ length k = omega (arith, e) in rw (same) (take_key k cs v)
take_blanks (d ∷ ds) k cs v zero e = absurd (omega arith)
take_blanks (d ∷ ds) k cs v (suc n) e = ap (λ t. 32 ∷ t) (take_blanks ds k cs v n (omega arith))

drop_blanks :
    (ds k : Str) (c : ℕ) (cs v : Str) (n : ℕ)
    → n ≡ suc (length ds + length k)
    → drop n (blanks_of ds ++ ((k ++ c ∷ cs) ++ v)) ≡ cs ++ v
unfolding blanks_of
drop_blanks [] k c cs v n e =
    let same : n ≡ suc (length k) = omega (arith, e) in rw (same) (drop_key k c cs v)
drop_blanks (d ∷ ds) k c cs v zero e = absurd (omega arith)
drop_blanks (d ∷ ds) k c cs v (suc n) e = drop_blanks ds k c cs v n (omega arith)

-- An element of a selectors string that is one or more spaces, a clean key of at least as many
-- bytes, an equals sign and a clean value is read wrongly: the key loses as many of its last bytes
-- as there are spaces, and all of these but the first begin the value, before the equals sign. The
-- key is cut at an index that was found in the trimmed element. What is left of the key and what
-- goes to the value are clean.
pub fill_splits_blank :
    (k : Str) (c : ℕ) (cs v : Str) (vs : List Str) (acc : Map Str Str)
    → IsClean (k ++ c ∷ cs)
    → IsClean k
    → IsClean cs
    → IsClean v
    → fill_splits ((blanks_of (c ∷ cs) ++ ((k ++ c ∷ cs) ++ 61 ∷ v)) ∷ vs) acc
      ≡ fill_splits vs (insert k (cs ++ 61 ∷ v) acc)
unfolding fill_splits
fill_splits_blank k c cs v vs acc hc h hs g =
    let e : length (k ++ c ∷ cs) ≡ length (c ∷ cs) + length k =
      omega (arith, length-append k (c ∷ cs)) in
    rw
      (
        fill_splits,
        trim_blanks (c ∷ cs) ((k ++ c ∷ cs) ++ 61 ∷ v) (equals-NoBlank (k ++ c ∷ cs) v hc g),
        index_clean (k ++ c ∷ cs) v hc,
        take_blanks (c ∷ cs) k (c ∷ cs) (61 ∷ v) (length (k ++ c ∷ cs)) e,
        drop_blanks (c ∷ cs) k c cs (61 ∷ v) (length (k ++ c ∷ cs) + 1) (omega (arith, e)),
        trim_blanks (c ∷ cs) k (IsClean-NoBlank k h),
        trim_space_id (cs ++ 61 ∷ v) (equals-NoBlank cs v hs g),
      )
      refl
