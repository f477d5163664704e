-- ===== src/ConfigApi/Words.antt =====
-- Trimming, splitting and searching words without blanks: configure/configapi/protocol.go, Fill.
use nekoq_component.Base.{
  All, Bool, [], ap, arith, drop, false, length, not, refl, some, suc, true, ℕ, ◌++◌, ◌+◌, ◌==◌,
  ◌||◌, ◌∙◌, ◌∷◌, ◌≡◌,
}
use nekoq_component.Base.Str.{Str}
use nekoq_component.Base.Map.{nat_eq, str_key}
use nekoq_component.ConfigApi.{
  cons_head, index, is_space, keep_or_trim, split_on, trim_left, trim_right, trim_space,
}

-- No blank, comma or equals sign.
unfoldable pub clean_byte : ℕ → Bool
clean_byte c = not (is_space c || ((c == 44) || (c == 61)))

abbrev pub IsClean : Str → Type 0
IsClean = All (λ c. clean_byte c ≡ true)

abbrev pub NoBlank : Str → Type 0
NoBlank = All (λ c. is_space c ≡ false)

pub trim_left_id : (s : Str) → NoBlank s → trim_left s ≡ s
unfolding trim_left
trim_left_id [] h = refl
trim_left_id (c ∷ s) h = ground (arith, h.0)

pub trim_right_id : (s : Str) → NoBlank s → trim_right s ≡ s
unfolding trim_right keep_or_trim
trim_right_id [] h = refl
trim_right_id (c ∷ []) h = ground (arith, h.0)
trim_right_id (c ∷ d ∷ s) h = rw (trim_right_id (d ∷ s) h.1) refl

pub trim_space_id : (s : Str) → NoBlank s → trim_space s ≡ s
unfolding trim_space
trim_space_id s h = rw (trim_left_id s h, trim_right_id s h) refl

pub IsClean-NoBlank : (s : Str) → IsClean s → NoBlank s
unfolding clean_byte
IsClean-NoBlank [] h = h
IsClean-NoBlank (c ∷ s) h = (ground (arith, h.0), IsClean-NoBlank s h.1)

abbrev pub NoComma : Str → Type 0
NoComma = All (λ c. (c == 44) ≡ false)

pub IsClean-NoComma : (s : Str) → IsClean s → NoComma s
unfolding clean_byte
IsClean-NoComma [] h = h
IsClean-NoComma (c ∷ s) h = (ground (arith, h.0), IsClean-NoComma s h.1)

pub split_on_comma : (e s : Str) → NoComma e → split_on 44 (e ++ 44 ∷ s) ≡ e ∷ split_on 44 s
unfolding split_on cons_head
split_on_comma [] s h = refl
split_on_comma (c ∷ e) s h = rw (split_on_comma e s h.1) ground (arith, h.0)

pub split_on_end : (e : Str) → NoComma e → split_on 44 e ≡ e ∷ []
unfolding split_on cons_head
split_on_end [] h = refl
split_on_end (c ∷ e) h = rw (split_on_end e h.1) ground (arith, h.0)

pub index_clean : (k v : Str) → IsClean k → index 61 (k ++ 61 ∷ v) ≡ some (length k)
unfolding index clean_byte
index_clean [] v h = refl
index_clean (c ∷ k) v h = rw (index_clean k v h.1) ground (arith, h.0)

drop_after : (k v : Str) → drop (suc (length k)) (k ++ 61 ∷ v) ≡ v
drop_after [] v = refl
drop_after (c ∷ k) v = drop_after k v

pub drop_next : (k v : Str) → drop (length k + 1) (k ++ 61 ∷ v) ≡ v
drop_next k v =
    let e : length k + 1 ≡ suc (length k) = omega arith in
    ap (λ n. drop n (k ++ 61 ∷ v)) e ∙ drop_after k v
