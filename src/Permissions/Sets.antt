-- ===== src/Permissions/Sets.antt =====
-- Sets of permissions by their members: configure/secretaddon/jwttool.go.
use nekoq_component.Base.{
  Bool, List, Option-cases, [], arith, false, inl, inr, none, not, refl, some, true, ◌&&◌, ◌||◌,
  ◌∷◌, ◌≡◌,
}
use nekoq_component.Base.Str.{Str, str_eq, str_eq_iff}
use nekoq_component.Base.Map.{delete, insert, lookup, lookup-delete, lookup-insert, nat_eq, str_key}
use nekoq_component.Permissions.{Matching, PermissionsList, match_all, set_keys}

unfoldable pub elem : Str → List Str → Bool
elem j [] = false
elem j (k ∷ ks) = str_eq k j || elem j ks

unfoldable pub has : Str → PermissionsList → Bool
has j m = elim (lookup j m) [ none ↦ false | some u ↦ true ]

pub has-insert : (j k : Str) (m : PermissionsList) → has j (insert k tt m) ≡ (str_eq k j || has j m)
unfolding has
has-insert j k m = grind (arith, lookup-insert k j tt m)

pub has-delete :
    (j k : Str) (m : PermissionsList) → has j (delete k m) ≡ (not (str_eq k j) && has j m)
unfolding has
has-delete j k m = grind (arith, lookup-delete k j m)

pub elem-set_keys : (j : Str) (m : PermissionsList) → elem j (set_keys m) ≡ has j m
unfolding elem set_keys has lookup
elem-set_keys j [] = refl
elem-set_keys j ((k, u) ∷ m) = ground (arith, elem-set_keys j m)

has-none : (k : Str) (m : PermissionsList) → lookup k m ≡ none → has k m ≡ false
unfolding has
has-none k m e = grind arith

has-some : (k : Str) (m : PermissionsList) (u : Unit {0}) → lookup k m ≡ some u → has k m ≡ true
unfolding has
has-some k m u e = grind arith

same_key :
    (k j : Str) (m : PermissionsList) (b : Bool) → has k m ≡ b → str_eq k j ≡ true → has j m ≡ b
same_key k j m b h q = grind (arith, str_eq_iff k j)

pub match_all-has :
    (j : Str) (ks : List Str) (s : Matching)
    → (has j (match_all ks s).matched ≡ (has j s.matched || (elem j ks && has j s.additional)))
      × (has j (match_all ks s).non_matched
          ≡ (has j s.non_matched && not (elem j ks && has j s.additional)))
      × (has j (match_all ks s).additional ≡ (has j s.additional && not (elem j ks)))
unfolding match_all elem
match_all-has j [] s = ground arith
match_all-has j (k ∷ ks) s = elim (Option-cases (lookup k s.additional)) [
  | inl e ↦
      rw (match_all, e)
        (ground (
          arith,
          match_all-has j ks s,
          same_key k j s.additional false (has-none k s.additional e),
        ))
  | inr (u, e) ↦
      rw (match_all, e)
        (let n : Matching = record {
          matched = insert k tt s.matched;
          non_matched = delete k s.non_matched;
          additional = delete k s.additional;
        } in
          ground (
            arith,
            match_all-has j ks n,
            has-insert j k s.matched,
            has-delete j k s.non_matched,
            has-delete j k s.additional,
            same_key k j s.additional true (has-some k s.additional u e),
          ))
]
