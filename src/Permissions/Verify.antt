-- ===== src/Permissions/Verify.antt =====
-- What the two operators decide: configure/secretaddon/jwttool.go.
use nekoq_component.Base.{
  Bool, Bool-cases, List, [], arith, false, inl, inr, leb, length, ltb, not, refl, some, true, ℕ,
  ◌&&◌, ◌||◌, ◌∷◌, ◌≡◌,
}
use nekoq_component.Base.Str.{Str, str_eq_iff, str_eq_refl}
use nekoq_component.Base.Map.{insert, lookup, nat_eq, str_key}
use nekoq_component.Permissions.{
  AnyValue, JwtData, Matching, PermissionResourceList, PermissionsList, all_permission_operator,
  any_list, any_permission_operator, dedup_permissions, match_all, permission_field,
  permissions_claim, request_set, set_keys, text, verify_permissions,
}
use nekoq_component.Permissions.Sets.{elem, elem-set_keys, has, has-insert, match_all-has}

unfoldable pub texts : List Str → List AnyValue
texts [] = []
texts (s ∷ ss) = text s ∷ texts ss

abbrev pub any_held : List Str → List Str → Bool
any_held [] held = false
any_held (k ∷ ks) held = elem k held || any_held ks held

abbrev pub all_held : List Str → List Str → Bool
all_held [] held = true
all_held (k ∷ ks) held = elem k held && all_held ks held

request_set-texts :
    (ss : List Str) (m : PermissionsList)
    → (p : PermissionsList) × (request_set (texts ss) m ≡ some p)
      × ((j : Str) → has j p ≡ (has j m || elem j ss))
unfolding request_set texts elem
request_set-texts [] m = (m, refl, λ j. ground arith)
request_set-texts (s ∷ ss) m =
    let (p, e, h) = request_set-texts ss (insert s tt m) in
    (p, e, λ j. ground (arith, h j, has-insert j s m))

length-insert : (k : Str) (m : PermissionsList) → ltb 0 (length (insert k tt m)) ≡ true
unfolding insert
length-insert k [] = refl
length-insert k ((j, u) ∷ m) = ground arith

empty_no_member : (m : PermissionsList) → ((j : Str) → has j m ≡ false) → leb (length m) 0 ≡ true
unfolding has lookup
empty_no_member [] h = refl
empty_no_member ((k, u) ∷ m) h = absurd (ground (arith, h k, str_eq_refl k))

member_not_empty : (j : Str) (m : PermissionsList) → has j m ≡ true → leb (length m) 0 ≡ false
unfolding has lookup
member_not_empty j [] h = cc
member_not_empty j ((k, u) ∷ m) h = ground arith

no_member_held :
    (j : Str) (ks held : List Str) → any_held ks held ≡ false → (elem j ks && elem j held) ≡ false
unfolding elem
no_member_held j [] held h = refl
no_member_held j (k ∷ ks) held h = grind (arith, no_member_held j ks held, str_eq_iff k j)

some_member_held :
    (ks held : List Str) → any_held ks held ≡ true → (j : Str) × ((elem j ks && elem j held) ≡ true)
unfolding elem
some_member_held [] held h = absurd (cc)
some_member_held (k ∷ ks) held h = elim (Bool-cases (elem k held)) [
  | inl q ↦ (k, ground (arith, str_eq_refl k))
  | inr q ↦ let (j, e) = some_member_held ks held (rw (q) at h) in (j, ground (arith, e))
]

each_member_held :
    (j : Str) (ks held : List Str)
    → all_held ks held ≡ true
    → (elem j ks && not (elem j held)) ≡ false
unfolding elem
each_member_held j [] held h = refl
each_member_held j (k ∷ ks) held h = grind (arith, each_member_held j ks held, str_eq_iff k j)

some_member_missing :
    (ks held : List Str)
    → all_held ks held ≡ false
    → (j : Str) × ((elem j ks && not (elem j held)) ≡ true)
unfolding elem
some_member_missing [] held h = absurd (cc)
some_member_missing (k ∷ ks) held h = elim (Bool-cases (elem k held)) [
  | inl q ↦ let (j, e) = some_member_missing ks held (rw (q) at h) in (j, ground (arith, e))
  | inr q ↦ (k, ground (arith, str_eq_refl k))
]

ltb-leb : (n : ℕ) → ltb 0 n ≡ not (leb n 0)
ltb-leb n = ground arith

-- The state in which the range over the allowed set begins.
abbrev start : PermissionsList → PermissionsList → Matching
start allowed_set permissions = record {
  matched = [];
  non_matched = allowed_set;
  additional = permissions;
}

has_nothing : (j : Str) → has j [] ≡ false
unfolding has lookup
has_nothing j = refl

matched_any :
    (m p : PermissionsList) (held : List Str)
    → ((j : Str) → has j p ≡ elem j held)
    → any_permission_operator (match_all (set_keys m) (start m p)) ≡ any_held (set_keys m) held
unfolding any_permission_operator
matched_any m p held h = elim (Bool-cases (any_held (set_keys m) held)) [
  | inl q ↦
      let (j, e) = some_member_held (set_keys m) held q in
      rw
        (
          ltb-leb (length (match_all (set_keys m) (start m p)).matched),
          member_not_empty j (match_all (set_keys m) (start m p)).matched
              (ground (arith, match_all-has j (set_keys m) (start m p), h j, e, has_nothing j)),
          q,
        )
        refl
  | inr q ↦
      rw
        (
          ltb-leb (length (match_all (set_keys m) (start m p)).matched),
          empty_no_member (match_all (set_keys m) (start m p)).matched (λ j. ground (
            arith,
            match_all-has j (set_keys m) (start m p),
            h j,
            no_member_held j (set_keys m) held q,
            has_nothing j,
          )),
          q,
        )
        refl
]

matched_all :
    (m p : PermissionsList) (held : List Str)
    → ((j : Str) → has j p ≡ elem j held)
    → leb (length (match_all (set_keys m) (start m p)).non_matched) 0 ≡ all_held (set_keys m) held
matched_all m p held h = elim (Bool-cases (all_held (set_keys m) held)) [
  | inl q ↦ rw (q) (
      empty_no_member (match_all (set_keys m) (start m p)).non_matched (λ j. ground (
        arith,
        match_all-has j (set_keys m) (start m p),
        h j,
        elem-set_keys j m,
        each_member_held j (set_keys m) held q,
      )))
  | inr q ↦
      let (j, e) = some_member_missing (set_keys m) held q in
      rw (q) (
        member_not_empty j (match_all (set_keys m) (start m p)).non_matched
          (ground (arith, match_all-has j (set_keys m) (start m p), h j, elem-set_keys j m, e)))
]

both :
    (s : Matching)
    → all_permission_operator s ≡ (any_permission_operator s && leb (length s.non_matched) 0)
unfolding all_permission_operator any_permission_operator
both s = refl

claimed :
    (d : JwtData) (ss : List Str)
    → lookup permissions_claim d ≡ some (any_list (texts ss))
    → permission_field d ≡ some (texts ss)
unfolding permission_field
claimed d ss e = grind arith

-- On a claim that is a list of strings, the check with the operator for any permission answers
-- whether some member of the allowed set is claimed.
pub verify_permissions_any :
    (d : JwtData) (allowed : PermissionResourceList) (ss : List Str)
    → lookup permissions_claim d ≡ some (any_list (texts ss))
    → verify_permissions d allowed any_permission_operator
      ≡ some (any_held (set_keys (dedup_permissions allowed)) ss)
unfolding verify_permissions
verify_permissions_any d allowed ss e =
    let (p, r, h) = request_set-texts ss [] in
    let k : (j : Str) → has j p ≡ elem j ss = λ j. ground (arith, h j, has_nothing j) in
    rw (verify_permissions, claimed d ss e, r, matched_any (dedup_permissions allowed) p ss k) refl

-- On a claim that is a list of strings, the check with the operator for all permissions answers
-- whether the allowed set has a member that is claimed and all its members are claimed.
pub verify_permissions_all :
    (d : JwtData) (allowed : PermissionResourceList) (ss : List Str)
    → lookup permissions_claim d ≡ some (any_list (texts ss))
    → verify_permissions d allowed all_permission_operator
      ≡ some (
          any_held (set_keys (dedup_permissions allowed)) ss
          && all_held (set_keys (dedup_permissions allowed)) ss)
unfolding verify_permissions
verify_permissions_all d allowed ss e =
    let (p, r, h) = request_set-texts ss [] in
    let k : (j : Str) → has j p ≡ elem j ss = λ j. ground (arith, h j, has_nothing j) in
    rw
      (
        verify_permissions,
        claimed d ss e,
        r,
        both (
            match_all (set_keys (dedup_permissions allowed)) (start (dedup_permissions allowed) p)),
        matched_any (dedup_permissions allowed) p ss k,
        matched_all (dedup_permissions allowed) p ss k,
      )
      refl
