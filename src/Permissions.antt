-- ===== src/Permissions.antt =====
-- Permissions and their check in a token's claims: configure/permissions/typedef.go,
-- secret.go and configure/secretaddon/jwttool.go. A set is a map to the unit type.
pub mod Sets
pub mod Verify
pub mod Registry
mod Tests
use nekoq_component.Base.{
  Bool, List, Option, [], arith, leb, length, ltb, none, some, ◌&&◌, ◌++◌, ◌==◌, ◌∷◌,
}
use nekoq_component.Base.Str.{Str, bytes, str_eq}
use nekoq_component.Base.Map.{Map, delete, insert, lookup, nat_eq, str_key}
use nekoq_component.Base.Result.{Result, err, ok, ◌>>=◌}

abbrev pub PermissionType : Type 0
PermissionType = Str

pub record PermissionDef : Type 0 where
  pub name : Str
  pub operation : PermissionType

unfoldable pub equals : PermissionDef → PermissionDef → Bool
equals p p2 = str_eq p.name p2.name && str_eq p.operation p2.operation

unfoldable pub to_string : PermissionDef → Str
to_string p = p.operation ++ p.name

abbrev pub PermissionsList : Type 0
PermissionsList = Map Str (Unit {0})

-- The operation allowed on each resource.
abbrev pub PermissionResourceList : Type 0
PermissionResourceList = Map Str PermissionType

unfoldable pub dedup_into : PermissionResourceList → PermissionsList → PermissionsList
dedup_into [] m = m
dedup_into ((key, val) ∷ p) m = dedup_into p (insert (val ++ key) tt m)

unfoldable pub dedup_permissions : PermissionResourceList → PermissionsList
dedup_permissions p = dedup_into p []

unfoldable pub add_permissions :
    List PermissionDef → PermissionResourceList → PermissionResourceList
add_permissions [] p = p
add_permissions (v ∷ perms) p = add_permissions perms (insert v.name v.operation p)

-- What a claim holds, as far as the code tells: a list of strings, a list of values, or another value.
pub data AnyValue : Type 0 where
  text : Str → AnyValue
  not_text : AnyValue

pub data Claim : Type 0 where
  string_list : List Str → Claim
  any_list : List AnyValue → Claim
  other_claim : Claim

abbrev pub JwtData : Type 0
JwtData = Map Str Claim

abbrev pub permissions_claim : Str
permissions_claim = bytes "permissions"

unfoldable pub set_keys : PermissionsList → List Str
set_keys [] = []
set_keys ((k, u) ∷ m) = k ∷ set_keys m

unfoldable pub setup_permissions : JwtData → PermissionResourceList → JwtData
setup_permissions d perms =
    insert permissions_claim (string_list (set_keys (dedup_permissions perms))) d

-- The request's set, or none for the panic of a value that is not a string.
unfoldable pub request_set : List AnyValue → PermissionsList → Option PermissionsList
request_set [] m = some m
request_set (not_text ∷ vs) m = none
request_set (text s ∷ vs) m = request_set vs (insert s tt m)

-- The claim as a list of values, or none for the panic of the type assertion.
unfoldable pub permission_field : JwtData → Option (List AnyValue)
permission_field d = elim (lookup permissions_claim d) [
  | none ↦ none
  | some (any_list vs) ↦ some vs
  | some (string_list ss) ↦ none
  | some other_claim ↦ none
]

pub record Matching : Type 0 where
  pub matched : PermissionsList
  pub non_matched : PermissionsList
  pub additional : PermissionsList

-- The range over the allowed set, of which the matched keys are deleted on the way.
unfoldable pub match_all : List Str → Matching → Matching
match_all [] s = s
match_all (permission ∷ rest) s = elim (lookup permission s.additional) [
  | none ↦ match_all rest s
  | some u ↦ match_all rest (record {
    matched = insert permission tt s.matched;
    non_matched = delete permission s.non_matched;
    additional = delete permission s.additional;
  })
]

unfoldable pub any_permission_operator : Matching → Bool
any_permission_operator s = ltb 0 (length s.matched)

unfoldable pub all_permission_operator : Matching → Bool
all_permission_operator s = ltb 0 (length s.matched) && leb (length s.non_matched) 0

unfoldable pub verify_permissions :
    JwtData → PermissionResourceList → (Matching → Bool) → Option Bool
verify_permissions d allowed op =
    let allowed_set = dedup_permissions allowed in
    elim (permission_field d) [
      | none ↦ none
      | some vs ↦ elim (request_set vs []) [
        | none ↦ none
        | some permissions ↦ some (
            op (
              match_all (set_keys allowed_set)
                (record { matched = []; non_matched = allowed_set; additional = permissions })))
      ]
    ]

-- The check on a token, over the verifier of tokens.
unfoldable pub verify_permissions_on_jwt_token {ℓ} :
    {E : Type ℓ}
    → (Str → Result E JwtData)
    → Str
    → PermissionResourceList
    → (Matching → Bool)
    → Result E (Option Bool)
verify_permissions_on_jwt_token verify_jwt token allowed op = elim (verify_jwt token) [
  | err e ↦ err e
  | ok d ↦ ok (verify_permissions d allowed op)
]
