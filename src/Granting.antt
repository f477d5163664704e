-- ===== src/Granting.antt =====
-- A token that is signed with permissions is checked for them: configure/secretaddon/addontool.go
-- and jwttool.go together. The JWT library, the storage of keys and the text of keys are parameters.
mod Tests
use nekoq_component.Base.{List, arith, refl, some, ℕ, ◌&&◌, ◌<◌, ◌^◌, ◌≡◌}
use nekoq_component.Base.Str.{Str}
use nekoq_component.Base.Map.{lookup, str_key, lookup-insert}
use nekoq_component.Base.Result.{ok}
use nekoq_component.Jwt.KeyTypes.{KeyType}
use nekoq_component.Jwt.Pem.{PemTool}
use nekoq_component.Jwt.{
  JwtLibrary, KeyStorage, SigningKey, SigningMethod, key_id_string, sign_jwt_token,
  verify_jwt_token,
}
use nekoq_component.Jwt.Tokens.{Accepts, verify_jwt_token-sign_jwt_token}
use nekoq_component.Permissions.{
  JwtData, PermissionResourceList, all_permission_operator, any_list, dedup_permissions,
  permissions_claim, set_keys, setup_permissions, string_list, verify_permissions_on_jwt_token,
}
use nekoq_component.Permissions.Verify.{all_held, any_held, texts, verify_permissions_all}

-- The claim of permissions is read back as a list of the same strings.
abbrev pub ReadsPermissions : JwtData → JwtData → Type 0
ReadsPermissions d seen =
    (ss : List Str)
    → lookup permissions_claim d ≡ some (string_list ss)
    → lookup permissions_claim seen ≡ some (any_list (texts ss))

abbrev pub permission_names : PermissionResourceList → List Str
permission_names perms = set_keys (dedup_permissions perms)

claimed_permissions :
    (d : JwtData) (perms : PermissionResourceList)
    → lookup permissions_claim (setup_permissions d perms)
      ≡ some (string_list (permission_names perms))
unfolding setup_permissions
claimed_permissions d perms =
    rw
      (
        setup_permissions,
        lookup-insert permissions_claim permissions_claim (string_list (permission_names perms)) d,
      )
      refl

module _ {R E : Type 0} (pem : PemTool R E) (storage : KeyStorage)
    (lib : JwtLibrary R E JwtData) where
  -- A token that SignJwtToken returns for claims with permissions set up is answered by the check
  -- for all permissions: whether the allowed set has a member, and all its members are among the
  -- permissions of the token. The storage finds the key by its id as it found it by its name, the
  -- id is an int64, and the JWT library accepts the claims, in which it reads the permissions back
  -- as a list of strings, with the public part of the signing key.
  pub verify_permissions_on_jwt_token-signed :
      (key_name alg : Str) (d seen : JwtData) (perms allowed : PermissionResourceList) (token : Str)
      (key_id : ℕ) (key_type : KeyType) (key : List ℕ)
      → storage.fetch_l2_data_key key_name ≡ some (key_id, key_type, key)
      → storage.load_l2_data_key_by_id key_id ≡ some (key_type, key)
      → key_id < 2 ^ 64
      → ((m : SigningMethod) (k : SigningKey R E)
          → Accepts pem storage lib m k (key_id_string key_id) (setup_permissions d perms) seen)
      → ReadsPermissions (setup_permissions d perms) seen
      → sign_jwt_token pem storage lib key_name alg (setup_permissions d perms) ≡ ok token
      → verify_permissions_on_jwt_token
          (verify_jwt_token pem storage lib)
          token
          allowed
          all_permission_operator
        ≡ ok (
            some (
              any_held (permission_names allowed) (permission_names perms)
              && all_held (permission_names allowed) (permission_names perms)))
  unfolding verify_permissions_on_jwt_token
  verify_permissions_on_jwt_token-signed key_name alg d seen perms allowed token key_id key_type key
        f l h a reads e =
      rw
        (
          verify_permissions_on_jwt_token,
          verify_jwt_token-sign_jwt_token pem storage lib key_name alg (setup_permissions d perms)
              seen token key_id key_type key f l h a e,
          verify_permissions_all seen allowed (permission_names perms)
              (reads (permission_names perms) (claimed_permissions d perms)),
        )
        refl
