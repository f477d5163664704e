-- ===== src/Granting/Tests.antt =====
-- A token with permissions is signed and checked.
use nekoq_component.Base.{List, Option, [], ap, arith, refl, some, sym, ℕ, ◌&&◌, ◌∷◌, ◌≡◌}
use nekoq_component.Base.Str.{Str, bytes}
use nekoq_component.Base.Map.{insert, lookup, str_key}
use nekoq_component.Base.Result.{ok}
use nekoq_component.Jwt.KeyTypes.{key_general64b}
use nekoq_component.Jwt.Pem.{PemTool}
use nekoq_component.Jwt.{
  JwtLibrary, KeyStorage, SigningKey, SigningMethod, alg_name, is_alg, jwt_signing_key_mapping,
  key_id_string, sign_jwt_token, verify_jwt_token,
}
use nekoq_component.Jwt.Tokens.{Accepts}
use nekoq_component.Permissions.{
  Claim, JwtData, PermissionResourceList, all_permission_operator, any_list, permissions_claim,
  setup_permissions, string_list, verify_permissions_on_jwt_token,
}
use nekoq_component.Permissions.Verify.{all_held, any_held, texts}
use nekoq_component.Granting.{
  ReadsPermissions, permission_names, verify_permissions_on_jwt_token-signed,
}

abbrev sample_pem : PemTool (List ℕ) (List ℕ)
sample_pem = record {
  encode_rsa_private_key = λ pri. pri;
  parse_rsa_private_key = λ key. some key;
  encode_ecdsa_private_key = λ pri. some pri;
  parse_ecdsa_private_key = λ key. some key;
}

abbrev sample_storage : KeyStorage
sample_storage = record {
  fetch_l2_data_key = λ name. some (7, key_general64b, bytes "secret");
  load_l2_data_key_by_id = λ id. some (key_general64b, bytes "secret");
}

abbrev granted : PermissionResourceList
granted = (bytes "jwt.new", bytes "write:") ∷ []

abbrev read_back : JwtData
read_back = (permissions_claim, any_list (texts (permission_names granted))) ∷ []

-- Tokens are the name of the method; their claims are the sample's.
abbrev sample_library : JwtLibrary (List ℕ) (List ℕ) JwtData
sample_library = record {
  signed_string = λ m k kid claims. some (alg_name m);
  token_header = λ token. some (some token, some (key_id_string 7));
  valid_claims = λ token k. some read_back;
}

abbrev some_token : Str → Option Str
some_token a = some a

the_token : (a b : Str) → some_token a ≡ some b → a ≡ b
the_token a b e = cc

sample-Accepts :
    (m : SigningMethod) (k : SigningKey (List ℕ) (List ℕ))
    → Accepts sample_pem sample_storage sample_library m k
        (key_id_string 7)
        (setup_permissions [] granted)
        read_back
sample-Accepts m k token e =
    (ap (λ z. some (some z, some (key_id_string 7))) (sym (the_token (alg_name m) token e)), refl)

abbrev some_list : List Str → Option Claim
some_list ss = some (string_list ss)

the_list : (a b : List Str) → some_list a ≡ some_list b → a ≡ b
the_list a b e = cc

sample-ReadsPermissions : ReadsPermissions (setup_permissions [] granted) read_back
unfolding setup_permissions lookup insert
sample-ReadsPermissions ss e =
    ap (λ x. some (any_list (texts x))) (the_list (permission_names granted) ss e)

sample_signed :
    sign_jwt_token sample_pem sample_storage sample_library
      (bytes "k")
      (bytes "HS256")
      (setup_permissions [] granted)
    ≡ ok (bytes "HS256")
unfolding sign_jwt_token jwt_signing_key_mapping is_alg alg_name
sample_signed = refl

verify_permissions_on_jwt_token-signed_example :
    verify_permissions_on_jwt_token
      (verify_jwt_token sample_pem sample_storage sample_library)
      (bytes "HS256")
      granted
      all_permission_operator
    ≡ ok (
        some (
          any_held (permission_names granted) (permission_names granted)
          && all_held (permission_names granted) (permission_names granted)))
verify_permissions_on_jwt_token-signed_example =
    verify_permissions_on_jwt_token-signed sample_pem sample_storage sample_library (bytes "k")
      (bytes "HS256") [] read_back granted granted (bytes "HS256") 7 key_general64b (bytes "secret")
      refl refl (omega arith) sample-Accepts sample-ReadsPermissions sample_signed
