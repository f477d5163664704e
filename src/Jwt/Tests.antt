-- ===== src/Jwt/Tests.antt =====
-- Runs of signing and verifying.
use nekoq_component.Base.{List, drop, refl, some, take, ℕ, ◌++◌, ◌≡◌}
use nekoq_component.Base.Str.{Str, bytes}
use nekoq_component.Base.Result.{ok}
use nekoq_component.Jwt.Pem.{PemTool}
use nekoq_component.Jwt.KeyTypes.{key_general128b, key_rsa2048}
use nekoq_component.Jwt.{
  JwtLibrary, KeyStorage, alg_name, is_alg, jwt_signing_key_mapping, jwt_verification_key_mapping,
  key_id_string, sign_jwt_token, signing_rsa,
}
use nekoq_component.Jwt.Mapping.{mappings_agree, public_pair, succeeds}

-- Private keys that are the bytes they are parsed from.
abbrev sample_pem : PemTool (List ℕ) (List ℕ)
sample_pem = record {
  encode_rsa_private_key = λ pri. pri;
  parse_rsa_private_key = λ key. some key;
  encode_ecdsa_private_key = λ pri. some pri;
  parse_ecdsa_private_key = λ key. some key;
}

abbrev sample_storage : KeyStorage
sample_storage = record {
  fetch_l2_data_key = λ name. some (7, key_rsa2048, bytes "rsa");
  load_l2_data_key_by_id = λ id. some (key_rsa2048, bytes "rsa");
}

-- Tokens are the name of the method and the claims.
abbrev sample_library : JwtLibrary (List ℕ) (List ℕ) Str
sample_library = record {
  signed_string = λ m k kid claims. some (alg_name m ++ claims);
  token_header = λ token. some (some (take 5 token), some (key_id_string 7));
  valid_claims = λ token k. some (drop 5 token);
}

abbrev sample_claims : Str
sample_claims = bytes "sub=a"

abbrev sample_token : Str
sample_token = bytes "PS512sub=a"

sample_signed :
    sign_jwt_token sample_pem sample_storage sample_library
      (bytes "k")
      (bytes "PS512")
      sample_claims
    ≡ ok sample_token
unfolding sign_jwt_token jwt_signing_key_mapping signing_rsa is_alg alg_name
sample_signed = refl

mappings_agree_example :
    succeeds (jwt_verification_key_mapping sample_pem key_general128b (bytes "HS512") (bytes "s"))
    ≡ public_pair
        (succeeds (jwt_signing_key_mapping sample_pem key_general128b (bytes "HS512") (bytes "s")))
mappings_agree_example = mappings_agree sample_pem key_general128b (bytes "HS512") (bytes "s")
