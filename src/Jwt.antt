-- ===== src/Jwt.antt =====
-- Signing and verifying JWT tokens: configure/secretaddon/addontool.go. The storage of keys, the
-- parsers of private keys and the JWT library are parameters.
pub mod KeyTypes
pub mod Pem
pub mod KeyIds
pub mod Mapping
pub mod Tokens
mod Tests
use nekoq_component.Base.{
  Bool, List, Option, [], arith, false, if◌then◌else◌, none, not, some, true, ℕ, ◌==◌, ◌∷◌,
}
use nekoq_component.Base.Str.{Str, bytes, str_eq}
use nekoq_component.Base.Result.{Result, err, ok, ◌>>=◌}
use nekoq_component.Secret.Sealed.{decimal_int64, scan_key_id, token}
use nekoq_component.Jwt.Pem.{PemTool}
use nekoq_component.Jwt.KeyTypes.{
  KeyType, key_ecdsa256, key_ecdsa384, key_ecdsa521, key_general128b, key_general64b, key_rsa1024,
  key_rsa2048, key_rsa3072, key_rsa4096,
}

pub data SigningMethod : Type 0 where
  hs256 : SigningMethod
  hs384 : SigningMethod
  hs512 : SigningMethod
  rs256 : SigningMethod
  rs384 : SigningMethod
  rs512 : SigningMethod
  ps256 : SigningMethod
  ps384 : SigningMethod
  ps512 : SigningMethod
  es256 : SigningMethod
  es384 : SigningMethod
  es512 : SigningMethod

-- The constants of JwtAlg, which are also the names of the methods.
unfoldable pub alg_name : SigningMethod → Str
alg_name hs256 = bytes "HS256"
alg_name hs384 = bytes "HS384"
alg_name hs512 = bytes "HS512"
alg_name rs256 = bytes "RS256"
alg_name rs384 = bytes "RS384"
alg_name rs512 = bytes "RS512"
alg_name ps256 = bytes "PS256"
alg_name ps384 = bytes "PS384"
alg_name ps512 = bytes "PS512"
alg_name es256 = bytes "ES256"
alg_name es384 = bytes "ES384"
alg_name es512 = bytes "ES512"

unfoldable pub is_alg : Str → SigningMethod → Bool
is_alg alg m = str_eq alg (alg_name m)

pub data JwtError : Type 0 where
  invalid_key_type : JwtError
  invalid_algorithm : JwtError
  invalid_combination : JwtError
  pem_error : JwtError
  storage_error : JwtError
  no_kid : JwtError
  signing_error : JwtError
  parse_error : JwtError
  invalid_token : JwtError

-- A shared secret, or the private key that was parsed.
pub data SigningKey (R E : Type 0) : Type 0 where
  secret : List ℕ → SigningKey R E
  rsa_private : R → SigningKey R E
  ecdsa_private : E → SigningKey R E

-- A shared secret, or the public key of a private one.
pub data VerifyKey (R E : Type 0) : Type 0 where
  shared : List ℕ → VerifyKey R E
  rsa_public : R → VerifyKey R E
  ecdsa_public : E → VerifyKey R E

module _ {R E : Type 0} (pem : PemTool R E) where
  -- The case of the RSA types, of which only the 1024 bits matter.
  unfoldable pub verification_rsa :
      Bool → Str → List ℕ → Result JwtError (SigningMethod × VerifyKey R E)
  verification_rsa is_1024 alg key = elim (pem.parse_rsa_private_key key) [
    | none ↦ err pem_error
    | some pri ↦
        if is_alg alg rs256
        then ok (rs256, rsa_public pri)
        else (if is_alg alg rs384
            then ok (rs384, rsa_public pri)
            else (if is_alg alg rs512
                then ok (rs512, rsa_public pri)
                else (if is_alg alg ps256
                    then ok (ps256, rsa_public pri)
                    else (if is_alg alg ps384
                        then ok (ps384, rsa_public pri)
                        else (if is_alg alg ps512
                            then (if is_1024
                                then err invalid_combination
                                else ok (ps512, rsa_public pri))
                            else err invalid_algorithm)))))
  ]

  unfoldable pub verification_ecdsa :
      SigningMethod → Str → List ℕ → Result JwtError (SigningMethod × VerifyKey R E)
  verification_ecdsa m alg key =
      if not (is_alg alg m) then err invalid_key_type else elim (pem.parse_ecdsa_private_key key) [
        | none ↦ err pem_error
        | some pri ↦ ok (m, ecdsa_public pri)
      ]

  unfoldable pub jwt_verification_key_mapping :
      KeyType → Str → List ℕ → Result JwtError (SigningMethod × VerifyKey R E)
  jwt_verification_key_mapping key_general64b alg key =
      if not (is_alg alg hs256) then err invalid_algorithm else ok (hs256, shared key)
  jwt_verification_key_mapping key_general128b alg key =
      if is_alg alg hs384
      then ok (hs384, shared key)
      else (if is_alg alg hs512 then ok (hs512, shared key) else err invalid_algorithm)
  jwt_verification_key_mapping key_rsa1024 alg key = verification_rsa true alg key
  jwt_verification_key_mapping key_rsa2048 alg key = verification_rsa false alg key
  jwt_verification_key_mapping key_rsa4096 alg key = verification_rsa false alg key
  jwt_verification_key_mapping key_rsa3072 alg key = verification_rsa false alg key
  jwt_verification_key_mapping key_ecdsa256 alg key = verification_ecdsa es256 alg key
  jwt_verification_key_mapping key_ecdsa384 alg key = verification_ecdsa es384 alg key
  jwt_verification_key_mapping key_ecdsa521 alg key = verification_ecdsa es512 alg key
  jwt_verification_key_mapping _ alg key = err invalid_key_type

  unfoldable pub signing_rsa :
      Bool → Str → List ℕ → Result JwtError (SigningMethod × SigningKey R E)
  signing_rsa is_1024 alg key = elim (pem.parse_rsa_private_key key) [
    | none ↦ err pem_error
    | some pri ↦
        if is_alg alg rs256
        then ok (rs256, rsa_private pri)
        else (if is_alg alg rs384
            then ok (rs384, rsa_private pri)
            else (if is_alg alg rs512
                then ok (rs512, rsa_private pri)
                else (if is_alg alg ps256
                    then ok (ps256, rsa_private pri)
                    else (if is_alg alg ps384
                        then ok (ps384, rsa_private pri)
                        else (if is_alg alg ps512
                            then (if is_1024
                                then err invalid_combination
                                else ok (ps512, rsa_private pri))
                            else err invalid_algorithm)))))
  ]

  unfoldable pub signing_ecdsa :
      SigningMethod → Str → List ℕ → Result JwtError (SigningMethod × SigningKey R E)
  signing_ecdsa m alg key =
      if not (is_alg alg m) then err invalid_key_type else elim (pem.parse_ecdsa_private_key key) [
        | none ↦ err pem_error
        | some pri ↦ ok (m, ecdsa_private pri)
      ]

  unfoldable pub jwt_signing_key_mapping :
      KeyType → Str → List ℕ → Result JwtError (SigningMethod × SigningKey R E)
  jwt_signing_key_mapping key_general64b alg key =
      if not (is_alg alg hs256) then err invalid_key_type else ok (hs256, secret key)
  jwt_signing_key_mapping key_general128b alg key =
      if is_alg alg hs512
      then ok (hs512, secret key)
      else (if is_alg alg hs384 then ok (hs384, secret key) else err invalid_key_type)
  jwt_signing_key_mapping key_rsa1024 alg key = signing_rsa true alg key
  jwt_signing_key_mapping key_rsa2048 alg key = signing_rsa false alg key
  jwt_signing_key_mapping key_rsa4096 alg key = signing_rsa false alg key
  jwt_signing_key_mapping key_rsa3072 alg key = signing_rsa false alg key
  jwt_signing_key_mapping key_ecdsa256 alg key = signing_ecdsa es256 alg key
  jwt_signing_key_mapping key_ecdsa384 alg key = signing_ecdsa es384 alg key
  jwt_signing_key_mapping key_ecdsa521 alg key = signing_ecdsa es512 alg key
  jwt_signing_key_mapping _ alg key = err invalid_key_type

-- `strconv.FormatInt(keyId, 10)`
unfoldable pub key_id_string : ℕ → Str
key_id_string key_id = decimal_int64 key_id

abbrev whole_number : ℕ × Str → Option ℕ
whole_number (n, []) = some n
whole_number (n, c ∷ rest) = none

-- `strconv.ParseInt(keyIdStr, 10, 64)`
unfoldable pub key_id_val : Str → Option ℕ
key_id_val s = elim (scan_key_id s) [ err e ↦ none | ok r ↦ whole_number r ]

-- The two methods of secretapi.KeyStorage that the tool calls.
pub record KeyStorage : Type 0 where
  pub fetch_l2_data_key : Str → Option (ℕ × KeyType × List ℕ)
  pub load_l2_data_key_by_id : ℕ → Option (KeyType × List ℕ)

-- The JWT library: a token signed with a method, a key, its kid and claims; a token's alg and kid,
-- where they are strings; the claims of a token that is valid for a key.
pub record JwtLibrary (R E C : Type 0) : Type 0 where
  pub signed_string : SigningMethod → SigningKey R E → Str → C → Option Str
  pub token_header : Str → Option (Option Str × Option Str)
  pub valid_claims : Str → VerifyKey R E → Option C

module _ {R E C : Type 0} (pem : PemTool R E) (storage : KeyStorage) (lib : JwtLibrary R E C) where
  unfoldable pub sign_jwt_token : Str → Str → C → Result JwtError Str
  sign_jwt_token key_name alg claims = elim (storage.fetch_l2_data_key key_name) [
    | none ↦ err storage_error
    | some (key_id, key_type, key) ↦ elim (jwt_signing_key_mapping pem key_type alg key) [
      | err e ↦ err e
      | ok (m, k) ↦ elim (lib.signed_string m k (key_id_string key_id) claims) [
        | none ↦ err signing_error
        | some token ↦ ok token
      ]
    ]
  ]

  -- The function that jwt.Parse calls for the key.
  unfoldable pub verify_key : Option Str × Option Str → Result JwtError (VerifyKey R E)
  verify_key (none, kid) = err invalid_algorithm
  verify_key (some alg, none) = err no_kid
  verify_key (some alg, some kid) = elim (key_id_val kid) [
    | none ↦ err no_kid
    | some key_id ↦ elim (storage.load_l2_data_key_by_id key_id) [
      | none ↦ err storage_error
      | some (key_type, key) ↦ elim (jwt_verification_key_mapping pem key_type alg key) [
        | err e ↦ err e
        | ok (m, k) ↦ ok k
      ]
    ]
  ]

  unfoldable pub verify_jwt_token : Str → Result JwtError C
  verify_jwt_token token = elim (lib.token_header token) [
    | none ↦ err parse_error
    | some header ↦ elim (verify_key header) [
      | err e ↦ err e
      | ok k ↦ elim (lib.valid_claims token k) [
        | none ↦ err invalid_token
        | some claims ↦ ok claims
      ]
    ]
  ]
