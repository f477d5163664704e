-- ===== src/Jwt/Tokens.antt =====
-- A signed token is verified: SignJwtToken and VerifyJwtToken of configure/secretaddon/addontool.go.
use nekoq_component.Base.{
  List, Option-cases, arith, inl, inr, refl, some, subst, sym, ℕ, ◌<◌, ◌^◌, ◌≡◌,
}
use nekoq_component.Base.Str.{Str}
use nekoq_component.Base.Result.{Result-cases, ok}
use nekoq_component.Jwt.Pem.{PemTool}
use nekoq_component.Jwt.KeyTypes.{KeyType}
use nekoq_component.Jwt.{
  JwtLibrary, KeyStorage, SigningKey, SigningMethod, VerifyKey, alg_name, jwt_signing_key_mapping,
  jwt_verification_key_mapping, key_id_string, sign_jwt_token, verify_jwt_token, verify_key,
}
use nekoq_component.Jwt.KeyIds.{key_id_val-key_id_string}
use nekoq_component.Jwt.Mapping.{public_of, signing_alg, verification_of}

module _ {R E C : Type 0} (pem : PemTool R E) (storage : KeyStorage) (lib : JwtLibrary R E C) where
  -- The library reads a token's header as it was written, and accepts the token with the public part
  -- of the key that signed it, with the claims as it reads them: for one method, key, kid and claims.
  abbrev pub Accepts : SigningMethod → SigningKey R E → Str → C → C → Type 0
  Accepts m k kid claims seen =
      (token : Str)
      → lib.signed_string m k kid claims ≡ some token
      → (lib.token_header token ≡ some (some (alg_name m), some kid))
        × (lib.valid_claims token (public_of k) ≡ some seen)

  sign_jwt_token-signed :
      (key_name alg : Str) (claims : C) (token : Str) (key_id : ℕ) (key_type : KeyType)
      (key : List ℕ)
      → storage.fetch_l2_data_key key_name ≡ some (key_id, key_type, key)
      → sign_jwt_token pem storage lib key_name alg claims ≡ ok token
      → (m : SigningMethod) × (k : SigningKey R E) × (jwt_signing_key_mapping pem key_type alg key
          ≡ ok (m, k))
        × (lib.signed_string m k (key_id_string key_id) claims ≡ some token)
  unfolding sign_jwt_token
  sign_jwt_token-signed key_name alg claims token key_id key_type key f e =
      elim (Result-cases (jwt_signing_key_mapping pem key_type alg key)) [
        | inr (x, q) ↦ absurd (grind arith)
        | inl ((m, k), q) ↦
            elim (Option-cases (lib.signed_string m k (key_id_string key_id) claims)) [
              | inl s ↦ absurd (grind arith)
              | inr (t, s) ↦ (m, k, q, grind arith)
            ]
      ]

  verified_key :
      (alg : Str) (key_id : ℕ) (key_type : KeyType) (key : List ℕ) (m : SigningMethod)
      (k : VerifyKey R E)
      → key_id < 2 ^ 64
      → storage.load_l2_data_key_by_id key_id ≡ some (key_type, key)
      → jwt_verification_key_mapping pem key_type alg key ≡ ok (m, k)
      → verify_key pem storage lib (some alg, some (key_id_string key_id)) ≡ ok k
  unfolding verify_key
  verified_key alg key_id key_type key m k h l v =
      rw (verify_key, key_id_val-key_id_string key_id h, l, v) refl

  verified :
      (token alg kid : Str) (k : VerifyKey R E) (claims : C)
      → lib.token_header token ≡ some (some alg, some kid)
      → verify_key pem storage lib (some alg, some kid) ≡ ok k
      → lib.valid_claims token k ≡ some claims
      → verify_jwt_token pem storage lib token ≡ ok claims
  unfolding verify_jwt_token
  verified token alg kid k claims h q v = rw (verify_jwt_token, h, q, v) refl

  -- A token that SignJwtToken returns is verified by VerifyJwtToken with the claims it was signed
  -- with, as the library reads them, when the storage finds the key by its id as it found it by its name, the id is an int64,
  -- and the JWT library reads back the header it wrote and accepts these claims with the public
  -- part of the signing key.
  pub verify_jwt_token-sign_jwt_token :
      (key_name alg : Str) (claims seen : C) (token : Str) (key_id : ℕ) (key_type : KeyType)
      (key : List ℕ)
      → storage.fetch_l2_data_key key_name ≡ some (key_id, key_type, key)
      → storage.load_l2_data_key_by_id key_id ≡ some (key_type, key)
      → key_id < 2 ^ 64
      → ((m : SigningMethod) (k : SigningKey R E) → Accepts m k (key_id_string key_id) claims seen)
      → sign_jwt_token pem storage lib key_name alg claims ≡ ok token
      → verify_jwt_token pem storage lib token ≡ ok seen
  verify_jwt_token-sign_jwt_token key_name alg claims seen token key_id key_type key f l h a e =
      let (m, k, q, s) = sign_jwt_token-signed key_name alg claims token key_id key_type key f e in
      let (header, valid) = a m k token s in
      let same = signing_alg pem key_type alg key m k q in
      verified token alg (key_id_string key_id) (public_of k) seen
        (subst (λ x. lib.token_header token ≡ some (some x, some (key_id_string key_id))) (sym same)
          header)
        (verified_key alg key_id key_type key m (public_of k) h l
          (verification_of pem key_type alg key m k q))
        valid
