-- ===== src/Jwt/Mapping.antt =====
-- Signing and verification agree on keys and algorithms: jwtSigningKeyMapping and
-- jwtVerificationKeyMapping of configure/secretaddon/addontool.go.
use nekoq_component.Base.{
  Bool, Bool-cases, List, Option, ap, arith, false, inl, inr, none, refl, some, subst, sym, true, ℕ,
  ◌∙◌, ◌≡◌,
}
use nekoq_component.Base.Str.{Str, str_eq, str_eq_iff}
use nekoq_component.Base.Result.{Result, Result-cases, err, ok}
use nekoq_component.Jwt.Pem.{PemTool}
use nekoq_component.Jwt.KeyTypes.{
  KeyType, key_aes128, key_aes192, key_aes256, key_ecdsa224, key_ecdsa256, key_ecdsa384,
  key_ecdsa521, key_ed25519, key_general128b, key_general64b, key_key_set, key_rsa1024, key_rsa2048,
  key_rsa3072, key_rsa4096,
}
use nekoq_component.Jwt.{
  JwtError, SigningKey, SigningMethod, VerifyKey, alg_name, ecdsa_private, ecdsa_public, es256,
  es384, es512, hs384, hs512, is_alg, jwt_signing_key_mapping, jwt_verification_key_mapping,
  rsa_private, rsa_public, secret, shared, signing_ecdsa, signing_rsa, verification_ecdsa,
  verification_rsa,
}

-- The key that verifies what a key has signed.
abbrev pub public_of : {R E : Type 0} → SigningKey R E → VerifyKey R E
public_of (secret bs) = shared bs
public_of (rsa_private r) = rsa_public r
public_of (ecdsa_private e) = ecdsa_public e

abbrev pub succeeds : {A : Type 0} → Result JwtError A → Option A
succeeds (ok a) = some a
succeeds (err e) = none

abbrev pub public_pair :
    {R E : Type 0}
    → Option (SigningMethod × SigningKey R E)
    → Option (SigningMethod × VerifyKey R E)
public_pair none = none
public_pair (some (m, k)) = some (m, public_of k)

abbrev succeeded :
    {R E : Type 0} → SigningMethod × VerifyKey R E → Result JwtError (SigningMethod × VerifyKey R E)
succeeded p = ok p

abbrev failed_with : {R E : Type 0} → JwtError → Result JwtError (SigningMethod × VerifyKey R E)
failed_with e = err e

no_success :
    {R E : Type 0}
    → (x : JwtError) (q : SigningMethod × VerifyKey R E) → succeeds (failed_with x) ≡ some q
    → ⊥
no_success x q e = cc

same_success :
    {R E : Type 0}
    → (p q : SigningMethod × VerifyKey R E) → succeeds (succeeded p) ≡ some q
    → succeeded p ≡ ok q
same_success p q e = cc

module _ {R E : Type 0} (pem : PemTool R E) where
  rsa_agrees :
      (is_1024 : Bool) (alg : Str) (key : List ℕ)
      → succeeds (verification_rsa pem is_1024 alg key)
        ≡ public_pair (succeeds (signing_rsa pem is_1024 alg key))
  unfolding verification_rsa signing_rsa
  rsa_agrees is_1024 alg key = ground arith

  ecdsa_agrees :
      (m : SigningMethod) (alg : Str) (key : List ℕ)
      → succeeds (verification_ecdsa pem m alg key)
        ≡ public_pair (succeeds (signing_ecdsa pem m alg key))
  unfolding verification_ecdsa signing_ecdsa
  ecdsa_agrees m alg key = ground arith

  -- The name of an algorithm is that of one method.
  other_alg :
      (alg : Str) (m n : SigningMethod)
      → is_alg alg m ≡ true
      → str_eq (alg_name m) (alg_name n) ≡ false
      → is_alg alg n ≡ false
  unfolding is_alg
  other_alg alg m n e d =
      subst (λ x. str_eq x (alg_name n) ≡ false) (sym ((str_eq_iff alg (alg_name m)).0 e)) d

  -- For every key type, algorithm and key, the verification mapping succeeds exactly when the
  -- signing mapping does, with the same method and the public part of the signing key.
  pub mappings_agree :
      (key_type : KeyType) (alg : Str) (key : List ℕ)
      → succeeds (jwt_verification_key_mapping pem key_type alg key)
        ≡ public_pair (succeeds (jwt_signing_key_mapping pem key_type alg key))
  unfolding jwt_verification_key_mapping jwt_signing_key_mapping alg_name
  mappings_agree key_general64b alg key = ground arith
  mappings_agree key_general128b alg key = elim (Bool-cases (is_alg alg hs384)) [
    | inl e ↦ rw (e, other_alg alg hs384 hs512 e refl) refl
    | inr e ↦ ground arith
  ]
  mappings_agree key_rsa1024 alg key = rsa_agrees true alg key
  mappings_agree key_rsa2048 alg key = rsa_agrees false alg key
  mappings_agree key_rsa3072 alg key = rsa_agrees false alg key
  mappings_agree key_rsa4096 alg key = rsa_agrees false alg key
  mappings_agree key_ecdsa256 alg key = ecdsa_agrees es256 alg key
  mappings_agree key_ecdsa384 alg key = ecdsa_agrees es384 alg key
  mappings_agree key_ecdsa521 alg key = ecdsa_agrees es512 alg key
  mappings_agree key_key_set alg key = refl
  mappings_agree key_aes128 alg key = refl
  mappings_agree key_aes192 alg key = refl
  mappings_agree key_aes256 alg key = refl
  mappings_agree key_ecdsa224 alg key = refl
  mappings_agree key_ed25519 alg key = refl

  abbrev IsNamed : Str → Result JwtError (SigningMethod × SigningKey R E) → Type 0
  IsNamed alg (ok p) = is_alg alg p.0 ≡ true
  IsNamed alg (err e) = Unit

  signing_rsa-IsNamed :
      (is_1024 : Bool) (alg : Str) (key : List ℕ) → IsNamed alg (signing_rsa pem is_1024 alg key)
  unfolding signing_rsa
  signing_rsa-IsNamed is_1024 alg key = ground arith

  signing_ecdsa-IsNamed :
      (m : SigningMethod) (alg : Str) (key : List ℕ) → IsNamed alg (signing_ecdsa pem m alg key)
  unfolding signing_ecdsa
  signing_ecdsa-IsNamed m alg key = ground arith

  signing-IsNamed :
      (key_type : KeyType) (alg : Str) (key : List ℕ)
      → IsNamed alg (jwt_signing_key_mapping pem key_type alg key)
  unfolding jwt_signing_key_mapping
  signing-IsNamed key_general64b alg key = ground arith
  signing-IsNamed key_general128b alg key = ground arith
  signing-IsNamed key_rsa1024 alg key = signing_rsa-IsNamed true alg key
  signing-IsNamed key_rsa2048 alg key = signing_rsa-IsNamed false alg key
  signing-IsNamed key_rsa3072 alg key = signing_rsa-IsNamed false alg key
  signing-IsNamed key_rsa4096 alg key = signing_rsa-IsNamed false alg key
  signing-IsNamed key_ecdsa256 alg key = signing_ecdsa-IsNamed es256 alg key
  signing-IsNamed key_ecdsa384 alg key = signing_ecdsa-IsNamed es384 alg key
  signing-IsNamed key_ecdsa521 alg key = signing_ecdsa-IsNamed es512 alg key
  signing-IsNamed key_key_set alg key = tt
  signing-IsNamed key_aes128 alg key = tt
  signing-IsNamed key_aes192 alg key = tt
  signing-IsNamed key_aes256 alg key = tt
  signing-IsNamed key_ecdsa224 alg key = tt
  signing-IsNamed key_ed25519 alg key = tt

  -- A key is mapped to the method whose name is the requested algorithm.
  pub signing_alg :
      (key_type : KeyType) (alg : Str) (key : List ℕ) (m : SigningMethod) (k : SigningKey R E)
      → jwt_signing_key_mapping pem key_type alg key ≡ ok (m, k)
      → alg ≡ alg_name m
  unfolding is_alg
  signing_alg key_type alg key m k e =
      (str_eq_iff alg (alg_name m)).0 (subst (IsNamed alg) e (signing-IsNamed key_type alg key))

  -- What signs with a key is verified with its public part.
  pub verification_of :
      (key_type : KeyType) (alg : Str) (key : List ℕ) (m : SigningMethod) (k : SigningKey R E)
      → jwt_signing_key_mapping pem key_type alg key ≡ ok (m, k)
      → jwt_verification_key_mapping pem key_type alg key ≡ ok (m, public_of k)
  verification_of key_type alg key m k e =
      let q = mappings_agree key_type alg key ∙ ap (λ z. public_pair (succeeds z)) e in
      elim (Result-cases (jwt_verification_key_mapping pem key_type alg key)) [
        | inl (p, f) ↦ f ∙ same_success p (m, public_of k) (sym (ap succeeds f) ∙ q)
        | inr (x, f) ↦ absurd (no_success x (m, public_of k) (sym (ap succeeds f) ∙ q))
      ]
