-- ===== src/Secret/Provider.antt =====
-- The provider that seals with local key sets: configure/secret/unseal.local.go. The cipher of a key
-- set, AES in Galois counter mode, is a parameter, with the nonce it draws.
use nekoq_component.Base.{
  All, List, Option, [], arith, if◌then◌else◌, inl, inr, length, none, refl, some, ℕ, ◌<◌, ◌==◌,
  ◌^◌, ◌≡◌,
}
use nekoq_component.Base.Str.{Str, str_eq}
use nekoq_component.Base.Map.{Map, lookup, nat_eq, str_key}
use nekoq_component.Base.Result.{Result, Result-cases, err, ok}
use nekoq_component.Secret.KeySets.{KeySet}
use nekoq_component.Secret.Sealed.{
  ScanError, decimal_int64, format_encrypted_data, scan_encrypted_data,
}
use nekoq_component.Secret.RoundTrip.{scan_encrypted_data-format_encrypted_data}

-- AesGCMEnc, of a nonce, and AesGCMDec of a key set.
pub record Aead {ℓ} (E : Type ℓ) : Type ℓ where
  pub seal : KeySet → List ℕ → List ℕ → Result E (List ℕ)
  pub open_sealed : KeySet → List ℕ → List ℕ → Result E (List ℕ)
  -- What is sealed is a list of bytes, which opens under the same key and nonce.
  pub seal_bytes :
      (k : KeySet) (nonce plain c : List ℕ) → seal k nonce plain ≡ ok c → All (λ b. b < 256) c
  pub open_seal :
      (k : KeySet) (nonce plain c : List ℕ)
      → seal k nonce plain ≡ ok c
      → open_sealed k c nonce ≡ ok plain

pub data ProviderError {ℓ} (E : Type ℓ) : Type ℓ where
  no_secret_unseal : ProviderError E
  no_key_set : ℕ → ProviderError E
  bad_text : ScanError → ProviderError E
  cipher_error : E → ProviderError E

pub record LocalFileUnsealProvider : Type 0 where
  pub key_sets : Map ℕ KeySet
  pub latest_key_id : ℕ
  pub latest_key : KeySet

module _ {ℓ} {E : Type ℓ} (aead : Aead E) where
  unfoldable pub encrypt :
      LocalFileUnsealProvider → List ℕ → List ℕ → Result (ProviderError E) (Str × Str)
  encrypt l nonce plain = elim (aead.seal l.latest_key nonce plain) [
    | err e ↦ err (cipher_error e)
    | ok c ↦ ok (format_encrypted_data l.latest_key_id c nonce, decimal_int64 l.latest_key_id)
  ]

  unfoldable pub decrypt_internal :
      LocalFileUnsealProvider → Str → Result (ProviderError E) (List ℕ × ℕ)
  decrypt_internal l ciphertext = elim (scan_encrypted_data ciphertext) [
    | err e ↦ err (bad_text e)
    | ok (key_id, d, nonce) ↦ elim (lookup key_id l.key_sets) [
      | none ↦ err (no_key_set key_id)
      | some k ↦ elim (aead.open_sealed k d nonce) [
        | err e ↦ err (cipher_error e)
        | ok plain ↦ ok (plain, key_id)
      ]
    ]
  ]

  -- The response of WaitUnsealOperation: none for the empty one of the initial state.
  unfoldable pub wait_unseal_operation :
      LocalFileUnsealProvider → Str → Result (ProviderError E) (Option (Str × List ℕ))
  wait_unseal_operation l token_text =
      if str_eq token_text []
      then ok none
      else if length l.key_sets == 0
      then err no_secret_unseal
      else elim (decrypt_internal l token_text) [
        | err e ↦ err e
        | ok (plain, key_id) ↦ ok (some (decimal_int64 key_id, plain))
      ]

  -- What a provider encrypts with its latest key set is decrypted, with that key's id, by every
  -- provider that has the same key set under that id, for a cipher that opens what it sealed and
  -- seals to bytes.
  pub decrypt-encrypt :
      (l later : LocalFileUnsealProvider) (nonce plain : List ℕ) (text id : Str)
      → encrypt l nonce plain ≡ ok (text, id)
      → l.latest_key_id < 2 ^ 64
      → All (λ b. b < 256) nonce
      → lookup l.latest_key_id later.key_sets ≡ some l.latest_key
      → decrypt_internal later text ≡ ok (plain, l.latest_key_id)
  unfolding encrypt decrypt_internal
  decrypt-encrypt l later nonce plain text id h k hn m =
      elim (Result-cases (aead.seal l.latest_key nonce plain)) [
        | inr (e, q) ↦ absurd (grind arith)
        | inl (c, q) ↦
            let t : text ≡ format_encrypted_data l.latest_key_id c nonce = grind arith in
            rw
              (
                t,
                decrypt_internal,
                scan_encrypted_data-format_encrypted_data l.latest_key_id c nonce k
                    (aead.seal_bytes l.latest_key nonce plain c q) hn,
                m,
                aead.open_seal l.latest_key nonce plain c q,
              )
              refl
      ]
