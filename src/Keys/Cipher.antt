-- ===== src/Keys/Cipher.antt =====
-- The cipher tool: configure/secretapi/cipher.go. The storage of keys and the library of AES are
-- parameters.
use nekoq_component.Base.{
  Bool, List, Option, false, if◌then◌else◌, none, not, some, ℕ, ◌≡◌, length, true,
}
use nekoq_component.Base.Str.{Str}
use nekoq_component.Base.Result.{Result, err, ok, ◌>>=◌}
use nekoq_component.Jwt.Pem.{PemTool}
use nekoq_component.Jwt.KeyTypes.{KeyType, key_aes128, key_general128b, key_general64b}
use nekoq_component.Keys.{
  KeyError, KeyLibrary, Random, gen_aes, gen_ecdsa, gen_rsa, or_error, read_buffer, storage_error,
  key_type_mismatch, invalid_key, random_error, open_error,
}

-- The methods of KeyStorage that the cipher tool calls, over the storage's state; the Boolean of a
-- store is whether it returns no error.
pub record DataKeys (S : Type 0) : Type 0 where
  pub store_l2_data_key : Str → Str → KeyType → List ℕ → S → S × Bool
  pub fetch_l2_data_key : Str → S → Option (ℕ × KeyType × List ℕ)
  pub load_l2_data_key_by_id : ℕ → S → Option (KeyType × List ℕ)

-- crypto/aes and crypto/cipher, for blocks B and ciphers A.
pub record AesGcm (B A : Type 0) : Type 0 where
  pub new_cipher : List ℕ → Option B
  pub new_gcm : B → Option A
  pub nonce_size : ℕ
  pub seal : A → List ℕ → List ℕ → List ℕ → List ℕ
  pub open_sealed : A → List ℕ → List ℕ → List ℕ → Option (List ℕ)
  -- A key of 16 bytes has a cipher.
  pub cipher_of_16 :
      (key : List ℕ)
      → length key ≡ 16
      → (b : B) × (a : A) × (new_cipher key ≡ some b) × (new_gcm b ≡ some a)
  -- What is sealed is opened with the same nonce and the same additional data.
  pub open_seal :
      (a : A) (nonce plain additional : List ℕ)
      → length nonce ≡ nonce_size
      → open_sealed a nonce (seal a nonce plain additional) additional ≡ some plain

unfoldable pub is_aes128 : KeyType → Bool
is_aes128 key_aes128 = true
is_aes128 _ = false

-- aes.NewCipher and cipher.NewGCM
unfoldable pub aead_of : {B A : Type 0} → AesGcm B A → List ℕ → Result KeyError A
aead_of gcm key =
    or_error invalid_key (gcm.new_cipher key) >>= (λ b. or_error invalid_key (gcm.new_gcm b))

-- Level2CipherTool over its storage and the name of its level-1 key, and over the ciphers.
module _ {S : Type 0} (storage : DataKeys S) (l1key : Str) where
  unfoldable pub internal_new_key :
      Result KeyError (List ℕ) → Str → KeyType → S → S × Option KeyError
  internal_new_key (err e) name key_type s = (s, some e)
  internal_new_key (ok key) name key_type s =
      let done = storage.store_l2_data_key l1key name key_type key s in
      (done.0, if done.1 then none else some storage_error)

  unfoldable pub new_general64b_key : Random → Str → S → S × Option KeyError
  new_general64b_key read name s = internal_new_key (read_buffer 64 read) name key_general64b s

  unfoldable pub new_general128b_key : Random → Str → S → S × Option KeyError
  new_general128b_key read name s = internal_new_key (read_buffer 128 read) name key_general128b s

  unfoldable pub new_aes128_key : Random → Str → S → S × Option KeyError
  new_aes128_key read name s = internal_new_key (gen_aes 128 read) name key_aes128 s

  unfoldable pub new_rsa_key :
      {R E : Type 0} → KeyLibrary R E → PemTool R E → Str → KeyType → S → S × Option KeyError
  new_rsa_key lib pem name key_type s = internal_new_key (gen_rsa lib pem key_type) name key_type s

  unfoldable pub new_ecdsa_key :
      {R E : Type 0} → KeyLibrary R E → PemTool R E → Str → KeyType → S → S × Option KeyError
  new_ecdsa_key lib pem name key_type s =
      internal_new_key (gen_ecdsa lib pem key_type) name key_type s

module _ {S B A : Type 0} (storage : DataKeys S) (gcm : AesGcm B A) where
  unfoldable pub aes128_encrypt :
      Str → List ℕ → List ℕ → Random → S → Result KeyError (ℕ × List ℕ × List ℕ)
  aes128_encrypt name plain additional read s = elim (storage.fetch_l2_data_key name s) [
    | none ↦ err storage_error
    | some (key_id, key_type, key) ↦
        if not (is_aes128 key_type)
        then err key_type_mismatch
        else (aead_of gcm key >>= (λ aead. elim (read gcm.nonce_size) [
          | none ↦ err random_error
          | some (n, nonce) ↦ ok (key_id, gcm.seal aead nonce plain additional, nonce)
        ]))
  ]

  unfoldable pub aes128_decrypt : ℕ → List ℕ → List ℕ → List ℕ → S → Result KeyError (List ℕ)
  aes128_decrypt key_id ciphertext nonce additional s =
      elim (storage.load_l2_data_key_by_id key_id s) [
        | none ↦ err storage_error
        | some (key_type, key) ↦
            if not (is_aes128 key_type)
            then err key_type_mismatch
            else (aead_of gcm key >>= (λ aead.
                or_error open_error (gcm.open_sealed aead nonce ciphertext additional)))
      ]
