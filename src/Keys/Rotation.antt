-- ===== src/Keys/Rotation.antt =====
-- What is sealed stays readable when keys are made and rotated: configure/secretapi/cipher.go.
use nekoq_component.Base.{
  List, Option, arith, inl, inr, if◌then◌else◌, ap, false, length, refl, subst, some, true, ℕ, ◌≡◌,
  [], ◌∷◌, none, Bool,
}
use nekoq_component.Base.Str.{Str}
use nekoq_component.Base.Result.{Result, Result-cases, err, ok}
use nekoq_component.Jwt.Pem.{PemTool}
use nekoq_component.Jwt.KeyTypes.{KeyType, key_aes128}
use nekoq_component.Keys.{KeyError, KeyLibrary, Random, gen_aes, or_error, storage_error}
use nekoq_component.Keys.Cipher.{
  AesGcm, DataKeys, aes128_decrypt, aes128_encrypt, aead_of, internal_new_key, is_aes128,
  new_aes128_key, new_ecdsa_key, new_general128b_key, new_general64b_key, new_rsa_key,
}
use nekoq_component.Keys.Generating.{KeepsSize, length-read_buffer}

-- A call that makes a key, with what the random source or the libraries give it.
pub data NewKey (R E : Type 0) : Type 0 where
  general64b : Random → Str → NewKey R E
  general128b : Random → Str → NewKey R E
  aes128 : Random → Str → NewKey R E
  rsa : KeyLibrary R E → PemTool R E → Str → KeyType → NewKey R E
  ecdsa : KeyLibrary R E → PemTool R E → Str → KeyType → NewKey R E

-- What a storage keeps from a state on that satisfies P, whatever is stored later.
pub record KeepsKeys {S : Type 0} (storage : DataKeys S) (P : S → Type 0) : Type 0 where
  -- A stored key is the one that its name fetches, under an id that loads it.
  pub fetch_stored :
      (l1key name : Str) (key_type : KeyType) (key : List ℕ) (s s1 : S)
      → P s
      → storage.store_l2_data_key l1key name key_type key s ≡ (s1, true)
      → (id : ℕ) × (storage.fetch_l2_data_key name s1 ≡ some (id, key_type, key))
        × (storage.load_l2_data_key_by_id id s1 ≡ some (key_type, key))
  -- A key is loaded by its id also after other keys were stored.
  pub load_stored :
      (l1key name : Str) (key_type : KeyType) (key : List ℕ) (s : S) (id : ℕ) (k : KeyType × List ℕ)
      → P s
      → storage.load_l2_data_key_by_id id s ≡ some k
      → storage.load_l2_data_key_by_id id (storage.store_l2_data_key l1key name key_type key s).0
        ≡ some k
  pub store_keeps :
      (l1key name : Str) (key_type : KeyType) (key : List ℕ) (s : S)
      → P s
      → P (storage.store_l2_data_key l1key name key_type key s).0

pub aead_of_16 :
    {B A : Type 0} (gcm : AesGcm B A) (key : List ℕ)
    → length key ≡ 16
    → (a : A) × (aead_of gcm key ≡ ok a)
unfolding aead_of or_error
aead_of_16 gcm key h = let (b, a, p, q) = gcm.cipher_of_16 key h in (a, rw (aead_of, p, q) refl)

no_error :
    {S : Type 0} (done : S × Bool) (s1 : S)
    → Path (S × Option KeyError) (done.0, if done.1 then none else some storage_error) (s1, none)
    → done ≡ (s1, true)
no_error (s, true) s1 h = ap (λ x. (x.0, true)) h
no_error (s, false) s1 h = cc

module _ {S : Type 0} (storage : DataKeys S) (l1key : Str) where
  internal_new_key-loads :
      {P : S → Type 0} (keeps : KeepsKeys storage P) (key : Result KeyError (List ℕ)) (name : Str)
      (key_type : KeyType) (s : S)
      → P s
      → P (internal_new_key storage l1key key name key_type s).0
        × ((id : ℕ) (k : KeyType × List ℕ)
            → storage.load_l2_data_key_by_id id s ≡ some k
            → storage.load_l2_data_key_by_id id
                (internal_new_key storage l1key key name key_type s).0
              ≡ some k)
  unfolding internal_new_key
  internal_new_key-loads keeps (err e) name key_type s p = (p, λ id k h. h)
  internal_new_key-loads keeps (ok key) name key_type s p = (
    keeps.store_keeps l1key name key_type key s p,
    λ id k h. keeps.load_stored l1key name key_type key s id k p h,
  )

  -- NewAes128Key that returns no error has stored a key of 16 bytes.
  new_aes128_key_stored :
      (read : Random) (name : Str) (s s1 : S)
      → KeepsSize read
      → new_aes128_key storage l1key read name s ≡ (s1, none)
      → (key : List ℕ) × (length key ≡ 16)
        × (storage.store_l2_data_key l1key name key_aes128 key s ≡ (s1, true))
  unfolding new_aes128_key internal_new_key gen_aes
  new_aes128_key_stored read name s s1 keeps e = elim (Result-cases (gen_aes 128 read)) [
    | inr (x, q) ↦ absurd (grind arith)
    | inl (key, q) ↦ (
      key,
      length-read_buffer read 16 key keeps q,
      no_error (storage.store_l2_data_key l1key name key_aes128 key s) s1
          (subst (λ r. internal_new_key storage l1key r name key_aes128 s ≡ (s1, none)) q e),
    )
  ]

module _ {S R E : Type 0} (storage : DataKeys S) (l1key : Str) where
  unfoldable pub new_key : NewKey R E → S → S
  new_key (general64b read name) s = (new_general64b_key storage l1key read name s).0
  new_key (general128b read name) s = (new_general128b_key storage l1key read name s).0
  new_key (aes128 read name) s = (new_aes128_key storage l1key read name s).0
  new_key (rsa lib pem name key_type) s = (new_rsa_key storage l1key lib pem name key_type s).0
  new_key (ecdsa lib pem name key_type) s = (new_ecdsa_key storage l1key lib pem name key_type s).0

  unfoldable pub new_keys : List (NewKey R E) → S → S
  new_keys [] s = s
  new_keys (c ∷ cs) s = new_keys cs (new_key c s)

  new_key-loads :
      {P : S → Type 0} (keeps : KeepsKeys storage P) (c : NewKey R E) (s : S)
      → P s
      → P (new_key c s)
        × ((id : ℕ) (k : KeyType × List ℕ)
            → storage.load_l2_data_key_by_id id s ≡ some k
            → storage.load_l2_data_key_by_id id (new_key c s) ≡ some k)
  unfolding new_key new_general64b_key new_general128b_key new_aes128_key new_rsa_key new_ecdsa_key
  new_key-loads keeps (general64b read name) s p =
      internal_new_key-loads storage l1key keeps _ name _ s p
  new_key-loads keeps (general128b read name) s p =
      internal_new_key-loads storage l1key keeps _ name _ s p
  new_key-loads keeps (aes128 read name) s p =
      internal_new_key-loads storage l1key keeps _ name _ s p
  new_key-loads keeps (rsa lib pem name key_type) s p =
      internal_new_key-loads storage l1key keeps _ name _ s p
  new_key-loads keeps (ecdsa lib pem name key_type) s p =
      internal_new_key-loads storage l1key keeps _ name _ s p

  new_keys-loads :
      {P : S → Type 0} (keeps : KeepsKeys storage P) (cs : List (NewKey R E)) (s : S) (id : ℕ)
      (k : KeyType × List ℕ)
      → P s
      → storage.load_l2_data_key_by_id id s ≡ some k
      → storage.load_l2_data_key_by_id id (new_keys cs s) ≡ some k
  unfolding new_keys
  new_keys-loads keeps [] s id k p h = h
  new_keys-loads keeps (c ∷ cs) s id k p h =
      let (q, loads) = new_key-loads keeps c s p in
      new_keys-loads keeps cs (new_key c s) id k q (loads id k h)

module _ {S B A R E : Type 0} (storage : DataKeys S) (gcm : AesGcm B A) (l1key : Str) where
  pub sealed_is_opened :
      {P : S → Type 0} (keeper : KeepsKeys storage P) (read nonces : Random) (name : Str) (s s1 : S)
      (n : ℕ) (nonce plain additional : List ℕ) (later : List (NewKey R E))
      → P s
      → KeepsSize read
      → KeepsSize nonces
      → new_aes128_key storage l1key read name s ≡ (s1, none)
      → nonces gcm.nonce_size ≡ some (n, nonce)
      → (id : ℕ) × (sealed : List ℕ) × (aes128_encrypt storage gcm name plain additional nonces s1
          ≡ ok (id, sealed, nonce))
        × (aes128_decrypt storage gcm id sealed nonce additional (new_keys storage l1key later s1)
            ≡ ok plain)
  unfolding aes128_encrypt aes128_decrypt is_aes128 or_error
  sealed_is_opened {P = P} keeper read nonces name s s1 n nonce plain additional later p keeps
        keeps' made drawn =
      let (key, h, stored) = new_aes128_key_stored storage l1key read name s s1 keeps made in
      let (id, fetched, loaded) = keeper.fetch_stored l1key name key_aes128 key s s1 p stored in
      let p1 : P s1 =
        subst (λ x. P x.0) stored (keeper.store_keeps l1key name key_aes128 key s p) in
      let (a, aead) = aead_of_16 gcm key h in
      (
        id,
        gcm.seal a nonce plain additional,
        rw (aes128_encrypt, fetched, is_aes128, aead, drawn) refl,
        rw
            (
              aes128_decrypt,
              new_keys-loads storage l1key keeper later s1 id (key_aes128, key) p1 loaded,
              is_aes128,
              aead,
              gcm.open_seal a nonce plain additional (keeps' gcm.nonce_size n nonce drawn),
            )
            refl,
      )
