-- ===== src/Storage/Rotations.antt =====
-- The cipher tool of configure/secretapi/cipher.go on the storage in the database of
-- configure/secretimpl/secret.pg.go.
use nekoq_component.Base.{
  Bool, Bool-cases, List, Option, ap, arith, false, inl, inr, none, refl, some, subst, suc, true, ℕ,
  ◌&&◌, ◌∙◌, ◌≡◌,
}
use nekoq_component.Base.Str.{Str}
use nekoq_component.Base.Result.{Result, Result-cases, err, ok}
use nekoq_component.Jwt.KeyTypes.{KeyType}
use nekoq_component.Keys.{Random}
use nekoq_component.Keys.Cipher.{AesGcm, DataKeys, aes128_decrypt, aes128_encrypt, new_aes128_key}
use nekoq_component.Keys.Generating.{KeepsSize}
use nekoq_component.Keys.Rotation.{KeepsKeys, NewKey, new_keys, sealed_is_opened}
use nekoq_component.Storage.{
  DatabaseAnswers, Base64, KeySetDecrypt, StorageError, Tables, fetch_l2_data_key,
  load_l2_data_key_by_id, load_level1_key_set_by_id, new_row, read_row, store_l2_data_key, taken,
  write_row,
}
use nekoq_component.Storage.Sealing.{IsBase64}
use nekoq_component.Storage.Rows.{All-weaken}
use nekoq_component.Storage.Versions.{IsKeyed}
use nekoq_component.Storage.Keeping.{
  fetched_row, loaded_older, loaded_row, new_row-IsNewRow, with_row-IsKeyed,
}

-- The database, with how many calls of StoreL2DataKey it has answered.
pub record Database : Type 0 where
  pub tables : Tables
  pub calls : ℕ

abbrev pub to_option {ℓ} : {A : Type ℓ} → Result StorageError A → Option A
to_option (ok a) = some a
to_option (err e) = none

abbrev has_no_error : Option StorageError → Bool
has_no_error none = true
has_no_error (some e) = false

has_no_error-none : (e : Option StorageError) → has_no_error e ≡ true → e ≡ none
has_no_error-none none h = refl
has_no_error-none (some e) h = absurd (cc)

to_option-some {ℓ} :
    {A : Type ℓ} (r : Result StorageError A) (a : A) → to_option r ≡ some a → r ≡ ok a
to_option-some (ok x) a h = cc
to_option-some (err e) a h = cc

module _ {B A : Type 0} (gcm : AesGcm B A) (base64 : Base64) (decrypt : KeySetDecrypt) where
  -- PostgresKeyStorage as the cipher tool's storage; its reads are answered.
  unfoldable pub postgres_keys : (ℕ → DatabaseAnswers) → DataKeys Database
  postgres_keys answers = record {
    store_l2_data_key = λ l1_name name key_type key s.
        let done =
          store_l2_data_key gcm base64 decrypt (answers s.calls) l1_name name key_type key
            s.tables in
        (record { tables = done.0; calls = suc s.calls }, has_no_error done.1);
    fetch_l2_data_key =
        λ name s. to_option (fetch_l2_data_key gcm base64 decrypt true name s.tables);
    load_l2_data_key_by_id =
        λ id s. to_option (load_l2_data_key_by_id gcm base64 decrypt true id s.tables);
  }

  -- What a store leaves, whatever it answers.
  abbrev IsKept : Str → KeyType → List ℕ → Tables → Tables × Option StorageError → Type 0
  IsKept name key_type key t done =
      IsKeyed done.0
      × (done.1 ≡ none
          → (id : ℕ) × (fetch_l2_data_key gcm base64 decrypt true name done.0
              ≡ ok (id, key_type, key))
            × (load_l2_data_key_by_id gcm base64 decrypt true id done.0 ≡ ok (key_type, key)))
      × ((id : ℕ) (k : KeyType × List ℕ)
          → load_l2_data_key_by_id gcm base64 decrypt true id t ≡ ok k
          → load_l2_data_key_by_id gcm base64 decrypt true id done.0 ≡ ok k)

  load-taken :
      (id : ℕ) (t : Tables)
      → load_l2_data_key_by_id gcm base64 decrypt true id (taken t)
        ≡ load_l2_data_key_by_id gcm base64 decrypt true id t
  unfolding load_l2_data_key_by_id read_row load_level1_key_set_by_id taken
  load-taken id t = refl

  taken-IsKeyed : (t : Tables) → IsKeyed t → IsKeyed (taken t)
  unfolding taken
  taken-IsKeyed t (l1, l2) = (l1, All-weaken t.level2 (λ r f. omega (arith, f)) l2)

  store-IsKept :
      (w : DatabaseAnswers) (l1_name name : Str) (key_type : KeyType) (key : List ℕ) (t : Tables)
      → KeepsSize w.nonces
      → IsBase64 base64
      → IsKeyed t
      → IsKept name key_type key t
          (store_l2_data_key gcm base64 decrypt w l1_name name key_type key t)
  unfolding store_l2_data_key write_row taken
  store-IsKept w l1_name name key_type key t sizes b64 keyed =
      elim (Result-cases (new_row gcm base64 decrypt w l1_name name key_type key t)) [
        | inr (e, q) ↦ rw (store_l2_data_key, q) (keyed, λ h. absurd (cc), λ id k h. h)
        | inl (r, q) ↦
            let is_new =
              new_row-IsNewRow gcm base64 decrypt w l1_name name key_type key t r sizes b64 keyed
                q in
            elim (Bool-cases (w.inserts && w.retires && w.commits)) [
              | inl b ↦
                  rw (store_l2_data_key, q, write_row, b)
                    (
                      with_row-IsKeyed gcm base64 decrypt w.now t r keyed is_new.0,
                      λ h. (
                        r.key_id,
                        fetched_row gcm base64 decrypt w.now name key_type key t r is_new,
                        loaded_row gcm base64 decrypt w.now name key_type key t r is_new,
                      ),
                      λ id k h. loaded_older gcm base64 decrypt w.now id k t r keyed is_new.0 h,
                    )
              | inr b ↦
                  rw (store_l2_data_key, q, write_row, b)
                    (taken-IsKeyed t keyed, λ h. absurd (cc), λ id k h. load-taken id t ∙ h)
            ]
      ]

  postgres_keys-KeepsKeys :
      (answers : ℕ → DatabaseAnswers)
      → ((i : ℕ) → KeepsSize (answers i).nonces)
      → IsBase64 base64
      → KeepsKeys (postgres_keys answers) (λ s. IsKeyed s.tables)
  unfolding postgres_keys
  postgres_keys-KeepsKeys answers sizes b64 = record {
    fetch_stored = λ l1key name key_type key s s1 keyed stored.
        let kept =
          store-IsKept (answers s.calls) l1key name key_type key s.tables (sizes s.calls) b64
            keyed in
        let (id, fetched, loaded) = kept.1 (
          has_no_error-none
            (store_l2_data_key gcm base64 decrypt (answers s.calls) l1key name key_type key
              s.tables).1
            (ap (λ x. x.1) stored)) in
        subst
          (λ x.
            (i : ℕ) × (to_option (fetch_l2_data_key gcm base64 decrypt true name x.tables)
              ≡ some (i, key_type, key))
            × (to_option (load_l2_data_key_by_id gcm base64 decrypt true i x.tables)
                ≡ some (key_type, key)))
          (ap (λ x. x.0) stored) (id, ap to_option fetched, ap to_option loaded);
    load_stored = λ l1key name key_type key s id k keyed h.
        let kept =
          store-IsKept (answers s.calls) l1key name key_type key s.tables (sizes s.calls) b64
            keyed in
        ap to_option (
          kept.2 id k
            (to_option-some (load_l2_data_key_by_id gcm base64 decrypt true id s.tables) k h));
    store_keeps = λ l1key name key_type key s keyed.
        (store-IsKept (answers s.calls) l1key name key_type key s.tables (sizes s.calls) b64
          keyed).0;
  }

module _ {B A R E : Type 0} (gcm : AesGcm B A) (base64 : Base64) (decrypt : KeySetDecrypt)
    (answers : ℕ → DatabaseAnswers) (l1key : Str) where
  -- After NewAes128Key has made a key without an error on the storage in the database,
  -- Aes128Encrypt under its name succeeds with the nonce it draws, and whatever keys are made or
  -- rotated after that, with or without errors of the database, Aes128Decrypt of what it returned
  -- gives the plain text back. The tables are keyed: a row of level 1 is found by its id, an
  -- int64, and the ids of level 2 are below the next one. Reads of the database are answered, the
  -- random sources give buffers of the size asked for, base64 text is plain and decodes to what
  -- was encoded, and the AES library has a cipher for a key of 16 bytes and opens what it sealed
  -- with the same nonce and additional data.
  pub aes128_decrypt-aes128_encrypt :
      (read nonces : Random) (name : Str) (s s1 : Database) (n : ℕ)
      (nonce plain additional : List ℕ) (later : List (NewKey R E))
      → ((i : ℕ) → KeepsSize (answers i).nonces)
      → IsBase64 base64
      → IsKeyed s.tables
      → KeepsSize read
      → KeepsSize nonces
      → new_aes128_key (postgres_keys gcm base64 decrypt answers) l1key read name s ≡ (s1, none)
      → nonces gcm.nonce_size ≡ some (n, nonce)
      → (id : ℕ) × (sealed : List ℕ) × (aes128_encrypt
            (postgres_keys gcm base64 decrypt answers)
            gcm
            name
            plain
            additional
            nonces
            s1
          ≡ ok (id, sealed, nonce))
        × (aes128_decrypt
              (postgres_keys gcm base64 decrypt answers)
              gcm
              id
              sealed
              nonce
              additional
              (new_keys (postgres_keys gcm base64 decrypt answers) l1key later s1)
            ≡ ok plain)
  aes128_decrypt-aes128_encrypt read nonces name s s1 n nonce plain additional later sizes b64 keyed
        keeps keeps' made drawn =
      sealed_is_opened (postgres_keys gcm base64 decrypt answers) gcm l1key
        (postgres_keys-KeepsKeys gcm base64 decrypt answers sizes b64) read nonces name s s1 n nonce
        plain additional later keyed keeps keeps' made drawn
