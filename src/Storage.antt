-- ===== src/Storage.antt =====
-- The storage of data keys in the database: configure/secretimpl/secret.pg.go and secret.pg.utils.go,
-- with the cipher of a key set from configure/secretapi/keygen.go. Each SQL statement is a function
-- on the tables. What the database answers besides their rows, the decoding of a level-1 key set,
-- base64, AES and the random source are parameters.
pub mod Sealing
pub mod Rows
pub mod Versions
pub mod Keeping
pub mod Rotations
mod Tests
use nekoq_component.Base.{
  Bool, List, Option, [], if◌then◌else◌, ltb, map, none, some, suc, ℕ, ◌&&◌, ◌+◌, ◌++◌, ◌==◌, ◌∷◌,
  ◌-◌, ◌^◌,
}
use nekoq_component.Base.Str.{Str, str_eq}
use nekoq_component.Base.Result.{Result, err, ok, ◌>>=◌}
use nekoq_component.ConfigApi.{split_on}
use nekoq_component.Secret.KeySets.{KeySet}
use nekoq_component.Secret.Sealed.{
  ScanError, decimal_int64, expect, scan_key_id, scan_token, skip_blanks,
}
use nekoq_component.Jwt.KeyTypes.{KeyType, key_type_from_string, key_type_string}
use nekoq_component.Keys.{KeyError, Random}
use nekoq_component.Keys.Cipher.{AesGcm, aead_of}

pub data StorageError : Type 0 where
  database_error : StorageError
  no_such_key : StorageError
  key_type_mismatch : StorageError
  key_set_error : StorageError
  cipher_error : KeyError → StorageError
  nonce_error : StorageError
  open_failed : StorageError
  bad_text : ScanError → StorageError
  invalid_cipher_data : StorageError
  base64_error : StorageError
  -- KeyType.FromString of another text
  key_type_panic : StorageError

pub record Base64 : Type 0 where
  pub encode_to_string : List ℕ → Str
  pub decode_string : Str → Option (List ℕ)

unfoldable pub or_fail {ℓ} : {A : Type ℓ} → StorageError → Option A → Result StorageError A
or_fail e none = err e
or_fail e (some a) = ok a

unfoldable pub or_cipher {ℓ} : {A : Type ℓ} → Result KeyError A → Result StorageError A
or_cipher (err e) = err (cipher_error e)
or_cipher (ok a) = ok a

unfoldable pub or_bad_text {ℓ} : {A : Type ℓ} → Result ScanError A → Result StorageError A
or_bad_text (err e) = err (bad_text e)
or_bad_text (ok a) = ok a

-- `$%d$%s` by Sscanf, and the second text split at dollar signs
unfoldable pub scan_parts : Str → Result ScanError (ℕ × List Str)
scan_parts str = expect 36 str >>= (λ s1. skip_blanks s1) >>= (λ s2. scan_key_id s2) >>= (λ r.
    expect 36 r.1
    >>= (λ s3. skip_blanks s3)
    >>= (λ s4. scan_token s4)
    >>= (λ t. ok (r.0, split_on 36 t)))

module _ {B A : Type 0} (gcm : AesGcm B A) where
  -- The cipher text and the nonce.
  unfoldable pub aes_gcm_enc : Random → KeySet → List ℕ → Result StorageError (List ℕ × List ℕ)
  aes_gcm_enc read k plain = or_cipher (aead_of gcm k.aes256) >>= (λ aead.
      or_fail nonce_error (read gcm.nonce_size)
      >>= (λ drawn. ok (gcm.seal aead drawn.1 plain [], drawn.1)))

  unfoldable pub aes_gcm_dec : KeySet → List ℕ → List ℕ → Result StorageError (List ℕ)
  aes_gcm_dec k encrypted nonce =
      or_cipher (aead_of gcm k.aes256)
      >>= (λ aead. or_fail open_failed (gcm.open_sealed aead nonce encrypted []))

  module _ (base64 : Base64) where
    unfoldable pub data_text : ℕ → List ℕ × List ℕ → Str
    data_text id (ciphertext, nonce) =
        36
        ∷ (decimal_int64 id
            ++ 36 ∷ (base64.encode_to_string ciphertext ++ 36 ∷ base64.encode_to_string nonce))

    unfoldable pub data_encrypt_by_l1 : Random → List ℕ → ℕ → KeySet → Result StorageError Str
    data_encrypt_by_l1 read key id lv1_ks =
        aes_gcm_enc read lv1_ks key >>= (λ sealed. ok (data_text id sealed))

    unfoldable pub decrypt_parts : KeySet → ℕ × List Str → Result StorageError (ℕ × List ℕ)
    decrypt_parts lv1_ks (id, a ∷ b ∷ []) =
        or_fail base64_error (base64.decode_string a) >>= (λ ciphertext.
          or_fail base64_error (base64.decode_string b)
          >>= (λ nonce. aes_gcm_dec lv1_ks ciphertext nonce >>= (λ plain. ok (id, plain))))
    decrypt_parts lv1_ks (id, _) = err invalid_cipher_data

    unfoldable pub data_decrypt_by_l1 : Str → KeySet → Result StorageError (ℕ × List ℕ)
    data_decrypt_by_l1 text lv1_ks =
        or_bad_text (scan_parts text) >>= (λ parts. decrypt_parts lv1_ks parts)

-- The columns of secret_level1 that are read.
pub record Level1Row : Type 0 where
  pub l1_id : ℕ
  pub l1_name : Str
  pub l1_version : ℕ
  pub l1_status : ℕ
  pub l1_encrypted : Str

-- A row of secret_level2; its version counts rotations, and is taken not to reach 2^63.
pub record Level2Row : Type 0 where
  pub key_id : ℕ
  pub key_name : Str
  pub key_version : ℕ
  pub key_status : ℕ
  pub use_key_id : ℕ
  pub key_type_text : Str
  pub key_encrypted : Str
  pub expired_time : ℕ
  pub key_created : ℕ
  pub key_updated : ℕ

-- The two tables, with the next value of the serial of secret_level2.
pub record Tables : Type 0 where
  pub level1 : List Level1Row
  pub level2 : List Level2Row
  pub next_key_id : ℕ

-- order by key_version desc limit 1
unfoldable pub latest : {R : Type 0} → (R → ℕ) → (R → Bool) → List R → Option R
latest version where_ [] = none
latest version where_ (r ∷ rs) = elim (latest version where_ rs) [
  | none ↦ if where_ r then some r else none
  | some q ↦ if where_ r && ltb (version q) (version r) then some r else some q
]

-- where key_id = id
unfoldable pub with_id : {R : Type 0} → (R → ℕ) → ℕ → List R → Option R
with_id id_of id [] = none
with_id id_of id (r ∷ rs) = if id_of r == id then some r else with_id id_of id rs

-- keySetDecrypt with the unseal provider
abbrev pub KeySetDecrypt : Type 0
KeySetDecrypt = Str → Option KeySet

unfoldable pub load_level1_key_set_internal :
    KeySetDecrypt → Str → Tables → Result StorageError (ℕ × KeySet)
load_level1_key_set_internal decrypt name t =
    or_fail no_such_key
      (latest (λ r. r.l1_version) (λ r. str_eq r.l1_name name && (r.l1_status == 0)) t.level1)
    >>= (λ r. or_fail key_set_error (decrypt r.l1_encrypted) >>= (λ ks. ok (r.l1_id, ks)))

unfoldable pub load_level1_key_set_by_id : KeySetDecrypt → ℕ → Tables → Result StorageError KeySet
load_level1_key_set_by_id decrypt id t =
    or_fail no_such_key (with_id (λ r. r.l1_id) id t.level1)
    >>= (λ r. or_fail key_set_error (decrypt r.l1_encrypted))

-- What the database answers to one call of StoreL2DataKey, with the random source and the clock.
pub record DatabaseAnswers : Type 0 where
  pub begins : Bool
  pub selects : Bool
  pub selects_level1 : Bool
  pub inserts : Bool
  pub retires : Bool
  pub commits : Bool
  pub nonces : Random
  pub now : ℕ

unfoldable pub same_key_type : KeyType → KeyType → Bool
same_key_type a b = str_eq (key_type_string a) (key_type_string b)

-- checkRotateLevel2Key; no key type of the model is 0.
unfoldable pub check_rotate_level2_key : KeyType → KeyType → Result StorageError (Unit {0})
check_rotate_level2_key key_type expected =
    if same_key_type key_type expected then ok tt else err key_type_mismatch

-- The greatest version of a name and its key type.
unfoldable pub version_and_type : Str → KeyType → List Level2Row → Result StorageError (ℕ × KeyType)
version_and_type name key_type rs =
    elim (latest (λ r. r.key_version) (λ r. str_eq r.key_name name) rs) [
      | none ↦ ok (0, key_type)
      | some r ↦
          or_fail key_type_panic (key_type_from_string r.key_type_text)
          >>= (λ k. ok (r.key_version, k))
    ]

-- set key_status = 1 where key_name = name and key_version < next
unfoldable pub retire : ℕ → Str → ℕ → Level2Row → Level2Row
retire now name next r =
    if str_eq r.key_name name && ltb r.key_version next
    then record r { key_status = 1; key_updated = now }
    else r

unfoldable pub check : Bool → Result StorageError (Unit {0})
check b = if b then ok tt else err database_error

-- The row of the next version.
unfoldable pub row_to_insert : DatabaseAnswers → Str → ℕ → KeyType → ℕ → Str → Tables → Level2Row
row_to_insert w name version key_type lv1_id encrypted t = record {
  key_id = t.next_key_id;
  key_name = name;
  key_version = version + 1;
  key_status = 0;
  use_key_id = lv1_id;
  key_type_text = key_type_string key_type;
  key_encrypted = encrypted;
  expired_time = 2 ^ 63 - 1;
  key_created = w.now;
  key_updated = w.now;
}

unfoldable pub taken : Tables → Tables
taken t = record t { next_key_id = suc t.next_key_id }

-- The insert, the update of the versions before, and the commit; a transaction that is rolled back
-- leaves the rows, and the serial has gone on.
unfoldable pub write_row : DatabaseAnswers → Level2Row → Tables → Tables × Option StorageError
write_row w r t =
    if w.inserts && w.retires && w.commits
    then (
      record (taken t) { level2 = map (retire w.now r.key_name r.key_version) (r ∷ t.level2) },
      none,
    )
    else (taken t, some database_error)

module _ {B A : Type 0} (gcm : AesGcm B A) (base64 : Base64) (decrypt : KeySetDecrypt) where
  -- The row to insert, by what comes before the insert.
  unfoldable pub new_row :
      DatabaseAnswers → Str → Str → KeyType → List ℕ → Tables → Result StorageError Level2Row
  new_row w l1_name name key_type key t = check w.begins >>= (λ _. check w.selects) >>= (λ _.
      version_and_type name key_type t.level2 >>= (λ found.
        check_rotate_level2_key found.1 key_type >>= (λ _. check w.selects_level1) >>= (λ _.
          load_level1_key_set_internal decrypt l1_name t >>= (λ lv1.
            data_encrypt_by_l1 gcm base64 w.nonces key lv1.0 lv1.1
            >>= (λ encrypted. ok (row_to_insert w name found.0 found.1 lv1.0 encrypted t))))))

  unfoldable pub store_l2_data_key :
      DatabaseAnswers → Str → Str → KeyType → List ℕ → Tables → Tables × Option StorageError
  store_l2_data_key w l1_name name key_type key t = elim (new_row w l1_name name key_type key t) [
    | err e ↦ (t, some e)
    | ok r ↦ write_row w r t
  ]

  -- The key type and the key of a row.
  unfoldable pub read_row : Level2Row → Tables → Result StorageError (KeyType × List ℕ)
  read_row r t = or_fail key_type_panic (key_type_from_string r.key_type_text) >>= (λ key_type.
      load_level1_key_set_by_id decrypt r.use_key_id t
      >>= (λ ks. data_decrypt_by_l1 gcm base64 r.key_encrypted ks >>= (λ p. ok (key_type, p.1))))

  unfoldable pub fetch_l2_data_key :
      Bool → Str → Tables → Result StorageError (ℕ × KeyType × List ℕ)
  fetch_l2_data_key reads name t =
      check reads
      >>= (λ _. or_fail no_such_key (
          latest (λ r. r.key_version) (λ r. str_eq r.key_name name && (r.key_status == 0))
            t.level2))
      >>= (λ r. read_row r t >>= (λ p. ok (r.key_id, p.0, p.1)))

  unfoldable pub load_l2_data_key_by_id : Bool → ℕ → Tables → Result StorageError (KeyType × List ℕ)
  load_l2_data_key_by_id reads id t =
      check reads
      >>= (λ _. or_fail no_such_key (with_id (λ r. r.key_id) id t.level2))
      >>= (λ r. read_row r t)
