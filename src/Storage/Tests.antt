-- ===== src/Storage/Tests.antt =====
-- A run of the cipher tool on the storage in the database.
use nekoq_component.Base.{
  List, [], ap, arith, drop, length, ltb, none, refl, replicate, some, true, ℕ, ◌++◌, ◌+◌, ◌-◌, ◌∷◌,
  ◌≡◌, map, drop-append, length-replicate,
}
use nekoq_component.Base.Str.{bytes}
use nekoq_component.Base.Result.{ok}
use nekoq_component.Secret.KeySets.{KeySet}
use nekoq_component.Secret.RoundTrip.{IsPlainText}
use nekoq_component.Jwt.KeyTypes.{key_type_string}
use nekoq_component.Keys.{Random, gen_aes, or_error, read_buffer}
use nekoq_component.Keys.Cipher.{
  AesGcm, aes128_decrypt, aes128_encrypt, aead_of, internal_new_key, new_aes128_key,
}
use nekoq_component.Keys.Generating.{KeepsSize}
use nekoq_component.Keys.Rotation.{NewKey, aes128, general64b, new_keys}
use nekoq_component.Storage.{
  DatabaseAnswers, Base64, KeySetDecrypt, Level1Row, aes_gcm_enc, check, check_rotate_level2_key,
  data_encrypt_by_l1, latest, load_level1_key_set_internal, new_row, or_cipher, or_fail,
  same_key_type, store_l2_data_key, version_and_type, with_id, write_row,
}
use nekoq_component.Storage.Sealing.{IsBase64}
use nekoq_component.Storage.Versions.{IsKeyed}
use nekoq_component.Storage.Rotations.{Database, aes128_decrypt-aes128_encrypt, postgres_keys}

abbrev sample_random : Random
sample_random size = some (size, replicate size 7)

sample_random-KeepsSize : KeepsSize sample_random
sample_random-KeepsSize size n buf e =
    let same : replicate size 7 ≡ buf = cc in rw (← same) (length-replicate size 7)

abbrev sample_gcm : AesGcm (List ℕ) (List ℕ)
sample_gcm = record {
  new_cipher = λ key. some key;
  new_gcm = λ b. some b;
  nonce_size = 12;
  seal = λ a nonce plain additional. nonce ++ plain;
  open_sealed = λ a nonce sealed additional. some (drop (length nonce) sealed);
  cipher_of_16 = λ key h. (key, key, refl, refl);
  open_seal = λ a nonce plain additional h. ap some (drop-append nonce plain (length nonce) refl);
}

-- Bytes as letters.
abbrev letter : ℕ → ℕ
letter b = b + 64

abbrev byte : ℕ → ℕ
byte c = c - 64

abbrev sample_base64 : Base64
sample_base64 = record {
  encode_to_string = λ bs. map letter bs;
  decode_string = λ text. some (map byte text);
}

letters_plain : (bs : List ℕ) → IsPlainText (map letter bs)
letters_plain [] = tt
letters_plain (b ∷ bs) = (omega arith, letters_plain bs)

letters_back : (bs : List ℕ) → map byte (map letter bs) ≡ bs
letters_back [] = refl
letters_back (b ∷ bs) =
    let same : byte (letter b) ≡ b = omega arith in rw (same, letters_back bs) refl

sample-IsBase64 : IsBase64 sample_base64
sample-IsBase64 = (letters_plain, λ bs. ap some (letters_back bs))

abbrev level1_key_set : KeySet
level1_key_set = record {
  aes256 = 1 ∷ [];
  crc_aes256 = [];
  rsa4096 = [];
  crc_rsa4096 = [];
  ecdsa_p521 = [];
  crc_ecdsa_p521 = [];
  ed25519_pri = [];
  crc_ed25519_pri = [];
  ed25519_pub = [];
  crc_ed25519_pub = [];
}

abbrev sample_decrypt : KeySetDecrypt
sample_decrypt text = some level1_key_set

-- The third call fails to commit.
abbrev sample_answers : ℕ → DatabaseAnswers
sample_answers i = record {
  begins = true;
  selects = true;
  selects_level1 = true;
  inserts = true;
  retires = true;
  commits = ltb i 2;
  nonces = sample_random;
  now = 5;
}

abbrev level1_row : Level1Row
level1_row = record {
  l1_id = 3;
  l1_name = bytes "l1";
  l1_version = 1;
  l1_status = 0;
  l1_encrypted = bytes "x";
}

abbrev sample_database : Database
sample_database = record {
  tables = record { level1 = level1_row ∷ []; level2 = []; next_key_id = 1 };
  calls = 0;
}

sample-IsKeyed : IsKeyed sample_database.tables
unfolding with_id
sample-IsKeyed = (((omega arith, refl), tt), tt)

abbrev after_key : Database
after_key =
    (new_aes128_key (postgres_keys sample_gcm sample_base64 sample_decrypt sample_answers)
      (bytes "l1") sample_random (bytes "k") sample_database).0

abbrev later_keys : List (NewKey (List ℕ) (List ℕ))
later_keys =
    aes128 sample_random (bytes "k")
    ∷ general64b sample_random (bytes "g")
    ∷ aes128 sample_random (bytes "k")
    ∷ []

sample_made :
    new_aes128_key
      (postgres_keys sample_gcm sample_base64 sample_decrypt sample_answers)
      (bytes "l1")
      sample_random
      (bytes "k")
      sample_database
    ≡ (after_key, none)
unfolding postgres_keys new_aes128_key internal_new_key gen_aes read_buffer store_l2_data_key
    new_row check version_and_type latest check_rotate_level2_key same_key_type
    load_level1_key_set_internal or_fail data_encrypt_by_l1 aes_gcm_enc or_cipher aead_of or_error
    write_row key_type_string
sample_made = refl

aes128_decrypt-aes128_encrypt_example :
    (id : ℕ) × (sealed : List ℕ) × (aes128_encrypt
        (postgres_keys sample_gcm sample_base64 sample_decrypt sample_answers)
        sample_gcm
        (bytes "k")
        (bytes "p")
        []
        sample_random
        after_key
      ≡ ok (id, sealed, replicate 12 7))
    × (aes128_decrypt
          (postgres_keys sample_gcm sample_base64 sample_decrypt sample_answers)
          sample_gcm
          id
          sealed
          (replicate 12 7)
          []
          (new_keys
            (postgres_keys sample_gcm sample_base64 sample_decrypt sample_answers)
            (bytes "l1")
            later_keys
            after_key)
        ≡ ok (bytes "p"))
aes128_decrypt-aes128_encrypt_example =
    aes128_decrypt-aes128_encrypt sample_gcm sample_base64 sample_decrypt sample_answers
      (bytes "l1") sample_random sample_random (bytes "k") sample_database after_key 12
      (replicate 12 7) (bytes "p") [] later_keys (λ i. sample_random-KeepsSize) sample-IsBase64
      sample-IsKeyed sample_random-KeepsSize sample_random-KeepsSize sample_made refl
