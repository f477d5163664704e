-- ===== src/Secret/Tests.antt =====
-- Runs of the definitions on key sets and sealed data.
use nekoq_component.Base.{
  All, Bool, Bool-cases, List, [], arith, if◌then◌else◌, inl, inr, ltb, refl, some, true, ℕ, ◌&&◌,
  ◌<◌, ◌∷◌, ◌≡◌,
}
use nekoq_component.Base.Str.{Str, bytes}
use nekoq_component.Base.Map.{lookup, nat_eq, str_key}
use nekoq_component.Base.Result.{Result, err, ok}
use nekoq_component.Hex.{hex_digit, hex_encode}
use nekoq_component.Secret.Crc.{checksum_ieee, crc_bit, crc_bits, crc_bytes}
use nekoq_component.Secret.KeySets.{KeySet, calculate_crc, verify_crc-calculate_crc}
use nekoq_component.Secret.Sealed.{decimal, decimal_int64, format_encrypted_data}
use nekoq_component.Secret.Loading.{new_local_file_unseal_provider}
use nekoq_component.Secret.Latest.{HasApartIds, HasFiles, IsLatestOf, new_provider-HasFiles}
use nekoq_component.Secret.Provider.{
  Aead, LocalFileUnsealProvider, decrypt-encrypt, decrypt_internal, encrypt,
}

-- The check value of the checksum.
checksum_of_digits : checksum_ieee (bytes "123456789") ≡ 3421780262
unfolding checksum_ieee crc_bytes crc_bits crc_bit
checksum_of_digits = refl

abbrev key_set : KeySet
key_set = record {
  aes256 = 1 ∷ [];
  crc_aes256 = [];
  rsa4096 = 2 ∷ [];
  crc_rsa4096 = [];
  ecdsa_p521 = [];
  crc_ecdsa_p521 = [];
  ed25519_pri = [];
  crc_ed25519_pri = [];
  ed25519_pub = [];
  crc_ed25519_pub = [];
}

abbrev are_bytes : List ℕ → Bool
are_bytes [] = true
are_bytes (b ∷ bs) = ltb b 256 && are_bytes bs

are_bytes-All : (bs : List ℕ) → are_bytes bs ≡ true → All (λ b. b < 256) bs
are_bytes-All [] h = tt
are_bytes-All (b ∷ bs) h = (ground arith, are_bytes-All bs (ground arith))

-- A cipher that leaves bytes as they are, and refuses other lists.
abbrev seal_plain : KeySet → List ℕ → List ℕ → Result (Unit {0}) (List ℕ)
seal_plain k nonce plain = if are_bytes plain then ok plain else err tt

abbrev open_plain : KeySet → List ℕ → List ℕ → Result (Unit {0}) (List ℕ)
open_plain k c nonce = ok c

seal_plain-All :
    (k : KeySet) (nonce plain c : List ℕ) → seal_plain k nonce plain ≡ ok c → All (λ b. b < 256) c
seal_plain-All k nonce plain c h = elim (Bool-cases (are_bytes plain)) [
  | inl q ↦ let e : plain ≡ c = grind arith in are_bytes-All c (rw (e) at q)
  | inr q ↦ absurd (grind arith)
]

open_plain-seal_plain :
    (k : KeySet) (nonce plain c : List ℕ)
    → seal_plain k nonce plain ≡ ok c
    → open_plain k c nonce ≡ ok plain
open_plain-seal_plain k nonce plain c h = grind arith

abbrev plain_aead : Aead (Unit {0})
plain_aead = record {
  seal = seal_plain;
  open_sealed = open_plain;
  seal_bytes = seal_plain-All;
  open_seal = open_plain-seal_plain;
}

abbrev provider : LocalFileUnsealProvider
provider = record { key_sets = (3, key_set) ∷ []; latest_key_id = 3; latest_key = key_set }

encrypts : encrypt plain_aead provider (9 ∷ []) (65 ∷ 66 ∷ []) ≡ ok (bytes "$3$4142$09", bytes "3")
unfolding encrypt format_encrypted_data decimal_int64 decimal hex_encode hex_digit
encrypts = refl

latest_found : lookup 3 provider.key_sets ≡ some key_set
unfolding lookup
latest_found = refl

decrypt-encrypt_example :
    decrypt_internal plain_aead provider (bytes "$3$4142$09") ≡ ok (65 ∷ 66 ∷ [], 3)
decrypt-encrypt_example =
    decrypt-encrypt plain_aead provider provider (9 ∷ []) (65 ∷ 66 ∷ []) (bytes "$3$4142$09")
      (bytes "3") encrypts (omega arith) (omega arith, tt) latest_found

abbrev load_same : Str → Result (Unit {0}) KeySet
load_same path = ok (calculate_crc key_set)

two_ids : HasApartIds ((1, bytes "a") ∷ (2, bytes "b") ∷ [])
unfolding lookup
two_ids = (refl, (refl, tt))

new_provider-HasFiles_example :
    (l : LocalFileUnsealProvider) × (new_local_file_unseal_provider load_same
        ((1, bytes "a") ∷ (2, bytes "b") ∷ [])
      ≡ ok l)
    × HasFiles load_same ((1, bytes "a") ∷ (2, bytes "b") ∷ []) l
    × IsLatestOf load_same ((1, bytes "a") ∷ (2, bytes "b") ∷ []) l
new_provider-HasFiles_example =
    new_provider-HasFiles load_same (1, bytes "a") ((2, bytes "b") ∷ []) two_ids
      (
        (calculate_crc key_set, refl, verify_crc-calculate_crc key_set),
        ((calculate_crc key_set, refl, verify_crc-calculate_crc key_set), tt),
      )
