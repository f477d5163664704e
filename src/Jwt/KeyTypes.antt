-- ===== src/Jwt/KeyTypes.antt =====
-- The types of keys and their names: configure/secretapi/store.go.
use nekoq_component.Base.{List, Option, [], if◌then◌else◌, none, refl, some, ◌∷◌, ◌≡◌}
use nekoq_component.Base.Str.{Str, bytes, str_eq}

pub data KeyType : Type 0 where
  key_key_set : KeyType
  key_aes128 : KeyType
  key_aes192 : KeyType
  key_aes256 : KeyType
  key_rsa1024 : KeyType
  key_rsa2048 : KeyType
  key_rsa3072 : KeyType
  key_rsa4096 : KeyType
  key_ecdsa224 : KeyType
  key_ecdsa256 : KeyType
  key_ecdsa384 : KeyType
  key_ecdsa521 : KeyType
  key_ed25519 : KeyType
  key_general64b : KeyType
  key_general128b : KeyType

-- KeyType.String
unfoldable pub key_type_string : KeyType → Str
key_type_string key_key_set = bytes "KeySet"
key_type_string key_aes128 = bytes "KeyAES128"
key_type_string key_aes192 = bytes "KeyAES192"
key_type_string key_aes256 = bytes "KeyAES256"
key_type_string key_ed25519 = bytes "KeyEd25519"
key_type_string key_rsa1024 = bytes "KeyRSA1024"
key_type_string key_rsa2048 = bytes "KeyRSA2048"
key_type_string key_rsa4096 = bytes "KeyRSA4096"
key_type_string key_rsa3072 = bytes "KeyRSA3072"
key_type_string key_ecdsa224 = bytes "KeyECDSA224"
key_type_string key_ecdsa256 = bytes "KeyECDSA256"
key_type_string key_ecdsa384 = bytes "KeyECDSA384"
key_type_string key_ecdsa521 = bytes "KeyECDSA521"
key_type_string key_general64b = bytes "KeyGeneral64B"
key_type_string key_general128b = bytes "KeyGeneral128B"

abbrev pub all_key_types : List KeyType
all_key_types =
    key_key_set ∷ key_aes128 ∷ key_aes192 ∷ key_aes256 ∷ key_ed25519 ∷ key_rsa1024 ∷ key_rsa2048
    ∷ key_rsa4096 ∷ key_rsa3072 ∷ key_ecdsa224 ∷ key_ecdsa256 ∷ key_ecdsa384 ∷ key_ecdsa521
    ∷ key_general64b ∷ key_general128b ∷ []

-- The switch over the names; none is the panic of its default.
unfoldable pub switch_name : List KeyType → Str → Option KeyType
switch_name [] str = none
switch_name (k ∷ ks) str = if str_eq str (key_type_string k) then some k else switch_name ks str

-- KeyType.FromString
unfoldable pub key_type_from_string : Str → Option KeyType
key_type_from_string str = switch_name all_key_types str

pub key_type_from_string-key_type_string :
    (k : KeyType) → key_type_from_string (key_type_string k) ≡ some k
unfolding key_type_from_string switch_name key_type_string
key_type_from_string-key_type_string key_key_set = refl
key_type_from_string-key_type_string key_aes128 = refl
key_type_from_string-key_type_string key_aes192 = refl
key_type_from_string-key_type_string key_aes256 = refl
key_type_from_string-key_type_string key_rsa1024 = refl
key_type_from_string-key_type_string key_rsa2048 = refl
key_type_from_string-key_type_string key_rsa3072 = refl
key_type_from_string-key_type_string key_rsa4096 = refl
key_type_from_string-key_type_string key_ecdsa224 = refl
key_type_from_string-key_type_string key_ecdsa256 = refl
key_type_from_string-key_type_string key_ecdsa384 = refl
key_type_from_string-key_type_string key_ecdsa521 = refl
key_type_from_string-key_type_string key_ed25519 = refl
key_type_from_string-key_type_string key_general64b = refl
key_type_from_string-key_type_string key_general128b = refl
