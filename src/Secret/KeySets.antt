-- ===== src/Secret/KeySets.antt =====
-- The checksums of a set of keys: configure/secretapi/keygen.go.
use nekoq_component.Base.{Bool, List, arith, false, if◌then◌else◌, not, true, ℕ, ◌↔◌, ◌≡◌}
use nekoq_component.Base.Str.{Str, str_eq, str_eq_iff, str_eq_refl}
use nekoq_component.Hex.{hex_encode}
use nekoq_component.Secret.Crc.{checksum_ieee, put_uint32_le}

pub record KeySet : Type 0 where
  pub aes256 : List ℕ
  pub crc_aes256 : Str
  pub rsa4096 : List ℕ
  pub crc_rsa4096 : Str
  pub ecdsa_p521 : List ℕ
  pub crc_ecdsa_p521 : Str
  pub ed25519_pri : List ℕ
  pub crc_ed25519_pri : Str
  pub ed25519_pub : List ℕ
  pub crc_ed25519_pub : Str

unfoldable pub crc_string : List ℕ → Str
crc_string key = hex_encode (put_uint32_le (checksum_ieee key))

unfoldable pub verify_crc : KeySet → Bool
verify_crc k =
    if not (str_eq k.crc_aes256 (crc_string k.aes256))
    then false
    else if not (str_eq k.crc_rsa4096 (crc_string k.rsa4096))
    then false
    else if not (str_eq k.crc_ecdsa_p521 (crc_string k.ecdsa_p521))
    then false
    else if not (str_eq k.crc_ed25519_pri (crc_string k.ed25519_pri))
    then false
    else if not (str_eq k.crc_ed25519_pub (crc_string k.ed25519_pub))
    then false
    else true

unfoldable pub calculate_crc : KeySet → KeySet
calculate_crc k = record k {
  crc_aes256 = crc_string k.aes256;
  crc_rsa4096 = crc_string k.rsa4096;
  crc_ecdsa_p521 = crc_string k.ecdsa_p521;
  crc_ed25519_pri = crc_string k.ed25519_pri;
  crc_ed25519_pub = crc_string k.ed25519_pub;
}

pub verify_crc-calculate_crc : (k : KeySet) → verify_crc (calculate_crc k) ≡ true
unfolding verify_crc calculate_crc
verify_crc-calculate_crc k = ground (
  arith,
  str_eq_refl (crc_string k.aes256),
  str_eq_refl (crc_string k.rsa4096),
  str_eq_refl (crc_string k.ecdsa_p521),
  str_eq_refl (crc_string k.ed25519_pri),
  str_eq_refl (crc_string k.ed25519_pub),
)

calculate_crc_fixed : (k : KeySet) → verify_crc k ≡ true → calculate_crc k ≡ k
unfolding verify_crc calculate_crc
calculate_crc_fixed k h = grind (arith, str_eq_iff)

-- VerifyCrc accepts a key set exactly when CalculateCrc leaves it as it is.
pub verify_crc_iff : (k : KeySet) → (verify_crc k ≡ true) ↔ (calculate_crc k ≡ k)
verify_crc_iff k = (calculate_crc_fixed k, λ e. rw (← e) (verify_crc-calculate_crc k))
