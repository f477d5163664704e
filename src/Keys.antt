-- ===== src/Keys.antt =====
-- The generation of keys and the conversion of private keys: configure/secretapi/keygen.go and
-- cipher.raw.go. The random source and the libraries of RSA, ECDSA and Ed25519 are parameters.
pub mod Cipher
pub mod Generating
pub mod Rotation
mod Tests
use nekoq_component.Base.{List, Option, [], if◌then◌else◌, none, some, ℕ, ◌/◌, ◌==◌}
use nekoq_component.Base.Result.{Result, err, ok, ◌>>=◌}
use nekoq_component.Jwt.Pem.{PemTool}
use nekoq_component.Jwt.KeyTypes.{
  KeyType, key_ecdsa224, key_ecdsa256, key_ecdsa384, key_ecdsa521, key_rsa1024, key_rsa2048,
  key_rsa3072, key_rsa4096,
}
use nekoq_component.Secret.KeySets.{KeySet, calculate_crc}

pub data KeyError : Type 0 where
  random_error : KeyError
  short_random : KeyError
  invalid_key_type : KeyError
  generate_error : KeyError
  encode_error : KeyError
  parse_error : KeyError
  storage_error : KeyError
  key_type_mismatch : KeyError
  invalid_key : KeyError
  open_error : KeyError

-- `rand.Read` into a buffer of a size: how many bytes it reports, and the buffer.
abbrev pub Random : Type 0
Random = ℕ → Option (ℕ × List ℕ)

unfoldable pub read_buffer : ℕ → Random → Result KeyError (List ℕ)
read_buffer size read = elim (read size) [
  | none ↦ err random_error
  | some (n, buf) ↦ if n == size then ok buf else err short_random
]

unfoldable pub gen_aes : ℕ → Random → Result KeyError (List ℕ)
gen_aes size read = read_buffer (size / 8) read

pub data Curve : Type 0 where
  p224 : Curve
  p256 : Curve
  p384 : Curve
  p521 : Curve

-- The libraries that make private keys; an Ed25519 key comes with its public key.
pub record KeyLibrary (R E : Type 0) : Type 0 where
  pub generate_rsa : ℕ → Option R
  pub generate_ecdsa : Curve → Option E
  pub generate_ed25519 : Option (List ℕ × List ℕ)

unfoldable pub curve_of : KeyType → Option Curve
curve_of key_ecdsa224 = some p224
curve_of key_ecdsa256 = some p256
curve_of key_ecdsa384 = some p384
curve_of key_ecdsa521 = some p521
curve_of _ = none

unfoldable pub bits_of : KeyType → Option ℕ
bits_of key_rsa1024 = some 1024
bits_of key_rsa2048 = some 2048
bits_of key_rsa4096 = some 4096
bits_of key_rsa3072 = some 3072
bits_of _ = none

unfoldable pub or_error {ℓ} : {A : Type ℓ} → KeyError → Option A → Result KeyError A
or_error e none = err e
or_error e (some a) = ok a

pub data PrivateKey (R E : Type 0) : Type 0 where
  rsa_key : R → PrivateKey R E
  ecdsa_key : E → PrivateKey R E

module _ {R E : Type 0} (lib : KeyLibrary R E) (pem : PemTool R E) where
  unfoldable pub gen_ecdsa : KeyType → Result KeyError (List ℕ)
  gen_ecdsa key_type =
      or_error invalid_key_type (curve_of key_type)
      >>= (λ curve. or_error generate_error (lib.generate_ecdsa curve))
      >>= (λ pri. or_error encode_error (pem.encode_ecdsa_private_key pri))

  unfoldable pub gen_rsa : KeyType → Result KeyError (List ℕ)
  gen_rsa key_type =
      or_error invalid_key_type (bits_of key_type)
      >>= (λ bits. or_error generate_error (lib.generate_rsa bits))
      >>= (λ pri. ok (pem.encode_rsa_private_key pri))

  unfoldable pub key_set_of : List ℕ → R → List ℕ → List ℕ × List ℕ → KeySet
  key_set_of aes rsa ecdsa (pri, public) = calculate_crc (record {
    aes256 = aes;
    crc_aes256 = [];
    rsa4096 = pem.encode_rsa_private_key rsa;
    crc_rsa4096 = [];
    ecdsa_p521 = ecdsa;
    crc_ecdsa_p521 = [];
    ed25519_pri = pri;
    crc_ed25519_pri = [];
    ed25519_pub = public;
    crc_ed25519_pub = [];
  })

  unfoldable pub generate_vital_key_set : Random → Result KeyError KeySet
  generate_vital_key_set read = read_buffer (256 / 8) read >>= (λ aes.
      or_error generate_error (lib.generate_rsa 4096) >>= (λ rsa.
        or_error generate_error (lib.generate_ecdsa p521)
        >>= (λ pri. or_error encode_error (pem.encode_ecdsa_private_key pri))
        >>= (λ ecdsa.
            or_error generate_error lib.generate_ed25519
            >>= (λ ed. ok (key_set_of aes rsa ecdsa ed)))))

-- RawCipherTool.ConvertPKISupportedKey
module _ {R E : Type 0} (pem : PemTool R E) where
  unfoldable pub convert_rsa : List ℕ → Result KeyError (PrivateKey R E)
  convert_rsa key =
      or_error parse_error (pem.parse_rsa_private_key key) >>= (λ pri. ok (rsa_key pri))

  unfoldable pub convert_ecdsa : List ℕ → Result KeyError (PrivateKey R E)
  convert_ecdsa key =
      or_error parse_error (pem.parse_ecdsa_private_key key) >>= (λ pri. ok (ecdsa_key pri))

  unfoldable pub convert_pki_supported_key : KeyType → List ℕ → Result KeyError (PrivateKey R E)
  convert_pki_supported_key key_rsa1024 key = convert_rsa key
  convert_pki_supported_key key_rsa2048 key = convert_rsa key
  convert_pki_supported_key key_rsa4096 key = convert_rsa key
  convert_pki_supported_key key_rsa3072 key = convert_rsa key
  convert_pki_supported_key key_ecdsa224 key = convert_ecdsa key
  convert_pki_supported_key key_ecdsa256 key = convert_ecdsa key
  convert_pki_supported_key key_ecdsa384 key = convert_ecdsa key
  convert_pki_supported_key key_ecdsa521 key = convert_ecdsa key
  convert_pki_supported_key _ key = err invalid_key_type
