-- ===== src/ConfigApi/Signature.antt =====
-- The signature of a configuration: configure/configapi/protocol.go. SHA-256 is a parameter.
use nekoq_component.Base.{Bool, List, ℕ, ◌++◌}
use nekoq_component.Base.Str.{Str, bytes, str_eq}
use nekoq_component.Hex.{hex_encode}
use nekoq_component.ConfigApi.{Configuration}

module _ (sha256 : List ℕ → List ℕ) where
  unfoldable pub generate_signature : Configuration → Str
  generate_signature c = bytes "sha256:" ++ hex_encode (sha256 c.value_bytes)

  unfoldable pub validate_signature : Configuration → Bool
  validate_signature c = str_eq c.signature (generate_signature c)
