-- ===== src/Jwt/Pem.antt =====
-- The text of private keys: configure/secretapi/pem.go. PEM blocks and the formats of private keys,
-- encoding/pem and crypto/x509, are parameters.
use nekoq_component.Base.{List, Option, none, refl, some, ℕ, ◌≡◌}
use nekoq_component.Base.Str.{Str, bytes}

-- PEM text of a type and of bytes, and the bytes of the first block; keys as PKCS 1 and as EC keys.
pub record KeyFormats (R E : Type 0) : Type 0 where
  pub encode_to_memory : Str → List ℕ → List ℕ
  pub decode : List ℕ → Option (List ℕ)
  pub marshal_pkcs1 : R → List ℕ
  pub parse_pkcs1 : List ℕ → Option R
  pub marshal_ec : E → Option (List ℕ)
  pub parse_ec : List ℕ → Option E

-- The methods of PemTool on private keys.
pub record PemTool (R E : Type 0) : Type 0 where
  pub encode_rsa_private_key : R → List ℕ
  pub parse_rsa_private_key : List ℕ → Option R
  pub encode_ecdsa_private_key : E → Option (List ℕ)
  pub parse_ecdsa_private_key : List ℕ → Option E

module _ {R E : Type 0} (formats : KeyFormats R E) where
  unfoldable pub encode_rsa_private : R → List ℕ
  encode_rsa_private pri =
      formats.encode_to_memory (bytes "RSA PRIVATE KEY") (formats.marshal_pkcs1 pri)

  unfoldable pub parse_rsa_private : List ℕ → Option R
  parse_rsa_private text = elim (formats.decode text) [
    | none ↦ none
    | some block ↦ formats.parse_pkcs1 block
  ]

  unfoldable pub encode_ecdsa_private : E → Option (List ℕ)
  encode_ecdsa_private pri = elim (formats.marshal_ec pri) [
    | none ↦ none
    | some key ↦ some (formats.encode_to_memory (bytes "EC PRIVATE KEY") key)
  ]

  unfoldable pub parse_ecdsa_private : List ℕ → Option E
  parse_ecdsa_private text = elim (formats.decode text) [
    | none ↦ none
    | some block ↦ formats.parse_ec block
  ]

  abbrev pub new_pem_tool : PemTool R E
  new_pem_tool = record {
    encode_rsa_private_key = encode_rsa_private;
    parse_rsa_private_key = parse_rsa_private;
    encode_ecdsa_private_key = encode_ecdsa_private;
    parse_ecdsa_private_key = parse_ecdsa_private;
  }

  -- The libraries read back what they wrote.
  abbrev pub Restores : Type 0
  Restores =
      ((name block : List ℕ) → formats.decode (formats.encode_to_memory name block) ≡ some block)
      × ((pri : R) → formats.parse_pkcs1 (formats.marshal_pkcs1 pri) ≡ some pri)
      × ((pri : E) (key : List ℕ)
          → formats.marshal_ec pri ≡ some key
          → formats.parse_ec key ≡ some pri)

  pub parse_rsa_private-encode :
      (pri : R) → Restores → parse_rsa_private (encode_rsa_private pri) ≡ some pri
  unfolding parse_rsa_private encode_rsa_private
  parse_rsa_private-encode pri (read, rsa, ec) =
      rw (parse_rsa_private, read (bytes "RSA PRIVATE KEY") (formats.marshal_pkcs1 pri), rsa pri)
        refl

  ecdsa_text :
      (o : Option (List ℕ)) (key : List ℕ)
      → Path
          (Option (List ℕ))
          (elim o [
            | none ↦ none
            | some k ↦ some (formats.encode_to_memory (bytes "EC PRIVATE KEY") k)
          ])
          (some key)
      → (k : List ℕ) × (o ≡ some k) × (formats.encode_to_memory (bytes "EC PRIVATE KEY") k ≡ key)
  ecdsa_text none key h = absurd cc
  ecdsa_text (some k) key h = (k, refl, cc)

  pub parse_ecdsa_private-encode :
      (pri : E) (key : List ℕ)
      → Restores
      → encode_ecdsa_private pri ≡ some key
      → parse_ecdsa_private key ≡ some pri
  unfolding parse_ecdsa_private encode_ecdsa_private
  parse_ecdsa_private-encode pri key (read, rsa, ec) h =
      let (k, m, same) = ecdsa_text (formats.marshal_ec pri) key h in
      rw (← same, parse_ecdsa_private, read (bytes "EC PRIVATE KEY") k, ec pri k m) refl
