-- ===== src/Keys/Generating.antt =====
-- What the generators of configure/secretapi/keygen.go make is what the other parts take.
use nekoq_component.Base.{
  List, Option, Option-cases, arith, inl, inr, length, refl, none, subst, some, true, ℕ, ◌∙◌, ◌≡◌,
  ◌⊎◌, ◌/◌,
}
use nekoq_component.Base.Result.{>>=-eq_ok, Result, ok, ◌>>=◌}
use nekoq_component.Jwt.Pem.{
  KeyFormats, PemTool, Restores, encode_ecdsa_private, encode_rsa_private, new_pem_tool,
  parse_ecdsa_private-encode, parse_rsa_private-encode,
}
use nekoq_component.Jwt.KeyTypes.{
  KeyType, key_aes128, key_aes192, key_aes256, key_ecdsa224, key_ecdsa256, key_ecdsa384,
  key_ecdsa521, key_ed25519, key_general128b, key_general64b, key_key_set, key_rsa1024, key_rsa2048,
  key_rsa3072, key_rsa4096,
}
use nekoq_component.Secret.KeySets.{KeySet, calculate_crc, verify_crc, verify_crc-calculate_crc}
use nekoq_component.Keys.{
  Curve, KeyError, KeyLibrary, Random, bits_of, convert_ecdsa, convert_pki_supported_key,
  convert_rsa, curve_of, ecdsa_key, gen_ecdsa, gen_rsa, generate_vital_key_set, key_set_of,
  or_error, p224, p256, p384, p521, generate_error, encode_error, invalid_key_type, read_buffer,
  rsa_key,
}

-- A read fills its buffer, which keeps its size.
abbrev pub KeepsSize : Random → Type 0
KeepsSize read = (size n : ℕ) (buf : List ℕ) → read size ≡ some (n, buf) → length buf ≡ size

pub length-read_buffer :
    (read : Random) (size : ℕ) (key : List ℕ)
    → KeepsSize read
    → read_buffer size read ≡ ok key
    → length key ≡ size
unfolding read_buffer
length-read_buffer read size key k h = elim (Option-cases (read size)) [
  | inl q ↦ absurd (grind arith)
  | inr ((n, buf), q) ↦ let same : buf ≡ key = grind arith in rw (← same) (k size n buf q)
]

abbrev made {ℓ} : {A : Type ℓ} → A → Result KeyError A
made a = ok a

ok_injective {ℓ} : {A : Type ℓ} (a b : A) → made a ≡ made b → a ≡ b
ok_injective a b h = cc

pub or_error-ok {ℓ} :
    {A : Type ℓ} (e : KeyError) (o : Option A) (a : A) → or_error e o ≡ ok a → o ≡ some a
unfolding or_error
or_error-ok e none a h = cc
or_error-ok e (some x) a h = cc

aes256-calculate_crc : (k : KeySet) → length (calculate_crc k).aes256 ≡ length k.aes256
unfolding calculate_crc
aes256-calculate_crc k = refl

module _ {R E : Type 0} (lib : KeyLibrary R E) (pem : PemTool R E) where
  key_set_of-Verified :
      (aes : List ℕ) (rsa : R) (ecdsa : List ℕ) (ed : List ℕ × List ℕ)
      → length aes ≡ 32
      → (verify_crc (key_set_of lib pem aes rsa ecdsa ed) ≡ true)
        × (length (key_set_of lib pem aes rsa ecdsa ed).aes256 ≡ 32)
  unfolding key_set_of
  key_set_of-Verified aes rsa ecdsa (pri, public) h =
      (verify_crc-calculate_crc _, aes256-calculate_crc _ ∙ h)

  -- Every key set that GenerateVitalKeySet returns passes VerifyCrc, and its AES key has 32 bytes,
  -- for a random source that fills buffers of the size it is given.
  pub generate_vital_key_set-Verified :
      (read : Random) (k : KeySet)
      → KeepsSize read
      → generate_vital_key_set lib pem read ≡ ok k
      → (verify_crc k ≡ true) × (length k.aes256 ≡ 32)
  unfolding generate_vital_key_set
  generate_vital_key_set-Verified read k h e =
      let (aes, ha, e1) = >>=-eq_ok (read_buffer (256 / 8) read) _ e in
      let (rsa, hr, e2) = >>=-eq_ok (or_error generate_error (lib.generate_rsa 4096)) _ e1 in
      let (ecdsa, he, e3) =
        >>=-eq_ok
          (or_error generate_error (lib.generate_ecdsa p521)
            >>= (λ pri. or_error encode_error (pem.encode_ecdsa_private_key pri)))
          _ e2 in
      let (ed, hd, e4) = >>=-eq_ok (or_error generate_error lib.generate_ed25519) _ e3 in
      subst (λ x. (verify_crc x ≡ true) × (length x.aes256 ≡ 32))
        (ok_injective (key_set_of lib pem aes rsa ecdsa ed) k e4)
        (key_set_of-Verified aes rsa ecdsa ed (length-read_buffer read 32 aes h ha))

module _ {R E : Type 0} (lib : KeyLibrary R E) (pem : PemTool R E) where
  -- The parsers read back what the encoders wrote.
  abbrev ReadsBack : Type 0
  ReadsBack =
      ((pri : R) → pem.parse_rsa_private_key (pem.encode_rsa_private_key pri) ≡ some pri)
      × ((pri : E) (key : List ℕ)
          → pem.encode_ecdsa_private_key pri ≡ some key
          → pem.parse_ecdsa_private_key key ≡ some pri)

  gen_rsa_made :
      (bits : Option ℕ) (key : List ℕ)
      → ReadsBack
      → (or_error invalid_key_type bits
          >>= (λ b. or_error generate_error (lib.generate_rsa b))
          >>= (λ pri. ok (pem.encode_rsa_private_key pri)))
        ≡ ok key
      → (pri : R) × (pem.encode_rsa_private_key pri ≡ key)
        × (convert_rsa pem key ≡ ok (rsa_key pri))
  unfolding convert_rsa or_error
  gen_rsa_made bits key back e =
      let (pri, _, h) =
        >>=-eq_ok
          (or_error invalid_key_type bits >>= (λ b. or_error generate_error (lib.generate_rsa b))) _
          e in
      let same = ok_injective (pem.encode_rsa_private_key pri) key h in
      (pri, same, rw (← same, convert_rsa, back.0 pri) refl)

  gen_ecdsa_made :
      (curve : Option Curve) (key : List ℕ)
      → ReadsBack
      → (or_error invalid_key_type curve
          >>= (λ c. or_error generate_error (lib.generate_ecdsa c))
          >>= (λ pri. or_error encode_error (pem.encode_ecdsa_private_key pri)))
        ≡ ok key
      → (pri : E) × (pem.encode_ecdsa_private_key pri ≡ some key)
        × (convert_ecdsa pem key ≡ ok (ecdsa_key pri))
  unfolding convert_ecdsa or_error
  gen_ecdsa_made curve key back e =
      let (pri, _, h) =
        >>=-eq_ok
          (or_error invalid_key_type curve
            >>= (λ c. or_error generate_error (lib.generate_ecdsa c)))
          _ e in
      let some_key = or_error-ok encode_error (pem.encode_ecdsa_private_key pri) key h in
      (pri, some_key, rw (convert_ecdsa, back.1 pri key some_key) refl)

  Parsed : KeyType → Type 0
  Parsed key_type =
      ((b : ℕ) × (bits_of key_type ≡ some b)
        × (curve_of key_type ≡ none)
        × ((key : List ℕ) → convert_pki_supported_key pem key_type key ≡ convert_rsa pem key))
      ⊎ ((c : Curve) × (bits_of key_type ≡ none)
          × (curve_of key_type ≡ some c)
          × ((key : List ℕ) → convert_pki_supported_key pem key_type key ≡ convert_ecdsa pem key))
      ⊎ ((bits_of key_type ≡ none) × (curve_of key_type ≡ none))

  key_type-Parsed : (key_type : KeyType) → Parsed key_type
  unfolding Parsed bits_of curve_of convert_pki_supported_key
  key_type-Parsed key_rsa1024 = inl (1024, refl, refl, λ key. refl)
  key_type-Parsed key_rsa2048 = inl (2048, refl, refl, λ key. refl)
  key_type-Parsed key_rsa3072 = inl (3072, refl, refl, λ key. refl)
  key_type-Parsed key_rsa4096 = inl (4096, refl, refl, λ key. refl)
  key_type-Parsed key_ecdsa224 = inr (inl (p224, refl, refl, λ key. refl))
  key_type-Parsed key_ecdsa256 = inr (inl (p256, refl, refl, λ key. refl))
  key_type-Parsed key_ecdsa384 = inr (inl (p384, refl, refl, λ key. refl))
  key_type-Parsed key_ecdsa521 = inr (inl (p521, refl, refl, λ key. refl))
  key_type-Parsed key_key_set = inr (inr (refl, refl))
  key_type-Parsed key_aes128 = inr (inr (refl, refl))
  key_type-Parsed key_aes192 = inr (inr (refl, refl))
  key_type-Parsed key_aes256 = inr (inr (refl, refl))
  key_type-Parsed key_ed25519 = inr (inr (refl, refl))
  key_type-Parsed key_general64b = inr (inr (refl, refl))
  key_type-Parsed key_general128b = inr (inr (refl, refl))

  read_as_made :
      (key_type : KeyType) (key : List ℕ)
      → ReadsBack
      → (gen_rsa lib pem key_type ≡ ok key) ⊎ (gen_ecdsa lib pem key_type ≡ ok key)
      → ((pri : R) × (pem.encode_rsa_private_key pri ≡ key)
          × (convert_pki_supported_key pem key_type key ≡ ok (rsa_key pri)))
        ⊎ ((pri : E) × (pem.encode_ecdsa_private_key pri ≡ some key)
            × (convert_pki_supported_key pem key_type key ≡ ok (ecdsa_key pri)))
  unfolding Parsed gen_rsa gen_ecdsa or_error
  read_as_made key_type key back (inl e) = elim (key_type-Parsed key_type) [
    | inl (b, p, q, same) ↦
        let (pri, x, y) = gen_rsa_made (bits_of key_type) key back e in inl (pri, x, same key ∙ y)
    | inr (inl (c, p, q, same)) ↦ absurd (grind arith)
    | inr (inr (p, q)) ↦ absurd (grind arith)
  ]
  read_as_made key_type key back (inr e) = elim (key_type-Parsed key_type) [
    | inl (b, p, q, same) ↦ absurd (grind arith)
    | inr (inl (c, p, q, same)) ↦
        let (pri, x, y) = gen_ecdsa_made (curve_of key_type) key back e in
        inr (pri, x, same key ∙ y)
    | inr (inr (p, q)) ↦ absurd (grind arith)
  ]

module _ {R E : Type 0} (lib : KeyLibrary R E) (formats : KeyFormats R E) where
  -- A key that RSA or ECDSA generates for a type is the text of a private key, and
  -- ConvertPKISupportedKey of that type reads this private key from it, as an RSA or an ECDSA key,
  -- when the libraries of PEM blocks and of key formats read back what they wrote.
  pub convert_pki_supported_key-generated :
      (key_type : KeyType) (key : List ℕ)
      → Restores formats
      → (gen_rsa lib (new_pem_tool formats) key_type ≡ ok key)
        ⊎ (gen_ecdsa lib (new_pem_tool formats) key_type ≡ ok key)
      → ((pri : R) × (encode_rsa_private formats pri ≡ key)
          × (convert_pki_supported_key (new_pem_tool formats) key_type key ≡ ok (rsa_key pri)))
        ⊎ ((pri : E) × (encode_ecdsa_private formats pri ≡ some key)
            × (convert_pki_supported_key (new_pem_tool formats) key_type key ≡ ok (ecdsa_key pri)))
  convert_pki_supported_key-generated key_type key restores e =
      read_as_made lib (new_pem_tool formats) key_type key
        (
          λ pri. parse_rsa_private-encode formats pri restores,
          λ pri text h. parse_ecdsa_private-encode formats pri text restores h,
        )
        e
