-- ===== src/Keys/Tests.antt =====
-- Runs of the generation of keys and of the cipher tool.
use nekoq_component.Base.{
  List, [], drop, inr, length, refl, replicate, some, sym, true, ℕ, ◌∷◌, ◌≡◌, ◌⊎◌, length-replicate,
}
use nekoq_component.Base.Str.{bytes}
use nekoq_component.Base.Result.{ok}
use nekoq_component.Jwt.Pem.{
  KeyFormats, PemTool, Restores, encode_ecdsa_private, encode_rsa_private, new_pem_tool,
}
use nekoq_component.Jwt.KeyTypes.{key_ecdsa521}
use nekoq_component.Secret.KeySets.{KeySet, verify_crc}
use nekoq_component.Keys.{
  KeyLibrary, Random, convert_pki_supported_key, ecdsa_key, gen_ecdsa, generate_vital_key_set,
  key_set_of, or_error, read_buffer, rsa_key, curve_of,
}
use nekoq_component.Keys.Generating.{
  KeepsSize, convert_pki_supported_key-generated, generate_vital_key_set-Verified,
}

abbrev sample_random : Random
sample_random size = some (size, replicate size 7)

sample_random-KeepsSize : KeepsSize sample_random
sample_random-KeepsSize size n buf e =
    let same : replicate size 7 ≡ buf = cc in rw (← same) (length-replicate size 7)

-- Private keys that are their own encoding.
abbrev sample_library : KeyLibrary (List ℕ) (List ℕ)
sample_library = record {
  generate_rsa = λ bits. some (bits ∷ []);
  generate_ecdsa = λ curve. some (bytes "ec");
  generate_ed25519 = some (bytes "pri", bytes "pub");
}

abbrev sample_formats : KeyFormats (List ℕ) (List ℕ)
sample_formats = record {
  encode_to_memory = λ name block. 45 ∷ block;
  decode = λ text. some (drop 1 text);
  marshal_pkcs1 = λ pri. pri;
  parse_pkcs1 = λ key. some key;
  marshal_ec = λ pri. some pri;
  parse_ec = λ key. some key;
}

abbrev sample_pem : PemTool (List ℕ) (List ℕ)
sample_pem = new_pem_tool sample_formats

sample-Restores : Restores sample_formats
sample-Restores = (λ name block. refl, λ pri. refl, λ pri key e. sym e)

abbrev sample_key_set : KeySet
sample_key_set =
    key_set_of sample_library sample_pem (replicate 32 7) (4096 ∷ []) (bytes "-ec")
      (bytes "pri", bytes "pub")

sample_generated :
    generate_vital_key_set sample_library sample_pem sample_random ≡ ok sample_key_set
unfolding generate_vital_key_set read_buffer or_error encode_ecdsa_private
sample_generated = refl

generate_vital_key_set-Verified_example :
    (verify_crc sample_key_set ≡ true) × (length sample_key_set.aes256 ≡ 32)
generate_vital_key_set-Verified_example =
    generate_vital_key_set-Verified sample_library sample_pem sample_random sample_key_set
      sample_random-KeepsSize sample_generated

sample_ecdsa : gen_ecdsa sample_library sample_pem key_ecdsa521 ≡ ok (bytes "-ec")
unfolding gen_ecdsa curve_of or_error encode_ecdsa_private
sample_ecdsa = refl

convert_pki_supported_key-generated_example :
    ((pri : List ℕ) × (encode_rsa_private sample_formats pri ≡ bytes "-ec")
      × (convert_pki_supported_key sample_pem key_ecdsa521 (bytes "-ec") ≡ ok (rsa_key pri)))
    ⊎ ((pri : List ℕ) × (encode_ecdsa_private sample_formats pri ≡ some (bytes "-ec"))
        × (convert_pki_supported_key sample_pem key_ecdsa521 (bytes "-ec") ≡ ok (ecdsa_key pri)))
convert_pki_supported_key-generated_example =
    convert_pki_supported_key-generated sample_library sample_formats key_ecdsa521 (bytes "-ec")
      sample-Restores (inr sample_ecdsa)
