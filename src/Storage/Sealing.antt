-- ===== src/Storage/Sealing.antt =====
-- A key that is sealed with a level-1 key set is opened with it: dataEncryptByL1 and dataDecryptByL1
-- of configure/secretimpl/secret.pg.utils.go.
use nekoq_component.Base.{List, Option, [], refl, some, ℕ, ◌<◌, ◌^◌, ◌∷◌, ◌≡◌, none}
use nekoq_component.Base.Str.{Str}
use nekoq_component.Base.Result.{>>=-eq_ok, Result, err, ok}
use nekoq_component.Secret.KeySets.{KeySet}
use nekoq_component.Secret.Sealed.{expect}
use nekoq_component.Secret.RoundTrip.{
  IsPlainText, key_id_read, scan_token-pair, split_on_dollar, split_on_last,
}
use nekoq_component.Keys.{KeyError, Random}
use nekoq_component.Keys.Cipher.{AesGcm, aead_of}
use nekoq_component.Keys.Generating.{KeepsSize}
use nekoq_component.Storage.{
  Base64, StorageError, aes_gcm_dec, aes_gcm_enc, data_decrypt_by_l1, data_encrypt_by_l1, data_text,
  decrypt_parts, nonce_error, or_bad_text, or_cipher, or_fail, scan_parts,
}

-- What encoding/base64 promises: its text has no blank and no dollar sign, and is decoded to what
-- was encoded.
abbrev pub IsBase64 : Base64 → Type 0
IsBase64 b =
    ((bs : List ℕ) → IsPlainText (b.encode_to_string bs))
    × ((bs : List ℕ) → b.decode_string (b.encode_to_string bs) ≡ some bs)

pub or_fail-ok {ℓ} :
    {A : Type ℓ} (e : StorageError) (o : Option A) (a : A) → or_fail e o ≡ ok a → o ≡ some a
unfolding or_fail
or_fail-ok e none a h = cc
or_fail-ok e (some x) a h = cc

or_cipher-ok {ℓ} : {A : Type ℓ} (r : Result KeyError A) (a : A) → or_cipher r ≡ ok a → r ≡ ok a
unfolding or_cipher
or_cipher-ok (ok x) a h = cc
or_cipher-ok (err e) a h = cc

module _ {B A : Type 0} (gcm : AesGcm B A) where
  enc_opened :
      (read : Random) (k : KeySet) (plain c nonce : List ℕ)
      → KeepsSize read
      → aes_gcm_enc gcm read k plain ≡ ok (c, nonce)
      → aes_gcm_dec gcm k c nonce ≡ ok plain
  unfolding aes_gcm_enc aes_gcm_dec or_fail or_cipher
  enc_opened read k plain c nonce keeps h =
      let (aead, ha, h1) = >>=-eq_ok (or_cipher (aead_of gcm k.aes256)) _ h in
      let ((n, drawn), hd, h2) = >>=-eq_ok (or_fail nonce_error (read gcm.nonce_size)) _ h1 in
      let of_size =
        keeps gcm.nonce_size n drawn (or_fail-ok nonce_error (read gcm.nonce_size) (n, drawn) hd) in
      let sealed : gcm.seal aead drawn plain [] ≡ c = cc in
      let same : drawn ≡ nonce = cc in
      rw
        (
          ← sealed,
          ← same,
          aes_gcm_dec,
          or_cipher-ok (aead_of gcm k.aes256) aead ha,
          or_cipher,
          gcm.open_seal aead drawn plain [] of_size,
        )
        refl

  module _ (base64 : Base64) where
    scan_parts-data_text :
        (id : ℕ) (c nonce : List ℕ)
        → id < 2 ^ 64
        → IsBase64 base64
        → scan_parts (data_text gcm base64 id (c, nonce))
          ≡ ok (id, base64.encode_to_string c ∷ base64.encode_to_string nonce ∷ [])
    unfolding scan_parts data_text expect
    scan_parts-data_text id c nonce h (plain, back) =
        rw
          (
            scan_parts,
            key_id_read id _ h,
            scan_token-pair (base64.encode_to_string c) (base64.encode_to_string nonce) (plain c)
                (plain nonce),
            split_on_dollar (base64.encode_to_string c) (base64.encode_to_string nonce) (plain c),
            split_on_last (base64.encode_to_string nonce) (plain nonce),
          )
          refl

    pub data_decrypt_by_l1-data_encrypt_by_l1 :
        (read : Random) (key : List ℕ) (id : ℕ) (ks : KeySet) (text : Str)
        → KeepsSize read
        → IsBase64 base64
        → id < 2 ^ 64
        → data_encrypt_by_l1 gcm base64 read key id ks ≡ ok text
        → data_decrypt_by_l1 gcm base64 text ks ≡ ok (id, key)
    unfolding data_encrypt_by_l1 data_decrypt_by_l1 decrypt_parts or_bad_text or_fail
    data_decrypt_by_l1-data_encrypt_by_l1 read key id ks text keeps b64 h e =
        let ((c, nonce), sealed, e1) = >>=-eq_ok (aes_gcm_enc gcm read ks key) _ e in
        let same : data_text gcm base64 id (c, nonce) ≡ text = cc in
        rw
          (
            ← same,
            data_decrypt_by_l1,
            scan_parts-data_text id c nonce h b64,
            or_bad_text,
            decrypt_parts,
            b64.1 c,
            b64.1 nonce,
            enc_opened read ks key c nonce keeps sealed,
          )
          refl
