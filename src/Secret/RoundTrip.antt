-- ===== src/Secret/RoundTrip.antt =====
-- Scanning reads back what formatting wrote: configure/secret/unseal.local.go.
use nekoq_component.Base.{
  All, Bool-cases, List, [], ap, append_assoc, arith, false, inl, inr, ltb, ltb→lt, lt→ltb, refl,
  suc, true, zero, ℕ, ◌%◌, ◌*◌, ◌++◌, ◌+◌, ◌-◌, ◌/◌, ◌<◌, ◌^◌, ◌∙◌, ◌∷◌, ◌≡◌, ◌≤◌,
}
use nekoq_component.Base.Str.{Str}
use nekoq_component.Base.Result.{ok, ◌>>=◌}
use nekoq_component.Hex.{hex_decode-hex_encode, hex_digit_range, hex_encode}
use nekoq_component.ConfigApi.{cons_head, is_space, split_on}
use nekoq_component.Secret.Sealed.{
  decimal, decimal_int64, decode_part, decode_splits, expect, format_encrypted_data, is_digit,
  scan_decimal, scan_encrypted_data, scan_key_id, scan_token, scan_unsigned, skip_blanks, token,
}

unfoldable pub tens : ℕ → ℕ
tens zero = 1
tens (suc f) = tens f * 10

pub scan_decimal-decimal :
    (f n : ℕ) (t : Str)
    → n < tens f * 10
    → scan_decimal 0 (decimal (suc f) n ++ t) ≡ scan_decimal n t
unfolding tens decimal scan_decimal is_digit
scan_decimal-decimal zero n t h = ground arith
scan_decimal-decimal (suc f) n t h = elim (Bool-cases (ltb n 10)) [
  | inl q ↦ rw (decimal, q) (ground arith)
  | inr q ↦
      rw (decimal, q, append_assoc)
        (scan_decimal-decimal f (n / 10) ((48 + n % 10) ∷ t) (omega arith) ∙ ground arith)
]

-- A number begins with a digit.
pub decimal_first :
    (f n : ℕ) (t : Str)
    → n < tens f * 10
    → (c : ℕ) × (s : Str) × (decimal (suc f) n ++ t ≡ c ∷ s) × (is_digit c ≡ true)
unfolding tens decimal is_digit
decimal_first zero n t h = (48 + n, t, ground arith, ground arith)
decimal_first (suc f) n t h = elim (Bool-cases (ltb n 10)) [
  | inl q ↦ (48 + n, t, rw (decimal, q) refl, ground arith)
  | inr q ↦
      let (c, s, e, d) = decimal_first f (n / 10) ((48 + n % 10) ∷ t) (omega arith) in
      (c, s, rw (decimal, q, append_assoc) e, d)
]

-- No blank and no dollar sign.
abbrev pub IsPlainText : Str → Type 0
IsPlainText = All (λ c. 37 ≤ c)

hex_encode-IsPlainText : (bs : List ℕ) → All (λ b. b < 256) bs → IsPlainText (hex_encode bs)
unfolding hex_encode
hex_encode-IsPlainText [] h = tt
hex_encode-IsPlainText (b ∷ bs) h = (
  omega (arith, (hex_digit_range (b / 16) (omega (arith, h.0))).0),
  (omega (arith, (hex_digit_range (b % 16) (omega arith)).0), hex_encode-IsPlainText bs h.1),
)

pub split_on_dollar : (e s : Str) → IsPlainText e → split_on 36 (e ++ 36 ∷ s) ≡ e ∷ split_on 36 s
unfolding split_on cons_head
split_on_dollar [] s h = refl
split_on_dollar (c ∷ e) s h = rw (split_on_dollar e s h.1) ground (arith, h.0)

pub split_on_last : (e : Str) → IsPlainText e → split_on 36 e ≡ e ∷ []
unfolding split_on cons_head
split_on_last [] h = refl
split_on_last (c ∷ e) h = rw (split_on_last e h.1) ground (arith, h.0)

token-hex : (e : Str) → IsPlainText e → token e ≡ e
unfolding token is_space
token-hex [] h = refl
token-hex (c ∷ e) h = rw (token-hex e h.1) ground (arith, h.0)

token-pair : (e s : Str) → IsPlainText e → IsPlainText s → token (e ++ 36 ∷ s) ≡ e ++ 36 ∷ s
unfolding token is_space
token-pair [] s h g = ap (λ t. 36 ∷ t) (token-hex s g)
token-pair (c ∷ e) s h g = rw (token-pair e s h.1 g) ground (arith, h.0)

skip_plain : (c : ℕ) (s : Str) → is_space c ≡ false → skip_blanks (c ∷ s) ≡ ok (c ∷ s)
unfolding skip_blanks is_space
skip_plain c s h = ground (arith, h)

pub scan_token-pair :
    (e s : Str)
    → IsPlainText e
    → IsPlainText s
    → (skip_blanks (e ++ 36 ∷ s) >>= (λ s4. scan_token s4)) ≡ ok (e ++ 36 ∷ s)
unfolding skip_blanks scan_token is_space
scan_token-pair [] s h g = ap ok (token-pair [] s tt g)
scan_token-pair (c ∷ e) s h g =
    rw (skip_plain c (e ++ 36 ∷ s) (ground (arith, h.0))) (ap ok (token-pair (c ∷ e) s h g))

pub scan_unsigned_read :
    (xs : Str) (c : ℕ) (s : Str) (n bound : ℕ) (w : Str)
    → xs ≡ c ∷ s
    → is_digit c ≡ true
    → scan_decimal 0 xs ≡ (n, w)
    → n < bound
    → scan_unsigned bound xs ≡ ok (n, w)
unfolding scan_unsigned
scan_unsigned_read xs c s n bound w e d r h = grind (arith, lt→ltb n bound)

pub below_tens : (n : ℕ) → n < 10 ^ 19 → n < tens 18 * 10
unfolding tens
below_tens n h = omega (arith, h)

decimal_read :
    (n : ℕ) (t : Str) → n < 10 ^ 19 → scan_decimal 0 (decimal 19 n ++ 36 ∷ t) ≡ (n, 36 ∷ t)
unfolding scan_decimal is_digit
decimal_read n t h = scan_decimal-decimal 18 n (36 ∷ t) (below_tens n h)

scan_unsigned-decimal :
    (n bound : ℕ) (t : Str)
    → n < bound
    → n < 10 ^ 19
    → scan_unsigned bound (decimal 19 n ++ 36 ∷ t) ≡ ok (n, 36 ∷ t)
scan_unsigned-decimal n bound t h g =
    let (c, s, e, d) = decimal_first 18 n (36 ∷ t) (below_tens n g) in
    scan_unsigned_read (decimal 19 n ++ 36 ∷ t) c s n bound (36 ∷ t) e d (decimal_read n t g) h

digit_key_id :
    (xs : Str) (c : ℕ) (s : Str)
    → xs ≡ c ∷ s
    → is_digit c ≡ true
    → (skip_blanks xs >>= (λ s2. scan_key_id s2)) ≡ scan_unsigned (2 ^ 63) xs
unfolding scan_key_id is_digit is_space
digit_key_id xs c s e d = rw (e, skip_plain c s (ground (arith, d))) (ground (arith, d))

pub key_id_read :
    (v : ℕ) (t : Str)
    → v < 2 ^ 64
    → (skip_blanks (decimal_int64 v ++ 36 ∷ t) >>= (λ s2. scan_key_id s2)) ≡ ok (v, 36 ∷ t)
unfolding decimal_int64 skip_blanks is_space scan_key_id
key_id_read v t h = elim (Bool-cases (ltb v (2 ^ 63))) [
  | inl q ↦
      let (c, s, e, d) = decimal_first 18 v (36 ∷ t) (below_tens v (ground (arith, q))) in
      rw (decimal_int64, q, digit_key_id (decimal 19 v ++ 36 ∷ t) c s e d)
        (scan_unsigned-decimal v (2 ^ 63) t (ltb→lt v (2 ^ 63) q) (ground (arith, q)))
  | inr q ↦
      rw
        (
          decimal_int64,
          q,
          scan_unsigned-decimal (2 ^ 64 - v) (2 ^ 63 + 1) t (ground (arith, q)) (ground (arith, q)),
        )
        (ap (λ w. ok (w, 36 ∷ t)) (ground (arith, q, h)))
]

-- scanEncryptedData reads back the key id, the data and the nonce that formatEncryptedData wrote,
-- for every int64 and all lists of bytes.
pub scan_encrypted_data-format_encrypted_data :
    (key_id : ℕ) (d nonce : List ℕ)
    → key_id < 2 ^ 64
    → All (λ b. b < 256) d
    → All (λ b. b < 256) nonce
    → scan_encrypted_data (format_encrypted_data key_id d nonce) ≡ ok (key_id, d, nonce)
unfolding scan_encrypted_data format_encrypted_data expect decode_splits decode_part
scan_encrypted_data-format_encrypted_data key_id d nonce k hd hn =
    let xd = hex_encode-IsPlainText d hd in
    let xn = hex_encode-IsPlainText nonce hn in
    rw
      (
        scan_encrypted_data,
        key_id_read key_id (hex_encode d ++ 36 ∷ hex_encode nonce) k,
        scan_token-pair (hex_encode d) (hex_encode nonce) xd xn,
        split_on_dollar (hex_encode d) (hex_encode nonce) xd,
        split_on_last (hex_encode nonce) xn,
        decode_splits,
        decode_part,
        hex_decode-hex_encode d hd,
        hex_decode-hex_encode nonce hn,
      )
      refl
