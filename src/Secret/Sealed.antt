-- ===== src/Secret/Sealed.antt =====
-- The text form of sealed data: formatEncryptedData and scanEncryptedData of
-- configure/secret/unseal.local.go, for ASCII strings. A key id is an int64, kept as its 64 bits.
use nekoq_component.Base.{
  Bool, List, [], if◌then◌else◌, leb, ltb, suc, zero, ℕ, ◌%◌, ◌&&◌, ◌*◌, ◌++◌, ◌+◌, ◌-◌, ◌/◌, ◌==◌,
  ◌^◌, ◌∷◌,
}
use nekoq_component.Base.Str.{Str}
use nekoq_component.Base.Result.{Result, err, ok, ◌>>=◌}
use nekoq_component.Hex.{HexError, hex_decode, hex_encode}
use nekoq_component.ConfigApi.{is_space, split_on}

-- `%d` of a number below 10 ^ fuel
unfoldable pub decimal : ℕ → ℕ → Str
decimal zero n = []
decimal (suc fuel) n =
    let rest = decimal fuel (n / 10) in
    if ltb n 10 then (48 + n) ∷ [] else rest ++ (48 + n % 10) ∷ []

-- `%d` of an int64
unfoldable pub decimal_int64 : ℕ → Str
decimal_int64 v = if ltb v (2 ^ 63) then decimal 19 v else 45 ∷ decimal 19 (2 ^ 64 - v)

unfoldable pub format_encrypted_data : ℕ → List ℕ → List ℕ → Str
format_encrypted_data key_id d nonce =
    36 ∷ (decimal_int64 key_id ++ 36 ∷ (hex_encode d ++ 36 ∷ hex_encode nonce))

pub data ScanError : Type 0 where
  scan_failed : ScanError
  invalid_encrypted_data : ScanError
  not_hex : HexError → ScanError

unfoldable pub expect : ℕ → Str → Result ScanError Str
expect b [] = err scan_failed
expect b (c ∷ s) = if c == b then ok s else err scan_failed

-- Blanks are skipped before `%d` and `%s`; a newline is an error.
unfoldable pub skip_blanks : Str → Result ScanError Str
skip_blanks [] = ok []
skip_blanks (c ∷ s) =
    if c == 10 then err scan_failed else if is_space c then skip_blanks s else ok (c ∷ s)

unfoldable pub is_digit : ℕ → Bool
is_digit c = leb 48 c && leb c 57

unfoldable pub scan_decimal : ℕ → Str → ℕ × Str
scan_decimal acc [] = (acc, [])
scan_decimal acc (c ∷ s) = if is_digit c then scan_decimal (acc * 10 + (c - 48)) s else (acc, c ∷ s)

-- One digit at least, and a value below `bound`
unfoldable pub scan_unsigned : ℕ → Str → Result ScanError (ℕ × Str)
scan_unsigned bound [] = err scan_failed
scan_unsigned bound (c ∷ s) =
    let r = scan_decimal 0 (c ∷ s) in if is_digit c && ltb r.0 bound then ok r else err scan_failed

-- `%d` into an int64
unfoldable pub scan_key_id : Str → Result ScanError (ℕ × Str)
scan_key_id [] = err scan_failed
scan_key_id (c ∷ s) =
    if c == 45
    then scan_unsigned (2 ^ 63 + 1) s >>= (λ r. ok ((2 ^ 64 - r.0) % 2 ^ 64, r.1))
    else if c == 43
    then scan_unsigned (2 ^ 63) s
    else scan_unsigned (2 ^ 63) (c ∷ s)

unfoldable pub token : Str → Str
token [] = []
token (c ∷ s) = if is_space c then [] else c ∷ token s

unfoldable pub scan_token : Str → Result ScanError Str
scan_token [] = err scan_failed
scan_token (c ∷ s) = ok (token (c ∷ s))

unfoldable pub decode_part : Str → Result ScanError (List ℕ)
decode_part s = elim (hex_decode s) [ ok bs ↦ ok bs | err e ↦ err (not_hex e) ]

unfoldable pub decode_splits : ℕ → List Str → Result ScanError (ℕ × List ℕ × List ℕ)
decode_splits key_id [] = err invalid_encrypted_data
decode_splits key_id (a ∷ []) = err invalid_encrypted_data
decode_splits key_id (a ∷ b ∷ []) =
    decode_part a >>= (λ d. decode_part b >>= (λ nonce. ok (key_id, d, nonce)))
decode_splits key_id (a ∷ b ∷ c ∷ rest) = err invalid_encrypted_data

unfoldable pub scan_encrypted_data : Str → Result ScanError (ℕ × List ℕ × List ℕ)
scan_encrypted_data str =
    expect 36 str >>= (λ s1. skip_blanks s1) >>= (λ s2. scan_key_id s2) >>= (λ r.
      expect 36 r.1
      >>= (λ s3. skip_blanks s3)
      >>= (λ s4. scan_token s4)
      >>= (λ t. decode_splits r.0 (split_on 36 t)))
