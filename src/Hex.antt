-- ===== src/Hex.antt =====
-- `encoding/hex`: `EncodeToString` and `DecodeString`, as id.go and model.go use them.
use nekoq_component.Base.{
  ℕ, ◌+◌, ◌-◌, ◌*◌, ◌/◌, ◌%◌, ◌<◌, ◌≤◌, ◌≡◌, refl, ap, Option, none, some, List, [], ◌∷◌, ◌&&◌,
  arith, ltb, leb, if◌then◌else◌, All,
}
use nekoq_component.Base.Result.{Result, ok, err, ◌>>=◌}
use nekoq_component.Base.Str.{Str}

pub data HexError : Type 0 where
  invalid_byte : ℕ → HexError
  odd_length : HexError

unfoldable pub hex_digit : ℕ → ℕ
hex_digit d = if ltb d 10 then b'0' + d else b'a' + (d - 10)

unfoldable pub hex_encode : List ℕ → Str
hex_encode [] = []
hex_encode (b ∷ bs) = hex_digit (b / 16) ∷ hex_digit (b % 16) ∷ hex_encode bs

-- The reverse table: digits of both cases.
unfoldable pub hex_value : ℕ → Option ℕ
hex_value c =
    if leb b'0' c && leb c b'9'
    then some (c - b'0')
    else if leb b'a' c && leb c b'f'
    then some (c - b'a' + 10)
    else if leb b'A' c && leb c b'F'
    then some (c - b'A' + 10)
    else none

unfoldable pub digit_or_fail : ℕ → Result HexError ℕ
digit_or_fail c = elim (hex_value c) [ none ↦ err (invalid_byte c) | some d ↦ ok d ]

unfoldable pub hex_decode : Str → Result HexError (List ℕ)
hex_decode [] = ok []
hex_decode (p ∷ []) = do a ← digit_or_fail p; err odd_length
hex_decode (p ∷ q ∷ rest) = do
  a ← digit_or_fail p
  b ← digit_or_fail q
  bs ← hex_decode rest
  ok ((a * 16 + b) ∷ bs)

pub hex_value-hex_digit : (d : ℕ) → d < 16 → hex_value (hex_digit d) ≡ some d
unfolding hex_value hex_digit
hex_value-hex_digit d h = ground arith

-- Digits stand from `0` to `f`.
pub hex_digit_range : (d : ℕ) → d < 16 → (b'0' ≤ hex_digit d) × (hex_digit d ≤ b'f')
unfolding hex_digit
hex_digit_range d h = ground arith

digit_or_fail-hex_digit : (d : ℕ) → d < 16 → digit_or_fail (hex_digit d) ≡ ok d
unfolding digit_or_fail hex_value hex_digit
digit_or_fail-hex_digit d h = ground arith

pub hex_decode-hex_encode :
    (bs : List ℕ) → All (λ b. b < 256) bs → hex_decode (hex_encode bs) ≡ ok bs
unfolding hex_decode hex_encode
hex_decode-hex_encode [] h = refl
hex_decode-hex_encode (b ∷ bs) h =
    rw
      (
        digit_or_fail-hex_digit (b / 16) (omega (arith, h.0)),
        digit_or_fail-hex_digit (b % 16) (omega arith),
        hex_decode-hex_encode bs h.1,
      )
      (ap (λ t. ok (t ∷ bs)) (omega arith))
