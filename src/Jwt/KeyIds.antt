-- ===== src/Jwt/KeyIds.antt =====
-- Key ids as text: keyIdString and keyIdVal of configure/secretaddon/addontool.go.
use nekoq_component.Base.{
  Bool-cases, [], ap, append-nil, arith, inl, inr, ltb, ltb→lt, refl, some, subst, true, ℕ, ◌++◌,
  ◌+◌, ◌-◌, ◌<◌, ◌^◌, ◌∷◌, ◌≡◌,
}
use nekoq_component.Base.Str.{Str}
use nekoq_component.Base.Result.{ok}
use nekoq_component.Secret.Sealed.{
  decimal, decimal_int64, is_digit, scan_decimal, scan_key_id, scan_unsigned,
}
use nekoq_component.Secret.RoundTrip.{
  below_tens, decimal_first, scan_decimal-decimal, scan_unsigned_read,
}
use nekoq_component.Jwt.{key_id_string, key_id_val}

decimal_whole : (n : ℕ) → n < 10 ^ 19 → scan_decimal 0 (decimal 19 n ++ []) ≡ (n, [])
unfolding scan_decimal
decimal_whole n h = scan_decimal-decimal 18 n [] (below_tens n h)

scan_unsigned-whole :
    (n bound : ℕ) → n < bound → n < 10 ^ 19 → scan_unsigned bound (decimal 19 n ++ []) ≡ ok (n, [])
scan_unsigned-whole n bound h g =
    let (c, s, e, d) = decimal_first 18 n [] (below_tens n g) in
    scan_unsigned_read (decimal 19 n ++ []) c s n bound [] e d (decimal_whole n g) h

digit_first :
    (xs : Str) (c : ℕ) (s : Str)
    → xs ≡ c ∷ s
    → is_digit c ≡ true
    → scan_key_id xs ≡ scan_unsigned (2 ^ 63) xs
unfolding scan_key_id is_digit
digit_first xs c s e d = rw e (ground (arith, d))

key_id_whole : (v : ℕ) → v < 2 ^ 64 → scan_key_id (decimal_int64 v ++ []) ≡ ok (v, [])
unfolding decimal_int64 scan_key_id
key_id_whole v h = elim (Bool-cases (ltb v (2 ^ 63))) [
  | inl q ↦
      let (c, s, e, d) = decimal_first 18 v [] (below_tens v (ground (arith, q))) in
      rw (decimal_int64, q, digit_first (decimal 19 v ++ []) c s e d)
        (scan_unsigned-whole v (2 ^ 63) (ltb→lt v (2 ^ 63) q) (ground (arith, q)))
  | inr q ↦
      rw
        (
          decimal_int64,
          q,
          scan_unsigned-whole (2 ^ 64 - v) (2 ^ 63 + 1) (ground (arith, q)) (ground (arith, q)),
        )
        (ap (λ w. ok (w, [])) (ground (arith, q, h)))
]

-- keyIdVal reads back every int64 that keyIdString writes.
pub key_id_val-key_id_string : (v : ℕ) → v < 2 ^ 64 → key_id_val (key_id_string v) ≡ some v
unfolding key_id_val key_id_string
key_id_val-key_id_string v h =
    rw
      (
        key_id_val,
        subst (λ s. scan_key_id s ≡ ok (v, [])) (append-nil (decimal_int64 v)) (key_id_whole v h),
      )
      refl
