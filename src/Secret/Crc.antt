-- ===== src/Secret/Crc.antt =====
-- `crc32.ChecksumIEEE`, bit by bit, and the four bytes of `binary.LittleEndian.PutUint32`.
use nekoq_component.Base.{List, [], if◌then◌else◌, suc, zero, ℕ, ◌%◌, ◌-◌, ◌/◌, ◌==◌, ◌^◌, ◌∷◌}
use Prim.Native.Nat.{bit_xor}

-- One bit of the reflected polynomial 0xedb88320.
unfoldable pub crc_bit : ℕ → ℕ
crc_bit c = if c % 2 == 1 then bit_xor (c / 2) 3988292384 else c / 2

unfoldable pub crc_bits : ℕ → ℕ → ℕ
crc_bits zero c = c
crc_bits (suc n) c = crc_bits n (crc_bit c)

unfoldable pub crc_bytes : ℕ → List ℕ → ℕ
crc_bytes c [] = c
crc_bytes c (b ∷ bs) = crc_bytes (crc_bits 8 (bit_xor c b)) bs

unfoldable pub checksum_ieee : List ℕ → ℕ
checksum_ieee bs = bit_xor (crc_bytes (2 ^ 32 - 1) bs) (2 ^ 32 - 1)

unfoldable pub put_uint32_le : ℕ → List ℕ
put_uint32_le v = v % 256 ∷ v / 256 % 256 ∷ v / 65536 % 256 ∷ v / 16777216 % 256 ∷ []
