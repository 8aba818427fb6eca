-- ===== src/Core/Crc32.antt =====
-- `crc32_ieee` of core/StateStore.cpp, on uint32_t.
pub mod Detection
use arcraven_ugv_core.Common.{
  ℕ, zero, suc, ◌-◌, ◌/◌, ◌^◌, List, [], ◌∷◌, bit_and, bit_xor, ◌==◌, if◌then◌else◌, Bytes,
}

-- One round of the inner loop.
unfoldable pub shift_bit : ℕ → ℕ
shift_bit crc =
    let mask = if bit_and crc 1 == 0 then 0 else 0xffff_ffff in
    bit_xor (crc / 2) (bit_and 0xedb8_8320 mask)

unfoldable pub shift_bits : ℕ → ℕ → ℕ
shift_bits zero crc = crc
shift_bits (suc rounds) crc = shift_bits rounds (shift_bit crc)

-- One round of the outer loop.
unfoldable pub add_byte : ℕ → ℕ → ℕ
add_byte crc b = shift_bits 8 (bit_xor crc b)

unfoldable pub add_bytes : ℕ → Bytes → ℕ
add_bytes crc [] = crc
add_bytes crc (b ∷ bs) = add_bytes (add_byte crc b) bs

-- `~crc`
abbrev pub not32 : ℕ → ℕ
not32 crc = 0xffff_ffff - crc

unfoldable pub crc32_ieee : Bytes → ℕ
crc32_ieee bytes = not32 (add_bytes 0xffff_ffff bytes)
