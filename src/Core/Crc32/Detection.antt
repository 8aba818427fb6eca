-- ===== src/Core/Crc32/Detection.antt =====
-- The checksum tells apart any two strings that differ in one byte: every round is injective.
use arcraven_ugv_core.Common.{
  ℕ, zero, suc, ◌/◌, ◌%◌, ◌^◌, ◌≤◌, ◌<◌, ◌≡◌, ◌≢◌, refl, sym, ap, ◌∙◌, inl, inr, [], ◌∷◌, ◌++◌,
  bit_xor, Bytes, IsByte, All, arith, xor_back, xor-lt, xor-ge, xor_comm, xor-zero, ◌⊎◌, and_1,
}
use arcraven_ugv_core.Core.Crc32.{shift_bit, shift_bits, add_byte, add_bytes, crc32_ieee}

shift_even : (c : ℕ) → c % 2 ≡ 0 → shift_bit c ≡ bit_xor (c / 2) 0
unfolding shift_bit
shift_even c h = rw (and_1, h)

shift_odd : (c : ℕ) → c % 2 ≡ 1 → shift_bit c ≡ bit_xor (c / 2) 0xedb8_8320
unfolding shift_bit
shift_odd c h = rw (and_1, h)

abbrev IsWord : ℕ → Type 0
IsWord c = c < 2 ^ 32

parity : (c : ℕ) → (c % 2 ≡ 0) ⊎ (c % 2 ≡ 1)
parity c = omega arith

-- An even word halves to less than 2^31; an odd one gets the top bit of the polynomial.
shift_low : (c : ℕ) → IsWord c → c % 2 ≡ 0 → shift_bit c ≡ c / 2
shift_low c w h = shift_even c h ∙ xor-zero (c / 2)

shift_high : (c : ℕ) → IsWord c → c % 2 ≡ 1 → (2 ^ 31 ≤ shift_bit c) × (shift_bit c < 2 ^ 32)
shift_high c w h = rw (shift_odd c h) (
  xor-ge 31 (c / 2) 0xedb8_8320 (omega arith) (omega arith),
  xor-lt 32 (c / 2) 0xedb8_8320 (omega arith) (omega arith),
)

shift_bit-IsWord : (c : ℕ) → IsWord c → IsWord (shift_bit c)
shift_bit-IsWord c w = elim (parity c) [
  | inl even ↦ omega (arith, shift_low c w even)
  | inr odd ↦ (shift_high c w odd).1
]

xor_cancel : (a b c : ℕ) → bit_xor a c ≡ bit_xor b c → a ≡ b
xor_cancel a b c e = sym (xor_back a c) ∙ ap (λ x. bit_xor x c) e ∙ xor_back b c

shift_bit-injective : (c d : ℕ) → IsWord c → IsWord d → shift_bit c ≡ shift_bit d → c ≡ d
shift_bit-injective c d v w e = by_parity (parity c) (parity d)
  where
    by_parity : (c % 2 ≡ 0) ⊎ (c % 2 ≡ 1) → (d % 2 ≡ 0) ⊎ (d % 2 ≡ 1) → c ≡ d
    by_parity (inl p) (inl q) = omega (arith, shift_low c v p, shift_low d w q, e)
    by_parity (inl p) (inr q) = absurd (omega (arith, shift_low c v p, shift_high d w q, e))
    by_parity (inr p) (inl q) = absurd (omega (arith, shift_high c v p, shift_low d w q, e))
    by_parity (inr p) (inr q) =
        omega
          (arith, xor_cancel (c / 2) (d / 2) 0xedb8_8320 (sym (shift_odd c p) ∙ e ∙ shift_odd d q))

shift_bits-IsWord : (n c : ℕ) → IsWord c → IsWord (shift_bits n c)
unfolding shift_bits
shift_bits-IsWord zero c w = w
shift_bits-IsWord (suc n) c w = shift_bits-IsWord n (shift_bit c) (shift_bit-IsWord c w)

shift_bits-injective : (n c d : ℕ) → IsWord c → IsWord d → shift_bits n c ≡ shift_bits n d → c ≡ d
unfolding shift_bits
shift_bits-injective zero c d v w e = e
shift_bits-injective (suc n) c d v w e = shift_bit-injective c d v w (
    shift_bits-injective n (shift_bit c) (shift_bit d) (shift_bit-IsWord c v) (shift_bit-IsWord d w)
      e)

add_byte-IsWord : (c b : ℕ) → IsWord c → IsByte b → IsWord (add_byte c b)
unfolding add_byte
add_byte-IsWord c b w h = shift_bits-IsWord 8 (bit_xor c b) (xor-lt 32 c b w (omega arith))

add_byte-injective :
    (c d a b : ℕ)
    → IsWord c
    → IsWord d
    → IsByte a
    → IsByte b
    → add_byte c a ≡ add_byte d b
    → bit_xor c a ≡ bit_xor d b
unfolding add_byte
add_byte-injective c d a b v w ha hb e =
    shift_bits-injective 8 _ _ (xor-lt 32 c a v (omega arith)) (xor-lt 32 d b w (omega arith)) e

add_bytes-IsWord : (c : ℕ) (bs : Bytes) → IsWord c → All IsByte bs → IsWord (add_bytes c bs)
unfolding add_bytes
add_bytes-IsWord c [] w h = w
add_bytes-IsWord c (b ∷ bs) w (hb, h) =
    add_bytes-IsWord (add_byte c b) bs (add_byte-IsWord c b w hb) h

add_bytes-injective :
    (c d : ℕ) (bs : Bytes)
    → IsWord c
    → IsWord d
    → All IsByte bs
    → add_bytes c bs ≡ add_bytes d bs
    → c ≡ d
unfolding add_bytes
add_bytes-injective c d [] v w h e = e
add_bytes-injective c d (b ∷ bs) v w (hb, h) e = xor_cancel c d b (
    add_byte-injective c d b b v w hb hb (
      add_bytes-injective (add_byte c b) (add_byte d b) bs (add_byte-IsWord c b v hb)
        (add_byte-IsWord d b w hb) h e))

add_bytes-append : (c : ℕ) (xs ys : Bytes) → add_bytes c (xs ++ ys) ≡ add_bytes (add_bytes c xs) ys
unfolding add_bytes
add_bytes-append c [] ys = refl
add_bytes-append c (x ∷ xs) ys = add_bytes-append (add_byte c x) xs ys

same_byte :
    (c a b : ℕ) (suffix : Bytes)
    → IsWord c
    → IsByte a
    → IsByte b
    → All IsByte suffix
    → add_bytes c (a ∷ suffix) ≡ add_bytes c (b ∷ suffix)
    → a ≡ b
unfolding add_bytes
same_byte c a b suffix w ha hb hs e = xor_cancel a b c (
    xor_comm a c
    ∙ add_byte-injective c c a b w w ha hb
        (add_bytes-injective _ _ suffix (add_byte-IsWord c a w ha) (add_byte-IsWord c b w hb) hs e)
    ∙ xor_comm c b)

-- A change of one byte, at any place of a string of any length, always changes the checksum.
pub crc32_ieee-detects :
    (prefix suffix : Bytes) (a b : ℕ)
    → All IsByte prefix
    → All IsByte suffix
    → IsByte a
    → IsByte b
    → a ≢ b
    → crc32_ieee (prefix ++ (a ∷ suffix)) ≢ crc32_ieee (prefix ++ (b ∷ suffix))
unfolding crc32_ieee
crc32_ieee-detects prefix suffix a b hp hs ha hb ne e =
    ne (same_byte start a b suffix w ha hb hs unfolded)
  where
    start : ℕ
    start = add_bytes 0xffff_ffff prefix

    w : IsWord start
    w = add_bytes-IsWord 0xffff_ffff prefix (omega arith) hp

    word : (x : ℕ) → IsByte x → IsWord (add_bytes start (x ∷ suffix))
    word x h = add_bytes-IsWord start (x ∷ suffix) w (h, hs)

    unfolded : add_bytes start (a ∷ suffix) ≡ add_bytes start (b ∷ suffix)
    unfolded = omega (
      arith,
      word a ha,
      word b hb,
      e,
      add_bytes-append 0xffff_ffff prefix (a ∷ suffix),
      add_bytes-append 0xffff_ffff prefix (b ∷ suffix),
    )
