-- ===== src/Common/Bits.antt =====
-- `&`, `|` and `^` at variables. A native operation stands for a recursion on binary digits with
-- fuel; one equation for the lowest digit drops the fuel, and the laws follow by induction on a
-- bound, or on the width of a mask.
use Prim.Native.Nat.{
  ℕ, zero, suc, ◌+◌, ◌*◌, ◌/◌, ◌%◌, ◌^◌, ◌≤◌, ◌<◌, min, max, differ, digits, bitwise, bit_and,
  bit_or, bit_xor, bit_and-bitwise, bit_or-bitwise, bit_xor-bitwise,
}
use mathlib.Core.Path.{◌≡◌, refl, ap, ◌∙◌}
use native.Mathlib.Nat.{pow-suc}
use native.Mathlib.Omega.{arith}

-- More fuel than the number does not change the digits.
module _ (rest : ℕ → ℕ) (op : ℕ → ℕ → ℕ) where
  enough : (n m a b : ℕ) → a ≤ n → a ≤ m → digits rest op n a b ≡ digits rest op m a b
  enough zero zero a b p q = refl
  enough zero (suc m) zero b p q = refl
  enough zero (suc m) (suc a) b p q = absurd (omega arith)
  enough (suc n) zero zero b p q = refl
  enough (suc n) zero (suc a) b p q = absurd (omega arith)
  enough (suc n) (suc m) zero b p q = refl
  enough (suc n) (suc m) (suc a) b p q =
      omega (arith, enough n m (suc a / 2) (b / 2) (omega arith) (omega arith))

  lowest :
      (a b : ℕ)
      → bitwise rest op (suc a) b ≡ bitwise rest op (suc a / 2) (b / 2) * 2 + op (suc a % 2) (b % 2)
  lowest a b = omega (arith, enough a (suc a / 2) (suc a / 2) (b / 2) (omega arith) (omega arith))

pub bit_and_digit : (a b : ℕ) → bit_and a b ≡ bit_and (a / 2) (b / 2) * 2 + min (a % 2) (b % 2)
bit_and_digit zero b = omega (arith, bit_and-bitwise 0 b, bit_and-bitwise 0 (b / 2))
bit_and_digit (suc a) b =
    omega (
      arith,
      bit_and-bitwise (suc a) b,
      bit_and-bitwise (suc a / 2) (b / 2),
      lowest (λ b. 0) min a b,
    )

pub bit_or_digit : (a b : ℕ) → bit_or a b ≡ bit_or (a / 2) (b / 2) * 2 + max (a % 2) (b % 2)
bit_or_digit zero b = omega (arith, bit_or-bitwise 0 b, bit_or-bitwise 0 (b / 2))
bit_or_digit (suc a) b =
    omega
      (arith, bit_or-bitwise (suc a) b, bit_or-bitwise (suc a / 2) (b / 2), lowest (λ b. b) max a b)

pub bit_xor_digit : (a b : ℕ) → bit_xor a b ≡ bit_xor (a / 2) (b / 2) * 2 + differ (a % 2) (b % 2)
bit_xor_digit zero b = omega (arith, bit_xor-bitwise 0 b, bit_xor-bitwise 0 (b / 2))
bit_xor_digit (suc a) b = omega (
  arith,
  bit_xor-bitwise (suc a) b,
  bit_xor-bitwise (suc a / 2) (b / 2),
  lowest (λ b. b) differ a b,
)

-- One digit of `^`: it is a digit again, and doing it twice undoes it.
digit_back : (x y : ℕ) → x < 2 → y < 2 → (differ x y < 2) × (differ (differ x y) y ≡ x)
digit_back zero zero p q = (omega arith, refl)
digit_back zero (suc zero) p q = (omega arith, refl)
digit_back zero (suc (suc y)) p q = absurd (omega arith)
digit_back (suc zero) zero p q = (omega arith, refl)
digit_back (suc zero) (suc zero) p q = (omega arith, refl)
digit_back (suc zero) (suc (suc y)) p q = absurd (omega arith)
digit_back (suc (suc x)) y p q = absurd (omega arith)

xor_halves :
    (a b : ℕ)
    → (bit_xor a b / 2 ≡ bit_xor (a / 2) (b / 2)) × (bit_xor a b % 2 ≡ differ (a % 2) (b % 2))
xor_halves a b =
    let h = digit_back (a % 2) (b % 2) (omega arith) (omega arith) in
    (omega (arith, bit_xor_digit a b, h.0), omega (arith, bit_xor_digit a b, h.0))

xor_back_below : (n a b : ℕ) → a ≤ n → b ≤ n → bit_xor (bit_xor a b) b ≡ a
xor_back_below zero zero zero p q = refl
xor_back_below zero zero (suc b) p q = absurd (omega arith)
xor_back_below zero (suc a) b p q = absurd (omega arith)
xor_back_below (suc n) a b p q =
    let h = xor_halves a b in
    let low : differ (bit_xor a b % 2) (b % 2) ≡ a % 2 =
      rw h.1 (digit_back (a % 2) (b % 2) (omega arith) (omega arith)).1 in
    let high : bit_xor (bit_xor a b / 2) (b / 2) ≡ a / 2 =
      rw h.0 (xor_back_below n (a / 2) (b / 2) (omega arith) (omega arith)) in
    omega (arith, bit_xor_digit (bit_xor a b) b, low, high)

pub xor_back : (a b : ℕ) → bit_xor (bit_xor a b) b ≡ a
xor_back a b = xor_back_below (a + b) a b (omega arith) (omega arith)

pub xor-lt : (k a b : ℕ) → a < 2 ^ k → b < 2 ^ k → bit_xor a b < 2 ^ k
xor-lt zero zero zero p q = omega arith
xor-lt zero zero (suc b) p q = absurd (omega arith)
xor-lt zero (suc a) b p q = absurd (omega arith)
xor-lt (suc k) a b p q =
    let half : 2 ^ suc k ≡ 2 ^ k * 2 = omega (arith, pow-suc 2 k) in
    let h = xor-lt k (a / 2) (b / 2) (omega arith) (omega arith) in
    omega (arith, xor_halves a b, h, half)

-- A digit above all those of `a` stays.
pub xor-ge : (k a b : ℕ) → a < 2 ^ k → 2 ^ k ≤ b → 2 ^ k ≤ bit_xor a b
xor-ge zero zero b p q = omega (arith, bit_xor-bitwise 0 b)
xor-ge zero (suc a) b p q = absurd (omega arith)
xor-ge (suc k) a b p q =
    let half : 2 ^ suc k ≡ 2 ^ k * 2 = omega (arith, pow-suc 2 k) in
    let h = xor-ge k (a / 2) (b / 2) (omega arith) (omega arith) in
    omega (arith, xor_halves a b, h, half)

differ_comm : (x y : ℕ) → differ x y ≡ differ y x
differ_comm zero zero = refl
differ_comm zero (suc y) = refl
differ_comm (suc x) zero = refl
differ_comm (suc x) (suc y) = differ_comm x y

xor_comm_below : (n a b : ℕ) → a ≤ n → b ≤ n → bit_xor a b ≡ bit_xor b a
xor_comm_below zero zero zero p q = refl
xor_comm_below zero zero (suc b) p q = absurd (omega arith)
xor_comm_below zero (suc a) b p q = absurd (omega arith)
xor_comm_below (suc n) a b p q = omega (
  arith,
  bit_xor_digit a b,
  bit_xor_digit b a,
  differ_comm (a % 2) (b % 2),
  xor_comm_below n (a / 2) (b / 2) (omega arith) (omega arith),
)

pub xor_comm : (a b : ℕ) → bit_xor a b ≡ bit_xor b a
xor_comm a b = xor_comm_below (a + b) a b (omega arith) (omega arith)

pub xor-zero : (a : ℕ) → bit_xor a 0 ≡ a
xor-zero a = xor_comm a 0 ∙ omega (arith, bit_xor-bitwise 0 a)

or-zero_below : (n a : ℕ) → a ≤ n → bit_or a 0 ≡ a
or-zero_below n zero h = refl
or-zero_below zero (suc a) h = absurd (omega arith)
or-zero_below (suc n) (suc a) h =
    omega (arith, bit_or_digit (suc a) 0, or-zero_below n (suc a / 2) (omega arith))

-- `(q << k) | r` is a sum where `r` has at most `k` digits.
pub or_disjoint : (k q r : ℕ) → r < 2 ^ k → bit_or (q * 2 ^ k) r ≡ q * 2 ^ k + r
or_disjoint zero q zero h = or-zero_below (q * 2 ^ 0) (q * 2 ^ 0) (omega arith) ∙ omega arith
or_disjoint zero q (suc r) h = absurd (omega arith)
or_disjoint (suc k) q r h =
    let double : q * 2 ^ suc k ≡ q * 2 ^ k * 2 =
      omega (arith, ap (λ (t : ℕ). q * t) (pow-suc 2 k)) in
    let h' : r / 2 < 2 ^ k = omega (arith, pow-suc 2 k) in
    let halved : q * 2 ^ suc k / 2 ≡ q * 2 ^ k = omega (arith, double) in
    let high : bit_or (q * 2 ^ suc k / 2) (r / 2) ≡ q * 2 ^ k + r / 2 =
      rw halved (or_disjoint k q (r / 2) h') in
    omega (arith, bit_or_digit (q * 2 ^ suc k) r, high, double)

and-zero_below : (n a : ℕ) → a ≤ n → bit_and a 0 ≡ 0
and-zero_below n zero h = refl
and-zero_below zero (suc a) h = absurd (omega arith)
and-zero_below (suc n) (suc a) h =
    omega (arith, bit_and_digit (suc a) 0, and-zero_below n (suc a / 2) (omega arith))

-- Masks of one, two, … ones, each a digit longer than the one before.
pub and_1 : (a : ℕ) → bit_and a 1 ≡ a % 2
and_1 a = omega (arith, bit_and_digit a 1, and-zero_below (a / 2) (a / 2) (omega arith))

and_7 : (a : ℕ) → bit_and a 7 ≡ a % 8
and_7 a = omega (arith, bit_and_digit a 7, bit_and_digit (a / 2) 3, and_1 (a / 2 / 2))

pub and_3f : (a : ℕ) → bit_and a 0x3f ≡ a % 64
and_3f a = omega (
  arith,
  bit_and_digit a 63,
  bit_and_digit (a / 2) 31,
  bit_and_digit (a / 2 / 2) 15,
  and_7 (a / 2 / 2 / 2),
)

pub and_ff : (a : ℕ) → bit_and a 0xff ≡ a % 256
and_ff a = omega (arith, bit_and_digit a 255, bit_and_digit (a / 2) 127, and_3f (a / 2 / 2))
