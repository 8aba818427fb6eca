-- ===== src/Stdlib/Decimal.antt =====
-- `operator<<` of an unsigned integer, and `std::stoull` and `std::stoul` in base 10.
pub mod RoundTrip
use arcraven_ugv_core.Common.{
  ℕ, zero, suc, ◌+◌, ◌-◌, ◌*◌, ◌/◌, ◌%◌, Bool, true, false, ◌&&◌, ◌||◌, List, [], ◌∷◌, ◌++◌, Option,
  none, some, ◌==◌, leb, if◌then◌else◌, Bytes,
}

-- The digits of a number below 10 ^ fuel, with no zero in front.
unfoldable pub digits_of : ℕ → ℕ → Bytes
digits_of zero n = []
digits_of (suc fuel) n =
    let higher = digits_of fuel (n / 10) in
    (if n / 10 == 0 then [] else higher) ++ ((n % 10 + b'0') ∷ [])

-- `out << n`. Twenty digits are enough for a uint64_t.
unfoldable pub decimal : ℕ → Bytes
decimal n = digits_of 20 n

unfoldable pub is_space : ℕ → Bool
is_space c = c == b' ' || (leb 9 c && leb c 13)

unfoldable pub is_digit : ℕ → Bool
is_digit c = leb b'0' c && leb c b'9'

unfoldable pub skip_spaces : Bytes → Bytes
unfolding is_space
skip_spaces [] = []
skip_spaces (c ∷ s) = if is_space c then skip_spaces s else c ∷ s

-- The value of the digits in front, and nothing if there is none. What follows them is ignored.
unfoldable pub digits_value : ℕ → Bytes → ℕ
unfolding is_digit
digits_value acc [] = acc
digits_value acc (c ∷ s) =
    let rest = digits_value (acc * 10 + (c - b'0')) s in if is_digit c then rest else acc

unfoldable pub unsigned_value : Bytes → Option ℕ
unfolding is_digit
unsigned_value [] = none
unsigned_value (c ∷ s) = if is_digit c then some (digits_value 0 (c ∷ s)) else none

-- `out_of_range` above the greatest value of the type; a minus sign negates modulo its range.
unfoldable pub in_range : ℕ → Bool → ℕ → Option ℕ
in_range range negative n =
    if leb range n then none else if negative then some ((range - n) % range) else some n

unfoldable pub signed_value : ℕ → Bytes → Option ℕ
unfolding unsigned_value in_range
signed_value range [] = none
signed_value range (c ∷ s) =
    if c == b'-'
    then elim (unsigned_value s) [ none ↦ none | some n ↦ in_range range true n ]
    else elim (unsigned_value (if c == b'+' then s else c ∷ s)) [
      | none ↦ none
      | some n ↦ in_range range false n
    ]

-- `std::stoull` for a range of 2 ^ 64, `std::stoul` for that of `unsigned long`; `none` is the
-- exception, `invalid_argument` or `out_of_range`.
unfoldable pub sto : ℕ → Bytes → Option ℕ
unfolding skip_spaces signed_value
sto range s = signed_value range (skip_spaces s)
