-- ===== src/Stdlib/Decimal/RoundTrip.antt =====
-- A number that is printed in decimal is read back.
use native.Mathlib.Nat.{pow-suc}
use arcraven_ugv_core.Common.{
  ℕ, zero, suc, ◌+◌, ◌-◌, ◌*◌, ◌/◌, ◌%◌, ◌^◌, ◌≤◌, ◌<◌, ◌≡◌, refl, ap, ◌∙◌, inl, inr, [], ◌∷◌, ◌++◌,
  some, ◌==◌, if◌then◌else◌, Bool-cases, ==_iff, Bytes, All, All-append, arith,
}
use arcraven_ugv_core.Stdlib.Decimal.{digits_of, decimal, digits_value, sto}

abbrev pub IsDigit : ℕ → Type 0
IsDigit c = (b'0' ≤ c) × (c ≤ b'9')

digits_value-snoc :
    (xs : Bytes) (acc d : ℕ)
    → All IsDigit xs
    → IsDigit d
    → digits_value acc (xs ++ (d ∷ [])) ≡ digits_value acc xs * 10 + (d - b'0')
unfolding digits_value
digits_value-snoc [] acc d h hd = ground arith
digits_value-snoc (x ∷ xs) acc d (hx, h) hd =
    ground (arith, digits_value-snoc xs (acc * 10 + (x - b'0')) d h hd)

pub digits_of-IsDigit : (fuel n : ℕ) → All IsDigit (digits_of fuel n)
unfolding digits_of
digits_of-IsDigit zero n = tt
digits_of-IsDigit (suc fuel) n = elim (Bool-cases (n / 10 == 0)) [
  | inl last ↦ rw last (omega arith)
  | inr more ↦ rw more (
      All-append IsDigit (digits_of fuel (n / 10)) ((n % 10 + b'0') ∷ [])
        (digits_of-IsDigit fuel (n / 10)) (omega arith))
]

digits_of-value : (fuel n : ℕ) → n < 10 ^ fuel → digits_value 0 (digits_of fuel n) ≡ n
unfolding digits_of
digits_of-value zero n h = unfold digits_value in omega arith
digits_of-value (suc fuel) n h = elim (Bool-cases (n / 10 == 0)) [
  | inl last ↦ rw last (
      digits_value-snoc [] 0 (n % 10 + b'0') tt (omega arith)
      ∙ unfold digits_value in omega (arith, (==_iff _ _).0 last))
  | inr more ↦ rw more (
      digits_value-snoc (digits_of fuel (n / 10)) 0 (n % 10 + b'0')
        (digits_of-IsDigit fuel (n / 10)) (omega arith)
      ∙ omega (arith, digits_of-value fuel (n / 10) (omega (arith, pow-suc 10 fuel))))
]

digits_of-cons : (fuel n : ℕ) → (c : ℕ) × (s : Bytes) × (digits_of (suc fuel) n ≡ c ∷ s)
unfolding digits_of
digits_of-cons fuel n = snoc (if n / 10 == 0 then [] else digits_of fuel (n / 10))
  where
    snoc :
        (xs : Bytes)
        → (c : ℕ) × (s : Bytes) × (◌≡◌ {A = Bytes} (xs ++ ((n % 10 + b'0') ∷ [])) (c ∷ s))
    snoc [] = (n % 10 + b'0', [], refl)
    snoc (x ∷ xs) = (x, xs ++ ((n % 10 + b'0') ∷ []), refl)

-- A string that begins with a digit has no sign and no space in front.
sto-digit :
    (range c : ℕ) (s : Bytes)
    → IsDigit c
    → digits_value 0 (c ∷ s) < range
    → sto range (c ∷ s) ≡ some (digits_value 0 (c ∷ s))
unfolding sto
sto-digit range c s h lt = ground arith

sto-digits :
    (range c : ℕ) (xs s : Bytes)
    → xs ≡ c ∷ s
    → All IsDigit xs
    → digits_value 0 xs < range
    → sto range xs ≡ some (digits_value 0 xs)
sto-digits range c xs s e h lt =
    let h' : All IsDigit (c ∷ s) = rw e at h in
    let lt' : digits_value 0 (c ∷ s) < range = rw e at lt in rw e (sto-digit range c s h'.0 lt')

-- Every number below the range of the type, and below 10^20, is read back from its decimal digits.
pub sto-decimal : (range n : ℕ) → n < range → n < 10 ^ 20 → sto range (decimal n) ≡ some n
unfolding decimal
sto-decimal range n lt fits =
    let (c, s, e) = digits_of-cons 19 n in
    let value = digits_of-value 20 n fits in
    sto-digits range c (digits_of 20 n) s e (digits_of-IsDigit 20 n) (omega (arith, value))
    ∙ ap some value

pub decimal-IsDigit : (n : ℕ) → All IsDigit (decimal n)
unfolding decimal
decimal-IsDigit n = digits_of-IsDigit 20 n
