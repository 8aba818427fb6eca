-- ===== src/Models/Enumeration.antt =====
-- What `static_cast` does to an enum with a fixed underlying type, for each enum of models/enums/.
use arcraven_ugv_core.Common.{
  ℕ, ◌%◌, ◌^◌, ◌≡◌, List, [], ◌∷◌, inl, inr, ◌==◌, if◌then◌else◌, ==_iff, Bool-cases,
}

pub record Enumeration (E : Type 0) : Type 0 where
  pub value : E → ℕ
  pub unnamed : ℕ → E
  pub enumerators : List E
  pub width : ℕ
  pub value-unnamed : (n : ℕ) → value (unnamed n) ≡ n

module _ {E : Type 0} (e : Enumeration E) where
  -- The enumerator with the value `n`, or else the unnamed value.
  named_or_unnamed : ℕ → List E → E
  named_or_unnamed n [] = e.unnamed n
  named_or_unnamed n (c ∷ cs) = if e.value c == n then c else named_or_unnamed n cs

  -- The cast keeps the low `width` bits of an unsigned integer.
  unfoldable pub of_value : ℕ → E
  unfolding named_or_unnamed
  of_value n = named_or_unnamed (n % 2 ^ e.width) e.enumerators

  value-named_or_unnamed : (n : ℕ) (cs : List E) → e.value (named_or_unnamed n cs) ≡ n
  unfolding named_or_unnamed
  value-named_or_unnamed n [] = e.value-unnamed n
  value-named_or_unnamed n (c ∷ cs) = elim (Bool-cases (e.value c == n)) [
    | inl hit ↦ rw hit ((==_iff _ n).0 hit)
    | inr miss ↦ rw miss (value-named_or_unnamed n cs)
  ]

  -- Casting an integer in and out again keeps its low bits and nothing else.
  pub value-of_value : (n : ℕ) → e.value (of_value n) ≡ n % 2 ^ e.width
  unfolding of_value
  value-of_value n = value-named_or_unnamed (n % 2 ^ e.width) e.enumerators
