-- ===== src/Models/CommandAuthority.antt =====
-- models/enums/CommandAuthority.hpp. A value of the enum is any value of its underlying type: `unnamed` holds
-- those that have no enumerator, which `static_cast` lets in from the wire.
use arcraven_ugv_core.Common.{ℕ, ◌<◌, ◌^◌, ◌≡◌, refl, sym, ap, ◌∙◌, List, [], ◌∷◌, arith}
use arcraven_ugv_core.Models.Enumeration.{Enumeration, of_value, value-of_value}

pub data CommandAuthority : Type 0 where
  unknown autonomy remote_operator mission_control safety_system : CommandAuthority
  unnamed : ℕ → CommandAuthority

-- `static_cast` to the underlying type.
unfoldable pub value : CommandAuthority → ℕ
value unknown = 0
value autonomy = 1
value remote_operator = 2
value mission_control = 3
value safety_system = 4
value (unnamed n) = n

abbrev enumerators : List CommandAuthority
enumerators = unknown ∷ autonomy ∷ remote_operator ∷ mission_control ∷ safety_system ∷ []

pub value-unnamed : (n : ℕ) → value (unnamed n) ≡ n
unfolding value
value-unnamed n = refl

abbrev pub enumeration : Enumeration CommandAuthority
enumeration = record {
  value = value;
  unnamed = unnamed;
  enumerators = enumerators;
  width = 8;
  value-unnamed = value-unnamed;
}

-- `static_cast<CommandAuthority>` of an unsigned integer.
unfoldable pub command_authority_of : ℕ → CommandAuthority
unfolding of_value
command_authority_of = of_value enumeration

abbrev pub IsNamed : CommandAuthority → Type 0
IsNamed (unnamed n) = ⊥
IsNamed c = Unit

pub command_authority_of-value :
    (c : CommandAuthority) → IsNamed c → command_authority_of (value c) ≡ c
unfolding command_authority_of value
command_authority_of-value (unnamed n) h = absurd h
command_authority_of-value c h = refl

pub command_authority-value-lt : (c : CommandAuthority) → IsNamed c → value c < 2 ^ 8
command_authority-value-lt c h =
    unfold command_authority_of in
    omega (arith, value-of_value enumeration (value c), ap value (command_authority_of-value c h))

-- Distinct enumerators have distinct wire values.
pub command_authority-value-injective :
    (c d : CommandAuthority) → IsNamed c → IsNamed d → value c ≡ value d → c ≡ d
command_authority-value-injective c d hc hd e =
    sym (command_authority_of-value c hc)
    ∙ ap command_authority_of e
    ∙ command_authority_of-value d hd
