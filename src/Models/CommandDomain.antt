-- ===== src/Models/CommandDomain.antt =====
-- models/enums/CommandDomain.hpp. A value of the enum is any value of its underlying type: `unnamed` holds
-- those that have no enumerator, which `static_cast` lets in from the wire.
use arcraven_ugv_core.Common.{ℕ, ◌<◌, ◌^◌, ◌≡◌, refl, sym, ap, ◌∙◌, List, [], ◌∷◌, arith}
use arcraven_ugv_core.Models.Enumeration.{Enumeration, of_value, value-of_value}

pub data CommandDomain : Type 0 where
  mobility posture perception security mission interaction health authority : CommandDomain
  unnamed : ℕ → CommandDomain

-- `static_cast` to the underlying type.
unfoldable pub value : CommandDomain → ℕ
value mobility = 0
value posture = 1
value perception = 2
value security = 3
value mission = 4
value interaction = 5
value health = 6
value authority = 7
value (unnamed n) = n

abbrev enumerators : List CommandDomain
enumerators =
    mobility ∷ posture ∷ perception ∷ security ∷ mission ∷ interaction ∷ health ∷ authority ∷ []

pub value-unnamed : (n : ℕ) → value (unnamed n) ≡ n
unfolding value
value-unnamed n = refl

abbrev pub enumeration : Enumeration CommandDomain
enumeration = record {
  value = value;
  unnamed = unnamed;
  enumerators = enumerators;
  width = 8;
  value-unnamed = value-unnamed;
}

-- `static_cast<CommandDomain>` of an unsigned integer.
unfoldable pub command_domain_of : ℕ → CommandDomain
unfolding of_value
command_domain_of = of_value enumeration

abbrev pub IsNamed : CommandDomain → Type 0
IsNamed (unnamed n) = ⊥
IsNamed c = Unit

pub command_domain_of-value : (c : CommandDomain) → IsNamed c → command_domain_of (value c) ≡ c
unfolding command_domain_of value
command_domain_of-value (unnamed n) h = absurd h
command_domain_of-value c h = refl

pub command_domain-value-lt : (c : CommandDomain) → IsNamed c → value c < 2 ^ 8
command_domain-value-lt c h =
    unfold command_domain_of in
    omega (arith, value-of_value enumeration (value c), ap value (command_domain_of-value c h))

-- Distinct enumerators have distinct wire values.
pub command_domain-value-injective :
    (c d : CommandDomain) → IsNamed c → IsNamed d → value c ≡ value d → c ≡ d
command_domain-value-injective c d hc hd e =
    sym (command_domain_of-value c hc) ∙ ap command_domain_of e ∙ command_domain_of-value d hd
