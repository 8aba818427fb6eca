-- ===== src/Models/CommandPriority.antt =====
-- models/enums/CommandPriority.hpp. A value of the enum is any value of its underlying type: `unnamed` holds
-- those that have no enumerator, which `static_cast` lets in from the wire.
use arcraven_ugv_core.Common.{ℕ, ◌<◌, ◌^◌, ◌≡◌, refl, sym, ap, ◌∙◌, List, [], ◌∷◌, arith}
use arcraven_ugv_core.Models.Enumeration.{Enumeration, of_value, value-of_value}

pub data CommandPriority : Type 0 where
  background normal high critical : CommandPriority
  unnamed : ℕ → CommandPriority

-- `static_cast` to the underlying type.
unfoldable pub value : CommandPriority → ℕ
value background = 0
value normal = 1
value high = 2
value critical = 3
value (unnamed n) = n

abbrev enumerators : List CommandPriority
enumerators = background ∷ normal ∷ high ∷ critical ∷ []

pub value-unnamed : (n : ℕ) → value (unnamed n) ≡ n
unfolding value
value-unnamed n = refl

abbrev pub enumeration : Enumeration CommandPriority
enumeration = record {
  value = value;
  unnamed = unnamed;
  enumerators = enumerators;
  width = 8;
  value-unnamed = value-unnamed;
}

-- `static_cast<CommandPriority>` of an unsigned integer.
unfoldable pub command_priority_of : ℕ → CommandPriority
unfolding of_value
command_priority_of = of_value enumeration

abbrev pub IsNamed : CommandPriority → Type 0
IsNamed (unnamed n) = ⊥
IsNamed c = Unit

pub command_priority_of-value :
    (c : CommandPriority) → IsNamed c → command_priority_of (value c) ≡ c
unfolding command_priority_of value
command_priority_of-value (unnamed n) h = absurd h
command_priority_of-value c h = refl

pub command_priority-value-lt : (c : CommandPriority) → IsNamed c → value c < 2 ^ 8
command_priority-value-lt c h =
    unfold command_priority_of in
    omega (arith, value-of_value enumeration (value c), ap value (command_priority_of-value c h))

-- Distinct enumerators have distinct wire values.
pub command_priority-value-injective :
    (c d : CommandPriority) → IsNamed c → IsNamed d → value c ≡ value d → c ≡ d
command_priority-value-injective c d hc hd e =
    sym (command_priority_of-value c hc) ∙ ap command_priority_of e ∙ command_priority_of-value d hd
