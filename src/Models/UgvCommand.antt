-- ===== src/Models/UgvCommand.antt =====
-- models/enums/UgvCommand.hpp. A value of the enum is any value of its underlying type: `unnamed` holds
-- those that have no enumerator, which `static_cast` lets in from the wire.
use arcraven_ugv_core.Common.{ℕ, ◌<◌, ◌^◌, ◌≡◌, refl, sym, ap, ◌∙◌, List, [], ◌∷◌, arith}
use arcraven_ugv_core.Models.Enumeration.{Enumeration, of_value, value-of_value}

pub data UgvCommand : Type 0 where
  follow_path go_to stop hold_position anchor replan_to loiter : UgvCommand
  return_to_base follow_target evade dock set_speed_limit set_stance : UgvCommand
  align_heading face_target stabilize scan_area observe focus_sensor : UgvCommand
  track_entity calibrate_sensors sentinel secure_area escort checkpoint : UgvCommand
  investigate shadow execute_mission abort_mission pause_mission : UgvCommand
  resume_mission wait handoff_control signal broadcast acknowledge : UgvCommand
  request_assistance emergency_stop safe_mode self_check recover shutdown : UgvCommand
  reboot set_ruleset set_ownership lock_command_set unlock_command_set : UgvCommand
  unnamed : ℕ → UgvCommand

-- `static_cast` to the underlying type.
unfoldable pub value : UgvCommand → ℕ
value follow_path = 100
value go_to = 101
value stop = 102
value hold_position = 103
value anchor = 104
value replan_to = 105
value loiter = 106
value return_to_base = 107
value follow_target = 108
value evade = 109
value dock = 110
value set_speed_limit = 200
value set_stance = 201
value align_heading = 202
value face_target = 203
value stabilize = 204
value scan_area = 300
value observe = 301
value focus_sensor = 302
value track_entity = 303
value calibrate_sensors = 304
value sentinel = 400
value secure_area = 401
value escort = 402
value checkpoint = 403
value investigate = 404
value shadow = 405
value execute_mission = 500
value abort_mission = 501
value pause_mission = 502
value resume_mission = 503
value wait = 504
value handoff_control = 505
value signal = 600
value broadcast = 601
value acknowledge = 602
value request_assistance = 603
value emergency_stop = 700
value safe_mode = 701
value self_check = 702
value recover = 703
value shutdown = 704
value reboot = 705
value set_ruleset = 800
value set_ownership = 801
value lock_command_set = 802
value unlock_command_set = 803
value (unnamed n) = n

abbrev enumerators : List UgvCommand
enumerators =
    follow_path ∷ go_to ∷ stop ∷ hold_position ∷ anchor ∷ replan_to ∷ loiter ∷ return_to_base
    ∷ follow_target ∷ evade ∷ dock ∷ set_speed_limit ∷ set_stance ∷ align_heading ∷ face_target
    ∷ stabilize ∷ scan_area ∷ observe ∷ focus_sensor ∷ track_entity ∷ calibrate_sensors ∷ sentinel
    ∷ secure_area ∷ escort ∷ checkpoint ∷ investigate ∷ shadow ∷ execute_mission ∷ abort_mission
    ∷ pause_mission ∷ resume_mission ∷ wait ∷ handoff_control ∷ signal ∷ broadcast ∷ acknowledge
    ∷ request_assistance ∷ emergency_stop ∷ safe_mode ∷ self_check ∷ recover ∷ shutdown ∷ reboot
    ∷ set_ruleset ∷ set_ownership ∷ lock_command_set ∷ unlock_command_set ∷ []

pub value-unnamed : (n : ℕ) → value (unnamed n) ≡ n
unfolding value
value-unnamed n = refl

abbrev pub enumeration : Enumeration UgvCommand
enumeration = record {
  value = value;
  unnamed = unnamed;
  enumerators = enumerators;
  width = 16;
  value-unnamed = value-unnamed;
}

-- `static_cast<UgvCommand>` of an unsigned integer.
unfoldable pub ugv_command_of : ℕ → UgvCommand
unfolding of_value
ugv_command_of = of_value enumeration

abbrev pub IsNamed : UgvCommand → Type 0
IsNamed (unnamed n) = ⊥
IsNamed c = Unit

pub ugv_command_of-value : (c : UgvCommand) → IsNamed c → ugv_command_of (value c) ≡ c
unfolding ugv_command_of value
ugv_command_of-value (unnamed n) h = absurd h
ugv_command_of-value c h = refl

pub ugv_command-value-lt : (c : UgvCommand) → IsNamed c → value c < 2 ^ 16
ugv_command-value-lt c h =
    unfold ugv_command_of in
    omega (arith, value-of_value enumeration (value c), ap value (ugv_command_of-value c h))

-- Distinct enumerators have distinct wire values.
pub ugv_command-value-injective :
    (c d : UgvCommand) → IsNamed c → IsNamed d → value c ≡ value d → c ≡ d
ugv_command-value-injective c d hc hd e =
    sym (ugv_command_of-value c hc) ∙ ap ugv_command_of e ∙ ugv_command_of-value d hd
