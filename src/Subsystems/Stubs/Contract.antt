-- ===== src/Subsystems/Stubs/Contract.antt =====
-- What a user of subsystems/Interfaces.hpp counts on from its drives, and DriveSystemStub against it.
use arcraven_ugv_core.Common.{◌≡◌, refl, Bool, true, false, List, [], ◌∷◌, arith}
use arcraven_ugv_core.Subsystems.Interfaces.{JointState, IDriveSystem}
use arcraven_ugv_core.Subsystems.Stubs.{
  DriveSystemStub, enable, enabled, drive_system, init_drives, disable, estop, read_joint_states,
}

-- Only `enable` switches on, and `disable` and `estop` switch off.
pub record DriveContract {D S : Type 0} (I : IDriveSystem D S) (is_on : S → Bool) : Type 0 where
  pub init_keeps : (s : S) → is_on (I.init s).1 ≡ is_on s
  pub disable_off : (s : S) → is_on (I.disable s) ≡ false
  pub estop_off : (s : S) → is_on (I.estop s) ≡ false
  pub read_keeps :
      (out : List (JointState D)) (s : S) → is_on (I.read_joint_states out s).2 ≡ is_on s

pub stub-Contract : {D : Type 0} → DriveContract (drive_system {D = D}) enabled
unfolding init_drives enabled disable estop read_joint_states
stub-Contract = record {
  init_keeps = λ s. refl;
  disable_off = λ s. refl;
  estop_off = λ s. refl;
  read_keeps = λ out s. refl;
}

pub data DriveCall (D : Type 0) : Type 0 where
  inits enables disables estops : DriveCall D
  reads : List (JointState D) → DriveCall D

-- Whether the last call that switches is `enable`, or `b` without such a call.
abbrev pub asked_on : {D : Type 0} → Bool → List (DriveCall D) → Bool
asked_on b [] = b
asked_on b (inits ∷ calls) = asked_on b calls
asked_on b (enables ∷ calls) = asked_on true calls
asked_on b (disables ∷ calls) = asked_on false calls
asked_on b (estops ∷ calls) = asked_on false calls
asked_on b (reads out ∷ calls) = asked_on b calls

module _ {D S : Type 0} (I : IDriveSystem D S) where
  unfoldable pub call_all : List (DriveCall D) → S → S
  call_all [] s = s
  call_all (inits ∷ calls) s = call_all calls (I.init s).1
  call_all (enables ∷ calls) s = call_all calls (I.enable s).1
  call_all (disables ∷ calls) s = call_all calls (I.disable s)
  call_all (estops ∷ calls) s = call_all calls (I.estop s)
  call_all (reads out ∷ calls) s = call_all calls (I.read_joint_states out s).2

module _ {D S : Type 0} (I : IDriveSystem D S) (is_on : S → Bool)
    (contract : DriveContract I is_on) where
  -- However its operations are called: the drives are on only if they were on, or `b` says that they
  -- may be, and the last call that switches, if any, was `enable`.
  call_all-asked_on :
      (calls : List (DriveCall D)) (s : S) (b : Bool)
      → (is_on s ≡ true → b ≡ true)
      → is_on (call_all I calls s) ≡ true
      → asked_on b calls ≡ true
  unfolding call_all
  call_all-asked_on [] s b h e = h e
  call_all-asked_on (inits ∷ calls) s b h e =
      call_all-asked_on calls (I.init s).1 b (λ o. h (ground (arith, o, contract.init_keeps s))) e
  call_all-asked_on (enables ∷ calls) s b h e =
      call_all-asked_on calls (I.enable s).1 true (λ o. refl) e
  call_all-asked_on (disables ∷ calls) s b h e =
      call_all-asked_on calls (I.disable s) false (λ o. ground (arith, o, contract.disable_off s)) e
  call_all-asked_on (estops ∷ calls) s b h e =
      call_all-asked_on calls (I.estop s) false (λ o. ground (arith, o, contract.estop_off s)) e
  call_all-asked_on (reads out ∷ calls) s b h e =
      call_all-asked_on calls (I.read_joint_states out s).2 b
        (λ o. h (ground (arith, o, contract.read_keeps out s))) e

-- However its operations are called, DriveSystemStub is then on exactly if the last call that switches
-- was `enable`, or there was none and it was on before.
pub drive_system-asked_on :
    {D : Type 0} (calls : List (DriveCall D)) (d : DriveSystemStub)
    → enabled (call_all drive_system calls d) ≡ asked_on (enabled d) calls
unfolding call_all init_drives enable disable estop enabled read_joint_states
drive_system-asked_on [] d = refl
drive_system-asked_on (inits ∷ calls) d = drive_system-asked_on calls d
drive_system-asked_on (enables ∷ calls) d = drive_system-asked_on calls (enable d).1
drive_system-asked_on (disables ∷ calls) d = drive_system-asked_on calls (disable d)
drive_system-asked_on (estops ∷ calls) d = drive_system-asked_on calls (estop d)
drive_system-asked_on (reads out ∷ calls) d = drive_system-asked_on calls d
