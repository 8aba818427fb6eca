-- ===== src/Subsystems/Interfaces.antt =====
-- subsystems/Interfaces.hpp. `D` stands for `double`, which is only stored and printed. An abstract
-- class is a record of its operations on the state `S` of an implementation.
use arcraven_ugv_core.Common.{ℕ, Bool, List, Bytes}

pub record SensorFrame : Type 0 where
  pub timestamp_ns : ℕ
  pub ids : List Bytes
  pub types : List Bytes
  pub payloads : List Bytes

pub record JointState (D : Type 0) : Type 0 where
  pub id : Bytes
  pub name : Bytes
  pub position : D
  pub velocity : D
  pub load : D

pub record IDriveSystem (D S : Type 0) : Type 0 where
  pub init : S → Bool × S
  pub enable : S → Bool × S
  pub disable : S → S
  pub estop : S → S
  pub read_joint_states : List (JointState D) → S → Bool × List (JointState D) × S

pub record ISensorSuite (S : Type 0) : Type 0 where
  pub init : S → Bool × S
  pub poll : S → S
  pub read_frame : SensorFrame → S → Bool × SensorFrame × S

pub record ICommandLink (S : Type 0) : Type 0 where
  pub init : S → Bool × S
  pub pump_rx : S → Bool × S
  pub pump_tx : S → Bool × S
