-- ===== src/Subsystems/Bridge/Telemetry.antt =====
-- Telemetry lines, with the joints and the sensors of one frame.
use arcraven_ugv_core.Common.{
  ℕ, ◌*◌, ◌≡◌, refl, min, true, List, [], ◌∷◌, ◌++◌, append_assoc, append-nil, some, Bytes, bytes,
  All, All-append, length, take, arith,
}
use arcraven_ugv_core.Stdlib.Decimal.{decimal}
use arcraven_ugv_core.Utils.Base64.{base64_encode}
use arcraven_ugv_core.Subsystems.Interfaces.{SensorFrame, JointState}
use arcraven_ugv_core.Subsystems.Bridge.{
  Bridge, BridgeFiles, joint_fields, sensor_fields, telemetry_line, publish_telemetry,
}
use arcraven_ugv_core.Subsystems.Bridge.Publish.{
  led, led-append, IsField, IsLineOf, decimal-IsField, encoded-IsField, line_of, with_line,
  appended,
}

module _ {D : Type 0} (show : D → Bytes) where
  pub joint_list : List (JointState D) → List Bytes
  joint_list [] = []
  joint_list (j ∷ joints) =
      j.id ∷ j.name ∷ show j.position ∷ show j.velocity ∷ show j.load ∷ joint_list joints

  joint_fields-led :
      (joints : List (JointState D)) → joint_fields show joints ≡ led b'|' (joint_list joints)
  unfolding joint_fields led joint_list
  joint_fields-led [] = refl
  joint_fields-led (j ∷ joints) = rw (joint_fields-led joints)

  length-joint_list :
      (joints : List (JointState D)) → length (joint_list joints) ≡ 5 * length joints
  unfolding joint_list
  length-joint_list [] = omega arith
  length-joint_list (j ∷ joints) = omega (arith, length-joint_list joints)

  abbrev pub IsCleanJoint : JointState D → Type 0
  IsCleanJoint j =
      IsField j.id
      × IsField j.name
      × IsField (show j.position)
      × IsField (show j.velocity)
      × IsField (show j.load)

  joint_list-IsField :
      (joints : List (JointState D)) → All IsCleanJoint joints → All IsField (joint_list joints)
  unfolding joint_list
  joint_list-IsField [] h = tt
  joint_list-IsField (j ∷ joints) (hj, h) =
      (hj.0, (hj.1, (hj.2, (hj.3, (hj.4, joint_list-IsField joints h)))))

pub sensor_list : List Bytes → List Bytes → List Bytes → List Bytes
sensor_list (id ∷ ids) (kind ∷ types) (payload ∷ payloads) =
    id ∷ kind ∷ base64_encode payload ∷ sensor_list ids types payloads
sensor_list _ _ _ = []

sensor_fields-led :
    (ids types payloads : List Bytes)
    → sensor_fields ids types payloads ≡ led b'|' (sensor_list ids types payloads)
unfolding sensor_fields led sensor_list
sensor_fields-led [] types payloads = refl
sensor_fields-led (id ∷ ids) [] payloads = refl
sensor_fields-led (id ∷ ids) (kind ∷ types) [] = refl
sensor_fields-led (id ∷ ids) (kind ∷ types) (payload ∷ payloads) =
    rw (sensor_fields-led ids types payloads)

abbrev pub IsCleanFrame : SensorFrame → Type 0
IsCleanFrame frame = All IsField frame.ids × All IsField frame.types

sensor_list-IsField :
    (ids types payloads : List Bytes)
    → All IsField ids
    → All IsField types
    → All IsField (sensor_list ids types payloads)
unfolding sensor_list
sensor_list-IsField [] types payloads hi ht = tt
sensor_list-IsField (id ∷ ids) [] payloads hi ht = tt
sensor_list-IsField (id ∷ ids) (kind ∷ types) [] hi ht = tt
sensor_list-IsField (id ∷ ids) (kind ∷ types) (payload ∷ payloads) (hi, his) (ht, hts) =
    (hi, (ht, (encoded-IsField payload, sensor_list-IsField ids types payloads his hts)))

-- The count that the line announces: three fields for each sensor follow it.
length-sensor_list :
    (ids types payloads : List Bytes)
    → length (sensor_list ids types payloads)
      ≡ 3 * min (length ids) (min (length types) (length payloads))
unfolding sensor_list
length-sensor_list [] types payloads = omega arith
length-sensor_list (id ∷ ids) [] payloads = omega arith
length-sensor_list (id ∷ ids) (kind ∷ types) [] = omega arith
length-sensor_list (id ∷ ids) (kind ∷ types) (payload ∷ payloads) =
    omega (arith, length-sensor_list ids types payloads)

module _ {D : Type 0} (show : D → Bytes) (frame : SensorFrame) (joints : List (JointState D)) where
  pub sensors : List Bytes
  sensors = sensor_list frame.ids frame.types frame.payloads

  pub sensor_count : ℕ
  sensor_count = min (length frame.ids) (min (length frame.types) (length frame.payloads))

  pub telemetry_fields : List Bytes
  unfolding sensor_count sensors
  telemetry_fields =
      decimal frame.timestamp_ns
      ∷ decimal (length joints)
      ∷ (joint_list show joints ++ (decimal sensor_count ∷ sensors))

  telemetry_line-led :
      telemetry_line show frame joints ≡ (bytes "T" ++ led b'|' telemetry_fields) ++ (10 ∷ [])
  unfolding telemetry_line led telemetry_fields
  telemetry_line-led =
      simp (joint_fields-led, sensor_fields-led, led-append, append_assoc, append-nil)

  telemetry_fields-IsField :
      All (IsCleanJoint show) joints → IsCleanFrame frame → All IsField telemetry_fields
  unfolding telemetry_fields
  telemetry_fields-IsField hj (hi, ht) = (
    decimal-IsField frame.timestamp_ns,
    (
      decimal-IsField (length joints),
      All-append IsField (joint_list show joints) _ (joint_list-IsField show joints hj) (
        decimal-IsField sensor_count,
        sensor_list-IsField frame.ids frame.types frame.payloads hi ht,
      ),
    ),
  )

  -- Where the file can be opened a frame goes out as one line, behind what the file held, if it was
  -- there; of the line a device that fills up takes the first bytes. Taken apart at the bars it gives
  -- the time, the number of joints, five fields for each joint, the number of sensors, which is the
  -- length of the shortest of the three lists, and three fields for each of these sensors; provided
  -- that no name or type holds a bar or a line end. Payloads may hold anything.
  pub publish_telemetry_lem :
      (b : Bridge) (files : BridgeFiles) (written : ℕ)
      → b.initialized ≡ true
      → files.appends files.opened ≡ some written
      → All (IsCleanJoint show) joints
      → IsCleanFrame frame
      → (text : Bytes) × (publish_telemetry show frame joints b files
          ≡ (true, with_line (take written text) files))
        × IsLineOf text (bytes "T" ∷ telemetry_fields)
        × (length (joint_list show joints) ≡ 5 * length joints)
        × (length sensors ≡ 3 * sensor_count)
  unfolding publish_telemetry
  publish_telemetry_lem b files written i t hj hf = (
    telemetry_line show frame joints,
    appended (telemetry_line show frame joints) b files written i t,
    rw telemetry_line-led
        (line_of (bytes "T") telemetry_fields (omega arith) (telemetry_fields-IsField hj hf)),
    length-joint_list show joints,
    unfold sensors sensor_count in length-sensor_list frame.ids frame.types frame.payloads,
  )
