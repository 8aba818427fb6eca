-- ===== src/Config/System/Bounded.antt =====
-- The steps of the tasks, once the stop is asked for, whatever the logger does.
use arcraven_ugv_core.Common.{
  ℕ, suc, ◌+◌, ◌*◌, ◌≤◌, ◌<◌, ◌≡◌, refl, ap, true, false, Bytes, arith, length,
}
use arcraven_ugv_core.Core.StopController.{stop_requested}
use arcraven_ugv_core.Config.Vehicle.{Vehicle}
use arcraven_ugv_core.Config.Handlers.Safe.{HasSafe}
use arcraven_ugv_core.Config.Handlers.Tidy.{HasTidy}
use arcraven_ugv_core.Config.System.{
  Task, main_task, estop_task, control_task, sensor_task, io_task, persist_task, Pc, joining,
  saving, client_write,
}
use arcraven_ugv_core.Config.System.Moves.{System, moves, joins, writes, Reach, here, next, at}
use arcraven_ugv_core.Config.System.Kept.{Move-handlers, Reach-Kept}
use arcraven_ugv_core.Config.System.Weight.{is_io, weight, cost, cost-other, Move-cost}
use arcraven_ugv_core.Config.System.Unread.{unread_of, client_write-unread, Move-unread}

pub total : (Task → Pc) → Vehicle → ℕ
total f v =
    cost main_task (f main_task) v
    + cost estop_task (f estop_task) v
    + cost control_task (f control_task) v
    + cost sensor_task (f sensor_task) v
    + cost io_task (f io_task) v
    + cost persist_task (f persist_task) v

-- A task other than io_thread costs as much with another vehicle, and io_thread if it has as much to read.
cost-same : (t : Task) (p : Pc) (v w : Vehicle) → is_io t ≡ false → cost t p v ≡ cost t p w
cost-same t p v w e = omega (arith, cost-other t p v e, cost-other t p w e)

cost-unread :
    (p : Pc) (v w : Vehicle) → unread_of v ≡ unread_of w → cost io_task p v ≡ cost io_task p w
unfolding cost
cost-unread p v w e = simp e

costs-same :
    (f : Task → Pc) (v w : Vehicle)
    → unread_of w ≡ unread_of v
    → (t : Task) → cost t (f t) w ≡ cost t (f t) v
costs-same f v w e io_task = cost-unread (f io_task) w v e
costs-same f v w e main_task = cost-same main_task (f main_task) w v refl
costs-same f v w e estop_task = cost-same estop_task (f estop_task) w v refl
costs-same f v w e control_task = cost-same control_task (f control_task) w v refl
costs-same f v w e sensor_task = cost-same sensor_task (f sensor_task) w v refl
costs-same f v w e persist_task = cost-same persist_task (f persist_task) w v refl

-- The costs of all tasks but one, which has moved, are the same.
total-moved :
    (f : Task → Pc) (t : Task) (p : Pc) (v w : Vehicle)
    → cost t p w < cost t (f t) v
    → (is_io t ≡ false → unread_of w ≡ unread_of v)
    → total (at f t p) w < total f v
unfolding total
total-moved f main_task p v w less same =
    let k = costs-same f v w (same refl) in
    omega (
      arith,
      less,
      k main_task,
      k estop_task,
      k control_task,
      k sensor_task,
      k io_task,
      k persist_task,
    )
total-moved f estop_task p v w less same =
    let k = costs-same f v w (same refl) in
    omega (
      arith,
      less,
      k main_task,
      k estop_task,
      k control_task,
      k sensor_task,
      k io_task,
      k persist_task,
    )
total-moved f control_task p v w less same =
    let k = costs-same f v w (same refl) in
    omega (
      arith,
      less,
      k main_task,
      k estop_task,
      k control_task,
      k sensor_task,
      k io_task,
      k persist_task,
    )
total-moved f sensor_task p v w less same =
    let k = costs-same f v w (same refl) in
    omega (
      arith,
      less,
      k main_task,
      k estop_task,
      k control_task,
      k sensor_task,
      k io_task,
      k persist_task,
    )
total-moved f persist_task p v w less same =
    let k = costs-same f v w (same refl) in
    omega (
      arith,
      less,
      k main_task,
      k estop_task,
      k control_task,
      k sensor_task,
      k io_task,
      k persist_task,
    )
total-moved f io_task p v w less same =
    let k : (t : Task) → is_io t ≡ false → cost t (f t) w ≡ cost t (f t) v =
      λ t e. cost-same t (f t) w v e in
    omega (
      arith,
      less,
      k main_task refl,
      k estop_task refl,
      k control_task refl,
      k sensor_task refl,
      k persist_task refl,
    )

total-written :
    (f : Task → Pc) (v w : Vehicle) (n : ℕ)
    → length (unread_of w) ≤ length (unread_of v) + n
    → total f w ≤ total f v + 3 * n
unfolding total cost
total-written f v w n e = ground (arith, e)

module _ {D : Type 0} (ulong : ℕ) (show : D → Bytes) where
  -- The steps of the tasks in a run, and the bytes that clients write.
  unfoldable pub work : {s u : System D} → Reach ulong show s u → ℕ
  work here = 0
  work (next r (moves alive mv)) = suc (work r)
  work (next r (joins e all)) = suc (work r)
  work (next r (writes text)) = work r

  unfoldable pub written : {s u : System D} → Reach ulong show s u → ℕ
  written here = 0
  written (next r (moves alive mv)) = written r
  written (next r (joins e all)) = written r
  written (next r (writes text)) = written r + length text

  pub remaining : System D → ℕ
  remaining s = total s.pc s.mem.core.vehicle

  joins-total :
      (f : Task → Pc) (v : Vehicle)
      → f main_task ≡ joining
      → total (at f main_task saving) v < total f v
  unfolding cost weight
  joins-total f v e =
      total-moved f main_task saving v v (omega (arith, ap (λ p. cost main_task p v) e)) (λ n. refl)

  pub Reach-Tidy :
      {s u : System D}
      → Reach ulong show s u
      → HasTidy s.mem.core.cmd_router
      → HasTidy u.mem.core.cmd_router
  unfolding client_write
  Reach-Tidy here q = q
  Reach-Tidy (next r (moves alive mv)) q = rw (Move-handlers ulong show mv) (Reach-Tidy r q)
  Reach-Tidy (next r (joins e all)) q = Reach-Tidy r q
  Reach-Tidy (next r (writes text)) q = Reach-Tidy r q

  -- Each step of a task uses up some of what remains; a client adds three for each byte.
  pub work-le :
      {s u : System D} (r : Reach ulong show s u)
      → HasSafe s.mem.core.cmd_router
      → HasTidy s.mem.core.cmd_router
      → stop_requested s.mem.core.vehicle.stop ≡ true
      → work r + remaining u ≤ remaining s + 3 * written r
  unfolding work written remaining
  work-le here a b h = omega arith
  work-le (next {t = x} r (moves {t} {m} {p} alive mv)) a b h =
      let go = (Reach-Kept ulong show r a).0.stop_kept h in
      let less =
        total-moved x.pc t p x.mem.core.vehicle m.core.vehicle (Move-cost ulong show mv go)
          (Move-unread ulong show mv (Reach-Tidy r b)) in
      omega (arith, work-le r a b h, less)
  work-le (next {t = x} r (joins e all)) a b h =
      omega (arith, work-le r a b h, joins-total x.pc x.mem.core.vehicle e)
  work-le (next {t} r (writes text)) a b h =
      let v = t.mem.core.vehicle in
      let more =
        total-written t.pc v (client_write text v) (length text) (client_write-unread text v) in
      omega (arith, work-le r a b h, more)
