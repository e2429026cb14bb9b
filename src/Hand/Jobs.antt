-- ===== src/Hand/Jobs.antt =====
-- The operations of `Hand` in src/hand.cpp that check their arguments and submit a job: `none` is a
-- refusal before anything is submitted.
pub mod Laws
use roboparty_dexhand.Base.{
  ℕ, suc, Bool, true, false, not, ◌&&◌, ◌||◌, Option, none, some, List, [], ◌∷◌, if◌then◌else◌, any,
  ℤ, pos, at_most, below_zero,
}
use roboparty_dexhand.Hand.World.{
  World, Trace, Operation, cancelled, command, set_clear_alarm, set_target_position, move_motors,
}
use roboparty_dexhand.Hand.Action.{action, stop, disable}
use roboparty_dexhand.Hand.Parameter.{speed, current, torque, parameter}

abbrev pub Job : Type 0
Job = Trace → Bool × Trace

-- `v < low || v > high`.
abbrev pub outside : ℤ → ℕ → Bool
outside v high = below_zero v || not (at_most v high)

module _ (w : World) where
  -- `!cancelled(token) && command(...)`.
  unfoldable pub unless_cancelled : Operation → Trace → Bool × Trace
  unless_cancelled op tr =
      let (c, t1) = cancelled w tr in if c then (false, t1) else command w op t1

  unfoldable pub clear_faults : ℤ → Option Job
  clear_faults id = if outside id 6 then none else some (unless_cancelled (set_clear_alarm id))

  -- The loop over the axes, with the number of the next one.
  unfoldable pub target_all : ℕ → List ℤ → Trace → Bool × Trace
  target_all id [] tr = (true, tr)
  target_all id (p ∷ positions) tr =
      let (ok, t1) = unless_cancelled (set_target_position (pos id) p) tr in
      let rest = target_all (suc id) positions t1 in if ok then rest else (false, t1)

  unfoldable pub move_all : List ℤ → Trace → Bool × Trace
  move_all positions tr =
      let (ok, t1) = target_all 1 positions tr in
      if ok then unless_cancelled (move_motors (pos 0)) t1 else (false, t1)

  unfoldable pub set_positions : List ℤ → Option Job
  set_positions positions =
      if any (λ v. outside v 10000) positions then none else some (move_all positions)

  unfoldable pub move_one : ℤ → ℤ → Trace → Bool × Trace
  move_one id position tr =
      let (ok, t1) = command w (set_target_position id position) tr in
      if ok then unless_cancelled (move_motors id) t1 else (false, t1)

  unfoldable pub set_position : ℤ → ℤ → Option Job
  set_position id position =
      if at_most id 0 || not (at_most id 6) || outside position 10000
      then none
      else some (move_one id position)

  unfoldable pub set_speed : ℤ → Option Job
  set_speed v = if at_most v 0 then none else some (parameter w speed v)

  unfoldable pub set_current_limit : ℤ → Option Job
  set_current_limit v = if outside v 3000 then none else some (parameter w current v)

  unfoldable pub set_torque_reached_mode : Bool → Option Job
  set_torque_reached_mode stop_on_reached =
      some (parameter w torque (if stop_on_reached then pos 1 else pos 0))

  -- `prepare_disconnect`: both actions run, with one attempt each; `none` is a `confirm` out of fuel.
  unfoldable pub prepare_disconnect : ℕ → Trace → Option Bool × Trace
  prepare_disconnect fuel tr =
      let (stopped, t1) = action w fuel stop 1 tr in
      let (disabled, t2) = action w fuel disable 1 t1 in
      elim stopped [
        | none ↦ (none, t1)
        | some a ↦ elim disabled [ none ↦ (none, t2) | some b ↦ (some (a && b), t2) ]
      ]
