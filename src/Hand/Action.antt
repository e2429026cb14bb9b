-- ===== src/Hand/Action.antt =====
-- `healthy`, `confirm`, `action` and `parameter` of src/hand.cpp.
pub mod Laws
use roboparty_dexhand.Base.{
  ℕ, zero, suc, ◌+◌, ◌*◌, Bool, true, false, not, ◌&&◌, ◌||◌, Option, none, some, List, [], ◌∷◌,
  ltb, leb, ◌==◌, if◌then◌else◌, all, any, ℤ, pos, eq_ℤ,
}
use roboparty_dexhand.Session.State.{Snapshot, ms}
use roboparty_dexhand.Hand.World.{
  World, Trace, Event, Operation, cancelled, failed, snapshot, pause, clock, command, all_set,
  awaits_status, set_control_mode, stop_motors, set_enable, set_position_velocity, set_max_current,
  set_safe_current_enable, apply_motion_params, get_position_velocity, get_max_current,
  get_safe_current_enable, reads_cache,
}

-- `healthy`, without what it logs.
abbrev pub healthy : Snapshot → Bool
healthy s = s.state.feedback_valid && all (λ fault. fault == 0) s.state.fault_codes

pub data Mode : Type 0 where
  enable disable stop : Mode

abbrev pub is_enable : Mode → Bool
is_enable enable = true
is_enable _ = false

-- The predicate `matches`.
unfoldable pub matches : Mode → Snapshot → Bool
matches stop s = all_set s.stopped
matches enable s = all_set s.state.enabled
matches disable s = not (any (λ b. b) s.state.enabled)

unfoldable pub operation : Mode → Operation
operation stop = stop_motors (pos 0)
operation enable = set_enable (pos 0) (pos 1)
operation disable = set_enable (pos 0) (pos 0)

-- The snapshot shows statuses newer than the baseline in which the predicate holds.
abbrev pub confirms : ℕ → (Snapshot → Bool) → Snapshot → Bool
confirms baseline predicate s =
    s.state.feedback_valid && ltb baseline s.sequence_statuses && predicate s

module _ (w : World) where
  -- The loop of `confirm`; it ends by the clock, so its rounds are bounded by fuel, and out of fuel
  -- is `none`. `wait_for_status` waits for a new status, the deadline or a cancellation.
  unfoldable pub confirm_until : ℕ → ℕ → ℕ → (Snapshot → Bool) → Trace → Option Bool × Trace
  confirm_until zero deadline baseline predicate tr = (none, tr)
  confirm_until (suc fuel) deadline baseline predicate tr =
      let (c, t1) = cancelled w tr in
      let (now, t2) = clock w t1 in
      let (value, t3) = snapshot w t2 in
      let (broken, t4) = failed w t3 in
      let again =
        confirm_until fuel deadline baseline predicate
          (awaits_status value.sequence_statuses deadline ∷ t4) in
      if c
      then (some false, t1)
      else if leb deadline now
      then (some false, t2)
      else if confirms baseline predicate value
      then (some true, t3)
      else if broken
      then (some false, t4)
      else again

  unfoldable pub confirm : ℕ → ℕ → (Snapshot → Bool) → Trace → Option Bool × Trace
  confirm fuel baseline predicate tr =
      let (now, t1) = clock w tr in confirm_until fuel (now + 500 * ms) baseline predicate t1

  -- The loop of `action`, with the attempts that are left; `none` is a `confirm` out of fuel.
  unfoldable pub attempts_of : ℕ → ℕ → Mode → Trace → Option Bool × Trace
  attempts_of fuel zero mode tr = (some false, tr)
  attempts_of fuel (suc left) mode tr =
      let (c, t1) = cancelled w tr in
      let (before, t2) = snapshot w t1 in
      let (sent, t3) = command w (operation mode) t2 in
      let (confirmed, t4) = confirm fuel before.sequence_statuses (matches mode) t3 in
      let (rested, t5) = pause w 100 t3 in
      let after_confirm = attempts_of fuel left mode t4 in
      let after_pause = attempts_of fuel left mode t5 in
      if c
      then (some false, t1)
      else if not sent
      then if not rested then (some false, t5) else after_pause
      else elim confirmed [
        | none ↦ (none, t4)
        | some arrived ↦ if arrived then (some true, t4) else after_confirm
      ]

  unfoldable pub action : ℕ → Mode → ℕ → Trace → Option Bool × Trace
  action fuel mode attempts tr =
      let (value, t1) = snapshot w tr in
      let (ok, t2) = command w (set_control_mode (pos 0)) t1 in
      if is_enable mode && not (healthy value)
      then (some false, t1)
      else if value.state.feedback_valid && matches mode value
      then (some true, t1)
      else if is_enable mode && not (all_set value.stopped)
      then (some false, t1)
      else if is_enable mode && not ok
      then (some false, t2)
      else attempts_of fuel attempts mode (if is_enable mode then t2 else t1)
