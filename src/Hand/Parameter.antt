-- ===== src/Hand/Parameter.antt =====
-- `parameter` of src/hand.cpp.
pub mod Laws
use roboparty_dexhand.Base.{
  ℕ, zero, suc, Bool, true, false, not, ◌&&◌, List, [], ◌∷◌, ◌==◌, if◌then◌else◌, ℤ, pos, eq_ℤ,
}
use roboparty_dexhand.Hand.World.{
  World, Trace, Event, Operation, cancelled, pause, command, set_position_velocity, set_max_current,
  set_safe_current_enable, apply_motion_params, get_position_velocity, get_max_current,
  get_safe_current_enable, reads_cache,
}

-- `kind` 0, 1 and 2.
pub data Kind : Type 0 where
  speed current torque : Kind

unfoldable pub setter : Kind → ℤ → Operation
setter speed value = set_position_velocity (pos 0) value
setter current value = set_max_current (pos 0) value
setter torque value = set_safe_current_enable value

-- The getter for an axis.
unfoldable pub getter : Kind → ℕ → Operation
getter speed id = get_position_velocity id
getter current id = get_max_current id
getter torque id = get_safe_current_enable

abbrev pub ids : Kind → List ℕ
ids torque = 1 ∷ []
ids _ = 1 ∷ 2 ∷ 3 ∷ 4 ∷ 5 ∷ 6 ∷ []

module _ (w : World) where
  -- The loop over the axes: every cache is read, whatever the ones before gave.
  unfoldable pub read_caches : Kind → ℤ → List ℕ → Bool → Trace → Bool × Trace
  read_caches kind value [] ok tr = (ok, tr)
  read_caches kind value (id ∷ rest) ok tr =
      let op = getter kind id in
      let rc = w.code tr op in
      let cached = w.cached tr op in
      read_caches kind value rest ((rc == 0) && eq_ℤ cached value && ok)
        (reads_cache op rc cached ∷ tr)

  unfoldable pub apply_for : Kind → Bool → Trace → Bool × Trace
  apply_for torque ok tr = (ok, tr)
  apply_for speed ok tr =
      let (applied, t1) = command w apply_motion_params tr in (applied && ok, t1)
  apply_for current ok tr =
      let (applied, t1) = command w apply_motion_params tr in (applied && ok, t1)

  -- The loop, with the attempts that are left.
  unfoldable pub parameter_attempts : ℕ → Kind → ℤ → Trace → Bool × Trace
  parameter_attempts zero kind value tr = (false, tr)
  parameter_attempts (suc left) kind value tr =
      let (c1, t1) = cancelled w tr in
      let (sent, t2) = command w (setter kind value) t1 in
      let (applied, t3) = apply_for kind sent t2 in
      let (ok, t4) = read_caches kind value (ids kind) applied t3 in
      let (c2, t5) = cancelled w t4 in
      let t6 = if ok then t5 else t4 in
      let again =
        parameter_attempts left kind value (if left == 0 then t6 else (pause w 20 t6).1) in
      if c1 then (false, t1) else if ok && not c2 then (true, t5) else again

  unfoldable pub parameter : Kind → ℤ → Trace → Bool × Trace
  parameter kind value tr = parameter_attempts 30 kind value tr
