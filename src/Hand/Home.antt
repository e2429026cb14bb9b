-- ===== src/Hand/Home.antt =====
-- `home` of src/hand.cpp. `track_home` and what is logged are not part of the trace.
pub mod Laws
use roboparty_dexhand.Base.{
  ℕ, zero, suc, ◌+◌, ◌*◌, Bool, true, false, not, ◌&&◌, ◌||◌, Option, none, some, List, [], ◌∷◌,
  leb, ◌==◌, if◌then◌else◌, pos,
}
use roboparty_dexhand.Session.State.{Snapshot, ms}
use roboparty_dexhand.Hand.World.{
  World, Trace, cancelled, snapshot, pause, clock, command, all_set, set_control_mode, home_motors,
}
use roboparty_dexhand.Hand.Action.{healthy}

-- Every axis was seen to home, reports that it is homed, and stands still.
abbrev pub at_home : Snapshot → Bool
at_home s = all_set s.observed_home && all_set s.state.homed && all_set s.stopped

abbrev pub able : Snapshot → Bool
able s = healthy s && all_set s.state.enabled

-- What the loop of `home` does when it is time for another attempt: it goes on, with or without a
-- new command, or it ends. The parts are the number of attempts and the next `retry_at`.
pub data Retry : Type 0 where
  ends : Trace → Retry
  watches rests : ℕ → ℕ → Trace → Retry

module _ (w : World) where
  -- The loop that sends the position mode, with the rounds that are left and `sent_all`.
  unfoldable pub restore_mode : ℕ → Bool → Trace → Bool × Trace
  restore_mode zero sent_all tr = let (c, t1) = cancelled w tr in (not c && sent_all, t1)
  restore_mode (suc left) sent_all tr =
      let (current, t1) = snapshot w tr in
      let (c, t2) = cancelled w t1 in
      let (sent, t3) = command w (set_control_mode (pos 0)) t2 in
      let (rested, t4) = pause w 20 t3 in
      let rest = restore_mode left (sent && sent_all) (if left == 0 then t3 else t4) in
      if c || not (able current) || not (all_set current.state.homed)
      then (false, t2)
      else if not (left == 0) && not rested
      then (false, t4)
      else rest

  unfoldable pub retry : ℕ → ℕ → Snapshot → Trace → Retry
  retry attempts retry_at value tr =
      let (now, t1) = clock w tr in
      let (c, t2) = cancelled w t1 in
      let (again, t3) = snapshot w t2 in
      let (_, t4) = command w (home_motors (pos 0)) t3 in
      let (later, t5) = clock w t4 in
      if not (leb retry_at now && not (all_set value.observed_home))
      then rests attempts retry_at t1
      else if c
      then ends t2
      else if all_set again.observed_home
      then watches attempts retry_at t3
      else if leb 30 attempts
      then ends t3
      else rests (suc attempts) (later + 1000 * ms) t5

  -- The loop of `home`; it ends by the clock, so its rounds are bounded by fuel, and out of fuel is
  -- `none`.
  unfoldable pub home_until : ℕ → ℕ → ℕ → ℕ → Trace → Option Bool × Trace
  home_until zero deadline attempts retry_at tr = (none, tr)
  home_until (suc fuel) deadline attempts retry_at tr =
      let (c, t1) = cancelled w tr in
      let (now, t2) = clock w t1 in
      let (value, t3) = snapshot w t2 in
      let (restored, t4) = restore_mode 30 true t3 in
      if c
      then (some false, t1)
      else if leb deadline now
      then (some false, t2)
      else if not (able value)
      then (some false, t3)
      else if at_home value
      then (some restored, t4)
      else elim (retry attempts retry_at value t3) [
        | ends t5 ↦ (some false, t5)
        | watches n at t5 ↦ home_until fuel deadline n at t5
        | rests n at t5 ↦ home_until fuel deadline n at (pause w 10 t5).1
      ]

  unfoldable pub home : ℕ → Trace → Option Bool × Trace
  home fuel tr =
      let (c, t1) = cancelled w tr in
      let (_, t2) = command w (home_motors (pos 0)) t1 in
      let (start, t3) = clock w t2 in
      let (then_at, t4) = clock w t3 in
      if c
      then (some false, t1)
      else home_until fuel (start + 60000 * ms) 1 (then_at + 1000 * ms) t4
