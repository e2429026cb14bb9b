-- ===== src/Node/Reset.antt =====
-- `reset` and `cleanup` of ros2/rphand_ros/src/rphand_node.cpp: the calls of the SDK that they make. What
-- the SDK and `exiting` answer are parameters.
use roboparty_dexhand.Base.{Bool, true, false, not, ◌||◌, List, ◌∷◌, if◌then◌else◌, ℤ}
use roboparty_dexhand.Node.{Parameters}

-- The calls of the SDK.
pub data Call : Type 0 where
  connect : ℤ → Call
  disable enable home prepare_disconnect disconnect : Call
  set_speed set_current_limit : ℤ → Call
  set_torque_mode : Bool → Call

-- What a call does: it returns, or throws.
pub data Answer : Type 0 where
  returns : Bool → Answer
  throws : Answer

-- What happened so far, the latest first: `exiting` was asked, or a call was made.
pub data Event : Type 0 where
  asked : Bool → Event
  called : Call → Answer → Event

abbrev pub Log : Type 0
Log = List Event

-- Other threads and the device: what `exiting` says, what a call does, whether a session can be made,
-- and `is_connected`.
pub record Sdk : Type 0 where
  pub exiting : Log → Bool
  pub answer : Log → Call → Answer
  pub creates : Bool
  pub connected : Log → Bool

-- `attempt`, and the use of a call's result in `perform`.
unfoldable pub succeeds : Answer → Bool
succeeds (returns b) = b
succeeds throws = false

module _ (w : Sdk) where
  unfoldable pub ask : Log → Bool × Log
  ask log = (w.exiting log, asked (w.exiting log) ∷ log)

  unfoldable pub make : Call → Log → Bool × Log
  make call log = (succeeds (w.answer log call), called call (w.answer log call) ∷ log)

  unfoldable pub perform : Call → Log → Bool × Log
  perform call log = let (exits, l1) = ask log in if exits then (false, l1) else make call l1

  -- `cleanup` where there is a session; what the attempt returns is only logged.
  unfoldable pub cleanup : Log → Log
  cleanup log =
      let (_, l1) = make prepare_disconnect log in
      (make disconnect (if w.connected log then l1 else log)).1

  -- The `try` of `reset`, once there is a session; an exception ends it.
  unfoldable pub initialize : Parameters → Log → Bool × Log
  initialize p log =
      let (connected, l1) = perform (connect p.node_id) log in
      let (disabled, l2) = perform disable l1 in
      let (speed_set, l3) = perform (set_speed p.speed) l2 in
      let (current_set, l4) = perform (set_current_limit p.current) l3 in
      let (mode_set, l5) = perform (set_torque_mode p.torque_stop) l4 in
      let (enabled, l6) = perform enable l5 in
      let (homed, l7) = perform home l6 in
      let (exits, l8) = ask l7 in
      if not connected
      then (false, l1)
      else if not disabled
      then (false, l2)
      else if not speed_set
      then (false, l3)
      else if not current_set
      then (false, l4)
      else if not mode_set
      then (false, l5)
      else if not enabled
      then (false, l6)
      else if not homed
      then (false, l7)
      else (not exits, l8)

  -- `reset`: whether there is a session afterwards, which is what the response says, and the events.
  unfoldable pub reset : Parameters → Log → Bool × Log
  reset p log =
      let (exits, l1) = ask log in
      let (ok, l2) = initialize p l1 in
      if exits || not w.creates then (false, l1) else if ok then (true, l2) else (false, cleanup l2)
