-- ===== src/Hand/World.antt =====
-- What the jobs of src/hand.cpp call. A job runs while other threads and the device change what it
-- sees, so each call is written down with its answer, the latest first, and the answers come from a
-- `World`, which may depend on everything before.
use roboparty_dexhand.Base.{ℕ, Bool, true, false, List, ◌∷◌, ◌==◌, if◌then◌else◌, ℤ, all}
use roboparty_dexhand.Session.State.{Snapshot, SdoResult}

-- The calls of the session that return a code.
pub data Operation : Type 0 where
  configure_feedback apply_motion_params : Operation
  opens_session set_move_no_home : ℤ → Operation
  set_control_mode stop_motors home_motors move_motors set_clear_alarm : ℤ → Operation
  set_enable : ℤ → ℤ → Operation
  set_target_position : ℤ → ℤ → Operation
  set_position_velocity set_max_current : ℤ → ℤ → Operation
  set_safe_current_enable : ℤ → Operation
  get_position_velocity get_max_current : ℕ → Operation
  get_safe_current_enable : Operation

pub data Event : Type 0 where
  asks_cancelled asks_failed : Bool → Event
  sees : Snapshot → Event
  counts_errors : ℕ → Event
  calls : Operation → ℕ → Event
  sleeps : ℕ → Bool → Event
  reads_clock : ℕ → Event
  requests : ℕ → SdoResult → Event
  awaits : Bool → Event
  awaits_status : ℕ → ℕ → Event
  reads_cache : Operation → ℕ → ℤ → Event
  opens_transport : Bool → Event
  connects cleans_up : Event

abbrev pub Trace : Type 0
Trace = List Event

pub record World : Type 0 where
  pub cancelled : Trace → Bool
  pub failed : Trace → Bool
  pub snapshot : Trace → Snapshot
  pub errors : Trace → ℕ
  pub code : Trace → Operation → ℕ
  pub rested : Trace → Bool
  pub opened : Trace → Bool
  pub clock : Trace → ℕ
  pub period : Trace → ℕ → SdoResult
  pub awaited : Trace → Bool
  pub cached : Trace → Operation → ℤ

-- `std::all_of` over the flags.
abbrev pub all_set : List Bool → Bool
all_set bs = all (λ b. b) bs

module _ (w : World) where
  -- `cancelled(token)`.
  unfoldable pub cancelled : Trace → Bool × Trace
  cancelled tr = (w.cancelled tr, asks_cancelled (w.cancelled tr) ∷ tr)

  -- `session.receive_failed()`.
  unfoldable pub failed : Trace → Bool × Trace
  failed tr = (w.failed tr, asks_failed (w.failed tr) ∷ tr)

  -- `cancelled(token) || session.receive_failed()`.
  unfoldable pub broken : Trace → Bool × Trace
  broken tr = let (c, t1) = cancelled tr in if c then (true, t1) else failed t1

  unfoldable pub snapshot : Trace → Snapshot × Trace
  snapshot tr = (w.snapshot tr, sees (w.snapshot tr) ∷ tr)

  -- `pause(token, duration)` in milliseconds.
  unfoldable pub pause : ℕ → Trace → Bool × Trace
  pause duration tr = (w.rested tr, sleeps duration (w.rested tr) ∷ tr)

  unfoldable pub clock : Trace → ℕ × Trace
  clock tr = (w.clock tr, reads_clock (w.clock tr) ∷ tr)

  abbrev errors : Trace → ℕ × Trace
  errors tr = (w.errors tr, counts_errors (w.errors tr) ∷ tr)

  -- `command`: the call returned 0 and no send failed meanwhile.
  unfoldable pub command : Operation → Trace → Bool × Trace
  command op tr =
      let (before, t1) = errors tr in
      let rc = w.code t1 op in
      let t2 = calls op rc ∷ t1 in
      if rc == 0 then (before == w.errors t2, counts_errors (w.errors t2) ∷ t2) else (false, t2)
