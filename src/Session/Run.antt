-- ===== src/Session/Run.antt =====
-- Any history of calls on a session, src/rphand/session.cpp as a whole.
use roboparty_dexhand.Base.{
  ℕ, refl, Bool, true, false, not, Option, some, List, [], ◌∷◌, ℤ, arith, if_ind,
}
use roboparty_dexhand.Protocol.Encode.{Bytes}
use roboparty_dexhand.Session.State.{Session, Callback, new}
use roboparty_dexhand.Session.Receive.{set_canfd_data_decode, track_home}
use roboparty_dexhand.Session.Receive.Laws.{set_canfd_data_decode-node}
use roboparty_dexhand.Session.Sending.{configure_feedback, recover_stop, close}
use roboparty_dexhand.Session.Transaction.{Event, feedback_period, read_sdo}
use roboparty_dexhand.Session.Commands.{
  initial, set_move_no_home, set_enable, set_clear_alarm, set_control_mode, stop_motors,
  home_motors, set_target_position, set_position_velocity, set_max_current, set_safe_current_enable,
  get_safe_current_enable,
}
use roboparty_dexhand.Session.Motion.{apply_motion_params, move_motors}
use roboparty_dexhand.Session.Invariant.{Inv}
use roboparty_dexhand.Session.Invariant.Commands.{
  config-Inv, set_enable-Inv, set_clear_alarm-Inv, set_control_mode-Inv, stop_motors-Inv,
  home_motors-Inv, set_target_position-Inv, set_safe_current_enable-Inv,
}
use roboparty_dexhand.Session.Invariant.Parameters.{
  set_position_velocity-Inv, set_max_current-Inv, set_move_no_home-Inv, recover_stop-Inv,
  receive-Inv, initial-Inv,
}
use roboparty_dexhand.Session.Invariant.Motion.{
  apply_motion_params-Inv, move_motors-Inv, transact_sdo-Inv,
}

-- A call of the session, or a step of its receiver thread.
pub data Call : Type 0 where
  sets_callback : Callback → Call
  opens : ℤ → ℤ → Call
  closes : Call
  receives : ℕ → Option Bytes → ℕ → Call
  loses_receiver : Call
  tracks_home : Bool → Call
  allows_no_home : ℤ → Call
  configures : Call
  recovers : ℤ → Call
  sets_period : ℕ → Bool → Bool → List Event → Call
  enables : ℤ → ℤ → Call
  clears_alarm : ℤ → Call
  sets_mode : ℤ → ℤ → Call
  stops : ℤ → Call
  homes : ℤ → Call
  targets : ℤ → ℤ → Call
  sets_velocity : ℤ → ℤ → Call
  sets_current : ℤ → ℤ → Call
  sets_safe_current : ℤ → Call
  gets_safe_current : Bool → List Event → Call
  applies : Call
  moves : ℤ → List Event → Call

unfoldable pub step : Session → Call → Session
step s (sets_callback callback) = record s { callback = some callback }
step s (opens mode node) = (initial s mode node).0
step s closes = close s
step s (receives id bytes now) = record s { rx = (set_canfd_data_decode s.rx id bytes now).0 }
step s loses_receiver = record s { rx = record (s.rx) { rx_failed = true } }
step s (tracks_home enabled) = record s { rx = track_home s.rx enabled }
step s (allows_no_home enable) = (set_move_no_home s enable).0
step s configures = (configure_feedback s).0
step s (recovers control) = (recover_stop s control).0
step s (sets_period index writes cancelled events) =
    (feedback_period s index writes cancelled events).0
step s (enables id enable) = (set_enable s id enable).0
step s (clears_alarm id) = (set_clear_alarm s id).0
step s (sets_mode id mode) = (set_control_mode s id mode).0
step s (stops id) = (stop_motors s id).0
step s (homes id) = (home_motors s id).0
step s (targets id v) = (set_target_position s id v).0
step s (sets_velocity id v) = (set_position_velocity s id v).0
step s (sets_current id v) = (set_max_current s id v).0
step s (sets_safe_current enable) = (set_safe_current_enable s enable).0
step s (gets_safe_current null events) = (get_safe_current_enable s null events).0
step s applies = (apply_motion_params s).0
step s (moves id arrived) = (move_motors s id arrived).0

unfoldable pub run : Session → List Call → Session
run s [] = s
run s (c ∷ calls) = run (step s c) calls

get_safe_current_enable-Inv :
    (s : Session) (null : Bool) (events : List Event)
    → Inv s
    → Inv (get_safe_current_enable s null events).0
unfolding get_safe_current_enable read_sdo
get_safe_current_enable-Inv s null events v =
    let P = λ (r : Session × ℕ × Option ℕ). Inv r.0 in
    if_ind P (not s.rx.ready) (λ _. v)
      λ _.
        if_ind P null (λ _. v) (λ _. transact_sdo-Inv s 0x2017 1 false 0 false false false events v)

pub step-Inv : (s : Session) (c : Call) → Inv s → Inv (step s c)
unfolding step close track_home feedback_period
step-Inv s (sets_callback callback) v = record {
  six = v.six;
  node_low = v.node_low;
  node_high = v.node_high;
  fits = v.fits;
  velocity = v.velocity;
  current = v.current;
}
step-Inv s (opens mode node) v = initial-Inv s mode node v
step-Inv s closes v = receive-Inv s (close s).rx refl v
step-Inv s (receives id bytes now) v =
    receive-Inv s (set_canfd_data_decode s.rx id bytes now).0
      (set_canfd_data_decode-node s.rx id bytes now) v
step-Inv s loses_receiver v = receive-Inv s (record (s.rx) { rx_failed = true }) refl v
step-Inv s (tracks_home enabled) v = receive-Inv s (track_home s.rx enabled) refl v
step-Inv s (allows_no_home enable) v = set_move_no_home-Inv s enable v
step-Inv s configures v = config-Inv s v
step-Inv s (recovers control) v = recover_stop-Inv s control v
step-Inv s (sets_period index writes cancelled events) v =
    transact_sdo-Inv s index 0x14 writes _ true cancelled true events v
step-Inv s (enables id enable) v = set_enable-Inv s id enable v
step-Inv s (clears_alarm id) v = set_clear_alarm-Inv s id v
step-Inv s (sets_mode id mode) v = set_control_mode-Inv s id mode v
step-Inv s (stops id) v = stop_motors-Inv s id v
step-Inv s (homes id) v = home_motors-Inv s id v
step-Inv s (targets id t) v = set_target_position-Inv s id t v
step-Inv s (sets_velocity id x) v = set_position_velocity-Inv s id x v
step-Inv s (sets_current id x) v = set_max_current-Inv s id x v
step-Inv s (sets_safe_current enable) v = set_safe_current_enable-Inv s enable v
step-Inv s (gets_safe_current null events) v = get_safe_current_enable-Inv s null events v
step-Inv s applies v = apply_motion_params-Inv s v
step-Inv s (moves id arrived) v = move_motors-Inv s id arrived v

run-Inv : (s : Session) (calls : List Call) → Inv s → Inv (run s calls)
unfolding run
run-Inv s [] v = v
run-Inv s (c ∷ calls) v = run-Inv (step s c) calls (step-Inv s c v)

new-Inv : Inv new
unfolding new
new-Inv = record {
  six = refl;
  node_low = omega arith;
  node_high = omega arith;
  fits = tt;
  velocity = λ e. cc;
  current = λ e. cc;
}

-- After any history of calls and received frames the session has six axes and a node from 1 to 127,
-- every frame it handed to the transport has a standard id and at most 64 bytes, and while a
-- parameter is not marked dirty, the latest frame of its kind holds the cached values.
pub run-new-Inv : (calls : List Call) → Inv (run new calls)
run-new-Inv calls = run-Inv new calls new-Inv
