-- ===== src/Session/Motion.antt =====
-- `apply_motion_params` and `move_motors` of src/rphand/session.cpp.
pub mod Laws
use roboparty_dexhand.Base.{
  ℕ, suc, ◌+◌, Bool, true, false, not, ◌&&◌, ◌||◌, List, [], ◌∷◌, any, ◌==◌, if◌then◌else◌, take, ℤ,
  pos,
}
use roboparty_dexhand.Protocol.Encode.{Axis, move}
use roboparty_dexhand.Protocol.Feedback.{FeedbackAxis, running_status}
use roboparty_dexhand.Session.State.{Session, Receive}
use roboparty_dexhand.Session.Receive.{has_bits}
use roboparty_dexhand.Session.Sending.{emit}
use roboparty_dexhand.Session.Transaction.{Event, happen}
use roboparty_dexhand.Session.Commands.{valid_axis, selected, control_axes}

infixl 5 ◌then_if_ok◌
-- Go on only after code 0.
abbrev pub ◌then_if_ok◌ : Session × ℕ → (Session → Session × ℕ) → Session × ℕ
r then_if_ok next = if not (r.1 == 0) then r else next r.0

-- The first block: restore the control state after homing.
unfoldable pub restore : Session → Session × ℕ
restore s =
    if s.restore_pending
    then control_axes s (pos 0) 0 0 then_if_ok (λ s1. (record s1 { restore_pending = false }, 0))
    else (s, 0)

-- The second and the third block: send velocities, currents.
unfoldable pub flush_velocity : Session → Session × ℕ
flush_velocity s =
    if s.velocity_dirty
    then emit s move 3 then_if_ok (λ s1. (record s1 { velocity_dirty = false }, 0))
    else (s, 0)

unfoldable pub flush_current : Session → Session × ℕ
flush_current s =
    if s.current_dirty
    then emit s move 4 then_if_ok (λ s1. (record s1 { current_dirty = false }, 0))
    else (s, 0)

unfoldable pub apply_motion_params : Session → Session × ℕ
apply_motion_params s =
    if not s.rx.ready then (s, 2) else restore s then_if_ok flush_velocity then_if_ok flush_current

-- The axes are homed, as far as the selected ones have reported.
unfoldable pub homed_from : ℤ → ℕ → List FeedbackAxis → Bool
homed_from id i [] = true
homed_from id i (a ∷ axes) =
    not (selected id i && a.seen && not (has_bits a.status 0x10)) && homed_from id (suc i) axes

-- Put every axis back into position mode, if one is not.
unfoldable pub leave_mode : Session → Session × ℕ
leave_mode s = if any (λ a. not (a.mode == 0)) s.axes then control_axes s (pos 0) 0 0 else (s, 0)

-- Revoke an emergency stop that an axis reports.
unfoldable pub revoke_stop : Session → Bool → Session × ℕ
revoke_stop s revoke = if revoke then control_axes s (pos 0) 0 8 else (s, 0)

unfoldable pub finish_move : Session → Bool → Session × ℕ
finish_move s homed =
    if not s.allow_no_home && not homed
    then (s, 11)
    else apply_motion_params s then_if_ok λ s1. emit s1 move 2

-- What the receiver does while the command sleeps.
unfoldable pub receive_all : Receive → List Event → Receive
receive_all r [] = r
receive_all r (e ∷ es) = receive_all (happen (record { rx = r; cancelled = false }) e).rx es

-- `arrived` is what the receiver decodes between the start and the look at the feedback.
unfoldable pub move_motors : Session → ℤ → List Event → Session × ℕ
move_motors s id arrived =
    if not (valid_axis id)
    then (s, 1)
    else if not s.rx.ready
    then (s, 2)
    else leave_mode s then_if_ok λ s1.
        let s2 = record s1 { rx = receive_all s1.rx arrived } in
        let axes = take 6 s2.rx.feedback in
        revoke_stop s2 (any (λ a. running_status a == 6) axes) then_if_ok λ s3.
        finish_move s3 (homed_from id 0 axes)
