-- ===== src/Session/Examples.antt =====
-- The theorems on the session at a short history of calls.
use roboparty_dexhand.Base.{Exists, ◌≡◌, refl, true, false, some, List, [], ◌∷◌, pos, replicate}
use roboparty_dexhand.Protocol.Encode.{Bytes, move, framed, command_payload}
use roboparty_dexhand.Protocol.Sdo.{decode_sdo_reply}
use roboparty_dexhand.Session.State.{Session, accepted, new}
use roboparty_dexhand.Session.Receive.{
  set_canfd_data_decode, take_reply, take_feedback, after_position_frame, after_status_frame,
}
use roboparty_dexhand.Protocol.Feedback.{decode_motor_feedback}
use roboparty_dexhand.Session.Sending.{emit, send}
use roboparty_dexhand.Session.Transaction.{
  Event, frame, Waiting, transact_sdo, conclude, request, answer, end_sdo, wait_for, happen,
  begin_sdo,
}
use roboparty_dexhand.Session.Transaction.Laws.{Acknowledges, transact_sdo-acknowledged}
use roboparty_dexhand.Session.Waits.{complete, wait_for_feedback}
use roboparty_dexhand.Session.Waits.Laws.{Fresh, wait_for_feedback-Fresh}
use roboparty_dexhand.Session.Commands.{valid_axis, initial, set_move_no_home}
use roboparty_dexhand.Session.Motion.{
  apply_motion_params, restore, flush_velocity, flush_current, leave_mode, revoke_stop, receive_all,
  finish_move, move_motors,
}
use roboparty_dexhand.Session.Motion.Laws.{apply_motion_params_twice, move_motors_zero}
use roboparty_dexhand.Session.Invariant.{Inv, latest}
use roboparty_dexhand.Session.Run.{
  Call, sets_callback, opens, allows_no_home, run, step, run-new-Inv,
}

-- Opened for node 1 with a transport that accepts every frame.
abbrev history : List Call
history =
    sets_callback (λ n id bytes. accepted) ∷ opens (pos 1) (pos 1) ∷ allows_no_home (pos 1) ∷ []

abbrev opened : Session
opened = run new history

run-new-Inv_example : Inv (run new history)
run-new-Inv_example = run-new-Inv history

applied : (apply_motion_params opened).1 ≡ 0
unfolding apply_motion_params restore flush_velocity flush_current run new step initial emit
    set_move_no_home command_payload
applied = refl

apply_motion_params_twice_example :
    apply_motion_params (apply_motion_params opened).0 ≡ ((apply_motion_params opened).0, 0)
apply_motion_params_twice_example = apply_motion_params_twice opened (run-new-Inv history) applied

moved : (move_motors opened (pos 0) []).1 ≡ 0
unfolding move_motors leave_mode revoke_stop receive_all finish_move apply_motion_params restore
    flush_velocity flush_current run new step initial emit set_move_no_home command_payload
moved = refl

move_motors_zero_example :
    let t = (move_motors opened (pos 0) []).0 in
    (valid_axis (pos 0) ≡ true)
    × (latest 2 t.calls ≡ some (framed move t.axes 2))
    × (latest 3 t.calls ≡ some (framed move t.axes 3))
    × (latest 4 t.calls ≡ some (framed move t.axes 4))
    × (t.restore_pending ≡ false)
move_motors_zero_example = move_motors_zero opened (pos 0) [] (run-new-Inv history) moved

-- A status frame of six slots.
abbrev status_frame : Bytes
status_frame = 0x5a ∷ 6 ∷ 0x15 ∷ 0 ∷ replicate 10 0x35

-- Six slots of positions.
abbrev position_frame : Bytes
position_frame = 0x50 ∷ 6 ∷ replicate 54 7

abbrev waiting : Waiting
waiting = record { rx = record new.rx { closed = false }; cancelled = false }

abbrev feedback : List Event
feedback = frame 0x481 (some status_frame) 7 ∷ frame 0x481 (some position_frame) 9 ∷ []

both_come : (wait_for_feedback 0 0 waiting feedback).1 ≡ true
unfolding wait_for_feedback wait_for happen complete set_canfd_data_decode new take_feedback
    decode_motor_feedback after_position_frame after_status_frame
both_come = refl

wait_for_feedback-Fresh_example : Fresh waiting (wait_for_feedback 0 0 waiting feedback).0 feedback
unfolding new
wait_for_feedback-Fresh_example = wait_for_feedback-Fresh waiting feedback both_come

-- The acknowledgement of a write to index 0x201d, sub 0x14.
abbrev reply : Bytes
reply = 0x60 ∷ 0x1d ∷ 0x20 ∷ 0x14 ∷ 0 ∷ 0 ∷ 0 ∷ 0 ∷ []

abbrev replies : List Event
replies = frame 0x581 (some reply) 5 ∷ []

acknowledged : (transact_sdo opened 0x201d 0x14 true 200 true false true replies).1.code ≡ 0
unfolding transact_sdo conclude request send answer end_sdo wait_for happen set_canfd_data_decode
    take_reply decode_sdo_reply run new step initial set_move_no_home begin_sdo
acknowledged = refl

transact_sdo-acknowledged_example :
    Exists
      (Acknowledges opened.rx.node 0x201d 0x14 true true
        (transact_sdo opened 0x201d 0x14 true 200 true false true replies).1.value)
      replies
transact_sdo-acknowledged_example =
    transact_sdo-acknowledged opened 0x201d 0x14 true 200 true false true replies acknowledged
