-- ===== src/Session/Invariant/Commands.antt =====
-- Every command keeps the session's invariant.
use roboparty_dexhand.Base.{
  ℕ, zero, suc, ◌+◌, ◌*◌, refl, Bool, true, false, not, ◌||◌, ◌&&◌, arith, ◌==◌, if◌then◌else◌, ℤ,
  pos, eq_ℤ, if_ind,
}
use roboparty_dexhand.Protocol.Encode.{Axis, config, control, move, u16}
use roboparty_dexhand.Protocol.Encode.Layout.{
  framed_control, framed_config, framed_move, length-framed,
}
use roboparty_dexhand.Protocol.Sdo.{write, read, sdo_payload}
use roboparty_dexhand.Session.State.{Session}
use roboparty_dexhand.Session.Sending.{send, emit, configure_feedback}
use roboparty_dexhand.Session.Commands.{
  set_control, control_axes, control_twice, set_enable, set_clear_alarm, set_control_mode,
  stop_motors, home_motors, set_target_position, set_position, clamp_target, send_safe_current,
  set_safe_current_enable, valid_axis,
}
use roboparty_dexhand.Session.Invariant.{
  Inv, send-Emission, emit-Emission, Emission-Inv, update-Inv, flags-Inv,
}

abbrev Keeps : Session × ℕ → Type 0
Keeps r = Inv r.0

pub control-Inv : (s : Session) → Inv s → Inv (emit s control 2).0
control-Inv s v =
    Emission-Inv v (omega arith) (length-framed control s.axes 2 (omega (arith, v.six)))
      (rw (framed_control s.axes 2)) (rw (framed_control s.axes 2))
      (emit-Emission s control 2 v.six)

pub config-Inv : (s : Session) → Inv s → Inv (configure_feedback s).0
unfolding configure_feedback
config-Inv s v =
    Emission-Inv v (omega arith) (length-framed config s.axes 2 (omega (arith, v.six)))
      (rw (framed_config s.axes 2)) (rw (framed_config s.axes 2)) (emit-Emission s config 2 v.six)

pub move-Inv : (s : Session) → Inv s → Inv (emit s move 2).0
move-Inv s v =
    Emission-Inv v (omega arith) (length-framed move s.axes 2 (omega (arith, v.six)))
      (rw (framed_move s.axes 2)) (rw (framed_move s.axes 2)) (emit-Emission s move 2 v.six)

pub sdo-Inv :
    (s : Session) (index subindex value : ℕ) (writes : Bool)
    → Inv s
    → Inv (send s 0x600 (sdo_payload (if writes then write else read) index subindex value)).0
unfolding sdo_payload u16
sdo-Inv s index subindex value true v =
    Emission-Inv v (omega arith) (omega arith) refl refl (send-Emission s 0x600 _)
sdo-Inv s index subindex value false v =
    Emission-Inv v (omega arith) (omega arith) refl refl (send-Emission s 0x600 _)

pub control_axes-Inv :
    (s : Session) (id : ℤ) (mode command : ℕ) → Inv s → Inv (control_axes s id mode command).0
unfolding control_axes set_control
control_axes-Inv s id mode command v =
    if_ind Keeps (not (valid_axis id)) (λ _. v)
      (λ _. control-Inv _ (update-Inv id (set_control mode command) (λ a. refl) (λ a. refl) v))

control_twice-Inv :
    (s : Session) (id : ℤ) (first second : ℕ) → Inv s → Inv (control_twice s id first second).0
unfolding control_twice
control_twice-Inv s id first second v =
    let r = control_axes s id 0 first in
    let w = control_axes-Inv s id 0 first v in
    if_ind Keeps (not (r.1 == 0)) (λ _. w) (λ _. control_axes-Inv r.0 id 0 second w)

pub set_enable-Inv : (s : Session) (id enable : ℤ) → Inv s → Inv (set_enable s id enable).0
unfolding set_enable
set_enable-Inv s id enable v =
    if_ind Keeps (not s.rx.ready) (λ _. v) (λ _. control_twice-Inv s id 0 _ v)

pub set_clear_alarm-Inv : (s : Session) (id : ℤ) → Inv s → Inv (set_clear_alarm s id).0
unfolding set_clear_alarm
set_clear_alarm-Inv s id v =
    if_ind Keeps (not s.rx.ready) (λ _. v) (λ _. control_twice-Inv s id 0 3 v)

pub set_control_mode-Inv : (s : Session) (id mode : ℤ) → Inv s → Inv (set_control_mode s id mode).0
unfolding set_control_mode
set_control_mode-Inv s id mode v =
    if_ind Keeps (not (valid_axis id) || not (eq_ℤ mode (pos 0))) (λ _. v)
      λ _.
        if_ind Keeps (not s.rx.ready) (λ _. v)
          (λ _.
            control-Inv _ (update-Inv id (λ a. record a { mode = 0 }) (λ a. refl) (λ a. refl) v))

-- Flags that are set say nothing, so setting them keeps the invariant.
pub dirty-Inv :
    (s : Session) → Inv s → Inv (record s { velocity_dirty = true; current_dirty = true })
dirty-Inv s v = record {
  six = v.six;
  node_low = v.node_low;
  node_high = v.node_high;
  fits = v.fits;
  velocity = λ e. cc;
  current = λ e. cc;
}

pub stop_motors-Inv : (s : Session) (id : ℤ) → Inv s → Inv (stop_motors s id).0
unfolding stop_motors
stop_motors-Inv s id v =
    if_ind Keeps (not s.rx.ready) (λ _. v)
      λ _.
        if_ind Keeps (not (valid_axis id)) (λ _. v)
          λ _.
            let r = control_axes s id 0 7 in
            let w = dirty-Inv r.0 (control_axes-Inv s id 0 7 v) in
            if_ind Keeps (not (r.1 == 0)) (λ _. w) (λ _. control_axes-Inv _ id 0 8 w)

pub set_target_position-Inv : (s : Session) (id v : ℤ) → Inv s → Inv (set_target_position s id v).0
unfolding set_target_position
set_target_position-Inv s id t v =
    if_ind Keeps _ (λ _. update-Inv id (set_position (clamp_target t)) (λ a. refl) (λ a. refl) v)
      (λ _. v)

pub home_motors-Inv : (s : Session) (id : ℤ) → Inv s → Inv (home_motors s id).0
unfolding home_motors
home_motors-Inv s id v =
    if_ind Keeps (not s.rx.ready) (λ _. v)
      λ _.
        let r = control_axes s id 5 0 in
        let w = control_axes-Inv s id 5 0 v in
        if_ind Keeps (not (r.1 == 0)) (λ _. w)
          λ _.
            let s2 = (set_target_position r.0 id (pos 0)).0 in
            let q = control_axes s2 id 5 4 in
            let u = control_axes-Inv s2 id 5 4 (set_target_position-Inv r.0 id (pos 0) w) in
            if_ind Keeps (not (q.1 == 0)) (λ _. u)
              λ _.
                let f = λ (a : Axis). record a { mode = 0; control = 0 } in
                flags-Inv true q.0.allow_no_home
                  (dirty-Inv _ (update-Inv id f (λ a. refl) (λ a. refl) u))

pub send_safe_current-Inv :
    (s : Session) (enable rounds i : ℕ) → Inv s → Inv (send_safe_current s enable rounds i).0
unfolding send_safe_current
send_safe_current-Inv s enable zero i v = v
send_safe_current-Inv s enable (suc rounds) i v =
    let r = send s 0x600 (sdo_payload write (0x2017 + 0x40 * i) 1 enable) in
    let w = sdo-Inv s (0x2017 + 0x40 * i) 1 enable true v in
    if_ind Keeps (not (r.1 == 0)) (λ _. w) (λ _. send_safe_current-Inv r.0 enable rounds (i + 1) w)

pub set_safe_current_enable-Inv :
    (s : Session) (enable : ℤ) → Inv s → Inv (set_safe_current_enable s enable).0
unfolding set_safe_current_enable
set_safe_current_enable-Inv s enable v =
    if_ind Keeps (not s.rx.ready) (λ _. v)
      λ _.
        if_ind Keeps (not (eq_ℤ enable (pos 0)) && not (eq_ℤ enable (pos 1))) (λ _. v)
          (λ _. send_safe_current-Inv s _ 6 0 v)
