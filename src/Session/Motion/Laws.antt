-- ===== src/Session/Motion/Laws.antt =====
-- What a successful `apply_motion_params` or `move_motors` has achieved.
use roboparty_dexhand.Base.{
  ℕ, ◌≡◌, ◌⊎◌, refl, sym, ap, ◌∙◌, Bool, true, false, not, ◌&&◌, some, List, arith, ◌==◌, if_ind,
  any, take, length, ℤ, pos,
}
use roboparty_dexhand.Protocol.Encode.{Bytes, Command, Axis, control, move, framed}
use roboparty_dexhand.Protocol.Encode.Layout.{framed_move}
use roboparty_dexhand.Protocol.Feedback.{running_status}
use roboparty_dexhand.Session.State.{Session}
use roboparty_dexhand.Session.Sending.{emit}
use roboparty_dexhand.Session.Transaction.{Event}
use roboparty_dexhand.Session.Commands.{for_selected, set_control, control_axes, valid_axis}
use roboparty_dexhand.Session.Motion.{
  ◌then_if_ok◌, restore, flush_velocity, flush_current, apply_motion_params, homed_from, leave_mode,
  revoke_stop, finish_move, receive_all, move_motors,
}
use roboparty_dexhand.Session.Invariant.Motion.{
  restore-Inv, flush_velocity-Inv, leave_mode-Inv, revoke_stop-Inv, finish_move-Inv,
  apply_motion_params-Inv, receive_all-node,
}
use roboparty_dexhand.Session.Invariant.Parameters.{receive-Inv}
use roboparty_dexhand.Session.Invariant.{
  Inv, Emission, kept, called, emit-Emission, starts, latest, length-for_selected,
}

then-zero :
    (r : Session × ℕ) (next : Session → Session × ℕ)
    → (r then_if_ok next).1 ≡ 0
    → (r.1 ≡ 0) × ((r then_if_ok next) ≡ next r.0)
then-zero r next =
    if_ind (λ (q : Session × ℕ). q.1 ≡ 0 → (r.1 ≡ 0) × (q ≡ next r.0)) (not (r.1 == 0))
      (λ e z. absurd (ground arith)) (λ e z. (ground arith, refl))

then-ok :
    (r : Session × ℕ) (next : Session → Session × ℕ) → r.1 ≡ 0 → (r then_if_ok next) ≡ next r.0
then-ok r next e = rw e

-- What neither a frame nor the axes change.
record SameFlags (s t : Session) : Type 0 where
  velocity : t.velocity_dirty ≡ s.velocity_dirty
  current : t.current_dirty ≡ s.current_dirty
  pending : t.restore_pending ≡ s.restore_pending
  ready : t.rx.ready ≡ s.rx.ready
  allowed : t.allow_no_home ≡ s.allow_no_home
  axes : t.axes ≡ s.axes

Emission-same :
    {s : Session} {base : ℕ} {bytes : Bytes} {r : Session × ℕ}
    → Emission s base bytes r
    → SameFlags s r.0
Emission-same (kept code h) = record {
  velocity = refl;
  current = refl;
  pending = refl;
  ready = refl;
  allowed = refl;
  axes = refl;
}
Emission-same (called code) = record {
  velocity = refl;
  current = refl;
  pending = refl;
  ready = refl;
  allowed = refl;
  axes = refl;
}

emit_same :
    (s : Session) (c : Command) (frame : ℕ) → length s.axes ≡ 6 → SameFlags s (emit s c frame).0
emit_same s c frame six = Emission-same (emit-Emission s c frame six)

-- The frame that was taken is the latest of its kind.
Emission-latest :
    {s : Session} {base : ℕ} (kind : ℕ) {bytes : Bytes} {r : Session × ℕ}
    → Emission s base bytes r
    → r.1 ≡ 0
    → starts kind bytes ≡ true
    → latest kind r.0.calls ≡ some bytes
Emission-latest kind (kept code h) z e = absurd (h z)
Emission-latest kind (called code) z e = rw e

flush_velocity-zero :
    (s : Session)
    → length s.axes ≡ 6
    → (flush_velocity s).1 ≡ 0
    → let t = (flush_velocity s).0 in
      (t.velocity_dirty ≡ false)
      × (t.restore_pending ≡ s.restore_pending)
      × (t.rx.ready ≡ s.rx.ready)
unfolding flush_velocity
flush_velocity-zero s six = ground (arith, emit_same s move 3 six)

flush_current-zero :
    (s : Session)
    → length s.axes ≡ 6
    → (flush_current s).1 ≡ 0
    → let t = (flush_current s).0 in
      (t.current_dirty ≡ false)
      × (t.velocity_dirty ≡ s.velocity_dirty)
      × (t.restore_pending ≡ s.restore_pending)
      × (t.rx.ready ≡ s.rx.ready)
unfolding flush_current
flush_current-zero s six = ground (arith, emit_same s move 4 six)

restore-zero : (s : Session) → (restore s).1 ≡ 0 → (restore s).0.restore_pending ≡ false
unfolding restore
restore-zero s = ground arith

control_axes-ready :
    (s : Session) (id : ℤ) (mode command : ℕ)
    → length s.axes ≡ 6
    → (control_axes s id mode command).0.rx.ready ≡ s.rx.ready
unfolding control_axes
control_axes-ready s id mode command six =
    if_ind (λ (q : Session × ℕ). q.0.rx.ready ≡ s.rx.ready) (not (valid_axis id)) (λ _. refl)
      λ _.
        let s1 = record s { axes = for_selected id (set_control mode command) 0 s.axes } in
        let same =
          emit_same s1 control 2
            (length-for_selected id (set_control mode command) 0 s.axes ∙ six) in
        same.ready

restore-ready : (s : Session) → length s.axes ≡ 6 → (restore s).0.rx.ready ≡ s.rx.ready
unfolding restore
restore-ready s six = ground (arith, control_axes-ready s (pos 0) 0 0 six)

-- The flags after code 0.
record Clean (t : Session) : Type 0 where
  velocity : t.velocity_dirty ≡ false
  current : t.current_dirty ≡ false
  pending : t.restore_pending ≡ false

apply-Clean :
    (s : Session) → Inv s → (apply_motion_params s).1 ≡ 0 → Clean (apply_motion_params s).0
unfolding apply_motion_params
apply-Clean s v =
    if_ind (λ (q : Session × ℕ). q.1 ≡ 0 → Clean q.0) (not s.rx.ready) (λ _ z. absurd (omega arith))
      λ _ z.
        let (z2, e2) = then-zero (restore s then_if_ok flush_velocity) flush_current z in
        let (z1, e1) = then-zero (restore s) flush_velocity z2 in
        let u = restore-Inv s v in
        let w = flush_velocity-Inv (restore s).0 u in
        let two = flush_velocity-zero (restore s).0 u.six (rw e1 at z2) in
        let three = flush_current-zero (flush_velocity (restore s).0).0 w.six (rw (e2, e1) at z) in
        rw (e2, e1)
          (record {
            velocity = three.1 ∙ two.0;
            current = three.0;
            pending = three.2 ∙ two.1 ∙ restore-zero s z1;
          })

-- When `apply_motion_params` returns 0 on a session that keeps the invariant, the control state
-- is restored, and the latest velocity frame and the latest current frame handed to the transport
-- hold the values in the cache.
pub apply_motion_params_synced :
    (s : Session)
    → Inv s
    → (apply_motion_params s).1 ≡ 0
    → let t = (apply_motion_params s).0 in
      (t.restore_pending ≡ false)
      × (latest 3 t.calls ≡ some (framed move t.axes 3))
      × (latest 4 t.calls ≡ some (framed move t.axes 4))
apply_motion_params_synced s v z =
    let c = apply-Clean s v z in
    let w = apply_motion_params-Inv s v in (c.pending, w.velocity c.velocity, w.current c.current)

-- On a session with nothing to send, `apply_motion_params` does nothing.
Clean-apply : (t : Session) → Clean t → t.rx.ready ≡ true → apply_motion_params t ≡ (t, 0)
unfolding apply_motion_params restore flush_velocity flush_current
Clean-apply t c r = ground arith

finish_move-zero :
    (s : Session) (homed : Bool)
    → Inv s
    → (finish_move s homed).1 ≡ 0
    → let t = (finish_move s homed).0 in
      ((homed ≡ true) ⊎ (s.allow_no_home ≡ true))
      × (latest 2 t.calls ≡ some (framed move t.axes 2))
      × Clean t
unfolding finish_move
finish_move-zero s homed v =
    if_ind
      (λ (q : Session × ℕ).
        q.1 ≡ 0
        → ((homed ≡ true) ⊎ (s.allow_no_home ≡ true))
          × (latest 2 q.0.calls ≡ some (framed move q.0.axes 2))
          × Clean q.0)
      (not s.allow_no_home && not homed) (λ _ z. absurd (omega arith))
      λ g z.
        let (z1, e) = then-zero (apply_motion_params s) (λ s1. emit s1 move 2) z in
        let s1 = (apply_motion_params s).0 in
        let six = (apply_motion_params-Inv s v).six in
        let c = apply-Clean s v z1 in
        let same = emit_same s1 move 2 six in
        let sent =
          Emission-latest 2 (emit-Emission s1 move 2 six) (rw e at z)
            (rw (framed_move s1.axes 2)) in
        rw e (
          ground arith,
          sent ∙ ap (λ (axes : List Axis). some (framed move axes 2)) (sym same.axes),
          record {
            velocity = same.velocity ∙ c.velocity;
            current = same.current ∙ c.current;
            pending = same.pending ∙ c.pending;
          },
        )

apply_motion_params-ready :
    (s : Session)
    → Inv s
    → (apply_motion_params s).1 ≡ 0
    → (apply_motion_params s).0.rx.ready ≡ true
unfolding apply_motion_params
apply_motion_params-ready s v =
    if_ind (λ (q : Session × ℕ). q.1 ≡ 0 → q.0.rx.ready ≡ true) (not s.rx.ready)
      (λ _ z. absurd (omega arith))
      λ e z.
        let (z2, e2) = then-zero (restore s then_if_ok flush_velocity) flush_current z in
        let (z1, e1) = then-zero (restore s) flush_velocity z2 in
        let u = restore-Inv s v in
        let w = flush_velocity-Inv (restore s).0 u in
        let two = flush_velocity-zero (restore s).0 u.six (rw e1 at z2) in
        let three = flush_current-zero (flush_velocity (restore s).0).0 w.six (rw (e2, e1) at z) in
        rw (e2, e1) (three.3 ∙ two.2 ∙ restore-ready s v.six ∙ ground (arith, e))

-- On a session that keeps the invariant, a second `apply_motion_params` after one that returned 0
-- sends nothing and changes nothing.
pub apply_motion_params_twice :
    (s : Session)
    → Inv s
    → (apply_motion_params s).1 ≡ 0
    → apply_motion_params (apply_motion_params s).0 ≡ ((apply_motion_params s).0, 0)
apply_motion_params_twice s v z =
    Clean-apply (apply_motion_params s).0 (apply-Clean s v z) (apply_motion_params-ready s v z)

abbrev Arrived : ℤ → Session × ℕ → Type 0
Arrived id (t, code) =
    code ≡ 0
    → (valid_axis id ≡ true)
      × (latest 2 t.calls ≡ some (framed move t.axes 2))
      × (latest 3 t.calls ≡ some (framed move t.axes 3))
      × (latest 4 t.calls ≡ some (framed move t.axes 4))
      × (t.restore_pending ≡ false)

-- When `move_motors` returns 0 on a session that keeps the invariant, the axis number is valid,
-- and the latest position frame, the latest velocity frame and the latest current frame handed to
-- the transport hold the values in the cache; nothing is left to be sent.
pub move_motors_zero :
    (s : Session) (id : ℤ) (arrived : List Event)
    → Inv s
    → (move_motors s id arrived).1 ≡ 0
    → let t = (move_motors s id arrived).0 in
      (valid_axis id ≡ true)
      × (latest 2 t.calls ≡ some (framed move t.axes 2))
      × (latest 3 t.calls ≡ some (framed move t.axes 3))
      × (latest 4 t.calls ≡ some (framed move t.axes 4))
      × (t.restore_pending ≡ false)
unfolding move_motors
move_motors_zero s id arrived v =
    if_ind (Arrived id) (not (valid_axis id)) (λ _ z. absurd (omega arith))
      λ valid.
        if_ind (Arrived id) (not s.rx.ready) (λ _ z. absurd (omega arith))
          λ _ z.
            let s2 = record (leave_mode s).0 { rx = receive_all (leave_mode s).0.rx arrived } in
            let axes = take 6 s2.rx.feedback in
            let revoke = any (λ a. running_status a == 6) axes in
            let (z1, e1) =
              then-zero (leave_mode s)
                (λ s1.
                  let s2 = record s1 { rx = receive_all s1.rx arrived } in
                  let axes = take 6 s2.rx.feedback in
                  revoke_stop s2 (any (λ a. running_status a == 6) axes) then_if_ok λ s3.
                  finish_move s3 (homed_from id 0 axes))
                z in
            let (z2, e2) =
              then-zero (revoke_stop s2 revoke) (λ s3. finish_move s3 (homed_from id 0 axes))
                (rw e1 at z) in
            let u = revoke_stop-Inv s2 revoke (
              receive-Inv (leave_mode s).0 s2.rx (receive_all-node (leave_mode s).0.rx arrived)
                (leave_mode-Inv s v)) in
            let w = finish_move-Inv (revoke_stop s2 revoke).0 (homed_from id 0 axes) u in
            let (homed, sent, c) =
              finish_move-zero (revoke_stop s2 revoke).0 (homed_from id 0 axes) u
                (rw (e1, e2) at z) in
            rw (e1, e2)
              (ground (arith, valid), sent, w.velocity c.velocity, w.current c.current, c.pending)
