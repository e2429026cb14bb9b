-- ===== src/Session/Invariant/Motion.antt =====
-- The commands that move, SDO transactions and the receiver keep the session's invariant.
use roboparty_dexhand.Base.{
  ℕ, ◌+◌, ◌%◌, ◌^◌, ◌≡◌, refl, Bool, true, false, not, ◌&&◌, List, [], ◌∷◌, any, arith, ◌==◌, take,
  ℤ, pos, if_ind, ◌∙◌,
}
use roboparty_dexhand.Protocol.Encode.{move, framed}
use roboparty_dexhand.Protocol.Encode.Layout.{framed_move, length-framed}
use roboparty_dexhand.Protocol.Feedback.{running_status}
use roboparty_dexhand.Session.State.{Session, Receive, Sent, SdoResult}
use roboparty_dexhand.Session.Receive.Laws.{set_canfd_data_decode-node}
use roboparty_dexhand.Session.Sending.{emit}
use roboparty_dexhand.Session.Transaction.{
  Event, frame, receive_failure, closes, cancels, Waiting, happen, wait_for, finished, begin_sdo,
  answer, end_sdo, transact_sdo, request, conclude,
}
use roboparty_dexhand.Session.Commands.{control_axes, valid_axis}
use roboparty_dexhand.Session.Motion.{
  ◌then_if_ok◌, restore, flush_velocity, flush_current, apply_motion_params, homed_from, leave_mode,
  revoke_stop, finish_move, receive_all, move_motors,
}
use roboparty_dexhand.Session.Invariant.{
  Inv, Emission, kept, called, emit-Emission, flags-Inv, starts,
}
use roboparty_dexhand.Session.Invariant.Commands.{control_axes-Inv, move-Inv, sdo-Inv}
use roboparty_dexhand.Session.Invariant.Parameters.{receive-Inv}

abbrev pub Keeps : Session × ℕ → Type 0
Keeps r = Inv r.0

pub then-Inv :
    (r : Session × ℕ) (next : Session → Session × ℕ)
    → Inv r.0
    → (r.1 ≡ 0 → Inv (next r.0).0)
    → Inv (r then_if_ok next).0
then-Inv r next v h = if_ind Keeps (not (r.1 == 0)) (λ _. v) (λ e. h (ground arith))

pub restore-Inv : (s : Session) → Inv s → Inv (restore s).0
unfolding restore
restore-Inv s v =
    let w = control_axes-Inv s (pos 0) 0 0 v in
    if_ind Keeps s.restore_pending
      (λ _.
        then-Inv (control_axes s (pos 0) 0 0) (λ s1. (record s1 { restore_pending = false }, 0)) w
          (λ _. flags-Inv false (control_axes s (pos 0) 0 0).0.allow_no_home w))
      (λ _. v)

-- A velocity frame that the transport takes makes the velocities clean.
flushed-velocity :
    (s : Session) {r : Session × ℕ}
    → Inv s
    → Emission s 0x500 (framed move s.axes 3) r
    → s.velocity_dirty ≡ true
    → Inv (r then_if_ok (λ s1. (record s1 { velocity_dirty = false }, 0))).0
flushed-velocity s v (kept code h) d =
    if_ind Keeps (not (code == 0)) (λ _. v) (λ e. absurd (h (ground arith)))
flushed-velocity s v (called code) d =
    let call : Sent = record { id = 0x500 + s.rx.node; payload = framed move s.axes 3 } in
    let few = length-framed move s.axes 3 (omega (arith, v.six)) in
    let n4 : starts 4 (framed move s.axes 3) ≡ false = rw (framed_move s.axes 3) in
    let y3 : starts 3 (framed move s.axes 3) ≡ true = rw (framed_move s.axes 3) in
    if_ind Keeps (not (code == 0))
      (λ _. record {
        six = v.six;
        node_low = v.node_low;
        node_high = v.node_high;
        fits = ((omega (arith, v.node_high), few), v.fits);
        velocity = λ e. cc;
        current = λ e. rw n4 (v.current e);
      })
      (λ _. record {
        six = v.six;
        node_low = v.node_low;
        node_high = v.node_high;
        fits = ((omega (arith, v.node_high), few), v.fits);
        velocity = λ e. rw y3;
        current = λ e. rw n4 (v.current e);
      })

pub flush_velocity-Inv : (s : Session) → Inv s → Inv (flush_velocity s).0
unfolding flush_velocity
flush_velocity-Inv s v =
    if_ind Keeps s.velocity_dirty (flushed-velocity s v (emit-Emission s move 3 v.six)) (λ _. v)

-- A current frame that the transport takes makes the currents clean.
flushed-current :
    (s : Session) {r : Session × ℕ}
    → Inv s
    → Emission s 0x500 (framed move s.axes 4) r
    → s.current_dirty ≡ true
    → Inv (r then_if_ok (λ s1. (record s1 { current_dirty = false }, 0))).0
flushed-current s v (kept code h) d =
    if_ind Keeps (not (code == 0)) (λ _. v) (λ e. absurd (h (ground arith)))
flushed-current s v (called code) d =
    let few = length-framed move s.axes 4 (omega (arith, v.six)) in
    let n3 : starts 3 (framed move s.axes 4) ≡ false = rw (framed_move s.axes 4) in
    let y4 : starts 4 (framed move s.axes 4) ≡ true = rw (framed_move s.axes 4) in
    if_ind Keeps (not (code == 0))
      (λ _. record {
        six = v.six;
        node_low = v.node_low;
        node_high = v.node_high;
        fits = ((omega (arith, v.node_high), few), v.fits);
        velocity = λ e. rw n3 (v.velocity e);
        current = λ e. cc;
      })
      (λ _. record {
        six = v.six;
        node_low = v.node_low;
        node_high = v.node_high;
        fits = ((omega (arith, v.node_high), few), v.fits);
        velocity = λ e. rw n3 (v.velocity e);
        current = λ e. rw y4;
      })

pub flush_current-Inv : (s : Session) → Inv s → Inv (flush_current s).0
unfolding flush_current
flush_current-Inv s v =
    if_ind Keeps s.current_dirty (flushed-current s v (emit-Emission s move 4 v.six)) (λ _. v)

pub apply_motion_params-Inv : (s : Session) → Inv s → Inv (apply_motion_params s).0
unfolding apply_motion_params
apply_motion_params-Inv s v =
    if_ind Keeps (not s.rx.ready) (λ _. v)
      λ _.
        then-Inv (restore s then_if_ok flush_velocity) flush_current
          (then-Inv (restore s) flush_velocity (restore-Inv s v)
            (λ _. flush_velocity-Inv (restore s).0 (restore-Inv s v)))
          (λ _. flush_current-Inv _ (
            then-Inv (restore s) flush_velocity (restore-Inv s v)
              (λ _. flush_velocity-Inv (restore s).0 (restore-Inv s v))))

pub happen-node : (w : Waiting) (e : Event) → (happen w e).rx.node ≡ w.rx.node
unfolding happen
happen-node w (frame id bytes now) = set_canfd_data_decode-node w.rx id bytes now
happen-node w receive_failure = refl
happen-node w closes = refl
happen-node w cancels = refl

pub receive_all-node : (r : Receive) (es : List Event) → (receive_all r es).node ≡ r.node
unfolding receive_all
receive_all-node r [] = refl
receive_all-node r (e ∷ es) =
    let w : Waiting = record { rx = r; cancelled = false } in
    receive_all-node (happen w e).rx es ∙ happen-node w e

pub leave_mode-Inv : (s : Session) → Inv s → Inv (leave_mode s).0
unfolding leave_mode
leave_mode-Inv s v =
    if_ind Keeps (any (λ a. not (a.mode == 0)) s.axes) (λ _. control_axes-Inv s (pos 0) 0 0 v)
      (λ _. v)

pub revoke_stop-Inv : (s : Session) (revoke : Bool) → Inv s → Inv (revoke_stop s revoke).0
unfolding revoke_stop
revoke_stop-Inv s revoke v = if_ind Keeps revoke (λ _. control_axes-Inv s (pos 0) 0 8 v) (λ _. v)

pub finish_move-Inv : (s : Session) (homed : Bool) → Inv s → Inv (finish_move s homed).0
unfolding finish_move
finish_move-Inv s homed v =
    if_ind Keeps (not s.allow_no_home && not homed) (λ _. v)
      λ _.
        let w = apply_motion_params-Inv s v in
        then-Inv (apply_motion_params s) (λ s1. emit s1 move 2) w
          (λ _. move-Inv (apply_motion_params s).0 w)

pub move_motors-Inv :
    (s : Session) (id : ℤ) (arrived : List Event) → Inv s → Inv (move_motors s id arrived).0
unfolding move_motors
move_motors-Inv s id arrived v =
    if_ind Keeps (not (valid_axis id)) (λ _. v)
      λ _.
        if_ind Keeps (not s.rx.ready) (λ _. v)
          λ _.
            let w = leave_mode-Inv s v in
            then-Inv (leave_mode s)
              (λ s1.
                let s2 = record s1 { rx = receive_all s1.rx arrived } in
                let axes = take 6 s2.rx.feedback in
                revoke_stop s2 (any (λ a. running_status a == 6) axes) then_if_ok λ s3.
                finish_move s3 (homed_from id 0 axes))
              w
              (λ _.
                let s1 = (leave_mode s).0 in
                let s2 = record s1 { rx = receive_all s1.rx arrived } in
                let axes = take 6 s2.rx.feedback in
                let revoke = any (λ a. running_status a == 6) axes in
                let u =
                  revoke_stop-Inv s2 revoke (
                    receive-Inv s1 (receive_all s1.rx arrived) (receive_all-node s1.rx arrived)
                      w) in
                then-Inv (revoke_stop s2 revoke) (λ s3. finish_move s3 (homed_from id 0 axes)) u
                  (λ _. finish_move-Inv (revoke_stop s2 revoke).0 (homed_from id 0 axes) u))

wait_for-node :
    (done : Waiting → Bool) (w : Waiting) (es : List Event)
    → (wait_for done w es).0.rx.node ≡ w.rx.node
unfolding wait_for
wait_for-node done w [] = refl
wait_for-node done w (e ∷ es) =
    if_ind (λ (r : Waiting × Bool). r.0.rx.node ≡ w.rx.node) (done w) (λ _. refl)
      (λ _. wait_for-node done (happen w e) es ∙ happen-node w e)

request-Inv :
    (s : Session) (stops : Bool) (index sub : ℕ) (writes : Bool) (value : ℕ)
    → Inv s
    → Inv (request s stops index sub writes value).0
unfolding request
request-Inv s stops index sub writes value v =
    if_ind Keeps stops (λ _. v)
      (λ _. sdo-Inv s (index % 2 ^ 16) (sub % 2 ^ 8) (value % 2 ^ 16) writes v)

conclude-Inv :
    (r : Session × ℕ) (cancellable cancelled configuration : Bool) (events : List Event)
    → Inv r.0
    → Inv (conclude r cancellable cancelled configuration events).0
unfolding conclude answer end_sdo
conclude-Inv r cancellable cancelled configuration events v =
    let w : Waiting = record { rx = r.0.rx; cancelled = cancelled } in
    let q = wait_for (finished cancellable configuration) w events in
    if_ind (λ (x : Session × SdoResult). Inv x.0) (r.1 == 0)
      (λ _.
        receive-Inv r.0 (record (q.0.rx) { pending = false })
          (wait_for-node (finished cancellable configuration) w events) v)
      (λ _. receive-Inv r.0 (record (r.0.rx) { pending = false }) refl v)

pub transact_sdo-Inv :
    (s : Session) (index sub : ℕ) (writes : Bool) (value : ℕ)
    (cancellable cancelled configuration : Bool) (events : List Event)
    → Inv s
    → Inv (transact_sdo s index sub writes value cancellable cancelled configuration events).0
unfolding transact_sdo begin_sdo
transact_sdo-Inv s index sub writes value cancellable cancelled configuration events v =
    let s1 = record s { rx = begin_sdo s.rx index sub writes configuration } in
    conclude-Inv (request s1 (cancellable && cancelled) index sub writes value) cancellable
      cancelled configuration events
      (request-Inv s1 (cancellable && cancelled) index sub writes value
        (receive-Inv s (begin_sdo s.rx index sub writes configuration) refl v))
