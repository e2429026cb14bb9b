-- ===== src/Session/Commands.antt =====
-- The command cache of src/rphand/session.cpp and the commands that send it. Each command holds
-- `command_mutex_`; only feedback changes meanwhile, and only `move_motors` reads it.
use roboparty_dexhand.Base.{
  ℕ, zero, suc, ◌+◌, ◌*◌, ◌%◌, ◌^◌, Bool, true, false, not, ◌&&◌, ◌||◌, Option, none, some, List,
  [], ◌∷◌, ltb, leb, ◌==◌, if◌then◌else◌, get_or, ℤ, pos, negsuc, at_most, eq_ℤ,
}
use roboparty_dexhand.Protocol.Encode.{Axis, control, default_axis}
use roboparty_dexhand.Protocol.Sdo.{write, sdo_payload}
use roboparty_dexhand.Session.State.{Session, no_feedbacks, no_snapshot, initial_axes}
use roboparty_dexhand.Session.Sending.{send, emit}
use roboparty_dexhand.Session.Transaction.{Event, read_sdo}

abbrev pub valid_axis : ℤ → Bool
valid_axis (pos n) = leb n 6
valid_axis (negsuc n) = false

-- `!id || i == id-1`.
abbrev pub selected : ℤ → ℕ → Bool
selected id i = eq_ℤ id (pos 0) || eq_ℤ id (pos (suc i))

-- The loop over the selected axes, from index i on.
unfoldable pub for_selected : ℤ → (Axis → Axis) → ℕ → List Axis → List Axis
for_selected id f i [] = []
for_selected id f i (a ∷ axes) = (if selected id i then f a else a) ∷ for_selected id f (suc i) axes

-- Does a selected axis hold another value?
unfoldable pub any_selected : ℤ → (Axis → Bool) → ℕ → List Axis → Bool
any_selected id p i [] = false
any_selected id p i (a ∷ axes) = (selected id i && p a) || any_selected id p (suc i) axes

unfoldable pub set_control : ℕ → ℕ → Axis → Axis
set_control mode command a = record a { mode = mode % 2 ^ 8; control = command % 2 ^ 8 }

unfoldable pub initial : Session → ℤ → ℤ → Session × ℕ
initial s mode (negsuc node) = (s, 1)
initial s mode (pos node) =
    if not (eq_ℤ mode (pos 1)) || ltb node 1 || ltb 127 node
    then (s, 1)
    else if not s.rx.closed
    then (s, 1)
    else (
      record s {
        rx = record (s.rx) {
          node = node;
          feedback = no_feedbacks;
          snapshot = no_snapshot;
          track_home = false;
          closed = false;
          ready = true;
        };
        axes = initial_axes;
        velocity_dirty = true;
        current_dirty = true;
        restore_pending = false;
        allow_no_home = false;
      },
      0,
    )

-- Here and below `null` says that a result pointer is null; the last part is what is written.
unfoldable pub get_hand_type : Session → Bool → ℕ × Option ℕ
get_hand_type s null = if null then (1, none) else if not s.rx.ready then (2, none) else (0, some 2)

unfoldable pub get_dof : Session → Bool → ℕ × Option (ℕ × ℕ)
get_dof s null = if null then (1, none) else if not s.rx.ready then (2, none) else (0, some (11, 6))

unfoldable pub set_move_no_home : Session → ℤ → Session × ℕ
set_move_no_home s enable =
    if not (eq_ℤ enable (pos 0)) && not (eq_ℤ enable (pos 1))
    then (s, 1)
    else (record s { allow_no_home = eq_ℤ enable (pos 1) }, 0)

unfoldable pub control_axes : Session → ℤ → ℕ → ℕ → Session × ℕ
control_axes s id mode command =
    if not (valid_axis id)
    then (s, 1)
    else emit (record s { axes = for_selected id (set_control mode command) 0 s.axes }) control 2

-- `control(id, mode, first)`, and after the interval `control(id, mode, second)`.
unfoldable pub control_twice : Session → ℤ → ℕ → ℕ → Session × ℕ
control_twice s id first second =
    let (s1, rc) = control_axes s id 0 first in
    if not (rc == 0) then (s1, rc) else control_axes s1 id 0 second

unfoldable pub set_enable : Session → ℤ → ℤ → Session × ℕ
unfolding control_twice
set_enable s id enable =
    if not s.rx.ready then (s, 2) else control_twice s id 0 (if at_most enable 0 then 2 else 1)

unfoldable pub set_clear_alarm : Session → ℤ → Session × ℕ
unfolding control_twice
set_clear_alarm s id = if not s.rx.ready then (s, 2) else control_twice s id 0 3

unfoldable pub set_control_mode : Session → ℤ → ℤ → Session × ℕ
set_control_mode s id mode =
    if not (valid_axis id) || not (eq_ℤ mode (pos 0))
    then (s, 1)
    else if not s.rx.ready
    then (s, 2)
    else emit (record s { axes = for_selected id (λ a. record a { mode = 0 }) 0 s.axes }) control 2

unfoldable pub stop_motors : Session → ℤ → Session × ℕ
stop_motors s id =
    if not s.rx.ready
    then (s, 2)
    else if not (valid_axis id)
    then (s, 1)
    else let (s1, rc) = control_axes s id 0 7 in
      let s2 = record s1 { velocity_dirty = true; current_dirty = true } in
      if not (rc == 0) then (s2, rc) else control_axes s2 id 0 8

-- `set_axis` writes a member of the selected axes; the flag it gets, if any, says whether a value
-- changed.
unfoldable pub set_position : ℤ → Axis → Axis
set_position v a = record a { position = v }

pub clamp_target : ℤ → ℤ
clamp_target (negsuc n) = pos 0
clamp_target (pos n) = if ltb 10000 n then pos 10000 else pos n

abbrev axis_guard : Session → ℤ → ℕ
axis_guard s id = if not (valid_axis id) then 1 else if not s.rx.ready then 2 else 0

unfoldable pub set_target_position : Session → ℤ → ℤ → Session × ℕ
unfolding clamp_target set_position
set_target_position s id v =
    let rc = axis_guard s id in
    if rc == 0
    then (record s { axes = for_selected id (set_position (clamp_target v)) 0 s.axes }, 0)
    else (s, rc)

unfoldable pub set_position_velocity : Session → ℤ → ℤ → Session × ℕ
set_position_velocity s id v =
    let rc = axis_guard s id in
    if rc == 0
    then (
      record s {
        axes = for_selected id (λ a. record a { velocity = v }) 0 s.axes;
        velocity_dirty =
            s.velocity_dirty || any_selected id (λ a. not (eq_ℤ a.velocity v)) 0 s.axes;
      },
      0,
    )
    else (s, rc)

unfoldable pub set_max_current : Session → ℤ → ℤ → Session × ℕ
set_max_current s id v =
    let rc = axis_guard s id in
    if rc == 0
    then (
      record s {
        axes = for_selected id (λ a. record a { current = v }) 0 s.axes;
        current_dirty = s.current_dirty || any_selected id (λ a. not (eq_ℤ a.current v)) 0 s.axes;
      },
      0,
    )
    else (s, rc)

unfoldable pub home_motors : Session → ℤ → Session × ℕ
home_motors s id =
    if not s.rx.ready
    then (s, 2)
    else let (s1, rc) = control_axes s id 5 0 in
      if not (rc == 0)
      then (s1, rc)
      else let s2 = (set_target_position s1 id (pos 0)).0 in
        let (s3, rc3) = control_axes s2 id 5 4 in
        if not (rc3 == 0) then (s3, rc3) else (
          record s3 {
            axes = for_selected id (λ a. record a { mode = 0; control = 0 }) 0 s3.axes;
            velocity_dirty = true;
            current_dirty = true;
            restore_pending = true;
          },
          0,
        )

unfoldable pub get_axis : Session → ℤ → Bool → (Axis → ℤ) → ℕ × Option ℤ
get_axis s (negsuc i) null field = (1, none)
get_axis s (pos zero) null field = (1, none)
get_axis s (pos (suc i)) null field =
    if null || ltb 5 i
    then (1, none)
    else if not s.rx.ready
    then (2, none)
    else (0, some (field (get_or s.axes i default_axis)))

-- The loop over the six axes, from axis i on; `rounds` are left.
unfoldable pub send_safe_current : Session → ℕ → ℕ → ℕ → Session × ℕ
send_safe_current s enable zero i = (s, 0)
send_safe_current s enable (suc rounds) i =
    let (s1, rc) = send s 0x600 (sdo_payload write (0x2017 + 0x40 * i) 1 enable) in
    let rest = send_safe_current s1 enable rounds (i + 1) in
    if not (rc == 0) then (s1, rc) else rest

unfoldable pub set_safe_current_enable : Session → ℤ → Session × ℕ
unfolding send_safe_current
set_safe_current_enable s enable =
    if not s.rx.ready
    then (s, 2)
    else if not (eq_ℤ enable (pos 0)) && not (eq_ℤ enable (pos 1))
    then (s, 1)
    else send_safe_current s (if eq_ℤ enable (pos 1) then 1 else 0) 6 0

unfoldable pub get_safe_current_enable : Session → Bool → List Event → Session × ℕ × Option ℕ
get_safe_current_enable s null events =
    if not s.rx.ready then (s, 2, none) else read_sdo s 0x2017 1 null events
