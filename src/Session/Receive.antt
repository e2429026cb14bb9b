-- ===== src/Session/Receive.antt =====
-- The receive path of src/rphand/session.cpp: `set_canfd_data_decode`, `snapshot`, `track_home` and
-- the getters of feedback. Each runs under `receive_mutex_`, so it is one step.
pub mod Laws
use roboparty_dexhand.Base.{
  ℕ, zero, suc, ◌+◌, ◌-◌, ◌*◌, ◌/◌, ◌%◌, ◌^◌, ◌<◌, Bool, true, false, not, ◌&&◌, ◌||◌, Option, none,
  some, List, [], ◌∷◌, map, bit_and, ltb, leb, ◌==◌, if◌then◌else◌, length, get_or, take, replicate,
  ℤ, pos, negsuc, at_most, below_zero, eq_ℤ,
}
use roboparty_dexhand.Protocol.Encode.{Bytes}
use roboparty_dexhand.Protocol.Sdo.{SdoReply, decode_sdo_reply}
use roboparty_dexhand.Protocol.Feedback.{
  FeedbackAxis, no_feedback, running_status, ok, malformed, sensor_payload_not_handled,
  decode_motor_feedback,
}
use roboparty_dexhand.Session.State.{Receive, Snapshot, HandState, SdoResult, ms}

-- `status & mask` as a condition.
abbrev pub has_bits : ℕ → ℕ → Bool
has_bits status mask = not (bit_and status mask == 0)

abbrev pub is_stopped : FeedbackAxis → Bool
is_stopped a = has_bits a.status 4 && not (running_status a == 1) && not (running_status a == 7)

-- `if (track_home_ && running == 7) observed_home[i] = true`.
pub observe : Bool → List Bool → List FeedbackAxis → List Bool
observe track [] axes = []
observe track (o ∷ os) [] = o ∷ os
observe track (o ∷ os) (a ∷ axes) =
    (if track && running_status a == 7 then true else o) ∷ observe track os axes

unfoldable pub after_position_frame : ℕ → List FeedbackAxis → Snapshot → Snapshot
after_position_frame now axes s = record s {
  state = record s.state {
    positions = map (λ a. a.position) axes;
    velocities = map (λ a. a.position_velocity) axes;
    currents = map (λ a. a.current) axes;
  };
  last_positions = now;
  sequence_positions = (s.sequence_positions + 1) % 2 ^ 64;
}

unfoldable pub after_status_frame : ℕ → Bool → List FeedbackAxis → Snapshot → Snapshot
unfolding observe
after_status_frame now track axes s = record s {
  state = record s.state {
    enabled = map (λ a. has_bits a.status 1) axes;
    homed = map (λ a. has_bits a.status 0x10) axes;
    torque_reached = map (λ a. has_bits a.status 8) axes;
    fault_codes = map (λ a. a.alarm) axes;
  };
  stopped = map is_stopped axes;
  emergency_stopped = map (λ a. running_status a == 6) axes;
  observed_home = observe track s.observed_home axes;
  last_statuses = now;
  sequence_statuses = (s.sequence_statuses + 1) % 2 ^ 64;
}

-- The hand has six axes: `kinematics_{rphand}`.
abbrev pub active_axes : ℕ
active_axes = 6

unfoldable pub matches : Receive → SdoReply → Bool
matches r reply =
    r.pending && not r.answered && reply.index == r.pending_index && reply.subindex == r.pending_sub

unfoldable pub accepts : Receive → SdoReply → Bool
accepts r reply =
    reply.command == 0x80
    || (if r.pending_write
        then reply.command == 0x60
        else reply.command == 0x4b
          || reply.command == 0x43
          || (not r.pending_configuration && reply.command == 0x4f))

unfoldable pub take_reply : Receive → SdoReply → Receive × ℕ
unfolding matches accepts
take_reply r reply =
    if reply.command == 0x43
      && ltb 0xffff reply.value
      && not (matches r reply && r.pending_configuration)
    then (r, 3)
    else if matches r reply
    then if not (accepts r reply) then (r, 0) else (
      record r {
        sdo = record {
          code = if reply.command == 0x80 then 7 else 0;
          value = reply.value;
          received = true;
          aborted = reply.command == 0x80;
        };
        answered = true;
      },
      0,
    )
    else (r, 0)

-- Nothing past the end of the frame is read, so what stands there is taken as zero.
unfoldable pub take_feedback : Receive → Bytes → ℕ → Receive × ℕ
take_feedback r bytes now =
    let type = bit_and (get_or bytes 0 0) 0x7f in
    let (result, feedback) = decode_motor_feedback (λ _. 0) bytes active_axes r.feedback in
    elim result [
      | ok ↦ (
        record r {
          feedback = feedback;
          snapshot =
              if type == 0x50
              then after_position_frame now (take 6 feedback) r.snapshot
              else after_status_frame now r.track_home (take 6 feedback) r.snapshot;
        },
        0,
      )
      | malformed ↦ (record r { feedback = feedback }, 3)
      | sensor_payload_not_handled ↦ (record r { feedback = feedback }, 3)
    ]

-- The frame is its pointer with its size, `none` for a null pointer or a negative size; `now` is the
-- clock when it is decoded.
unfoldable pub set_canfd_data_decode : Receive → ℕ → Option Bytes → ℕ → Receive × ℕ
set_canfd_data_decode r id none now = (r, 1)
set_canfd_data_decode r id (some bytes) now =
    if ltb 64 (length bytes)
    then (r, 1)
    else if r.closed
    then (r, 2)
    else if id == 0x580 + r.node
    then elim (decode_sdo_reply (some bytes)) [ none ↦ (r, 3) | some reply ↦ take_reply r reply ]
    else if not (id == 0x480 + r.node) || ltb (length bytes) 2
    then (r, 3)
    else take_feedback r bytes now

-- What `snapshot` returns at time `now`.
pub snapshot : Receive → Bool → ℕ → Snapshot
snapshot r connected now = record s {
  state = record s.state {
    feedback_valid =
        connected
        && not r.closed
        && not r.rx_failed
        && not (s.sequence_positions == 0)
        && not (s.sequence_statuses == 0)
        && ltb (now - s.last_positions) (100 * ms)
        && ltb (now - s.last_statuses) (100 * ms);
  };
}
  where
    open r use {snapshot as s}

unfoldable pub track_home : Receive → Bool → Receive
track_home r enabled =
    let s =
      if enabled then record (r.snapshot) { observed_home = replicate 6 false } else r.snapshot in
    record r { snapshot = s; track_home = enabled }

-- The getters of feedback; the second part is what goes through `value`. `null` says that `value` is
-- a null pointer.
pub get_feedback {ℓ} : {A : Type ℓ} → Receive → ℤ → Bool → (FeedbackAxis → A) → ℕ × Option A
get_feedback r (negsuc i) null field = (1, none)
get_feedback r (pos zero) null field = (1, none)
get_feedback r (pos (suc i)) null field =
    if null || ltb 5 i
    then (1, none)
    else if r.closed
    then (2, none)
    else (0, some (field (get_or r.feedback i no_feedback)))
