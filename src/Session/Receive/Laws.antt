-- ===== src/Session/Receive/Laws.antt =====
-- What a received frame changes in a session.
use roboparty_dexhand.Base.{
  ℕ, ◌≡◌, ◌≢◌, ◌⊎◌, refl, inl, inr, Bool, false, not, ◌||◌, Option, none, some, List, arith, ltb,
  ◌==◌, if◌then◌else◌, length, if_ind, ◌+◌, ◌%◌, ◌^◌, take, get_or, bit_and,
}
use roboparty_dexhand.Protocol.Encode.{Bytes}
use roboparty_dexhand.Protocol.Sdo.{SdoReply, decode_sdo_reply}
use roboparty_dexhand.Protocol.Feedback.{
  FeedbackAxis, DecodeResult, ok, malformed, sensor_payload_not_handled, decode_motor_feedback,
}
use roboparty_dexhand.Session.State.{Receive, Snapshot}
use roboparty_dexhand.Session.Receive.{
  set_canfd_data_decode, take_reply, take_feedback, active_axes, after_position_frame,
  after_status_frame,
}

-- A frame is refused, answers a request, or is taken as feedback.
pub set_canfd_data_decode_ind {ℓ} :
    (P : Receive × ℕ → Type ℓ) (r : Receive) (id : ℕ) (bytes : Option Bytes) (now : ℕ)
    → ((code : ℕ) → code ≢ 0 → P (r, code))
    → ((reply : SdoReply)
        → r.closed ≡ false
        → id ≡ 0x580 + r.node
        → decode_sdo_reply bytes ≡ some reply
        → P (take_reply r reply))
    → ((b : Bytes)
        → r.closed ≡ false
        → id ≡ 0x480 + r.node
        → bytes ≡ some b
        → P (take_feedback r b now))
    → P (set_canfd_data_decode r id bytes now)
unfolding set_canfd_data_decode
set_canfd_data_decode_ind P r id none now bad reply feedback = bad 1 (omega arith)
set_canfd_data_decode_ind P r id (some b) now bad reply feedback =
    if_ind P (ltb 64 (length b)) (λ _. bad 1 (omega arith))
      λ _.
        if_ind P r.closed (λ _. bad 2 (omega arith))
          λ open'.
            if_ind P (id == 0x580 + r.node)
              (λ e. replied open' (ground arith) (decode_sdo_reply (some b)) refl)
              (λ _.
                if_ind P (not (id == 0x480 + r.node) || ltb (length b) 2) (λ _. bad 3 (omega arith))
                  (λ e. feedback b open' (ground arith) refl))
  where
    replied :
        r.closed ≡ false
        → id ≡ 0x580 + r.node
        → (o : Option SdoReply) → decode_sdo_reply (some b) ≡ o
        → P (elim o [ none ↦ (r, 3) | some x ↦ take_reply r x ])
    replied c e none d = bad 3 (omega arith)
    replied c e (some x) d = reply x c e d

take_reply-node : (r : Receive) (reply : SdoReply) → (take_reply r reply).0.node ≡ r.node
unfolding take_reply
take_reply-node r reply = ground arith

take_feedback-node :
    (r : Receive) (bytes : Bytes) (now : ℕ) → (take_feedback r bytes now).0.node ≡ r.node
unfolding take_feedback
take_feedback-node r bytes now = ground arith

-- Decoding a frame does not change the node.
pub set_canfd_data_decode-node :
    (r : Receive) (id : ℕ) (bytes : Option Bytes) (now : ℕ)
    → (set_canfd_data_decode r id bytes now).0.node ≡ r.node
set_canfd_data_decode-node r id bytes now =
    set_canfd_data_decode_ind (λ q. q.0.node ≡ r.node) r id bytes now (λ _ _. refl)
      (λ reply _ _ _. take_reply-node r reply) (λ b _ _ _. take_feedback-node r b now)

-- Only the group of positions is new, and counted once.
pub record NewPositions (now : ℕ) (old s : Snapshot) : Type 0 where
  pub counted : s.sequence_positions ≡ (old.sequence_positions + 1) % 2 ^ 64
  pub stamped : s.last_positions ≡ now
  pub sequence : s.sequence_statuses ≡ old.sequence_statuses
  pub last : s.last_statuses ≡ old.last_statuses
  pub enabled : s.state.enabled ≡ old.state.enabled
  pub homed : s.state.homed ≡ old.state.homed
  pub torque_reached : s.state.torque_reached ≡ old.state.torque_reached
  pub fault_codes : s.state.fault_codes ≡ old.state.fault_codes
  pub stopped : s.stopped ≡ old.stopped
  pub observed_home : s.observed_home ≡ old.observed_home
  pub emergency_stopped : s.emergency_stopped ≡ old.emergency_stopped

-- Only the group of statuses is new, and counted once.
pub record NewStatuses (now : ℕ) (old s : Snapshot) : Type 0 where
  pub counted : s.sequence_statuses ≡ (old.sequence_statuses + 1) % 2 ^ 64
  pub stamped : s.last_statuses ≡ now
  pub sequence : s.sequence_positions ≡ old.sequence_positions
  pub last : s.last_positions ≡ old.last_positions
  pub positions : s.state.positions ≡ old.state.positions
  pub velocities : s.state.velocities ≡ old.state.velocities
  pub currents : s.state.currents ≡ old.state.currents

abbrev pub GroupStep : ℕ → Snapshot → Snapshot → Type 0
GroupStep now old s = (s ≡ old) ⊎ NewPositions now old s ⊎ NewStatuses now old s

pub take_reply-snapshot :
    (r : Receive) (reply : SdoReply) → (take_reply r reply).0.snapshot ≡ r.snapshot
unfolding take_reply
take_reply-snapshot r reply = ground arith

new_positions :
    (now : ℕ) (axes : List FeedbackAxis) (s : Snapshot)
    → NewPositions now s (after_position_frame now axes s)
unfolding after_position_frame
new_positions now axes s = record {
  counted = refl;
  stamped = refl;
  sequence = refl;
  last = refl;
  enabled = refl;
  homed = refl;
  torque_reached = refl;
  fault_codes = refl;
  stopped = refl;
  observed_home = refl;
  emergency_stopped = refl;
}

new_statuses :
    (now : ℕ) (track : Bool) (axes : List FeedbackAxis) (s : Snapshot)
    → NewStatuses now s (after_status_frame now track axes s)
unfolding after_status_frame
new_statuses now track axes s = record {
  counted = refl;
  stamped = refl;
  sequence = refl;
  last = refl;
  positions = refl;
  velocities = refl;
  currents = refl;
}

take_feedback-step :
    (r : Receive) (b : Bytes) (now : ℕ)
    → GroupStep now r.snapshot (take_feedback r b now).0.snapshot
unfolding take_feedback
take_feedback-step r b now = by (decode_motor_feedback (λ _. 0) b active_axes r.feedback).0
  where
    feedback : List FeedbackAxis
    feedback = (decode_motor_feedback (λ _. 0) b active_axes r.feedback).1

    P : Receive × ℕ → Type 0
    P q = GroupStep now r.snapshot q.0.snapshot

    by :
        (result : DecodeResult)
        → P (elim result [
          | ok ↦ (
            record r {
              feedback = feedback;
              snapshot =
                  if bit_and (get_or b 0 0) 0x7f == 0x50
                  then after_position_frame now (take 6 feedback) r.snapshot
                  else after_status_frame now r.track_home (take 6 feedback) r.snapshot;
            },
            0,
          )
          | malformed ↦ (record r { feedback = feedback }, 3)
          | sensor_payload_not_handled ↦ (record r { feedback = feedback }, 3)
        ])
    by ok =
        if_ind (GroupStep now r.snapshot) (bit_and (get_or b 0 0) 0x7f == 0x50)
          (λ _. inr (inl (new_positions now (take 6 feedback) r.snapshot)))
          (λ _. inr (inr (new_statuses now r.track_home (take 6 feedback) r.snapshot)))
    by malformed = inl refl
    by sensor_payload_not_handled = inl refl

-- A frame renews at most one of the two groups of the snapshot, which it counts and stamps with its
-- time; the other group stays as it was.
pub set_canfd_data_decode_groups :
    (r : Receive) (id : ℕ) (bytes : Option Bytes) (now : ℕ)
    → GroupStep now r.snapshot (set_canfd_data_decode r id bytes now).0.snapshot
set_canfd_data_decode_groups r id bytes now =
    set_canfd_data_decode_ind (λ q. GroupStep now r.snapshot q.0.snapshot) r id bytes now
      (λ _ _. inl refl) (λ reply _ _ _. inl (take_reply-snapshot r reply))
      (λ b _ _ _. take_feedback-step r b now)
