-- ===== src/Session/Waits/Laws.antt =====
-- What a successful wait for feedback has seen.
use roboparty_dexhand.Base.{
  Exists, ℕ, ◌+◌, ◌<◌, ◌≡◌, ◌⊎◌, inl, inr, refl, ap, ◌∙◌, subst, Bool, true, false, not, ◌&&◌, ◌||◌,
  some, List, [], ◌∷◌, bit_and, ◌==◌, if◌then◌else◌, if_ind, get_or, take, arith,
}
use roboparty_dexhand.Protocol.Encode.{Bytes}
use roboparty_dexhand.Protocol.Feedback.{
  FeedbackAxis, DecodeResult, ok, malformed, sensor_payload_not_handled, decode_motor_feedback,
}
use roboparty_dexhand.Session.State.{Receive, Snapshot}
use roboparty_dexhand.Session.Receive.{
  take_feedback, active_axes, after_position_frame, after_status_frame,
}
use roboparty_dexhand.Session.Receive.Laws.{
  set_canfd_data_decode_ind, set_canfd_data_decode-node, take_reply-snapshot,
}
use roboparty_dexhand.Session.Transaction.{
  Event, frame, receive_failure, closes, cancels, Waiting, happen, wait_for,
}
use roboparty_dexhand.Session.Waits.{complete, wait_for_feedback}

-- The type of a feedback frame that holds positions.
abbrev pub holds_positions : Bytes → Bool
holds_positions b = bit_and (get_or b 0 0) 0x7f == 0x50

-- The event brings a feedback frame of the node that is decoded, of the group of the positions, or of
-- the statuses.
pub data Brings (node : ℕ) (positions : Bool) : Event → Type 0 where
  brings :
      (b : Bytes) (now : ℕ) (axes : List FeedbackAxis)
      → (decode_motor_feedback (λ _. 0) b active_axes axes).0 ≡ ok
      → holds_positions b ≡ positions
      → Brings node positions (frame (0x480 + node) (some b) now)

-- The number of a group.
abbrev sequence : Bool → Snapshot → ℕ
sequence true s = s.sequence_positions
sequence false s = s.sequence_statuses

-- The number of the group is as before, or the event brought a frame of the group.
abbrev Renewed : Bool → Receive → Event → Receive → Type 0
Renewed group r e q =
    (sequence group q.snapshot ≡ sequence group r.snapshot) ⊎ Brings r.node group e

feedback_frame :
    (group : Bool) (node now : ℕ) (track : Bool) (b : Bytes) (before axes : List FeedbackAxis)
    (s : Snapshot)
    → (decode_motor_feedback (λ _. 0) b active_axes before).0 ≡ ok
    → let t =
        if holds_positions b
        then after_position_frame now axes s
        else after_status_frame now track axes s in
      (sequence group t ≡ sequence group s) ⊎ Brings node group (frame (0x480 + node) (some b) now)
unfolding after_position_frame after_status_frame
feedback_frame true node now track b before axes s decoded =
    if_ind
      (λ (t : Snapshot).
        (t.sequence_positions ≡ s.sequence_positions)
        ⊎ Brings node true (frame (0x480 + node) (some b) now))
      (holds_positions b) (λ h. inr (brings b now before decoded h)) (λ _. inl refl)
feedback_frame false node now track b before axes s decoded =
    if_ind
      (λ (t : Snapshot).
        (t.sequence_statuses ≡ s.sequence_statuses)
        ⊎ Brings node false (frame (0x480 + node) (some b) now))
      (holds_positions b) (λ _. inl refl) (λ h. inr (brings b now before decoded h))

module _ (group : Bool) where
  take_feedback-Renewed :
      (r : Receive) (b : Bytes) (now : ℕ)
      → Renewed group r (frame (0x480 + r.node) (some b) now) (take_feedback r b now).0
  unfolding take_feedback
  take_feedback-Renewed r b now =
      by (decode_motor_feedback (λ _. 0) b active_axes r.feedback).0 refl
    where
      after : List FeedbackAxis
      after = (decode_motor_feedback (λ _. 0) b active_axes r.feedback).1

      by :
          (result : DecodeResult)
          → (decode_motor_feedback (λ _. 0) b active_axes r.feedback).0 ≡ result
          → (λ (q : Receive × ℕ). Renewed group r (frame (0x480 + r.node) (some b) now) q.0)
              (elim result [
                | ok ↦ (
                  record r {
                    feedback = after;
                    snapshot =
                        if bit_and (get_or b 0 0) 0x7f == 0x50
                        then after_position_frame now (take 6 after) r.snapshot
                        else after_status_frame now r.track_home (take 6 after) r.snapshot;
                  },
                  0,
                )
                | malformed ↦ (record r { feedback = after }, 3)
                | sensor_payload_not_handled ↦ (record r { feedback = after }, 3)
              ])
      by ok decoded =
          feedback_frame group r.node now r.track_home b r.feedback (take 6 after) r.snapshot
            decoded
      by malformed decoded = inl refl
      by sensor_payload_not_handled decoded = inl refl

  happen-Renewed : (w : Waiting) (e : Event) → Renewed group w.rx e (happen w e).rx
  unfolding happen
  happen-Renewed w (frame id bytes now) =
      set_canfd_data_decode_ind (λ q. Renewed group w.rx (frame id bytes now) q.0) w.rx id bytes now
        (λ _ _. inl refl)
        (λ reply _ _ _. inl (ap (sequence group) (take_reply-snapshot w.rx reply)))
        (λ b _ e d. rw (e, d) (take_feedback-Renewed w.rx b now))
  happen-Renewed w receive_failure = inl refl
  happen-Renewed w closes = inl refl
  happen-Renewed w cancels = inl refl

  happen-node : (w : Waiting) (e : Event) → (happen w e).rx.node ≡ w.rx.node
  unfolding happen
  happen-node w (frame id bytes now) = set_canfd_data_decode-node w.rx id bytes now
  happen-node w receive_failure = refl
  happen-node w closes = refl
  happen-node w cancels = refl

  -- After a wait the number of the group is as before, or a frame of the group came.
  wait_for-Renewed :
      (done : Waiting → Bool) (w : Waiting) (es : List Event)
      → (sequence group (wait_for done w es).0.rx.snapshot ≡ sequence group w.rx.snapshot)
        ⊎ Exists (Brings w.rx.node group) es
  unfolding wait_for
  wait_for-Renewed done w [] = inl refl
  wait_for-Renewed done w (e ∷ es) =
      if_ind
        (λ (v : Waiting × Bool).
          (sequence group v.0.rx.snapshot ≡ sequence group w.rx.snapshot)
          ⊎ Exists (Brings w.rx.node group) (e ∷ es))
        (done w) (λ _. inl refl)
        (λ _. joined (happen-Renewed w e) (wait_for-Renewed done (happen w e) es))
    where
      joined :
          Renewed group w.rx e (happen w e).rx
          → (sequence group (wait_for done (happen w e) es).0.rx.snapshot
              ≡ sequence group (happen w e).rx.snapshot)
            ⊎ Exists (Brings (happen w e).rx.node group) es
          → (sequence group (wait_for done (happen w e) es).0.rx.snapshot
              ≡ sequence group w.rx.snapshot)
            ⊎ Exists (Brings w.rx.node group) (e ∷ es)
      joined (inl a) (inl b) = inl (b ∙ a)
      joined (inr a) b = inr (inl a)
      joined (inl a) (inr b) =
          inr (inr (subst (λ n. Exists (Brings n group) es) (happen-node w e) b))

-- A number that grew has been renewed.
grown : (P : Type 0) (old new n : ℕ) → (new ≡ old) ⊎ P → n ≡ old → n < new → P
grown P old new n (inl same) start more = absurd (omega arith)
grown P old new n (inr p) start more = p

-- A wait for feedback that succeeds.
pub record Fresh (w v : Waiting) (events : List Event) : Type 0 where
  pub positions : Exists (Brings w.rx.node true) events
  pub statuses : Exists (Brings w.rx.node false) events
  pub open_now : v.rx.closed ≡ false
  pub working : v.rx.rx_failed ≡ false
  pub wanted : v.cancelled ≡ false

finished_facts :
    (p s : ℕ) (v : Waiting)
    → (complete p s v && not v.rx.closed && not v.rx.rx_failed && not v.cancelled) ≡ true
    → (p < v.rx.snapshot.sequence_positions)
      × (s < v.rx.snapshot.sequence_statuses)
      × (v.rx.closed ≡ false)
      × (v.rx.rx_failed ≡ false)
      × (v.cancelled ≡ false)
unfolding complete
finished_facts p s v e = ground arith

-- When `wait_for_feedback` returns true for the numbers that the snapshot had at the start, a frame
-- of each group has come from the node and was decoded while it waited, and in the end the session is
-- neither closed nor failed and the wait not cancelled.
pub wait_for_feedback-Fresh :
    (w : Waiting) (events : List Event)
    → let r =
        wait_for_feedback w.rx.snapshot.sequence_positions w.rx.snapshot.sequence_statuses w
          events in
      r.1 ≡ true → Fresh w r.0 events
unfolding wait_for_feedback
wait_for_feedback-Fresh w events e =
    let p = w.rx.snapshot.sequence_positions in
    let s = w.rx.snapshot.sequence_statuses in
    let done = λ (u : Waiting). complete p s u || u.rx.closed || u.rx.rx_failed || u.cancelled in
    let v = (wait_for done w events).0 in
    let (more_p, more_s, open_now, working, wanted) = finished_facts p s v e in
    record {
      positions =
          grown (Exists (Brings w.rx.node true) events) p v.rx.snapshot.sequence_positions p
            (wait_for-Renewed true done w events) refl more_p;
      statuses =
          grown (Exists (Brings w.rx.node false) events) s v.rx.snapshot.sequence_statuses s
            (wait_for-Renewed false done w events) refl more_s;
      open_now = open_now;
      working = working;
      wanted = wanted;
    }
