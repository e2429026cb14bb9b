-- ===== src/Protocol/Feedback/Bounds.antt =====
-- `decode_motor_feedback` does not depend on memory past the end of the frame.
use roboparty_dexhand.Base.{
  ℕ, zero, suc, ◌+◌, ◌*◌, ◌≤◌, ◌<◌, ◌≡◌, refl, sym, ap, ◌∙◌, true, List, arith, length, get_or, min,
}
use roboparty_dexhand.Protocol.Encode.{Bytes}
use roboparty_dexhand.Protocol.Feedback.{
  FeedbackAxis, no_feedback, DecodeResult, ok, Config, motors, statuses, byte_at, decode_axis,
  decode_axes, settle, decode_motor_feedback,
}
use roboparty_dexhand.Protocol.Feedback.Shape.{ValidPositions, ValidStatuses}
use roboparty_dexhand.Protocol.Feedback.Laws.{
  Shape, refused, positions, states, refuses, decode-Shape, after_positions, after_statuses,
}
use roboparty_dexhand.Protocol.Feedback.Axes.{byte_at_within}

decode_axes-agree :
    (f g : ℕ → ℕ) (c : Config) (active bound : ℕ)
    → ((i : ℕ) (s : FeedbackAxis) → i < bound → decode_axis f c i s ≡ decode_axis g c i s)
    → (n i : ℕ) (st : List FeedbackAxis) → i + n ≤ bound
    → decode_axes f c active n i st ≡ decode_axes g c active n i st
unfolding decode_axes
decode_axes-agree f g c active bound same zero i st h = refl
decode_axes-agree f g c active bound same (suc n) i st h =
    rw (same i (get_or st (c.start + i) no_feedback) (omega arith))
      (decode_axes-agree f g c active bound same n (i + 1) _ (omega arith))

module _ (beyond beyond' : ℕ → ℕ) (p : Bytes) where
  same_byte : (i : ℕ) → i < length p → byte_at beyond p i ≡ byte_at beyond' p i
  same_byte i h = byte_at_within beyond p i h ∙ sym (byte_at_within beyond' p i h)

  same_refuses :
      3 ≤ length p
      → refuses (byte_at beyond p 0) (byte_at beyond p 1) (length p)
        ≡ refuses (byte_at beyond' p 0) (byte_at beyond' p 1) (length p)
  same_refuses h = rw (same_byte 0 (omega arith), same_byte 1 (omega arith))

  same_axis-positions :
      (t i : ℕ) (s : FeedbackAxis)
      → i < 8
      → 50 + i < length p
      → decode_axis (byte_at beyond p) (motors t 8 0 6 true true) i s
        ≡ decode_axis (byte_at beyond' p) (motors t 8 0 6 true true) i s
  unfolding decode_axis
  same_axis-positions t i s few room = ground (
    arith,
    same_byte (2 + i * 6) (omega arith),
    same_byte (2 + i * 6 + 1) (omega arith),
    same_byte (2 + i * 6 + 2) (omega arith),
    same_byte (2 + i * 6 + 2 + 1) (omega arith),
    same_byte (2 + i * 6 + 4) (omega arith),
    same_byte (2 + i * 6 + 4 + 1) (omega arith),
    same_byte (50 + i) (omega arith),
  )

  same_axis-statuses :
      (t i : ℕ) (s : FeedbackAxis)
      → 2 + i * 2 + 1 < length p
      → decode_axis (byte_at beyond p) (statuses t) i s
        ≡ decode_axis (byte_at beyond' p) (statuses t) i s
  unfolding decode_axis
  same_axis-statuses t i s room =
      ground (arith, same_byte (2 + i * 2) (omega arith), same_byte (2 + i * 2 + 1) room)

  module _ (active : ℕ) (st : List FeedbackAxis) where
    same_positions :
        ValidPositions (byte_at beyond p 0) (byte_at beyond p 1) (length p)
        → after_positions (byte_at beyond p) active st
          ≡ after_positions (byte_at beyond' p) active st
    same_positions v =
        rw (← same_byte 0 (omega arith), ← same_byte 1 (omega arith))
          (ap (settle active) (
            decode_axes-agree (byte_at beyond p) (byte_at beyond' p)
              (motors (byte_at beyond p 0) 8 0 6 true true) active
              (min (min (byte_at beyond p 1) active) 8)
              (λ i s h. same_axis-positions (byte_at beyond p 0) i s (omega arith) (omega arith))
              (min (min (byte_at beyond p 1) active) 8) 0 st (omega arith)))

    same_statuses :
        ValidStatuses (byte_at beyond p 0) (byte_at beyond p 1) (length p)
        → after_statuses (byte_at beyond p) active st ≡ after_statuses (byte_at beyond' p) active st
    same_statuses v =
        rw (← same_byte 0 (omega arith), ← same_byte 1 (omega arith))
          (ap (settle active) (
            decode_axes-agree (byte_at beyond p) (byte_at beyond' p) (statuses (byte_at beyond p 0))
              active (min (min (byte_at beyond p 1) active) 30)
              (λ i s h. same_axis-statuses (byte_at beyond p 0) i s (omega arith))
              (min (min (byte_at beyond p 1) active) 30) 0 st (omega arith)))

    Shape-agree :
        {r r' : DecodeResult × List FeedbackAxis}
        → Shape (byte_at beyond p) (length p) active st r
        → Shape (byte_at beyond' p) (length p) active st r'
        → r ≡ r'
    Shape-agree (refused e) (refused e') = refl
    Shape-agree (refused e) (positions e' k v) = cc (same_refuses (omega arith))
    Shape-agree (refused e) (states e' k v) = cc (same_refuses (omega arith))
    Shape-agree (positions e k v) (refused e') = cc (same_refuses (omega arith))
    Shape-agree (positions e k v) (positions e' k' v') = ap (λ r. (ok, r)) (same_positions v)
    Shape-agree (positions e k v) (states e' k' v') =
        absurd (omega (arith, same_byte 0 (omega arith), v.kind, v'.kind))
    Shape-agree (states e k v) (refused e') = cc (same_refuses (omega arith))
    Shape-agree (states e k v) (positions e' k' v') =
        absurd (omega (arith, same_byte 0 (omega arith), v.kind, v'.kind))
    Shape-agree (states e k v) (states e' k' v') = ap (λ r. (ok, r)) (same_statuses v)

-- Whatever stands in memory behind the frame, the result and the state are the same: no byte past
-- the end of the frame is used.
pub decode_motor_feedback_beyond :
    (beyond beyond' : ℕ → ℕ) (p : Bytes) (active : ℕ) (st : List FeedbackAxis)
    → decode_motor_feedback beyond p active st ≡ decode_motor_feedback beyond' p active st
decode_motor_feedback_beyond beyond beyond' p active st =
    Shape-agree beyond beyond' p active st (decode-Shape beyond p active st)
      (decode-Shape beyond' p active st)
