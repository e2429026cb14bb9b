-- ===== src/Protocol/Feedback/Axes.antt =====
-- The state of one axis behind a frame that `decode_motor_feedback` accepts.
use roboparty_dexhand.Base.{
  ℕ, zero, suc, ◌+◌, ◌*◌, ◌%◌, ◌^◌, ◌<◌, ◌≡◌, refl, true, List, [], ◌∷◌, All, arith, length, get_or,
  min, to_i16, to_u32, times_ℤ,
}
use roboparty_dexhand.Base.Bits.{and-mask, or-shifted}
use roboparty_dexhand.Protocol.Encode.{Bytes}
use roboparty_dexhand.Protocol.Feedback.{
  FeedbackAxis, no_feedback, DecodeResult, ok, motors, statuses, byte_at, decode_axis, decode_axes,
  read16, settle_position, decode_motor_feedback,
}
use roboparty_dexhand.Protocol.Feedback.Shape.{
  is_position_type, is_status_type, ValidPositions, ValidStatuses,
}
use roboparty_dexhand.Protocol.Feedback.Loops.{length-decode_axes, decode_axes_at, settle_at}
use roboparty_dexhand.Protocol.Feedback.Laws.{
  Shape, refused, positions, states, decode-Shape, after_positions, after_statuses,
}

abbrev pub IsBytes : Bytes → Type 0
IsBytes p = All (λ b. b < 256) p

pub get_or-lt : (p : Bytes) (i : ℕ) → IsBytes p → get_or p i 0 < 256
get_or-lt [] i h = omega arith
get_or-lt (b ∷ p) zero h = h.0
get_or-lt (b ∷ p) (suc i) h = get_or-lt p i h.1

pub byte_at_within :
    (beyond : ℕ → ℕ) (p : Bytes) (i : ℕ) → i < length p → byte_at beyond p i ≡ get_or p i 0
unfolding byte_at
byte_at_within beyond p i h = ground arith

-- An unsigned word of the frame.
abbrev pub word : Bytes → ℕ → ℕ
word p i = get_or p i 0 + 256 * get_or p (i + 1) 0

-- Axis i in a position frame: six bytes from 2 + 6 i on, and a status byte behind eight such slots.
-- The velocity is sent in tens and wraps at 16 bits.
abbrev pub position_slot : Bytes → ℕ → FeedbackAxis → FeedbackAxis
position_slot p i old = record {
  raw_position = word p (2 + i * 6);
  position = settle_position (word p (2 + i * 6));
  position_velocity = to_i16 (to_u32 (times_ℤ (to_i16 (word p (2 + i * 6 + 2))) 10) % 2 ^ 16);
  current = to_i16 (word p (2 + i * 6 + 4));
  status = get_or p (50 + i) 0;
  alarm = old.alarm;
  seen = true;
}

-- Axis i in a status frame: a status byte and an alarm in the low half of the next.
abbrev pub status_slot : Bytes → ℕ → FeedbackAxis → FeedbackAxis
status_slot p i old = record old {
  position = settle_position old.raw_position;
  status = get_or p (2 + i * 2) 0;
  alarm = get_or p (2 + i * 2 + 1) 0 % 16;
  seen = true;
}

module _ (beyond : ℕ → ℕ) (p : Bytes) (bytes : IsBytes p) where
  read16-word : (i : ℕ) → i + 1 < length p → read16 (byte_at beyond p) i ≡ word p i
  unfolding read16
  read16-word i h = ground (
    arith,
    byte_at_within beyond p i (omega arith),
    byte_at_within beyond p (i + 1) (omega arith),
    or-shifted 8 (get_or p i 0) (get_or p (i + 1) 0) (get_or-lt p i bytes),
  )

  decode_axis-positions :
      (t i : ℕ) (old : FeedbackAxis)
      → i < 8
      → 50 + i < length p
      → let s = decode_axis (byte_at beyond p) (motors t 8 0 6 true true) i old in
        record s { position = settle_position s.raw_position } ≡ position_slot p i old
  unfolding decode_axis
  decode_axis-positions t i old few room = ground (
    arith,
    read16-word (2 + i * 6) (omega arith),
    read16-word (2 + i * 6 + 2) (omega arith),
    read16-word (2 + i * 6 + 4) (omega arith),
    byte_at_within beyond p (50 + i) (omega arith),
    and-mask 16 (to_u32 (times_ℤ (to_i16 (word p (2 + i * 6 + 2))) 10)),
  )

  decode_axis-statuses :
      (t i : ℕ) (old : FeedbackAxis)
      → 2 + i * 2 + 1 < length p
      → let s = decode_axis (byte_at beyond p) (statuses t) i old in
        record s { position = settle_position s.raw_position } ≡ status_slot p i old
  unfolding decode_axis
  decode_axis-statuses t i old room = ground (
    arith,
    byte_at_within beyond p (2 + i * 2) (omega arith),
    byte_at_within beyond p (2 + i * 2 + 1) room,
    and-mask 4 (get_or p (2 + i * 2 + 1) 0),
  )

  after_positions_at :
      (active i : ℕ) (st : List FeedbackAxis)
      → ValidPositions (byte_at beyond p 0) (byte_at beyond p 1) (length p)
      → i < byte_at beyond p 1
      → i < active
      → i < length st
      → get_or (after_positions (byte_at beyond p) active st) i no_feedback
        ≡ position_slot p i (get_or st i no_feedback)
  after_positions_at active i st v slots act len =
      let byte = byte_at beyond p in
      let c = motors (byte 0) 8 0 6 true true in
      let n = min (min (byte 1) active) 8 in
      let st' = decode_axes byte c active n 0 st in
      rw
        (
          settle_at active i st' act (omega (arith, length-decode_axes byte c active n 0 st)),
          decode_axes_at byte c active refl n 0 i st (omega arith) (omega arith) act len,
        )
        (decode_axis-positions (byte 0) i (get_or st i no_feedback) (omega arith) (omega arith))

  after_statuses_at :
      (active i : ℕ) (st : List FeedbackAxis)
      → ValidStatuses (byte_at beyond p 0) (byte_at beyond p 1) (length p)
      → i < byte_at beyond p 1
      → i < 30
      → i < active
      → i < length st
      → get_or (after_statuses (byte_at beyond p) active st) i no_feedback
        ≡ status_slot p i (get_or st i no_feedback)
  after_statuses_at active i st v slots few act len =
      let byte = byte_at beyond p in
      let c = statuses (byte 0) in
      let n = min (min (byte 1) active) 30 in
      let st' = decode_axes byte c active n 0 st in
      rw
        (
          settle_at active i st' act (omega (arith, length-decode_axes byte c active n 0 st)),
          decode_axes_at byte c active refl n 0 i st (omega arith) (omega arith) act len,
        )
        (decode_axis-statuses (byte 0) i (get_or st i no_feedback) (omega arith))

  -- An accepted position frame sets every axis that it has a slot for to what its bytes say.
  pub decode_motor_feedback_positions :
      (active i : ℕ) (st : List FeedbackAxis)
      → (decode_motor_feedback beyond p active st).0 ≡ ok
      → is_position_type (byte_at beyond p 0) ≡ true
      → i < byte_at beyond p 1
      → i < active
      → i < length st
      → get_or (decode_motor_feedback beyond p active st).1 i no_feedback
        ≡ position_slot p i (get_or st i no_feedback)
  decode_motor_feedback_positions active i st e k slots act len =
      go (decode-Shape beyond p active st) e
    where
      go :
          {r : DecodeResult × List FeedbackAxis}
          → Shape (byte_at beyond p) (length p) active st r
          → r.0 ≡ ok
          → get_or r.1 i no_feedback ≡ position_slot p i (get_or st i no_feedback)
      go (refused _) e = cc
      go (positions _ _ v) e = after_positions_at active i st v slots act len
      go (states _ k' v) e = absurd (ground arith)

  -- An accepted status frame sets the status byte and the alarm of every axis that it has a slot for,
  -- and leaves what a position frame reports of motion.
  pub decode_motor_feedback_statuses :
      (active i : ℕ) (st : List FeedbackAxis)
      → (decode_motor_feedback beyond p active st).0 ≡ ok
      → is_status_type (byte_at beyond p 0) ≡ true
      → i < byte_at beyond p 1
      → i < 30
      → i < active
      → i < length st
      → get_or (decode_motor_feedback beyond p active st).1 i no_feedback
        ≡ status_slot p i (get_or st i no_feedback)
  decode_motor_feedback_statuses active i st e k slots few act len =
      go (decode-Shape beyond p active st) e
    where
      go :
          {r : DecodeResult × List FeedbackAxis}
          → Shape (byte_at beyond p) (length p) active st r
          → r.0 ≡ ok
          → get_or r.1 i no_feedback ≡ status_slot p i (get_or st i no_feedback)
      go (refused _) e = cc
      go (positions _ k' v) e = absurd (ground arith)
      go (states _ _ v) e = after_statuses_at active i st v slots few act len
