-- ===== src/Protocol/Feedback/Laws.antt =====
-- What `decode_motor_feedback` does to the state of the axes.
use roboparty_dexhand.Base.{
  ℕ, ◌≡◌, refl, ◌⊎◌, inl, inr, Bool, true, false, List, arith, length, ltb, Bool-cases, min, ◌||◌,
  not,
}
use roboparty_dexhand.Protocol.Encode.{Bytes}
use roboparty_dexhand.Protocol.Feedback.{
  FeedbackAxis, DecodeResult, ok, malformed, motors, statuses, byte_at, valid_feedback, decode_axes,
  settle, decode_with, decode_motor_feedback,
}
use roboparty_dexhand.Protocol.Feedback.Shape.{
  is_position_type, is_status_type, ValidPositions, ValidStatuses, valid_feedback_cases,
  find_config_position, find_config_status,
}

abbrev pub refuses : ℕ → ℕ → ℕ → Bool
refuses type slots len =
    ltb len 3
    || not (valid_feedback type slots len)
    || not (is_position_type type || is_status_type type)

-- The state behind a position or status frame.
abbrev pub after_positions : (ℕ → ℕ) → ℕ → List FeedbackAxis → List FeedbackAxis
after_positions byte active st =
    settle active
      (decode_axes byte (motors (byte 0) 8 0 6 true true) active (min (min (byte 1) active) 8) 0 st)

abbrev pub after_statuses : (ℕ → ℕ) → ℕ → List FeedbackAxis → List FeedbackAxis
after_statuses byte active st =
    settle active (decode_axes byte (statuses (byte 0)) active (min (min (byte 1) active) 30) 0 st)

with_positions :
    (beyond : ℕ → ℕ) (p : Bytes) (active : ℕ) (st : List FeedbackAxis)
    → ValidPositions (byte_at beyond p 0) (byte_at beyond p 1) (length p)
    → decode_with beyond p (motors (byte_at beyond p 0) 8 0 6 true true) active st
      ≡ (ok, after_positions (byte_at beyond p) active st)
unfolding decode_with
with_positions beyond p active st v = ground arith

with_statuses :
    (beyond : ℕ → ℕ) (p : Bytes) (active : ℕ) (st : List FeedbackAxis)
    → ValidStatuses (byte_at beyond p 0) (byte_at beyond p 1) (length p)
    → decode_with beyond p (statuses (byte_at beyond p 0)) active st
      ≡ (ok, after_statuses (byte_at beyond p) active st)
unfolding decode_with
with_statuses beyond p active st v = ground arith

-- A frame is refused, or holds positions or statuses and is decoded as such.
pub data Shape (byte : ℕ → ℕ) (len : ℕ) (active : ℕ) (st : List FeedbackAxis)
    : DecodeResult × List FeedbackAxis → Type 0 where
  refused : refuses (byte 0) (byte 1) len ≡ true → Shape byte len active st (malformed, st)
  positions :
      refuses (byte 0) (byte 1) len ≡ false
      → is_position_type (byte 0) ≡ true
      → ValidPositions (byte 0) (byte 1) len
      → Shape byte len active st (ok, after_positions byte active st)
  states :
      refuses (byte 0) (byte 1) len ≡ false
      → is_status_type (byte 0) ≡ true
      → ValidStatuses (byte 0) (byte 1) len
      → Shape byte len active st (ok, after_statuses byte active st)

pub decode-Shape :
    (beyond : ℕ → ℕ) (p : Bytes) (active : ℕ) (st : List FeedbackAxis)
    → Shape (byte_at beyond p) (length p) active st (decode_motor_feedback beyond p active st)
unfolding decode_motor_feedback
decode-Shape beyond p active st =
    let byte = byte_at beyond p in
    let t = byte 0 in
    let early = ltb (length p) 3 || not (valid_feedback t (byte 1) (length p)) in
    elim (Bool-cases early) [
      | inl e ↦ rw (e, decode_motor_feedback) (refused (ground arith))
      | inr e ↦ elim (valid_feedback_cases t (byte 1) (length p) (ground arith)) [
        | inl v ↦ elim (Bool-cases (is_position_type t)) [
          | inl k ↦
              rw
                (
                  e,
                  find_config_position t v.kind,
                  k,
                  with_positions beyond p active st v,
                  decode_motor_feedback,
                )
                (positions (ground arith) k v)
          | inr k ↦
              rw (e, find_config_position t v.kind, k, decode_motor_feedback)
                (refused (ground arith))
        ]
        | inr v ↦ elim (Bool-cases (is_status_type t)) [
          | inl k ↦
              rw
                (
                  e,
                  find_config_status t v.kind,
                  k,
                  with_statuses beyond p active st v,
                  decode_motor_feedback,
                )
                (states (ground arith) k v)
          | inr k ↦
              rw (e, find_config_status t v.kind, k, decode_motor_feedback) (refused (ground arith))
        ]
      ]
    ]

Shape-result :
    {byte : ℕ → ℕ} {len active : ℕ} {st : List FeedbackAxis} {r : DecodeResult × List FeedbackAxis}
    → Shape byte len active st r
    → ((r.0 ≡ ok) × (refuses (byte 0) (byte 1) len ≡ false))
      ⊎ ((r ≡ (malformed, st)) × (refuses (byte 0) (byte 1) len ≡ true))
Shape-result (refused e) = inr (refl, e)
Shape-result (positions e k v) = inl (refl, e)
Shape-result (states e k v) = inl (refl, e)

-- A frame is decoded exactly when it passes `valid_feedback` and is of one of the four types with
-- positions or statuses; any other is malformed and leaves the state as it was. Sensor payloads are
-- never reported.
pub decode_motor_feedback_cases :
    (beyond : ℕ → ℕ) (p : Bytes) (active : ℕ) (st : List FeedbackAxis)
    → let r = decode_motor_feedback beyond p active st in
      let bad = refuses (byte_at beyond p 0) (byte_at beyond p 1) (length p) in
      ((r.0 ≡ ok) × (bad ≡ false)) ⊎ ((r ≡ (malformed, st)) × (bad ≡ true))
decode_motor_feedback_cases beyond p active st = Shape-result (decode-Shape beyond p active st)
