-- ===== src/Protocol/Feedback/Examples.antt =====
-- The theorems on feedback at frames of a hand with six axes.
use roboparty_dexhand.Base.{◌≡◌, ◌⊎◌, refl, true, false, List, ◌∷◌, replicate, get_or, arith}
use roboparty_dexhand.Protocol.Encode.{Bytes}
use roboparty_dexhand.Protocol.Feedback.{
  FeedbackAxis, no_feedback, decode_motor_feedback, ok, malformed, byte_at,
}
use roboparty_dexhand.Protocol.Feedback.Laws.{refuses, decode_motor_feedback_cases}
use roboparty_dexhand.Protocol.Feedback.Axes.{position_slot, decode_motor_feedback_positions}
use roboparty_dexhand.Protocol.Feedback.Bounds.{decode_motor_feedback_beyond}

-- Six slots of positions in a frame of 56 bytes.
abbrev position_frame : Bytes
position_frame = 0x50 ∷ 6 ∷ 0x10 ∷ 0x27 ∷ 5 ∷ 0 ∷ 200 ∷ 0 ∷ replicate 48 7

-- Six slots of statuses.
abbrev status_frame : Bytes
status_frame = 0x5a ∷ 6 ∷ 0x15 ∷ 0 ∷ 0x35 ∷ 0x12 ∷ replicate 8 0

abbrev thirty : List FeedbackAxis
thirty = replicate 30 no_feedback

decode_motor_feedback_cases_example :
    let r = decode_motor_feedback (λ _. 0) status_frame 6 thirty in
    ((r.0 ≡ ok) × (refuses 0x5a 6 14 ≡ false))
    ⊎ ((r ≡ (malformed, thirty)) × (refuses 0x5a 6 14 ≡ true))
unfolding byte_at
decode_motor_feedback_cases_example = decode_motor_feedback_cases (λ _. 0) status_frame 6 thirty

positions-ok : (decode_motor_feedback (λ _. 0) position_frame 6 thirty).0 ≡ ok
unfolding decode_motor_feedback
positions-ok = refl

statuses-ok : (decode_motor_feedback (λ _. 0) status_frame 6 thirty).0 ≡ ok
unfolding decode_motor_feedback
statuses-ok = refl

decode_motor_feedback_positions_example :
    get_or (decode_motor_feedback (λ _. 0) position_frame 6 thirty).1 0 no_feedback
    ≡ position_slot position_frame 0 no_feedback
unfolding byte_at
decode_motor_feedback_positions_example =
    decode_motor_feedback_positions (λ _. 0) position_frame (ground arith) 6 0 thirty positions-ok
      refl (omega arith) (omega arith) (omega arith)

decode_motor_feedback_beyond_example :
    decode_motor_feedback (λ _. 0) status_frame 6 thirty
    ≡ decode_motor_feedback (λ i. i) status_frame 6 thirty
decode_motor_feedback_beyond_example =
    decode_motor_feedback_beyond (λ _. 0) (λ i. i) status_frame 6 thirty
