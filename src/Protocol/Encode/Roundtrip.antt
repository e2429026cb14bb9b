-- ===== src/Protocol/Encode/Roundtrip.antt =====
-- What a receiver that knows the layout reads from the command frames of src/rphand/protocol.cpp.
use roboparty_dexhand.Base.{
  ℕ, ◌+◌, ◌*◌, ◌/◌, ◌%◌, ◌^◌, ◌≤◌, ◌<◌, ◌≡◌, refl, ap, ◌∙◌, some, none, List, [], ◌∷◌, ◌++◌, map,
  arith, length, All, ℤ, to_i16, FitsI16, quot_ℤ, to_i16-to_u32,
}
use roboparty_dexhand.Base.Bits.{and-mask, or-shifted}
use roboparty_dexhand.Protocol.Encode.{
  Bytes, Command, control, move, Axis, CommandState, u16, control_byte, command_payload, framed,
}
use roboparty_dexhand.Protocol.Encode.Layout.{
  words, all_fields, frame_fields, control_bytes, pack_move-words, pack_control-bytes,
  command_payload-framed, length-framed,
}

-- Signed 16-bit words, low byte first.
pub read_words : Bytes → List ℤ
read_words [] = []
read_words (lo ∷ []) = []
read_words (lo ∷ hi ∷ rest) = to_i16 (lo + 256 * hi) ∷ read_words rest

read_words-words : (vs : List ℤ) → All FitsI16 vs → read_words (words vs) ≡ vs
unfolding read_words u16
read_words-words [] h = refl
read_words-words (v ∷ vs) h =
    rw (read_words-words vs h.1)
      (ap (λ (x : ℤ). x ∷ vs) (ap to_i16 (omega arith) ∙ to_i16-to_u32 v h.0))

-- The values of an axis fit into 16 bits; velocities are sent in tens.
abbrev pub FitsFrame : Axis → Type 0
FitsFrame a = FitsI16 a.position × FitsI16 (quot_ℤ a.velocity 10) × FitsI16 a.current

All-frame_fields : (frame : ℕ) (a : Axis) → FitsFrame a → All FitsI16 (frame_fields frame a)
unfolding frame_fields
All-frame_fields frame a h = ground arith

All-append : (xs ys : List ℤ) → All FitsI16 xs → All FitsI16 ys → All FitsI16 (xs ++ ys)
All-append [] ys h k = k
All-append (x ∷ xs) ys h k = (h.0, All-append xs ys h.1 k)

All-all_fields :
    (frame : ℕ) (axes : List Axis) → All FitsFrame axes → All FitsI16 (all_fields frame axes)
unfolding all_fields
All-all_fields frame [] h = tt
All-all_fields frame (a ∷ axes) h =
    All-append (frame_fields frame a) (all_fields frame axes) (All-frame_fields frame a h.0)
      (All-all_fields frame axes h.1)

-- A move frame for at most 30 axes, whose values fit into 16 bits, starts with its type and the
-- number of axes, and its body reads back as the values that this type of frame holds, axis by
-- axis.
pub command_payload_move :
    (s : CommandState) (frame : ℕ)
    → frame < 256
    → length s.axes ≤ 30
    → All FitsFrame s.axes
    → (body : Bytes) × (command_payload move s frame ≡ some (frame ∷ length s.axes ∷ body))
      × (read_words body ≡ all_fields frame s.axes)
unfolding command_payload
command_payload_move s frame small few fits = (
  words (all_fields frame s.axes),
  ground (arith, pack_move-words ((frame % 2 ^ 8) ∷ (length s.axes % 2 ^ 8) ∷ []) s.axes frame),
  read_words-words (all_fields frame s.axes) (All-all_fields frame s.axes fits),
)

-- The fields of an axis that a control frame holds.
pub record ControlFields : Type 0 where
  pub mode : ℕ
  pub home_mode : ℕ
  pub home_function : ℕ
  pub control : ℕ

abbrev pub control_fields : Axis → ControlFields
control_fields a = record {
  mode = a.mode % 8;
  home_mode = a.home_mode % 4;
  home_function = a.home_function % 4;
  control = a.control;
}

pub read_controls : Bytes → List ControlFields
read_controls [] = []
read_controls (b ∷ []) = []
read_controls (b ∷ c ∷ rest) =
    record { mode = b % 8; home_mode = b / 8 % 4; home_function = b / 32 % 4; control = c }
    ∷ read_controls rest

pub control_byte_lem :
    (a : Axis) → control_byte a ≡ a.mode % 8 + a.home_mode % 4 * 8 + a.home_function % 4 * 32
unfolding control_byte
control_byte_lem a = ground (
  arith,
  and-mask 3 a.mode,
  and-mask 2 a.home_mode,
  and-mask 2 a.home_function,
  or-shifted 3 (a.mode % 8) (a.home_mode % 4) (omega arith),
  or-shifted 5 (a.mode % 8 + a.home_mode % 4 * 8) (a.home_function % 4) (omega arith),
)

read_controls-bytes :
    (axes : List Axis) → read_controls (control_bytes axes) ≡ map control_fields axes
unfolding read_controls
read_controls-bytes [] = refl
read_controls-bytes (a ∷ axes) = ground (arith, control_byte_lem a, read_controls-bytes axes)

-- A control frame for at most 30 axes has type 1 and the number of axes in front, and its body reads
-- back as the low bits of the mode fields and the control value of each axis.
pub command_payload_control :
    (s : CommandState) (frame : ℕ)
    → length s.axes ≤ 30
    → (body : Bytes) × (command_payload control s frame ≡ some (1 ∷ length s.axes ∷ body))
      × (read_controls body ≡ map control_fields s.axes)
unfolding command_payload
command_payload_control s frame few = (
  control_bytes s.axes,
  ground (arith, pack_control-bytes (1 ∷ (length s.axes % 2 ^ 8) ∷ []) s.axes),
  read_controls-bytes s.axes,
)

-- With at most ten axes every command has a payload, and it fits into a CAN FD frame.
pub command_payload-fits :
    (c : Command) (s : CommandState) (frame : ℕ)
    → length s.axes ≤ 10
    → (b : Bytes) × (command_payload c s frame ≡ some b) × (length b ≤ 64)
command_payload-fits c s frame few = (
  framed c s.axes frame,
  command_payload-framed c s frame (omega arith),
  length-framed c s.axes frame few,
)

-- Beyond 30 axes the encoder refuses, whatever the command.
pub command_payload-none :
    (c : Command) (s : CommandState) (frame : ℕ)
    → 30 < length s.axes
    → command_payload c s frame ≡ none
unfolding command_payload
command_payload-none c s frame many = ground arith
