-- ===== src/Protocol/Encode.antt =====
-- Command frames of src/rphand/protocol.cpp. A `Bytes` is a list of numbers below 256; the packing
-- functions take what is already in `out` and return it with their bytes behind.
pub mod Layout
pub mod Roundtrip
mod Examples
use roboparty_dexhand.Base.{
  ℕ, ◌*◌, ◌/◌, ◌%◌, ◌^◌, Bool, ◌||◌, Option, none, some, List, [], ◌∷◌, ◌++◌, bit_and, bit_or, ltb,
  ◌==◌, if◌then◌else◌, length, replicate, ℤ, pos, to_u32, quot_ℤ,
}

abbrev pub Bytes : Type 0
Bytes = List ℕ

-- `enum class Command`.
pub data Command : Type 0 where
  config control move : Command

-- `mode` to `control` are `uint8_t`, the others `int`.
pub record Axis : Type 0 where
  pub mode : ℕ
  pub home_mode : ℕ
  pub home_function : ℕ
  pub control : ℕ
  pub position : ℤ
  pub velocity : ℤ
  pub current : ℤ

pub record CommandState : Type 0 where
  pub axes : List Axis

-- The members' initialisers.
abbrev pub default_axis : Axis
default_axis = record {
  mode = 0;
  home_mode = 0;
  home_function = 0;
  control = 0;
  position = pos 0;
  velocity = pos 0;
  current = pos 0;
}

-- Low byte first.
unfoldable pub u16 : Bytes → ℤ → Bytes
u16 b v = b ++ (to_u32 v % 2 ^ 8) ∷ (to_u32 v / 2 ^ 8 % 2 ^ 8) ∷ []

-- The first byte of an axis in a control frame.
pub control_byte : Axis → ℕ
control_byte a =
    bit_or (bit_or (bit_and a.mode 7) (bit_and a.home_mode 3 * 2 ^ 3))
      (bit_and a.home_function 3 * 2 ^ 5)
    % 2 ^ 8

pub pack_control : Bytes → List Axis → Bytes
unfolding control_byte
pack_control out [] = out
pack_control out (a ∷ axes) = pack_control (out ++ control_byte a ∷ a.control ∷ []) axes

abbrev pub has_position : ℕ → Bool
has_position frame = frame == 2 || frame == 5 || frame == 7 || frame == 11

abbrev pub has_velocity : ℕ → Bool
has_velocity frame = frame == 3 || frame == 5 || frame == 9 || frame == 11

abbrev pub has_current : ℕ → Bool
has_current frame = frame == 4 || frame == 7 || frame == 9 || frame == 11

-- The body of the loop in `pack_move`.
pub pack_axis : Bytes → Axis → ℕ → Bytes
unfolding u16
pack_axis out a frame =
    let b1 = if has_position frame then u16 out a.position else out in
    let b2 = if has_velocity frame then u16 b1 (quot_ℤ a.velocity 10) else b1 in
    if has_current frame then u16 b2 a.current else b2

pub pack_move : Bytes → List Axis → ℕ → Bytes
unfolding pack_axis
pack_move out [] frame = out
pack_move out (a ∷ axes) frame = pack_move (pack_axis out a frame) axes frame

-- The bytes behind the frame type and the number of axes.
pub pack_body : Command → Bytes → List Axis → ℕ → Bytes
unfolding pack_control pack_move
pack_body config out axes frame = out
pack_body control out axes frame = pack_control out axes
pack_body move out axes frame = pack_move out axes frame

pub kind_of : Command → ℕ → ℕ
kind_of control frame = 1
kind_of config frame = frame
kind_of move frame = frame

unfoldable pub framed : Command → List Axis → ℕ → Bytes
unfolding pack_body kind_of
framed config axes frame = 0 ∷ 4 ∷ 0x50 ∷ 1 ∷ 0x5a ∷ 1 ∷ []
framed control axes frame =
    pack_body control ((kind_of control frame % 2 ^ 8) ∷ (length axes % 2 ^ 8) ∷ []) axes frame
framed move axes frame =
    pack_body move ((kind_of move frame % 2 ^ 8) ∷ (length axes % 2 ^ 8) ∷ []) axes frame

-- `none` is the exception for more than 30 axes.
unfoldable pub command_payload : Command → CommandState → ℕ → Option Bytes
unfolding framed
command_payload command s frame =
    if ltb 30 (length s.axes) then none else some (framed command s.axes frame)

-- `control` goes through a cast to `uint8_t`.
unfoldable pub stop_recovery_payload : ℤ → Option Bytes
unfolding command_payload
stop_recovery_payload command =
    command_payload control
      (record {
        axes =
            replicate 6
              (record default_axis { home_function = 1; control = to_u32 command % 2 ^ 8 });
      })
      2
