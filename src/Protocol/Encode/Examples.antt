-- ===== src/Protocol/Encode/Examples.antt =====
-- The theorems on command frames at a hand with six axes.
use roboparty_dexhand.Base.{◌≡◌, map, some, replicate, ◌∷◌, arith, pos}
use roboparty_dexhand.Protocol.Encode.{
  Bytes, CommandState, default_axis, move, control, command_payload,
}
use roboparty_dexhand.Protocol.Encode.Layout.{all_fields}
use roboparty_dexhand.Protocol.Encode.Roundtrip.{
  read_words, read_controls, control_fields, command_payload_move, command_payload_control,
}

abbrev six_axes : CommandState
six_axes = record {
  axes = replicate 6 (record default_axis {
    mode = 5;
    position = pos 300;
    velocity = pos 20000;
    current = pos 400;
  });
}

command_payload_move_example :
    (body : Bytes) × (command_payload move six_axes 11 ≡ some (11 ∷ 6 ∷ body))
    × (read_words body ≡ all_fields 11 six_axes.axes)
command_payload_move_example =
    command_payload_move six_axes 11 (omega arith) (omega arith) (ground arith)

command_payload_control_example :
    (body : Bytes) × (command_payload control six_axes 2 ≡ some (1 ∷ 6 ∷ body))
    × (read_controls body ≡ map control_fields six_axes.axes)
command_payload_control_example = command_payload_control six_axes 2 (omega arith)
