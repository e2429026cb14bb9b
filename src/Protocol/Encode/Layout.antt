-- ===== src/Protocol/Encode/Layout.antt =====
-- The bodies of the command frames of src/rphand/protocol.cpp, without their accumulators.
use mathlib.Core.List.{append_assoc, append-nil}
use roboparty_dexhand.Base.{
  ℕ, ◌*◌, ◌%◌, ◌^◌, ◌≤◌, ◌≡◌, refl, sym, ap, ◌∙◌, Bool, true, false, some, List, [], ◌∷◌, ◌++◌, map,
  arith, if◌then◌else◌, ◌==◌, length, length-append, ℤ, quot_ℤ,
}
use roboparty_dexhand.Protocol.Encode.{
  Bytes, Command, config, control, move, CommandState, Axis, u16, control_byte, pack_control,
  pack_axis, pack_move, has_position, has_velocity, has_current, framed, command_payload,
}

-- Words one behind the other.
abbrev pub words : List ℤ → Bytes
words [] = []
words (v ∷ vs) = u16 [] v ++ words vs

-- What a move frame of each type holds for one axis; other types hold nothing.
unfoldable pub frame_fields : ℕ → Axis → List ℤ
frame_fields frame a =
    if frame == 2
    then a.position ∷ []
    else if frame == 3
    then quot_ℤ a.velocity 10 ∷ []
    else if frame == 4
    then a.current ∷ []
    else if frame == 5
    then a.position ∷ quot_ℤ a.velocity 10 ∷ []
    else if frame == 7
    then a.position ∷ a.current ∷ []
    else if frame == 9
    then quot_ℤ a.velocity 10 ∷ a.current ∷ []
    else if frame == 11
    then a.position ∷ quot_ℤ a.velocity 10 ∷ a.current ∷ []
    else []

unfoldable pub all_fields : ℕ → List Axis → List ℤ
all_fields frame [] = []
all_fields frame (a ∷ axes) = frame_fields frame a ++ all_fields frame axes

abbrev pick : Bool → ℤ → List ℤ → List ℤ
pick true v vs = v ∷ vs
pick false v vs = vs

pack_picked :
    (p v c : Bool) (out : Bytes) (x y z : ℤ)
    → (let b1 = if p then u16 out x else out in
        let b2 = if v then u16 b1 y else b1 in if c then u16 b2 z else b2)
      ≡ out ++ words (pick p x (pick v y (pick c z [])))
unfolding u16
pack_picked true true true out x y z = simp (append_assoc, append-nil)
pack_picked true true false out x y z = simp (append_assoc, append-nil)
pack_picked true false true out x y z = simp (append_assoc, append-nil)
pack_picked true false false out x y z = simp (append_assoc, append-nil)
pack_picked false true true out x y z = simp (append_assoc, append-nil)
pack_picked false true false out x y z = simp (append_assoc, append-nil)
pack_picked false false true out x y z = simp (append_assoc, append-nil)
pack_picked false false false out x y z = simp (append_assoc, append-nil)

picked_fields :
    (frame : ℕ) (a : Axis)
    → pick
        (has_position frame)
        a.position
        (pick (has_velocity frame) (quot_ℤ a.velocity 10) (pick (has_current frame) a.current []))
      ≡ frame_fields frame a
unfolding frame_fields
picked_fields frame a = ground arith

pub pack_axis-words :
    (out : Bytes) (a : Axis) (frame : ℕ)
    → pack_axis out a frame ≡ out ++ words (frame_fields frame a)
unfolding pack_axis
pack_axis-words out a frame = rw (← picked_fields frame a) (
    pack_picked (has_position frame) (has_velocity frame) (has_current frame) out a.position
      (quot_ℤ a.velocity 10) a.current)

words-append : (xs ys : List ℤ) → words (xs ++ ys) ≡ words xs ++ words ys
words-append [] ys = refl
words-append (x ∷ xs) ys =
    rw (words-append xs ys) (sym (append_assoc (u16 [] x) (words xs) (words ys)))

pub pack_move-words :
    (out : Bytes) (axes : List Axis) (frame : ℕ)
    → pack_move out axes frame ≡ out ++ words (all_fields frame axes)
unfolding pack_move all_fields
pack_move-words out [] frame = sym (append-nil out)
pack_move-words out (a ∷ axes) frame =
    rw
      (
        pack_move-words (pack_axis out a frame) axes frame,
        pack_axis-words out a frame,
        words-append (frame_fields frame a) (all_fields frame axes),
      )
      (append_assoc out (words (frame_fields frame a)) (words (all_fields frame axes)))

-- Two bytes for each axis.
abbrev pub control_bytes : List Axis → Bytes
control_bytes [] = []
control_bytes (a ∷ axes) = control_byte a ∷ a.control ∷ control_bytes axes

pub pack_control-bytes :
    (out : Bytes) (axes : List Axis) → pack_control out axes ≡ out ++ control_bytes axes
unfolding pack_control
pack_control-bytes out [] = sym (append-nil out)
pack_control-bytes out (a ∷ axes) =
    pack_control-bytes (out ++ control_byte a ∷ a.control ∷ []) axes
    ∙ append_assoc out (control_byte a ∷ a.control ∷ []) (control_bytes axes)

pub length-control_bytes : (axes : List Axis) → length (control_bytes axes) ≡ 2 * length axes
length-control_bytes [] = refl
length-control_bytes (a ∷ axes) = omega (arith, length-control_bytes axes)

pub length-words : (vs : List ℤ) → length (words vs) ≡ 2 * length vs
unfolding u16
length-words [] = refl
length-words (v ∷ vs) = omega (arith, length-words vs)

length-frame_fields : (frame : ℕ) (a : Axis) → length (frame_fields frame a) ≤ 3
unfolding frame_fields
length-frame_fields frame a = ground arith

pub length-all_fields :
    (frame : ℕ) (axes : List Axis) → length (all_fields frame axes) ≤ 3 * length axes
unfolding all_fields
length-all_fields frame [] = omega arith
length-all_fields frame (a ∷ axes) = omega (
  arith,
  length-append (frame_fields frame a) (all_fields frame axes),
  length-frame_fields frame a,
  length-all_fields frame axes,
)

pub framed_move :
    (axes : List Axis) (frame : ℕ)
    → framed move axes frame
      ≡ (frame % 2 ^ 8) ∷ (length axes % 2 ^ 8) ∷ words (all_fields frame axes)
unfolding framed
framed_move axes frame = pack_move-words ((frame % 2 ^ 8) ∷ (length axes % 2 ^ 8) ∷ []) axes frame

pub framed_control :
    (axes : List Axis) (frame : ℕ)
    → framed control axes frame ≡ 1 ∷ (length axes % 2 ^ 8) ∷ control_bytes axes
unfolding framed
framed_control axes frame = pack_control-bytes (1 ∷ (length axes % 2 ^ 8) ∷ []) axes

pub framed_config :
    (axes : List Axis) (frame : ℕ) → framed config axes frame ≡ 0 ∷ 4 ∷ 0x50 ∷ 1 ∷ 0x5a ∷ 1 ∷ []
unfolding framed
framed_config axes frame = refl

pub all_fields-velocity :
    (axes : List Axis) → all_fields 3 axes ≡ map (λ v. quot_ℤ v 10) (map (λ a. a.velocity) axes)
unfolding all_fields frame_fields
all_fields-velocity [] = refl
all_fields-velocity (a ∷ axes) = ap (λ r. quot_ℤ a.velocity 10 ∷ r) (all_fields-velocity axes)

pub all_fields-current : (axes : List Axis) → all_fields 4 axes ≡ map (λ a. a.current) axes
unfolding all_fields frame_fields
all_fields-current [] = refl
all_fields-current (a ∷ axes) = ap (λ r. a.current ∷ r) (all_fields-current axes)

-- A command for at most 30 axes has the payload that `framed` builds.
pub command_payload-framed :
    (c : Command) (s : CommandState) (frame : ℕ)
    → length s.axes ≤ 30
    → command_payload c s frame ≡ some (framed c s.axes frame)
unfolding command_payload
command_payload-framed c s frame h = ground arith

pub length-framed :
    (c : Command) (axes : List Axis) (frame : ℕ)
    → length axes ≤ 10
    → length (framed c axes frame) ≤ 64
length-framed config axes frame few = rw (framed_config axes frame) (omega arith)
length-framed control axes frame few =
    rw (framed_control axes frame) (omega (arith, length-control_bytes axes))
length-framed move axes frame few =
    rw (framed_move axes frame)
      (omega (arith, length-words (all_fields frame axes), length-all_fields frame axes))
