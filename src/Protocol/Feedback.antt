-- ===== src/Protocol/Feedback.antt =====
-- Periodic feedback of src/rphand/protocol.cpp: `valid_feedback` and `decode_motor_feedback`. The
-- `float` members of `FeedbackAxis` are left out: what is modelled does not read them.
pub mod Shape
pub mod Loops
pub mod Laws
pub mod Axes
pub mod Bounds
mod Examples
use roboparty_dexhand.Base.{
  ℕ, zero, suc, ◌+◌, ◌*◌, ◌/◌, ◌^◌, min, Bool, true, false, not, ◌&&◌, ◌||◌, Option, none, some,
  List, [], ◌∷◌, bit_and, bit_or, ltb, leb, ◌==◌, if◌then◌else◌, length, get_or, set, ℤ, pos,
  to_u32, to_i16, times_ℤ,
}
use roboparty_dexhand.Protocol.Encode.{Bytes}

pub valid_feedback : ℕ → ℕ → ℕ → Bool
valid_feedback type slots len =
    if ltb slots 6 || ltb 64 len
    then false
    else if bit_and type 0x7f == 0x50
    then leb slots 8 && leb (50 + slots) len
    else if bit_and type 0x7f == 0x5a
    then leb slots 31 && leb (2 + 2 * slots) len
    else false

-- Positions are read as unsigned words, so they are never negative.
pub record FeedbackAxis : Type 0 where
  pub raw_position : ℕ
  pub position : ℕ
  pub position_velocity : ℤ
  pub current : ℤ
  pub status : ℕ
  pub alarm : ℕ
  pub seen : Bool

abbrev pub no_feedback : FeedbackAxis
no_feedback = record {
  raw_position = 0;
  position = 0;
  position_velocity = pos 0;
  current = pos 0;
  status = 0;
  alarm = 0;
  seen = false;
}

-- `status >> 5`.
abbrev pub running_status : FeedbackAxis → ℕ
running_status s = s.status / 2 ^ 5

pub data DecodeResult : Type 0 where
  ok malformed sensor_payload_not_handled : DecodeResult

pub record Config : Type 0 where
  pub type : ℕ
  pub max : ℕ
  pub start : ℕ
  pub stride : ℕ
  pub position : Bool
  pub velocity : Bool
  pub current : Bool
  pub sensor : Bool
  pub status : Bool

abbrev pub motors : ℕ → ℕ → ℕ → ℕ → Bool → Bool → Config
motors t m first width has_velocity has_current = record {
  type = t;
  max = m;
  start = first;
  stride = width;
  position = true;
  velocity = has_velocity;
  current = has_current;
  sensor = false;
  status = false;
}

abbrev pub statuses : ℕ → Config
statuses t = record {
  type = t;
  max = 30;
  start = 0;
  stride = 2;
  position = false;
  velocity = false;
  current = false;
  sensor = false;
  status = true;
}

abbrev sensors : ℕ → ℕ → ℕ → ℕ → Config
sensors t m first width = record {
  type = t;
  max = m;
  start = first;
  stride = width;
  position = false;
  velocity = false;
  current = false;
  sensor = true;
  status = false;
}

abbrev pub configs : List Config
configs =
    motors 0x50 8 0 6 true true
    ∷ motors 0x51 8 8 6 true true
    ∷ motors 0x52 8 16 6 true true
    ∷ motors 0x53 12 0 4 true false
    ∷ motors 0x54 12 12 4 true false
    ∷ motors 0x55 12 0 4 false true
    ∷ motors 0x56 12 12 4 false true
    ∷ statuses 0x5a
    ∷ sensors 0x70 5 0 12
    ∷ sensors 0x71 1 5 36
    ∷ sensors 0x72 2 0 30
    ∷ sensors 0x73 2 2 30
    ∷ sensors 0x74 2 4 30
    ∷ motors 0xd0 8 0 6 true true
    ∷ motors 0xd1 8 8 6 true true
    ∷ statuses 0xda
    ∷ sensors 0xf0 5 0 12
    ∷ sensors 0xf1 1 5 36
    ∷ sensors 0xf2 2 0 30
    ∷ sensors 0xf3 2 2 30
    ∷ sensors 0xf4 2 4 30
    ∷ []

-- The first configuration of this type.
pub find_config : List Config → ℕ → Option Config
find_config [] t = none
find_config (c ∷ cs) t = if c.type == t then some c else find_config cs t

-- `p[i]`; a read past the end would yield `beyond i`.
pub byte_at : (ℕ → ℕ) → Bytes → ℕ → ℕ
byte_at beyond p i = if ltb i (length p) then get_or p i 0 else beyond i

module _ (byte : ℕ → ℕ) where
  pub read16 : ℕ → ℕ
  read16 i = bit_or (byte i) (byte (i + 1) * 2 ^ 8)

  -- What the loop does to the state of axis `start + i`.
  pub decode_axis : Config → ℕ → FeedbackAxis → FeedbackAxis
  unfolding read16
  decode_axis c i s =
      let off = 2 + i * c.stride in
      record {
        raw_position = if c.position then read16 off else s.raw_position;
        position = s.position;
        position_velocity =
            if c.velocity
            then to_i16 (bit_and (to_u32 (times_ℤ (to_i16 (read16 (off + 2))) 10)) 0xffff)
            else s.position_velocity;
        current =
            if c.current then to_i16 (read16 (off + (if c.velocity then 4 else 2))) else s.current;
        status = byte (if c.status then off else 2 + c.max * c.stride + i);
        alarm = if c.status then bit_and (byte (off + 1)) 15 else s.alarm;
        seen = true;
      }

  -- The first loop; the number of rounds is what is left of `count`.
  pub decode_axes : Config → ℕ → ℕ → ℕ → List FeedbackAxis → List FeedbackAxis
  unfolding decode_axis
  decode_axes c active zero i state = state
  decode_axes c active (suc rounds) i state = decode_axes c active rounds (i + 1) (
      if leb active (c.start + i)
      then state
      else set state (c.start + i) (decode_axis c i (get_or state (c.start + i) no_feedback)))

-- The position that an axis reports.
pub settle_position : ℕ → ℕ
settle_position raw =
    let p = if ltb 20000 raw then 0 else raw in if ltb 10000 p && ltb p 20000 then 10000 else p

-- The second loop.
pub settle : ℕ → List FeedbackAxis → List FeedbackAxis
unfolding settle_position
settle zero state = state
settle (suc active) [] = []
settle (suc active) (s ∷ state) =
    record s { position = settle_position s.raw_position } ∷ settle active state

-- `count`: the slots of the frame that are decoded.
abbrev pub slot_count : Config → ℕ → ℕ → ℕ
slot_count c slots active = min (min slots active) c.max

abbrev pub needed : Config → ℕ → ℕ
needed c count = 2 + (if c.status then count * c.stride else c.max * c.stride + count)

pub decode_with :
    (ℕ → ℕ) → Bytes → Config → ℕ → List FeedbackAxis → DecodeResult × List FeedbackAxis
unfolding byte_at decode_axes settle
decode_with beyond p c active state =
    let byte = byte_at beyond p in
    let count = slot_count c (byte 1) active in
    if c.sensor
    then (sensor_payload_not_handled, state)
    else if ltb (length p) (needed c count)
    then (malformed, state)
    else (ok, settle active (decode_axes byte c active count 0 state))

unfoldable pub decode_motor_feedback :
    (ℕ → ℕ) → Bytes → ℕ → List FeedbackAxis → DecodeResult × List FeedbackAxis
unfolding valid_feedback find_config byte_at decode_with
decode_motor_feedback beyond p active state =
    let byte = byte_at beyond p in
    if ltb (length p) 3 || not (valid_feedback (byte 0) (byte 1) (length p))
    then (malformed, state)
    else elim (find_config configs (byte 0)) [
      | none ↦ (malformed, state)
      | some c ↦ decode_with beyond p c active state
    ]
