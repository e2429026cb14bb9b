-- ===== src/Protocol/Sdo/Laws.antt =====
-- What SDO requests say to the device, and which replies are understood.
use roboparty_dexhand.Base.{
  ℕ, ◌+◌, ◌*◌, ◌/◌, ◌%◌, ◌^◌, ◌<◌, ◌≡◌, ◌≢◌, refl, Option, none, some, [], ◌∷◌, arith, length, ◌==◌,
  if◌then◌else◌,
}
use roboparty_dexhand.Base.Bits.{and-mask, or-shifted}
use roboparty_dexhand.Protocol.Encode.{Bytes, u16}
use roboparty_dexhand.Protocol.Sdo.{
  read, write, sdo_payload, is_reply_command, join32, narrow, reply_of, decode_sdo_reply,
}

-- A request as the device reads it: the command byte, index, subindex and value.
pub record Request : Type 0 where
  pub command : ℕ
  pub index : ℕ
  pub subindex : ℕ
  pub value : ℕ

pub read_request : Bytes → Option Request
read_request (c ∷ i0 ∷ i1 ∷ s ∷ v0 ∷ v1 ∷ v2 ∷ v3 ∷ []) = some (record {
  command = c;
  index = i0 + 256 * i1;
  subindex = s;
  value = v0 + 256 * v1 + 65536 * v2 + 16777216 * v3;
})
read_request _ = none

-- A request is eight bytes that name the register; one that reads carries no value, and one that
-- writes carries the value.
pub read_request-sdo_payload :
    (index subindex value : ℕ)
    → index < 2 ^ 16
    → value < 2 ^ 16
    → (read_request (sdo_payload read index subindex value)
        ≡ some (record { command = 0x40; index = index; subindex = subindex; value = 0 }))
      × (read_request (sdo_payload write index subindex value)
          ≡ some (record { command = 0x2b; index = index; subindex = subindex; value = value }))
unfolding sdo_payload read_request u16
read_request-sdo_payload index subindex value h k = (ground arith, ground arith)

pub join32_lem :
    (a b c d : ℕ)
    → a < 256
    → b < 256
    → c < 256
    → join32 a b c d ≡ a + 256 * b + 65536 * c + 16777216 * d
unfolding join32
join32_lem a b c d ha hb hc = ground (
  arith,
  or-shifted 8 a b,
  or-shifted 16 (a + b * 2 ^ 8) c (omega arith),
  or-shifted 24 (a + b * 2 ^ 8 + c * 2 ^ 16) d (omega arith),
)

-- The width that the reply's command byte announces, as a modulus.
abbrev pub width : ℕ → ℕ
width command = if command == 0x4b then 2 ^ 16 else if command == 0x4f then 2 ^ 8 else 2 ^ 32

-- A reply as the device writes it.
abbrev pub reply_bytes : ℕ → ℕ → ℕ → ℕ → Bytes
reply_bytes command index subindex value =
    command
    ∷ (index % 256)
    ∷ (index / 256)
    ∷ subindex
    ∷ (value % 256)
    ∷ (value / 256 % 256)
    ∷ (value / 65536 % 256)
    ∷ (value / 16777216)
    ∷ []

narrow_lem : (command value : ℕ) → value < 2 ^ 32 → narrow command value ≡ value % width command
unfolding narrow
narrow_lem command value h = ground (arith, and-mask 16 value, and-mask 8 value)

-- The device's reply is understood exactly when its command byte is one of five, and then it gives
-- the register and the value cut to the width that the command announces.
pub decode_sdo_reply-bytes :
    (command index subindex value : ℕ)
    → index < 2 ^ 16
    → value < 2 ^ 32
    → decode_sdo_reply (some (reply_bytes command index subindex value)) ≡ (
        if is_reply_command command
        then some (record {
          command = command;
          index = index;
          subindex = subindex;
          value = value % width command;
        })
        else none)
unfolding decode_sdo_reply reply_of
decode_sdo_reply-bytes command index subindex value hi hv = ground (
  arith,
  or-shifted 8 (index % 256) (index / 256) (omega arith),
  join32_lem (value % 256) (value / 256 % 256) (value / 65536 % 256) (value / 16777216),
  narrow_lem command value,
)

-- Null pointers and buffers of any other size than eight bytes are refused.
pub decode_sdo_reply-size :
    (b : Option Bytes)
    → decode_sdo_reply b ≢ none
    → (bytes : Bytes) × (b ≡ some bytes) × (length bytes ≡ 8)
unfolding decode_sdo_reply
decode_sdo_reply-size none h = absurd (h refl)
decode_sdo_reply-size (some bytes) h = (bytes, refl, ground arith)
