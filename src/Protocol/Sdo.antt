-- ===== src/Protocol/Sdo.antt =====
-- SDO requests and replies of src/rphand/protocol.cpp.
pub mod Laws
mod Examples
use roboparty_dexhand.Base.{
  ℕ, ◌-◌, ◌*◌, ◌^◌, Bool, not, ◌||◌, Option, none, some, List, [], ◌∷◌, ◌++◌, bit_and, bit_or, ◌==◌,
  if◌then◌else◌, length, get_or, replicate, pos,
}
use roboparty_dexhand.Protocol.Encode.{Bytes, u16}

-- `enum class SdoCommand`.
pub data SdoCommand : Type 0 where
  read write : SdoCommand

-- `out.resize(n, 0)` of a vector that is no longer than n.
abbrev pad : Bytes → ℕ → Bytes
pad out n = out ++ replicate (n - length out) 0

-- `index` and `value` are `uint16_t`, `subindex` is `uint8_t`.
unfoldable pub sdo_payload : SdoCommand → ℕ → ℕ → ℕ → Bytes
unfolding u16
sdo_payload read index subindex value = pad (u16 (0x40 ∷ []) (pos index) ++ subindex ∷ []) 8
sdo_payload write index subindex value =
    pad (u16 (u16 (0x2b ∷ []) (pos index) ++ subindex ∷ []) (pos value)) 8

pub record SdoReply : Type 0 where
  pub command : ℕ
  pub index : ℕ
  pub subindex : ℕ
  pub value : ℕ

abbrev pub is_reply_command : ℕ → Bool
is_reply_command c = c == 0x60 || c == 0x4b || c == 0x43 || c == 0x4f || c == 0x80

-- Four bytes, low byte first.
pub join32 : ℕ → ℕ → ℕ → ℕ → ℕ
join32 a b c d = bit_or (bit_or (bit_or a (b * 2 ^ 8)) (c * 2 ^ 16)) (d * 2 ^ 24)

-- A register of one or two bytes is cut to its width.
pub narrow : ℕ → ℕ → ℕ
narrow command value =
    let v = if command == 0x4b then bit_and value 0xffff else value in
    if command == 0x4f then bit_and v 0xff else v

pub reply_of : Bytes → SdoReply
unfolding join32 narrow
reply_of b = record {
  command = get_or b 0 0;
  index = bit_or (get_or b 1 0) (get_or b 2 0 * 2 ^ 8);
  subindex = get_or b 3 0;
  value =
      narrow (get_or b 0 0) (join32 (get_or b 4 0) (get_or b 5 0) (get_or b 6 0) (get_or b 7 0));
}

-- The argument is the pointer with its size, `none` for null; the result is what goes through
-- `reply`, `none` where the function returns false.
unfoldable pub decode_sdo_reply : Option Bytes → Option SdoReply
unfolding reply_of
decode_sdo_reply none = none
decode_sdo_reply (some b) =
    if not (length b == 8)
    then none
    else if not (is_reply_command (get_or b 0 0))
    then none
    else some (reply_of b)
