-- ===== src/SocketCan.antt =====
-- `send` and `receive` of src/rphand/backends/socketcan.cpp; `write`, `poll` and `read` are the
-- operating system's, so what they give is an argument.
pub mod Laws
pub mod Opening
mod Examples
use roboparty_dexhand.Base.{
  ℕ, ◌+◌, ◌-◌, ◌%◌, ◌^◌, Bool, true, false, not, ◌&&◌, ◌||◌, Option, none, some, List, [], ◌∷◌,
  ◌++◌, ltb, leb, ◌==◌, if◌then◌else◌, length, take, replicate, bit_and, bit_or, ℤ, pos, negsuc,
}
use roboparty_dexhand.Protocol.Encode.{Bytes}
use roboparty_dexhand.Gs.Wire.{CanFrame, has}

-- `struct canfd_frame` of the kernel: the members that are read or written.
pub record CanFdFrame : Type 0 where
  pub can_id : ℕ
  pub len : ℕ
  pub flags : ℕ
  pub bytes : Bytes

abbrev pub legal_lengths : List ℕ
legal_lengths = 12 ∷ 16 ∷ 20 ∷ 24 ∷ 32 ∷ 48 ∷ 64 ∷ []

-- The loop over the legal lengths; `size` stays when none is taken.
unfoldable pub padded : List ℕ → ℕ → ℕ
padded [] size = size
padded (legal ∷ rest) size = if ltb 8 size && leb size legal then legal else padded rest size

-- The guard of `send` with a pointer to the bytes: CAN_EFF_MASK and CAN_SFF_MASK.
abbrev pub refuses_frame : Bool → ℕ → ℕ → Bool → Bool
refuses_frame is_open id size extended =
    not is_open || ltb 64 size || ltb (if extended then 0x1fffffff else 0x7ff) id

-- The frame that `send` writes; the data behind the bytes are zeros.
unfoldable pub frame_for : ℕ → Bytes → ℕ → Bool → CanFdFrame
frame_for id bytes size extended = record {
  can_id = bit_or id (if extended then 0x80000000 else 0);
  len = padded legal_lengths size;
  flags = 1;
  bytes = take size bytes ++ replicate (64 - size) 0;
}

-- What `send` does with a pointer to bytes: the frame that it writes, if it writes one, whether it
-- returns true, and `errors_`. `written` says whether `write` took the whole frame.
unfoldable pub send : Bool → ℕ → Bytes → ℕ → Bool → Bool → ℕ → Option CanFdFrame × Bool × ℕ
send is_open id bytes size extended written errors =
    if refuses_frame is_open id size extended then (none, false, (errors + 1) % 2 ^ 64) else (
      some (frame_for id bytes size extended),
      written,
      if written then errors else (errors + 1) % 2 ^ 64,
    )

-- What `poll` and `read` give: an interruption, a failure, a timeout, or a count of bytes with the
-- frame.
pub data Arrival : Type 0 where
  interrupted broken timeout : Arrival
  arrives : ℕ → CanFdFrame → Arrival

-- CAN_MTU and CANFD_MTU.
abbrev pub can_mtu : ℕ
can_mtu = 16

abbrev pub canfd_mtu : ℕ
canfd_mtu = 72

-- The result of `receive`, with -1 as `negsuc 0`, and the frame that it fills.
unfoldable pub receive : Arrival → ℤ × Option CanFrame
receive interrupted = (pos 0, none)
receive broken = (negsuc 0, none)
receive timeout = (pos 0, none)
receive (arrives count f) =
    if not (count == can_mtu) && not (count == canfd_mtu)
    then (negsuc 0, none)
    else if has f.can_id 0xe0000000
    then (pos 0, none)
    else if ltb (if count == can_mtu then 8 else 64) f.len
    then (pos 0, none)
    else (
      pos 1,
      some (record {
        can_id = f.can_id;
        len = f.len;
        fd = count == canfd_mtu;
        brs = (count == canfd_mtu) && has f.flags 1;
        extended = false;
        bytes = take f.len f.bytes ++ replicate (64 - f.len) 0;
      }),
    )
