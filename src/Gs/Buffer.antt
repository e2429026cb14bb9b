-- ===== src/Gs/Buffer.antt =====
-- `ReceiveBuffer` of src/rphand/backends/gs_usb_protocol.hpp, which cuts the stream of USB reads into
-- records.
pub mod Stream
pub mod Records
use roboparty_dexhand.Base.{
  ℕ, ◌+◌, ◌-◌, Bool, true, false, not, ◌&&◌, ◌||◌, ltb, ◌==◌, if◌then◌else◌, take, drop, replicate,
}
use roboparty_dexhand.Protocol.Encode.{Bytes}
use roboparty_dexhand.Gs.Wire.{
  tx_slots, at, get32, copy_to, Kind, failure, incomplete, CanFrame, Decoded, has, length_of,
  decode, Reason, no_reason, short_at_boundary, invalid_dlc, truncated_at_boundary, outcome,
}

abbrev pub max_chunk : ℕ
max_chunk = 1024

-- `max_chunk + 76`.
abbrev pub capacity : ℕ
capacity = 1100

pub record ReceiveBuffer : Type 0 where
  pub bytes : Bytes
  pub begin : ℕ
  pub end : ℕ
  pub last_begin : ℕ
  pub last_size : ℕ
  pub transfer_end : Bool

-- The members' initialisers.
abbrev pub empty_buffer : ReceiveBuffer
empty_buffer = record {
  bytes = replicate capacity 0;
  begin = 0;
  end = 0;
  last_begin = 0;
  last_size = 0;
  transfer_end = false;
}

-- The `memmove` to the front and the `memcpy` behind it; with size 0 the latter writes nothing.
unfoldable pub joined : ReceiveBuffer → Bytes → ℕ → Bytes
joined b chunk size =
    copy_to (copy_to b.bytes 0 (take (b.end - b.begin) (drop b.begin b.bytes))) (b.end - b.begin)
      (take size chunk)

unfoldable pub append : ReceiveBuffer → Bytes → ℕ → Bool → ReceiveBuffer × Bool
append b chunk size transfer_end =
    if ltb max_chunk size || ltb capacity (b.end - b.begin + size) then (b, false) else (
      record b {
        bytes = joined b chunk size;
        begin = 0;
        end = b.end - b.begin + size;
        transfer_end = transfer_end;
      },
      true,
    )

-- What `next` finds at the start of the bytes: `last_size_`, how far `begin_` moves, and the result.
pub record Scan : Type 0 where
  pub size : ℕ
  pub consumed : ℕ
  pub result : Decoded

abbrev pub is_failure : Kind → Bool
is_failure failure = true
is_failure _ = false

-- The tail of `next`, with a record of the size.
unfoldable pub consume : Bytes → ℕ → CanFrame → ℕ → Scan
consume p size old slot =
    let d = decode p size 0 old slot in
    record { size = size; consumed = if is_failure d.kind then 0 else size; result = d }

abbrev pub stay : ℕ → Kind × Reason → CanFrame → ℕ → Scan
stay n k old slot = record { size = n; consumed = 0; result = outcome k old slot }

-- The block for a record that is shorter than the full size.
unfoldable pub scan_short : Bytes → ℕ → Bool → CanFrame → ℕ → Scan
scan_short p n transfer_end old slot =
    if not transfer_end
    then stay n (incomplete, no_reason) old slot
    else if not (n == 12 + length_of p) && not ((n == 12) && ltb (get32 p 0) tx_slots)
    then stay n (failure, truncated_at_boundary) old slot
    else consume p n old slot

abbrev pub full_size : Bytes → ℕ
full_size p = if has (at p 10) 2 then 76 else 20

unfoldable pub scan : Bytes → ℕ → Bool → CanFrame → ℕ → Scan
scan p n transfer_end old slot =
    if n == 0
    then stay n (incomplete, no_reason) old slot
    else if ltb n 12
    then stay n (if transfer_end then (failure, short_at_boundary) else (incomplete, no_reason)) old
        slot
    else if ltb 15 (at p 8)
    then stay n (failure, invalid_dlc) old slot
    else if ltb n (full_size p)
    then scan_short p n transfer_end old slot
    else consume p (full_size p) old slot

unfoldable pub next : ReceiveBuffer → CanFrame → ℕ → ReceiveBuffer × Decoded
next b old slot =
    let s = scan (drop b.begin b.bytes) (b.end - b.begin) b.transfer_end old slot in
    (record b { last_begin = b.begin; last_size = s.size; begin = b.begin + s.consumed }, s.result)
