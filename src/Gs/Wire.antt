-- ===== src/Gs/Wire.antt =====
-- `get32`, `put32`, `encode` and `decode` of src/rphand/backends/gs_usb_protocol.hpp. Memory is a
-- list of bytes from the address that a pointer holds.
pub mod Encoding
pub mod Decoding
pub mod Locality
use roboparty_dexhand.Base.{
  ℕ, suc, ◌+◌, ◌-◌, ◌*◌, ◌/◌, ◌%◌, ◌^◌, min, Bool, true, false, not, ◌&&◌, ◌||◌, Option, none, some,
  List, [], ◌∷◌, ◌++◌, bit_and, bit_or, ltb, ◌==◌, if◌then◌else◌, length, get_or, set, take, drop,
  replicate,
}
use roboparty_dexhand.Protocol.Encode.{Bytes}

abbrev pub rx_echo : ℕ
rx_echo = 0xffffffff

abbrev pub tx_slots : ℕ
tx_slots = 10

abbrev pub lengths : List ℕ
lengths = 0 ∷ 1 ∷ 2 ∷ 3 ∷ 4 ∷ 5 ∷ 6 ∷ 7 ∷ 8 ∷ 12 ∷ 16 ∷ 20 ∷ 24 ∷ 32 ∷ 48 ∷ 64 ∷ []

-- The byte at an index of the memory.
abbrev pub at : Bytes → ℕ → ℕ
at p i = get_or p i 0

unfoldable pub get32 : Bytes → ℕ → ℕ
get32 p i =
    bit_or (bit_or (bit_or (at p i) (at p (i + 1) * 2 ^ 8)) (at p (i + 2) * 2 ^ 16))
      (at p (i + 3) * 2 ^ 24)

unfoldable pub put32 : Bytes → ℕ → ℕ → Bytes
put32 p i value =
    set
      (set (set (set p i (value % 2 ^ 8)) (i + 1) (value / 2 ^ 8 % 2 ^ 8)) (i + 2)
        (value / 2 ^ 16 % 2 ^ 8))
      (i + 3) (value / 2 ^ 24 % 2 ^ 8)

-- `memcpy` of the bytes to an index inside the memory.
unfoldable pub copy_to : Bytes → ℕ → Bytes → Bytes
copy_to p i src = take i p ++ (src ++ drop (i + length src) p)

-- The loop that looks for the first length that is not below the size.
unfoldable pub dlc_from : List ℕ → ℕ → ℕ → ℕ
dlc_from [] size dlc = dlc
dlc_from (l ∷ ls) size dlc = if ltb l size then dlc_from ls size (suc dlc) else dlc

unfoldable pub header_of : ℕ → ℕ → ℕ → ℕ → Bool → Bytes
unfolding put32 dlc_from
header_of slot channel id size extended =
    let p1 = put32 (replicate 76 0) 0 slot in
    let p2 = put32 p1 4 (bit_or id (if extended then 0x80000000 else 0)) in
    set (set (set p2 8 (dlc_from lengths size 0 % 2 ^ 8)) 9 (channel % 2 ^ 8)) 10 6

unfoldable pub packet_of : ℕ → ℕ → ℕ → Bytes → ℕ → Bool → Bytes
unfolding header_of copy_to
packet_of slot channel id bytes size extended =
    copy_to (header_of slot channel id size extended) 12 (take size bytes)

-- `none` is false, which leaves the packet as it is; a null pointer is no memory.
unfoldable pub encode : ℕ → ℕ → ℕ → Option Bytes → ℕ → Bool → Option Bytes
unfolding packet_of
encode slot channel id none size extended =
    if ltb 64 size
      || not (size == 0)
      || not (ltb slot tx_slots)
      || ltb 255 channel
      || ltb (if extended then 0x1fffffff else 0x7ff) id
    then none
    else some (packet_of slot channel id [] size extended)
encode slot channel id (some bytes) size extended =
    if ltb 64 size
      || not (ltb slot tx_slots)
      || ltb 255 channel
      || ltb (if extended then 0x1fffffff else 0x7ff) id
    then none
    else some (packet_of slot channel id bytes size extended)

pub data Kind : Type 0 where
  frame echo ignore status failure incomplete : Kind

-- The messages for `*reason`.
pub data Reason : Type 0 where
  no_reason short_header invalid_dlc overflow invalid_echo malformed_error bus_off restarted :
      Reason
  error_active zero_counters unacknowledged warning error_record invalid_id truncated_payload :
      Reason
  short_at_boundary truncated_at_boundary : Reason

-- The members of `CanFrame` of src/rphand/transport.hpp; the data behind `len` are zeros.
pub record CanFrame : Type 0 where
  pub can_id : ℕ
  pub len : ℕ
  pub fd : Bool
  pub brs : Bool
  pub extended : Bool
  pub bytes : Bytes

-- What `decode` returns and what its reference arguments hold then.
pub record Decoded : Type 0 where
  pub kind : Kind
  pub reason : Reason
  pub frame : CanFrame
  pub echo : ℕ

abbrev pub has : ℕ → ℕ → Bool
has x mask = not (bit_and x mask == 0)

abbrev pub length_of : Bytes → ℕ
length_of p = if has (at p 10) 2 then get_or lengths (at p 8) 0 else min (at p 8) 8

-- A record that carries the error flag: its kind and the reason.
unfoldable pub decode_error : Bytes → ℕ → ℕ → Kind × Reason
decode_error p size id =
    let classes = bit_and id 0x1fffffff in
    let active = (classes == 0x4 || classes == 0x204) && (at p 13 == 0x40) in
    let zeros = (classes == 0x200) && (at p 18 == 0) && (at p 19 == 0) in
    if has (at p 10) 2 || not (at p 8 == 8) || ltb size 20 || has id 0xc0000000
    then (failure, malformed_error)
    else if has classes 0x40
    then (failure, bus_off)
    else if has classes 0x100
    then (failure, restarted)
    else if (active || zeros) && ltb (at p 18) 96 && ltb (at p 19) 96
    then (status, if active then error_active else zero_counters)
    else if has classes 0x20
    then (failure, unacknowledged)
    else if has classes 0x4
    then (failure, warning)
    else (failure, error_record)

abbrev pub outcome : Kind × Reason → CanFrame → ℕ → Decoded
outcome k old slot = record { kind = k.0; reason = k.1; frame = old; echo = slot }

-- The frame of a record with a standard id.
unfoldable pub frame_of : Bytes → ℕ → CanFrame
frame_of p id = record {
  can_id = id;
  len = length_of p;
  fd = has (at p 10) 2;
  brs = has (at p 10) 2 && has (at p 10) 4;
  extended = false;
  bytes = take (length_of p) (drop 12 p) ++ replicate (64 - length_of p) 0;
}

-- From the read of the id on.
unfoldable pub decode_received : Bytes → ℕ → ℕ → CanFrame → Decoded
decode_received p size id old =
    if has id 0x20000000
    then outcome (decode_error p size id) old rx_echo
    else if has id 0xc0000000
    then outcome (ignore, no_reason) old rx_echo
    else if ltb 0x7ff id
    then outcome (failure, invalid_id) old rx_echo
    else if ltb size (12 + length_of p)
    then outcome (failure, truncated_payload) old rx_echo
    else outcome (frame, no_reason) (frame_of p id) rx_echo

-- `old` and `slot` are what the reference arguments hold before.
unfoldable pub decode : Bytes → ℕ → ℕ → CanFrame → ℕ → Decoded
decode p size channel old slot =
    if size == 0
    then outcome (ignore, no_reason) old slot
    else if ltb size 12
    then outcome (failure, short_header) old slot
    else if not (at p 9 == channel)
    then outcome (ignore, no_reason) old slot
    else if ltb 15 (at p 8)
    then outcome (failure, invalid_dlc) old slot
    else if has (at p 10) 1
    then outcome (failure, overflow) old slot
    else if not (get32 p 0 == rx_echo)
    then outcome
        (if ltb (get32 p 0) tx_slots then (Kind.echo, no_reason) else (failure, invalid_echo)) old
        (get32 p 0)
    else decode_received p size (get32 p 4) old
