-- ===== src/Gs/WinUsb.antt =====
-- `send`, `receive` and `close` of src/rphand/backends/gs_usb_winusb.cpp. What a Windows call gives is an
-- argument; what is only logged is left out.
pub mod Search
pub mod Access
pub mod Open
pub mod Handles
pub mod Ready
pub mod Configured
pub mod Starting
pub mod Records
pub mod Steps
pub mod Slots
pub mod Invariant
pub mod Receiving
mod Examples
use roboparty_dexhand.Base.{
  ℕ, zero, suc, ◌+◌, ◌*◌, ◌%◌, ◌^◌, Bool, true, false, not, ◌&&◌, ◌||◌, Option, none, some, List,
  [], ◌∷◌, ltb, ◌==◌, if◌then◌else◌, any, length, get_or, set, replicate, ℤ, pos, negsuc,
}
use roboparty_dexhand.Protocol.Encode.{Bytes}
use roboparty_dexhand.Gs.Wire.{
  tx_slots, CanFrame, Decoded, Kind, frame, echo, ignore, status, failure, incomplete, encode,
}
use roboparty_dexhand.Gs.Buffer.{ReceiveBuffer, empty_buffer, append, next}
use roboparty_dexhand.Gs.Drain.{Turn, DrainResult, DrainStatus, quiet, drain_stopped_rx}

-- What Windows gives to be released: the file of `CreateFileW` and the interface of
-- `WinUsb_Initialize`.
pub data Handle : Type 0 where
  file_handle usb_handle : Handle

-- A control transfer: the setup packet, and the bytes that are written.
pub record Setup : Type 0 where
  pub request_type : ℕ
  pub request : ℕ
  pub value : ℕ
  pub length : ℕ
  pub bytes : Bytes

-- The members of `Impl` that an operation decides on, with `errors_` of the base class. `file` and
-- `usb` say that there is a handle; `pending` has a flag for each slot. The last two are what Windows
-- knows: the handles that were given and not released, and the control transfers, the latest first.
pub record Adapter : Type 0 where
  pub file : Bool
  pub usb : Bool
  pub input_packet_size : ℕ
  pub buffer : ReceiveBuffer
  pub started : Bool
  pub node : ℕ
  pub pending : List Bool
  pub failed : Bool
  pub status_messages : ℕ
  pub send_failure_reported : Bool
  pub errors : ℕ
  pub held : List Handle
  pub requests : List Setup

-- `pending.fill(false)`.
abbrev pub no_pending : List Bool
no_pending = replicate tx_slots false

-- The members' initialisers.
abbrev pub new : Adapter
new = record {
  file = false;
  usb = false;
  input_packet_size = 0;
  buffer = empty_buffer;
  started = false;
  node = 1;
  pending = no_pending;
  failed = false;
  status_messages = 0;
  send_failure_reported = false;
  errors = 0;
  held = [];
  requests = [];
}

-- `++errors_`, an `unsigned long`, which has 32 bits on Windows.
unfoldable pub count_error : Adapter → Adapter
count_error a = record a { errors = (a.errors + 1) % 2 ^ 32 }

-- `broken()`, which always returns false.
unfoldable pub broken : Adapter → Adapter
broken a = record a { failed = true }

-- The index of the first flag that is not set.
unfoldable pub first_free : List Bool → ℕ
first_free [] = 0
first_free (true ∷ flags) = suc (first_free flags)
first_free (false ∷ flags) = 0

-- What the wait in `send` waits for, a failure or a free slot; it returns this as it stands when the
-- lock is held again.
abbrev pub available : Adapter → Bool
available a = a.failed || any (λ p. not p) a.pending

-- The slot of a packet that is to be written, and the packet.
abbrev pub Reserved : Type 0
Reserved = Option (ℕ × Bytes)

-- The locked block of `send` after its wait; `none` is the return of false.
unfoldable pub reserve : Adapter → ℕ → Option Bytes → ℕ → Bool → Adapter × Reserved
reserve a id bytes size extended =
    if not (available a) || a.failed || not a.started
    then (record (count_error a) { send_failure_reported = true }, none)
    else let slot = first_free a.pending in
      elim (encode slot 0 id bytes size extended) [
        | none ↦ (count_error a, none)
        | some packet ↦ (record a { pending = set a.pending slot true }, some (slot, packet))
      ]

-- The result of `WinUsb_WritePipe`: an error, or the number of bytes sent.
pub data Written : Type 0 where
  write_error : Written
  wrote : ℕ → Written

-- The rest of `send`.
unfoldable pub finish_send : Adapter → Written → Adapter × Bool
finish_send a write_error = (broken (count_error a), false)
finish_send a (wrote sent) = if not (sent == 76) then (broken (count_error a), false) else (a, true)

-- `send` where nothing else happens in between.
unfoldable pub send : Adapter → ℕ → Option Bytes → ℕ → Bool → Written → Adapter × Bool
send a id bytes size extended written =
    let (b, reserved) = reserve a id bytes size extended in
    elim reserved [ none ↦ (b, false) | some packet ↦ finish_send b written ]

-- The result of `WinUsb_ReadPipe`: a timeout, another error, or the bytes that were received.
pub data Read : Type 0 where
  read_timeout read_error : Read
  received : Bytes → Read

-- The locked block for an echo.
unfoldable pub take_echo : Adapter → ℕ → Adapter × ℤ
take_echo a slot =
    if not (get_or a.pending slot false)
    then (broken a, negsuc 0)
    else (record a { pending = set a.pending slot false }, pos 0)

-- The switch at the end of `receive`.
unfoldable pub dispatch : Adapter → Decoded → Adapter × ℤ
dispatch a d = elim (d.kind) [
  | failure ↦ (broken a, negsuc 0)
  | status ↦ (record a { status_messages = (a.status_messages + 1) % 2 ^ 32 }, pos 0)
  | echo ↦ take_echo a d.echo
  | incomplete ↦ (a, pos 0)
  | ignore ↦ (a, pos 0)
  | frame ↦ (
    a,
    if (d.frame.can_id == 0x480 + a.node) || (d.frame.can_id == 0x580 + a.node)
        then pos 1
        else pos 0,
  )
]

-- `receive_buffer.next`, with the switch on what it finds.
unfoldable pub take_record : Adapter → CanFrame → ℕ → (Adapter × ℤ) × CanFrame
take_record a old slot =
    let (buffer, d) = next a.buffer old slot in (dispatch (record a { buffer = buffer }) d, d.frame)

-- The block that reads more of the stream.
unfoldable pub read_more : Adapter → CanFrame → ℕ → Read → (Adapter × ℤ) × CanFrame
read_more a old slot read_timeout = ((a, pos 0), old)
read_more a old slot read_error = ((broken a, negsuc 0), old)
read_more a old slot (received chunk) =
    let (buffer, ok) =
      append a.buffer chunk (length chunk) (ltb (length chunk) a.input_packet_size) in
    if not ok
    then ((broken a, negsuc 0), old)
    else take_record (record a { buffer = buffer }) old slot

abbrev pub is_incomplete : Kind → Bool
is_incomplete incomplete = true
is_incomplete _ = false

-- `receive`: the result and the frame; `read` is what a read gives, if the buffer holds no record.
unfoldable pub receive : Adapter → CanFrame → Read → (Adapter × ℤ) × CanFrame
receive a old read =
    if a.failed
    then ((a, negsuc 0), old)
    else let (buffer, d) = next a.buffer old 0 in
      if is_incomplete d.kind
      then read_more (record a { buffer = buffer }) d.frame d.echo read
      else (dispatch (record a { buffer = buffer }) d, d.frame)

-- The transfer succeeds and moves all the bytes.
abbrev pub moves : Option ℕ → ℕ → Bool
moves none size = false
moves (some actual) size = actual == size

-- The setup packet in `control`.
unfoldable pub setup : Bool → ℕ → Bytes → ℕ → Setup
setup read request bytes size = record {
  request_type = if read then 0xc1 else 0x41;
  request = request;
  value = if (request == 0) || (request == 5) then 1 else 0;
  length = size;
  bytes = bytes;
}

-- `control`, for what the transfer gives: it fails, or the number of bytes that were moved.
unfoldable pub control : Adapter → Bool → ℕ → Bytes → ℕ → Option ℕ → Adapter × Bool
control a read request bytes size moved =
    (record a { requests = setup read request bytes size ∷ a.requests }, moves moved size)

-- What `reset_and_drain` sees: the transfer of the RESET request, whether the flush succeeds, and the
-- clock and the reads of the drain.
pub record Shutdown : Type 0 where
  pub reset : Option ℕ
  pub flush : Bool
  pub start : ℕ
  pub begin : ℕ
  pub turns : ℕ → Turn

abbrev pub is_quiet : Option DrainResult → Bool
is_quiet none = false
is_quiet (some r) = elim (r.status) [ quiet ↦ true | _ ↦ false ]

unfoldable pub reset_and_drain : Adapter → Shutdown → Adapter × Bool
reset_and_drain a s =
    let (b, sent) = control a false 2 (replicate 8 0) 8 s.reset in
    if not sent
    then (b, false)
    else if not s.flush
    then (record b { started = false }, false)
    else (
      record b { started = false; buffer = empty_buffer },
      is_quiet (drain_stopped_rx s.start s.begin s.turns),
    )

abbrev pub is_file : Handle → Bool
is_file file_handle = true
is_file usb_handle = false

abbrev pub same_handle : Handle → Handle → Bool
same_handle a b = if is_file a then is_file b else not (is_file b)

-- Windows takes a handle back.
unfoldable pub released : Handle → List Handle → List Handle
released h [] = []
released h (x ∷ xs) = if same_handle h x then xs else x ∷ released h xs

-- `WinUsb_Free` in `close`, after the drain, whose success is only logged.
unfoldable pub free_usb : Adapter → Shutdown → Adapter
free_usb a s =
    let b = if a.started then (reset_and_drain a s).0 else a in
    if a.usb then record b { usb = false; held = released usb_handle b.held } else a

-- `CloseHandle` in `close`.
unfoldable pub close_file : Adapter → Adapter
close_file a = if a.file then record a { file = false; held = released file_handle a.held } else a

unfoldable pub close : Adapter → Shutdown → Adapter
close a s = record (close_file (free_usb a s)) {
  started = false;
  input_packet_size = 0;
  buffer = empty_buffer;
  failed = true;
  pending = no_pending;
}
