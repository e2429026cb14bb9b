-- ===== src/Gs/WinUsb/Access.antt =====
-- `access` of src/rphand/backends/gs_usb_winusb.cpp. The answers of the Windows calls are a record;
-- whether the device path was found (see Search) is one of them.
use roboparty_dexhand.Base.{
  ℕ, Bool, true, false, not, ◌&&◌, ◌||◌, Option, none, some, List, [], ◌∷◌, ltb, ◌==◌,
  if◌then◌else◌, length,
}
use roboparty_dexhand.Protocol.Encode.{Bytes}
use roboparty_dexhand.Gs.Wire.{at, get32, has}
use roboparty_dexhand.Gs.Buffer.{max_chunk}
use roboparty_dexhand.Gs.WinUsb.{Adapter, Shutdown, file_handle, usb_handle, control}

-- What is read of `WINUSB_PIPE_INFORMATION`: `bulk` is `PipeType == UsbdPipeTypeBulk`.
pub record Pipe : Type 0 where
  pub bulk : Bool
  pub id : ℕ
  pub size : ℕ

-- `input`, `output` and `input_packet_size`.
pub record Endpoints : Type 0 where
  pub input : ℕ
  pub output : ℕ
  pub packet_size : ℕ

abbrev pub no_endpoints : Endpoints
no_endpoints = record { input = 0; output = 0; packet_size = 0 }

unfoldable pub take_input : Pipe → Endpoints → Endpoints
take_input p e =
    if has p.id 0x80 && (e.input == 0) then record e { input = p.id; packet_size = p.size } else e

unfoldable pub take_output : Pipe → Endpoints → Endpoints
take_output p e = if not (has p.id 0x80) && (e.output == 0) then record e { output = p.id } else e

-- The loop over the endpoints; an endpoint that cannot be queried ends it with false.
unfoldable pub choose : List (Option Pipe) → Endpoints → Endpoints × Bool
choose [] e = (e, true)
choose (none ∷ rest) e = (e, false)
choose (some p ∷ rest) e = choose rest (if p.bulk then take_output p (take_input p e) else e)

pub record Descriptor : Type 0 where
  pub actual : ℕ
  pub vendor : ℕ
  pub product : ℕ

-- The answers in the order of the calls. A transfer is `none` if it fails; one that reads has the
-- bytes that came, one that writes how many were taken.
pub record Device : Type 0 where
  pub found : Bool
  pub opened : Bool
  pub initialized : Bool
  pub control_timeout : Bool
  pub descriptor : Option Descriptor
  pub interface_number : Option ℕ
  pub endpoints : List (Option Pipe)
  pub config : Option Bytes
  pub basic_capabilities : Option Bytes
  pub capabilities : Option Bytes
  pub receive_timeout : Bool
  pub keeps_short_packets : Bool
  pub no_partial_reads : Bool
  pub send_timeout : Bool
  pub format : Option ℕ
  pub shutdown : Shutdown
  pub nominal : Option ℕ
  pub fd : Option ℕ
  pub start : Option ℕ

abbrev pub moved_bytes : Option Bytes → Option ℕ
moved_bytes none = none
moved_bytes (some bytes) = some (length bytes)

-- `control(true, ...)`, with the bytes that it reads if it is true.
unfoldable pub control_read : Adapter → ℕ → ℕ → Option Bytes → Adapter × Option Bytes
control_read a request size bytes =
    let (b, ok) = control a true request [] size (moved_bytes bytes) in
    (b, if ok then bytes else none)

-- `sizeof(USB_DEVICE_DESCRIPTOR)` is 18.
unfoldable pub is_adapter : Option Descriptor → Bool
is_adapter none = false
is_adapter (some d) = (d.actual == 18) && (d.vendor == 0xa8fa) && (d.product == 0x8598)

unfoldable pub is_zero : Option ℕ → Bool
is_zero none = false
is_zero (some n) = n == 0

abbrev pub fd_feature : ℕ
fd_feature = 256

abbrev pub extended_timing : ℕ
extended_timing = 1024

-- The channel count in the configuration and the features of the capabilities.
unfoldable pub supported : Bytes → Bytes → Bool
supported config capabilities =
    let features = get32 capabilities 0 in
    (at config 3 == 0)
    && has features fd_feature
    && has features extended_timing
    && not (has features 512)

-- The transfers at the end of `access`, with what `capabilities` holds if it is true.
unfoldable pub read_capabilities : Adapter → Device → Adapter × Option Bytes
read_capabilities a d =
    let (b, configuration) = control_read a 5 12 d.config in
    let (c, first) = control_read b 4 40 d.basic_capabilities in
    let last = control_read c 11 72 d.capabilities in
    elim configuration [
      | none ↦ (b, none)
      | some config ↦ elim first [
        | none ↦ (c, none)
        | some basic ↦ if supported config basic then last else (c, none)
      ]
    ]

abbrev pub usable : Endpoints → Bool
usable e =
    not (e.input == 0)
    && not (e.output == 0)
    && not (e.packet_size == 0)
    && not (ltb max_chunk e.packet_size)

-- `access`: the state, and the capabilities if it is true.
unfoldable pub access : Adapter → Device → Adapter × Option Bytes
access a d =
    let a1 = record a { file = true; held = file_handle ∷ a.held } in
    let b = record a1 { usb = true; held = usb_handle ∷ a1.held } in
    let (e, queried) = choose d.endpoints no_endpoints in
    let c = record b { input_packet_size = e.packet_size } in
    if not d.found || not d.opened
    then (a, none)
    else if not d.initialized
    then (a1, none)
    else if not d.control_timeout
        || not (is_adapter d.descriptor)
        || not (is_zero d.interface_number)
    then (b, none)
    else if not queried || not (usable e)
    then (c, none)
    else read_capabilities c d
