-- ===== src/Gs/WinUsb/Examples.antt =====
-- The theorems on the WinUSB transport for a device that starts, and for its first packets.
use roboparty_dexhand.Base.{
  ℕ, ◌+◌, ◌-◌, ◌*◌, ◌≡◌, ◌⊎◌, refl, true, false, some, [], ◌∷◌, replicate, leb, pos, arith,
}
use roboparty_dexhand.Protocol.Encode.{Bytes}
use roboparty_dexhand.Hand.Connect.{ConnectionOptions, gs_usb_win_usb}
use roboparty_dexhand.Gs.Wire.{put32, get32, CanFrame, decode, decode_received, frame_of, copy_to}
use roboparty_dexhand.Gs.Buffer.{next, scan, scan_short, consume, append, joined}
use roboparty_dexhand.Gs.Drain.{timeout, ms, drain_stopped_rx, loop, settle, turn}
use roboparty_dexhand.Gs.Timing.{
  limits, timing, brp_loop, try_brp, t2_loop, try_t2, bytes_of, store,
}
use roboparty_dexhand.Gs.WinUsb.{
  Adapter, new, Shutdown, reserve, received, receive, control, reset_and_drain, close, read_more,
  take_record, dispatch, setup, free_usb, close_file, released, usb_handle, file_handle,
}
use roboparty_dexhand.Gs.WinUsb.Access.{
  Device, access, is_adapter, is_zero, choose, take_output, take_input, read_capabilities,
  control_read, supported,
}
use roboparty_dexhand.Gs.WinUsb.Open.{
  Attempt, open_adapter, refuses, initialize, configure, close_unless,
}
use roboparty_dexhand.Gs.WinUsb.Starting.{Opened, Closed, open_adapter_cases}
use roboparty_dexhand.Gs.WinUsb.Steps.{System, start, given, seen, opens, reserves, here, next_step}
use roboparty_dexhand.Gs.WinUsb.Slots.{empty-Balanced}
use roboparty_dexhand.Gs.WinUsb.Invariant.{Sound, Reachable-Sound}
use roboparty_dexhand.Gs.WinUsb.Receiving.{Cases, receive-Cases}

-- A reset works, and the device is silent after it.
abbrev silent : Shutdown
silent = record {
  reset = some 8;
  flush = true;
  start = 0;
  begin = 0;
  turns =
      λ n. record { test = n * (20 * ms); read = timeout; bytes = 0; time = (n + 1) * (20 * ms) };
}

-- The limits of one of the two timings, put behind an index.
abbrev with_limits : Bytes → ℕ → Bytes
with_limits p i =
    put32
      (put32
        (put32
          (put32 (put32 (put32 (put32 (put32 p i 1) (i + 4) 256) (i + 8) 1) (i + 12) 128) (i + 16)
            128)
          (i + 20) 1)
        (i + 24) 2)
      (i + 28) 1

-- 80 MHz, CAN FD and extended timing.
abbrev basic : Bytes
basic = put32 (put32 (replicate 40 0) 0 1280) 4 80000000

abbrev full : Bytes
full = with_limits (with_limits (put32 (put32 (replicate 72 0) 0 1280) 4 80000000) 8) 40

abbrev device : Device
device = record {
  found = true;
  opened = true;
  initialized = true;
  control_timeout = true;
  descriptor = some (record { actual = 18; vendor = 0xa8fa; product = 0x8598 });
  interface_number = some 0;
  endpoints =
      some (record { bulk = true; id = 0x81; size = 64 })
      ∷ some (record { bulk = true; id = 2; size = 64 })
      ∷ some (record { bulk = true; id = 0x82; size = 512 })
      ∷ [];
  config = some (replicate 12 0);
  basic_capabilities = some basic;
  capabilities = some full;
  receive_timeout = true;
  keeps_short_packets = true;
  no_partial_reads = true;
  send_timeout = true;
  format = some 4;
  shutdown = silent;
  nominal = some 20;
  fd = some 20;
  start = some 8;
}

abbrev options : ConnectionOptions
options = record {
  backend = gs_usb_win_usb;
  interface_empty = true;
  serial_empty = false;
  channel = pos 0;
  node_id = pos 1;
  bitrate = pos 1000000;
  data_bitrate = pos 5000000;
}

abbrev distance : ℕ → ℕ → ℕ
distance t1 total = (10 * (1 + t1) - 8 * total) + (8 * total - 10 * (1 + t1))

abbrev attempt : Attempt
attempt = open_adapter 100 distance (λ a b. leb b a) new options device silent silent

opens_here : attempt.1 ≡ true
unfolding open_adapter refuses close_unless initialize access is_adapter is_zero choose take_output
    take_input read_capabilities control_read put32 supported get32 timing limits bytes_of
    drain_stopped_rx loop settle turn brp_loop store t2_loop try_brp try_t2 configure close control
    reset_and_drain setup free_usb close_file released
opens_here = refl

open_adapter_cases_example :
    Opened options device (close new silent).requests attempt ⊎ Closed attempt
open_adapter_cases_example =
    open_adapter_cases 100 distance (λ a b. leb b a) new options device silent silent refl

abbrev opened : System
opened = record { adapter = attempt.0; unanswered = [] }

abbrev payload : Bytes
payload = 1 ∷ 2 ∷ []

abbrev sending : System
sending = record {
  adapter = (reserve opened.adapter 0x501 (some payload) 2 false).0;
  unanswered = given (reserve opened.adapter 0x501 (some payload) 2 false).1 [];
}

Reachable-Sound_example : Sound sending.adapter sending.unanswered
Reachable-Sound_example = Reachable-Sound sending (
    next_step
      (next_step here (opens start 100 distance (λ a b. leb b a) options device silent silent))
      (reserves opened 0x501 (some payload) 2 false))

abbrev running : Adapter
running = record new {
  file = true;
  usb = true;
  started = true;
  input_packet_size = 64;
  held = usb_handle ∷ file_handle ∷ [];
}

running-Sound : Sound running []
running-Sound = record {
  balanced = empty-Balanced;
  buffer = record { room = refl; order = omega arith; inside = omega arith };
  packet = omega arith;
  handles = refl;
}

abbrev no_frame : CanFrame
no_frame = record { can_id = 0; len = 0; fd = true; brs = true; extended = false; bytes = [] }

-- A received record with id 0x481 and two bytes.
abbrev record_481 : Bytes
record_481 = 255 ∷ 255 ∷ 255 ∷ 255 ∷ 0x81 ∷ 4 ∷ 0 ∷ 0 ∷ 2 ∷ 0 ∷ 2 ∷ 0 ∷ 9 ∷ 8 ∷ []

receive-Cases_example :
    Cases running
      (received record_481)
      (receive running no_frame (received record_481))
      (seen running no_frame (received record_481))
receive-Cases_example =
    receive-Cases running [] no_frame (received record_481) running-Sound (omega arith)

hands_over : (receive running no_frame (received record_481)).0.1 ≡ pos 1
unfolding receive next scan read_more append take_record dispatch joined copy_to scan_short consume
    decode get32 decode_received frame_of
hands_over = refl
