-- ===== src/Gs/WinUsb/Open.antt =====
-- `open` of src/rphand/backends/gs_usb_winusb.cpp.
use roboparty_dexhand.Base.{
  ℕ, Bool, true, false, not, ◌||◌, Option, none, some, if◌then◌else◌, replicate, pos, at_most, eq_ℤ,
  to_u32, drop,
}
use roboparty_dexhand.Protocol.Encode.{Bytes}
use roboparty_dexhand.Hand.Connect.{ConnectionOptions}
use roboparty_dexhand.Gs.Wire.{get32, put32}
use roboparty_dexhand.Gs.Timing.{limits, timing}
use roboparty_dexhand.Gs.WinUsb.{Adapter, no_pending, control, Shutdown, reset_and_drain, close}
use roboparty_dexhand.Gs.WinUsb.Access.{Device, fd_feature, access}

-- `open` and the parts of it: the state and the result.
abbrev pub Attempt : Type 0
Attempt = Adapter × Bool

-- `format` and `mode` as they are sent.
abbrev pub format_bytes : Bytes
format_bytes = put32 (replicate 4 0) 0 0xbeef

abbrev pub mode_bytes : Bytes
mode_bytes = put32 (put32 (replicate 8 0) 0 1) 4 fd_feature

-- `initialize` after the timings have been found.
unfoldable pub configure : Adapter → ConnectionOptions → Device → Bytes → Bytes → Attempt
configure a o d nominal fd =
    let (a1, formatted) = control a false 0 format_bytes 4 d.format in
    let (a2, drained) = reset_and_drain a1 d.shutdown in
    let (a3, timed) = control a2 false 1 nominal 20 d.nominal in
    let (a4, fd_timed) = control a3 false 10 fd 20 d.fd in
    let (a5, begun) = control (record a4 { started = true }) false 2 mode_bytes 8 d.start in
    if not d.receive_timeout
      || not d.keeps_short_packets
      || not d.no_partial_reads
      || not d.send_timeout
    then (a, false)
    else if not formatted
    then (a1, false)
    else if not drained
    then (a2, false)
    else if not timed
    then (a3, false)
    else if not fd_timed
    then (a4, false)
    else if not begun
    then (a5, false)
    else (
      record a5 {
        node = to_u32 o.node_id;
        failed = false;
        pending = no_pending;
        status_messages = 0;
        send_failure_reported = false;
        errors = 0;
      },
      true,
    )

-- The options that `open` refuses.
unfoldable pub refuses : ConnectionOptions → Bool
refuses o =
    not (eq_ℤ o.channel (pos 0))
    || at_most o.bitrate 0
    || at_most o.data_bitrate 0
    || at_most o.node_id 0
    || not (at_most o.node_id 127)

-- The arguments of `timing` that stand for `double`.
module _ {F : Type 0} (infinity : F) (error : ℕ → ℕ → F) (at_least : F → F → Bool) where
  abbrev pub timing_at : Bytes → ℕ → ℕ → Option Bytes
  timing_at capabilities bitrate offset =
      timing infinity error at_least (get32 capabilities 4) bitrate
        (limits (drop offset capabilities))

  -- `initialize` with the capabilities that `access` read.
  unfoldable pub initialize : Adapter → ConnectionOptions → Device → Option Bytes → Attempt
  initialize a o d none = (a, false)
  initialize a o d (some capabilities) = elim (timing_at capabilities (to_u32 o.bitrate) 8) [
    | none ↦ (a, false)
    | some nominal ↦ elim (timing_at capabilities (to_u32 o.data_bitrate) 40) [
      | none ↦ (a, false)
      | some fd ↦ configure a o d nominal fd
    ]
  ]

  -- The end of `open`, which closes after a failure.
  unfoldable pub close_unless : Attempt → Shutdown → Attempt
  close_unless (a, true) cleanup = (a, true)
  close_unless (a, false) cleanup = (close a cleanup, false)

  unfoldable pub open_adapter : Adapter → ConnectionOptions → Device → Shutdown → Shutdown → Attempt
  open_adapter a o d before cleanup =
      let c = close a before in
      let (b, capabilities) = access c d in
      if refuses o then (c, false) else close_unless (initialize b o d capabilities) cleanup
