-- ===== src/Gs/WinUsb/Steps.antt =====
-- What can happen to the adapter of src/rphand/backends/gs_usb_winusb.cpp, one locked block or one call
-- at a time, in any order, with a list of the slots whose packets have not been answered.
use roboparty_dexhand.Base.{
  ℕ, ◌≤◌, Bool, not, Option, none, some, List, [], ◌∷◌, ltb, ◌==◌, if◌then◌else◌, length,
}
use roboparty_dexhand.Protocol.Encode.{Bytes}
use roboparty_dexhand.Hand.Connect.{ConnectionOptions}
use roboparty_dexhand.Gs.Wire.{CanFrame, Decoded}
use roboparty_dexhand.Gs.Buffer.{append, next}
use roboparty_dexhand.Gs.WinUsb.{
  Adapter, new, Reserved, reserve, Written, finish_send, Read, read_timeout, read_error, received,
  receive, is_incomplete, Shutdown, close,
}
use roboparty_dexhand.Gs.WinUsb.Access.{Device}
use roboparty_dexhand.Gs.WinUsb.Open.{open_adapter}
use roboparty_dexhand.Gs.WinUsb.Records.{is_echo}

-- `unanswered` has the slot of each packet that was given one since the channel was last opened or
-- closed, and whose echo has not been seen.
pub record System : Type 0 where
  pub adapter : Adapter
  pub unanswered : List ℕ

-- Takes out the first place where the slot stands.
unfoldable pub erase : ℕ → List ℕ → List ℕ
erase n [] = []
erase n (x ∷ xs) = if x == n then xs else x ∷ erase n xs

-- The record that the second block of `receive` looks at.
unfoldable pub seen_after_read : Adapter → CanFrame → ℕ → Read → Option Decoded
seen_after_read a old slot read_timeout = none
seen_after_read a old slot read_error = none
seen_after_read a old slot (received chunk) =
    let (buffer, ok) =
      append a.buffer chunk (length chunk) (ltb (length chunk) a.input_packet_size) in
    if not ok then none else some (next buffer old slot).1

-- The record that `receive` acts on.
unfoldable pub seen : Adapter → CanFrame → Read → Option Decoded
seen a old read =
    let (buffer, d) = next a.buffer old 0 in
    if a.failed
    then none
    else if is_incomplete d.kind
    then seen_after_read (record a { buffer = buffer }) d.frame d.echo read
    else some d

unfoldable pub answered : Option Decoded → List ℕ → List ℕ
answered none slots = slots
answered (some d) slots = if is_echo d.kind then erase d.echo slots else slots

unfoldable pub given : Reserved → List ℕ → List ℕ
given none slots = slots
given (some packet) slots = packet.0 ∷ slots

-- A read gives at most what it was asked for.
abbrev pub Fits : Read → ℕ → Type 0
Fits read_timeout n = Unit
Fits read_error n = Unit
Fits (received chunk) n = length chunk ≤ n

-- `close` ends a session, and with it the packets that it waits for.
pub data Step : System → System → Type 1 where
  reserves :
      (s : System) (id : ℕ) (bytes : Option Bytes) (size : ℕ) (extended : Bool)
      → Step s (record {
        adapter = (reserve s.adapter id bytes size extended).0;
        unanswered = given (reserve s.adapter id bytes size extended).1 s.unanswered;
      })
  finishes :
      (s : System) (written : Written)
      → Step s (record s { adapter = (finish_send s.adapter written).0 })
  receives :
      (s : System) (old : CanFrame) (read : Read)
      → Fits read s.adapter.input_packet_size
      → Step s (record {
        adapter = (receive s.adapter old read).0.0;
        unanswered = answered (seen s.adapter old read) s.unanswered;
      })
  opens :
      (s : System) {F : Type 0} (infinity : F) (error : ℕ → ℕ → F) (at_least : F → F → Bool)
      (o : ConnectionOptions) (d : Device) (before cleanup : Shutdown)
      → Step s (record {
        adapter = (open_adapter infinity error at_least s.adapter o d before cleanup).0;
        unanswered = [];
      })
  closes :
      (s : System) (shutdown : Shutdown)
      → Step s (record { adapter = close s.adapter shutdown; unanswered = [] })

abbrev pub start : System
start = record { adapter = new; unanswered = [] }

pub data Reachable : System → Type 1 where
  here : Reachable start
  next_step : {s t : System} → Reachable s → Step s t → Reachable t
