-- ===== src/Session/Sending.antt =====
-- Sending in src/rphand/session.cpp: `send`, `emit`, `configure_feedback`, `recover_stop` and `close`.
use roboparty_dexhand.Base.{ℕ, ◌+◌, true, false, Option, none, some, ◌∷◌, if◌then◌else◌, length, ℤ}
use roboparty_dexhand.Protocol.Encode.{
  Bytes, Command, config, command_payload, stop_recovery_payload,
}
use roboparty_dexhand.Session.State.{Session, Callback, CallResult, accepted, refused, threw}

-- Stands for an exception that leaves the call; the codes of the source are below it.
abbrev pub thrown : ℕ
thrown = 256

abbrev pub code_of : CallResult → ℕ
code_of accepted = 0
code_of refused = 6
code_of threw = 6

unfoldable pub send_by : Option Callback → Session → ℕ → Bytes → Session × ℕ
send_by none s id bytes = (s, 6)
send_by (some callback) s id bytes = (
  record s { calls = record { id = id; payload = bytes } ∷ s.calls },
  code_of (callback (length s.calls) id bytes),
)

unfoldable pub send : Session → ℕ → Bytes → Session × ℕ
unfolding send_by
send s base bytes = if s.rx.closed then (s, 2) else send_by s.callback s (base + s.rx.node) bytes

-- `none` stands for a payload whose encoder threw.
unfoldable pub send_payload : Session → ℕ → Option Bytes → Session × ℕ
unfolding send
send_payload s base none = (s, thrown)
send_payload s base (some bytes) = send s base bytes

unfoldable pub emit : Session → Command → ℕ → Session × ℕ
unfolding send_payload
emit s command frame =
    send_payload s 0x500 (command_payload command (record { axes = s.axes }) frame)

unfoldable pub configure_feedback : Session → Session × ℕ
unfolding emit
configure_feedback s = emit s config 2

unfoldable pub recover_stop : Session → ℤ → Session × ℕ
unfolding send_payload
recover_stop s control = send_payload s 0x500 (stop_recovery_payload control)

-- The receiver thread is joined and the transport closed; both are outside the session's state.
unfoldable pub close : Session → Session
close s = record s { rx = record (s.rx) { closed = true; ready = false } }
