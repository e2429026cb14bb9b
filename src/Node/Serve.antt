-- ===== src/Node/Serve.antt =====
-- `advance` and the loop of `run` in ros2/rphand_ros/src/rphand_node.cpp, one turn at a time; times are
-- nanoseconds of the steady clock.
use roboparty_dexhand.Base.{
  ℕ, ◌+◌, ◌-◌, ◌*◌, ◌/◌, Bool, not, ◌&&◌, Option, none, some, List, [], ◌∷◌, ◌++◌, leb,
  if◌then◌else◌, ℤ,
}
use roboparty_dexhand.Session.State.{HandState, no_state}
use roboparty_dexhand.Node.{Shared}

unfoldable pub advance : ℕ → ℕ → ℕ → ℕ
advance deadline period now =
    if leb deadline now then deadline + period * ((now - deadline) / period + 1) else deadline

-- The fields of the message that `publish_state` copies.
pub record Message : Type 0 where
  pub feedback_valid : Bool
  pub positions : List ℕ
  pub velocities : List ℤ
  pub currents : List ℤ
  pub enabled : List Bool
  pub homed : List Bool
  pub torque_reached : List Bool
  pub fault_codes : List ℕ

unfoldable pub message_of : HandState → Message
message_of s = record {
  feedback_valid = s.feedback_valid;
  positions = s.positions;
  velocities = s.velocities;
  currents = s.currents;
  enabled = s.enabled;
  homed = s.homed;
  torque_reached = s.torque_reached;
  fault_codes = s.fault_codes;
}

-- `hand_ ? hand_->get_state() : HandState{}`.
abbrev pub state_of : Option HandState → HandState
state_of none = no_state
state_of (some s) = s

pub data Output : Type 0 where
  sends : List ℤ → Output
  publishes : Message → Output

-- What a turn that does not leave the loop sees: `mutex_`'s members, the clock at its five calls, what
-- `exiting` says, and the state of the hand, if there is one.
pub record Turn : Type 0 where
  pub shared : Shared
  pub locked : ℕ
  pub sending : ℕ
  pub sent : ℕ
  pub stating : ℕ
  pub stated : ℕ
  pub exits : Bool
  pub hand : Option HandState

pub record Deadlines : Type 0 where
  pub next_command : ℕ
  pub next_state : ℕ

-- The calls of `set_positions`: none without a target or a hand.
unfoldable pub send_target : Option (List ℤ) → Option HandState → List Output
send_target none hand = []
send_target (some values) none = []
send_target (some values) (some s) = sends values ∷ []

-- The first half of a turn: the read of the target under the lock, and the block for a command.
unfoldable pub command_turn : ℕ → Turn → ℕ → ℕ × List Output
command_turn period t next_command =
    let target = if leb next_command t.locked then t.shared.target else none in
    if leb next_command t.sending
    then (advance next_command period t.sent, send_target target t.hand)
    else (next_command, [])

-- `20ms`.
abbrev pub state_period : ℕ
state_period = 20000000

-- The second half: the block for the state.
unfoldable pub state_turn : Turn → ℕ → ℕ × List Output
state_turn t next_state =
    if leb next_state t.stating && not t.exits
    then (advance next_state state_period t.stated, publishes (message_of (state_of t.hand)) ∷ [])
    else (next_state, [])

unfoldable pub turn : ℕ → Turn → Deadlines → Deadlines × List Output
turn period t d =
    let (next_command, commands) = command_turn period t d.next_command in
    let (next_state, states) = state_turn t d.next_state in
    (record { next_command = next_command; next_state = next_state }, commands ++ states)

-- The turns of the loop in their order, and all that they put out.
unfoldable pub serve : ℕ → List Turn → Deadlines → Deadlines × List Output
serve period [] d = (d, [])
serve period (t ∷ turns) d =
    let (d1, first) = turn period t d in
    let (d2, rest) = serve period turns d1 in (d2, first ++ rest)
