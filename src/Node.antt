-- ===== src/Node.antt =====
-- `DexHandNode` of ros2/rphand_ros/src/rphand_node.cpp: its parameters, and what `mutex_` guards with the
-- blocks that hold it. Messages and services come from ROS, which calls the handlers in any order.
pub mod Reset
pub mod Outcome
pub mod Serve
pub mod Steps
pub mod Invariant
pub mod Progress
pub mod Accepted
pub mod Rate
mod Examples
use roboparty_dexhand.Base.{
  ℕ, ◌/◌, Bool, true, false, not, ◌&&◌, ◌||◌, Option, none, some, List, ◌==◌, if◌then◌else◌, any,
  length, ℤ, pos, negsuc, at_most, eq_ℤ,
}
use roboparty_dexhand.Hand.Jobs.{outside}

-- The parameters that are read at the start; of the interface only whether it is empty.
pub record Parameters : Type 0 where
  pub interface_empty : Bool
  pub node_id : ℤ
  pub speed : ℤ
  pub current : ℤ
  pub torque_stop : Bool
  pub rate : ℤ

-- The two tests of the constructor; true means that it throws.
unfoldable pub refuses_rate : ℤ → Bool
refuses_rate rate =
    not (eq_ℤ rate (pos 50))
    && not (eq_ℤ rate (pos 100))
    && not (eq_ℤ rate (pos 150))
    && not (eq_ℤ rate (pos 200))

unfoldable pub refuses_parameters : Parameters → Bool
unfolding refuses_rate
refuses_parameters p =
    refuses_rate p.rate
    || p.interface_empty
    || at_most p.node_id 0
    || not (at_most p.node_id 127)
    || at_most p.speed 0
    || not (at_most p.speed 20000)
    || outside p.current 3000

-- `command_period_` in nanoseconds.
unfoldable pub command_period : ℤ → ℕ
command_period (pos rate) = 1000000000 / rate
command_period (negsuc n) = 0

-- The members that `mutex_` guards.
pub record Shared : Type 0 where
  pub reset_busy : Bool
  pub exiting : Bool
  pub pending_reset : Bool
  pub stop_requested : Bool
  pub accept_targets : Bool
  pub target : Option (List ℤ)

-- The members' initialisers.
abbrev pub fresh : Shared
fresh = record {
  reset_busy = false;
  exiting = false;
  pending_reset = false;
  stop_requested = false;
  accept_targets = false;
  target = none;
}

-- The handler of "cmd".
unfoldable pub on_command : Shared → List ℤ → Shared
on_command s values =
    if not (length values == 6) || any (λ v. outside v 10000) values
    then s
    else if not s.accept_targets || s.reset_busy || s.exiting
    then s
    else record s { target = some values }

-- The response of "reset": its `success`; a busy node says false.
unfoldable pub on_reset : Shared → Shared × Bool
on_reset s = if s.reset_busy || s.exiting then (s, false) else (
  record s {
    reset_busy = true;
    accept_targets = false;
    target = none;
    pending_reset = true;
    stop_requested = true;
  },
  true,
)

-- The locked block of the destructor.
unfoldable pub on_exit : Shared → Shared
on_exit s = record s { exiting = true; stop_requested = true; target = none }

-- What `manage` waits for.
abbrev pub wakes : Shared → Bool
wakes s = s.exiting || s.pending_reset

-- The second locked block of `manage`, for a node that is not exiting.
unfoldable pub take_reset : Shared → Shared
take_reset s = record s { pending_reset = false; stop_requested = false }

-- The handler of a thread that could not be started.
unfoldable pub not_started : Shared → Shared
not_started s = record s { reset_busy = false }

-- The locked block after `reset` in `run`, for what it reports.
unfoldable pub finish_reset : Shared → Bool → Shared
finish_reset s success = record s {
  reset_busy = false;
  accept_targets = success && not s.exiting && not s.stop_requested;
}

-- `exiting`; `ok` is what `rclcpp::ok` says.
abbrev pub is_exiting : Shared → Bool → Bool
is_exiting s ok = s.exiting || s.stop_requested || not ok
