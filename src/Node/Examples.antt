-- ===== src/Node/Examples.antt =====
-- The theorems on the node after a reset, with a target for the hand.
use roboparty_dexhand.Base.{
  ℕ, ◌+◌, ◌-◌, ◌*◌, ◌≡◌, ◌≤◌, ◌⊎◌, refl, true, false, some, List, [], ◌∷◌, length, ℤ, pos, arith,
}
use roboparty_dexhand.Hand.World.{World}
use roboparty_dexhand.Hand.Connect.{options_for, refuses_options}
use roboparty_dexhand.Hand.Parameter.{speed, current, parameter}
use roboparty_dexhand.Hand.Jobs.{set_speed, set_current_limit, set_positions, move_all}
use roboparty_dexhand.Session.State.{no_state, no_snapshot}
use roboparty_dexhand.Node.{
  Parameters, fresh, refuses_parameters, on_command, on_reset, take_reset, finish_reset,
}
use roboparty_dexhand.Node.Reset.{Sdk, returns, succeeds, ask, make, perform, initialize, reset}
use roboparty_dexhand.Node.Outcome.{Prepared, GaveUp, reset_cases}
use roboparty_dexhand.Node.Serve.{Turn, Deadlines, serve}
use roboparty_dexhand.Node.Rate.{count_sends, serve-rate}
use roboparty_dexhand.Node.Steps.{
  Node, start, initializing, serving, ended, waiting, joining, spawning, Run, here, then_step,
  commands, asks_reset, wakes_up, stops, takes_reset, starts, initializes,
}
use roboparty_dexhand.Node.Invariant.{Sound, Run-Sound}
use roboparty_dexhand.Node.Progress.{Completed, reset_completes}
use roboparty_dexhand.Node.Accepted.{sdk_accepts}

abbrev six : List ℤ
six = pos 0 ∷ pos 10000 ∷ pos 5 ∷ pos 6 ∷ pos 7 ∷ pos 8 ∷ []

abbrev asked_node : Node
asked_node = record start { shared = (on_reset fresh).0 }

abbrev woken : Node
woken = record asked_node { manager = joining }

abbrev stopped : Node
stopped = record woken { session = ended }

abbrev taken : Node
taken = record stopped { shared = take_reset stopped.shared; manager = spawning }

abbrev restarted : Node
restarted = record taken { session = initializing; manager = waiting }

abbrev ready : Node
ready = record restarted { shared = finish_reset restarted.shared true; session = serving }

abbrev targeted : Node
targeted = record ready { shared = on_command ready.shared six }

to_stopped : Run start stopped
unfolding on_reset
to_stopped =
    then_step (then_step (then_step here (asks_reset start)) (wakes_up asked_node refl refl))
      (stops woken true refl refl)

to_targeted : Run start targeted
unfolding on_reset
to_targeted =
    then_step
      (then_step
        (then_step (then_step to_stopped (takes_reset stopped refl refl refl)) (starts taken refl))
        (initializes restarted true refl))
      (commands ready six)

Run-Sound_example : Sound targeted
Run-Sound_example = Run-Sound targeted to_targeted

busy : stopped.shared.reset_busy ≡ true
unfolding on_reset
busy = refl

running : stopped.shared.exiting ≡ false
unfolding on_reset
running = refl

reset_completes_example : (m : Node) × Run stopped m × Completed true m
reset_completes_example = reset_completes stopped true to_stopped busy running

abbrev usual : Parameters
usual = record {
  interface_empty = false;
  node_id = pos 1;
  speed = pos 8000;
  current = pos 400;
  torque_stop = true;
  rate = pos 200;
}

takes_usual : refuses_parameters usual ≡ false
unfolding refuses_parameters
takes_usual = refl

keeps_six : targeted.shared.target ≡ some six
unfolding on_command on_reset take_reset finish_reset
keeps_six = refl

abbrev world : World
world = record {
  cancelled = λ tr. false;
  failed = λ tr. false;
  snapshot = λ tr. no_snapshot;
  errors = λ tr. 0;
  code = λ tr op. 0;
  rested = λ tr. true;
  opened = λ tr. true;
  clock = λ tr. 0;
  period = λ tr index. record { code = 0; value = 0; received = true; aborted = false };
  awaited = λ tr. true;
  cached = λ tr op. pos 0;
}

sdk_accepts_example :
    (refuses_options (options_for usual.interface_empty usual.node_id) ≡ false)
    × (set_speed world usual.speed ≡ some (parameter world speed usual.speed))
    × (set_current_limit world usual.current ≡ some (parameter world current usual.current))
    × (length six ≡ 6)
    × (set_positions world six ≡ some (move_all world six))
sdk_accepts_example = sdk_accepts world usual targeted six takes_usual to_targeted keeps_six

abbrev at_time : ℕ → Turn
at_time now = record {
  shared = targeted.shared;
  locked = now;
  sending = now;
  sent = now;
  stating = now;
  stated = now;
  exits = false;
  hand = some no_state;
}

abbrev deadlines : Deadlines
deadlines = record { next_command = 100; next_state = 100 }

serve-rate_example :
    count_sends (serve 50 (at_time 100 ∷ at_time 120 ∷ at_time 260 ∷ []) deadlines).1 * 50
    ≤ 260 - 100 + 50
serve-rate_example =
    serve-rate 260 50 (at_time 100 ∷ at_time 120 ∷ at_time 260 ∷ []) deadlines (omega arith)
      (omega arith) (omega arith)

abbrev willing : Sdk
willing = record {
  exiting = λ log. false;
  answer = λ log call. returns true;
  creates = true;
  connected = λ log. true;
}

succeeds_here : (reset willing usual []).0 ≡ true
unfolding reset ask initialize perform make succeeds
succeeds_here = refl

reset_cases_example : Prepared usual (reset willing usual []) ⊎ GaveUp (reset willing usual [])
reset_cases_example = reset_cases willing usual
