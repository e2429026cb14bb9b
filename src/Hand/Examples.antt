-- ===== src/Hand/Examples.antt =====
-- The theorems on the hand in a world where every call succeeds.
use roboparty_dexhand.Base.{
  Bool, ℕ, ◌+◌, ◌≡◌, ◌⊎◌, refl, true, false, some, none, [], ◌∷◌, All, arith, pos, replicate, List,
  ℤ,
}
use roboparty_dexhand.Session.State.{Snapshot, no_snapshot, no_state}
use roboparty_dexhand.Hand.World.{
  World, Trace, cancelled, failed, broken, snapshot, pause, clock, command, awaits, awaits_status,
  sleeps, move_motors,
}
use roboparty_dexhand.Hand.Configure.{
  configure_feedback, write_periods, write_feedback_period, period_attempts, send_configuration,
}
use roboparty_dexhand.Hand.Configure.Laws.{
  Happened, WritesPeriod, all_periods, configure_feedback_acknowledged,
}
use roboparty_dexhand.Hand.Action.{action, enable, healthy, matches}
use roboparty_dexhand.Hand.Action.Laws.{Shows, action-Shows}
use roboparty_dexhand.Hand.Parameter.{
  speed, parameter, getter, ids, parameter_attempts, read_caches, apply_for,
}
use roboparty_dexhand.Hand.Parameter.Laws.{ReadsBack, parameter-ReadsBack}
use roboparty_dexhand.Hand.Home.{home, home_until, restore_mode}
use roboparty_dexhand.Hand.Home.Laws.{ShowsHome, home-ShowsHome}
use roboparty_dexhand.Hand.Ends.{earliest, Timely, Returns}
use roboparty_dexhand.Hand.Ends.Homing.{jobs-Returns}
use roboparty_dexhand.Hand.Connect.{open_device, prepare, check}
use roboparty_dexhand.Hand.Connect.Laws.{Tells, open_device-Tells}
use roboparty_dexhand.Hand.Jobs.{
  set_positions, move_all, target_all, unless_cancelled, prepare_disconnect,
}
use roboparty_dexhand.Hand.Jobs.Laws.{InStroke, made, targets, set_positions-made}
use roboparty_dexhand.Hand.Queue.{
  State, initial, submit, Reachable, begins, goes, starts, start, takes, take, opens, finishes,
  finish, submits, Job, push_ordinary,
}
use roboparty_dexhand.Hand.Queue.Laws.{Counted, Reachable-Counted}
use roboparty_dexhand.Hand.Queue.Admission.{submit_exclusive, LetIn, submit_urgent}

abbrev enabled_hand : Snapshot
enabled_hand = record no_snapshot {
  state = record no_state { enabled = replicate 6 true; feedback_valid = true };
  stopped = replicate 6 true;
}

abbrev willing : World
willing = record {
  cancelled = λ tr. false;
  failed = λ tr. false;
  snapshot = λ tr. enabled_hand;
  errors = λ tr. 0;
  code = λ tr op. 0;
  rested = λ tr. true;
  opened = λ tr. true;
  clock = λ tr. 0;
  period = λ tr index. record { code = 0; value = 0; received = true; aborted = false };
  awaited = λ tr. true;
  cached = λ tr op. pos 5000;
}

configured : (configure_feedback willing []).0 ≡ true
unfolding configure_feedback write_periods write_feedback_period period_attempts send_configuration
    broken cancelled failed pause command
configured = refl

configure_feedback_acknowledged_example :
    let t = (configure_feedback willing []).1 in
    All (λ i. Happened (WritesPeriod i) t) all_periods × ((last : Trace) × (t ≡ awaits true ∷ last))
configure_feedback_acknowledged_example = configure_feedback_acknowledged willing [] configured

acted : (action willing 1 enable 30 []).0 ≡ some true
unfolding action snapshot matches
acted = refl

action-Shows_example :
    Happened (Shows enable) (action willing 1 enable 30 []).1
    × ((true ≡ false) ⊎ (healthy enabled_hand ≡ true))
action-Shows_example = action-Shows willing enable 1 30 [] acted

confirmed : (parameter willing speed (pos 5000) []).0 ≡ true
unfolding parameter parameter_attempts cancelled command apply_for read_caches
confirmed = refl

parameter-ReadsBack_example :
    All
      (λ id.
        Happened (ReadsBack (getter speed id) (pos 5000)) (parameter willing speed (pos 5000) []).1)
      (ids speed)
parameter-ReadsBack_example = parameter-ReadsBack willing speed (pos 5000) [] confirmed

abbrev homed_hand : Snapshot
homed_hand = record enabled_hand {
  state = record enabled_hand.state { homed = replicate 6 true };
  observed_home = replicate 6 true;
}

abbrev homed : World
homed = record willing { snapshot = λ tr. homed_hand }

arrived : (home homed 1 []).0 ≡ some true
unfolding home home_until restore_mode snapshot cancelled command pause clock
arrived = refl

home-ShowsHome_example : Happened ShowsHome (home homed 1 []).1
home-ShowsHome_example = home-ShowsHome homed 1 [] arrived

-- A hand whose `connect` is through.
abbrev job : Job
job = record { token = 1; urgent = false }

abbrev ready : State
ready = finish (record (take (start initial true) job []) { connected = true }) job

ready-Reachable : Reachable ready
unfolding start take
ready-Reachable =
    goes
      (goes (goes (goes begins (starts true refl)) (takes job [] refl refl refl))
        (opens job true refl))
      (finishes job refl)

Reachable-Counted_example : Counted ready
Reachable-Counted_example = Reachable-Counted ready-Reachable

abbrev busy : State
busy = record ready { ordinary_busy = true; queue = job ∷ [] }

let_in : submit ready false ≡ some busy
unfolding submit start take finish push_ordinary
let_in = refl

submit_exclusive_example : (ready.queue ≡ []) × (ready.running ≡ none)
unfolding start take finish
submit_exclusive_example = submit_exclusive ready-Reachable (omega arith) let_in

-- An ordinary job runs.
abbrev occupied : State
occupied = take busy job []

unfoldable occupied_path : Reachable occupied
unfolding start take finish submit push_ordinary
occupied_path =
    goes
      (goes
        (goes
          (goes (goes (goes begins (starts true refl)) (takes job [] refl refl refl))
            (opens job true refl))
          (finishes job refl))
        (submits {t = busy} false refl))
      (takes job [] refl refl refl)

submit_urgent_example : (t : State) × (j : Job) × LetIn occupied t j
unfolding start take finish occupied_path
submit_urgent_example = submit_urgent occupied_path (omega arith) refl refl

open_device-Tells_example : Tells willing (pos 1) (open_device willing (pos 1) [])
open_device-Tells_example = open_device-Tells willing (pos 1) []

opened : (open_device willing (pos 1) []).0 ≡ true
unfolding open_device prepare check configure_feedback write_periods write_feedback_period
    period_attempts send_configuration broken cancelled failed pause command
opened = refl

abbrev fist : List ℤ
fist = pos 10000 ∷ pos 0 ∷ pos 0 ∷ pos 0 ∷ pos 0 ∷ pos 5000 ∷ []

fist_taken : set_positions willing fist ≡ some (move_all willing fist)
unfolding set_positions
fist_taken = refl

set_positions-made_example :
    All InStroke fist
    × ((move_all willing fist []).0 ≡ true
        → made (move_all willing fist []).1 ≡ (move_motors (pos 0), 0) ∷ targets 1 fist [])
set_positions-made_example = set_positions-made willing fist (move_all willing fist) [] fist_taken

fist_made : (move_all willing fist []).0 ≡ true
unfolding move_all target_all unless_cancelled cancelled command
fist_made = refl

-- The deadlines that were waited for, one after the other.
abbrev waited : Trace → ℕ
waited [] = 0
waited (awaits_status sequence deadline ∷ tr) = waited tr + deadline
waited (_ ∷ tr) = waited tr

-- The latest pause was cut short.
abbrev was_cut : Trace → Bool
was_cut (sleeps duration false ∷ tr) = true
was_cut _ = false

-- The same world with a clock that moves in pauses and waits, and with axes that have homed.
abbrev timely : World
timely = record willing {
  clock = λ tr. earliest tr + waited tr;
  cancelled = was_cut;
  snapshot = λ tr. record enabled_hand { observed_home = replicate 6 true };
}

timely-Timely : Timely timely 0
timely-Timely = record {
  onward = λ tr. omega arith;
  cut = λ duration tr. refl;
  woken = λ sequence deadline tr. ground arith;
  bounded = λ tr. omega arith;
  observed = λ tr e. refl;
}

jobs-Returns_example :
    Returns (home timely 12002 [])
    × Returns (action timely 12002 enable 30 [])
    × Returns (prepare_disconnect timely 12002 [])
jobs-Returns_example =
    jobs-Returns timely 0 12002 30 enable [] timely-Timely (omega arith) (omega arith)
