-- ===== src/Hand/Queue.antt =====
-- The job queue of src/hand.cpp: `submit`, `run`, `disconnect` and the part of `connect` that starts
-- the worker, as steps between the locked blocks. What a job does is not part of this state.
pub mod Laws
pub mod Tokens
pub mod Admission
use roboparty_dexhand.Base.{
  ℕ, suc, ◌+◌, ◌-◌, ◌%◌, ◌^◌, ◌≡◌, Bool, true, false, not, ◌&&◌, ◌||◌, Option, none, some, List, [],
  ◌∷◌, ◌++◌, ◌==◌, if◌then◌else◌,
}

-- `Job`, without its function and its promise.
pub record Job : Type 0 where
  pub token : ℕ
  pub urgent : Bool

-- `running` is the job that the worker has taken off the queue, `alive` says that the worker has not
-- left its loop, `joinable` that it has not been joined.
pub record State : Type 0 where
  pub queue : List Job
  pub running : Option Job
  pub connected : Bool
  pub closing : Bool
  pub worker_exit : Bool
  pub ordinary_busy : Bool
  pub urgent_count : ℕ
  pub generation : ℕ
  pub alive : Bool
  pub joinable : Bool

-- The members' initialisers.
abbrev pub initial : State
initial = record {
  queue = [];
  running = none;
  connected = false;
  closing = false;
  worker_exit = false;
  ordinary_busy = false;
  urgent_count = 0;
  generation = 0;
  alive = false;
  joinable = false;
}

-- `++generation` on 64 bits.
abbrev pub next_generation : State → ℕ
next_generation s = (s.generation + 1) % 2 ^ 64

-- The test of a job before it runs and of its waits.
unfoldable pub cancelled : State → ℕ → Bool
cancelled s token = s.closing || not (s.generation == token)

unfoldable pub push_urgent : State → State
push_urgent s = record s {
  generation = next_generation s;
  urgent_count = (s.urgent_count + 1) % 2 ^ 32;
  queue = record { token = next_generation s; urgent = true } ∷ s.queue;
}

unfoldable pub push_ordinary : State → State
push_ordinary s = record s {
  ordinary_busy = true;
  queue = s.queue ++ record { token = s.generation; urgent = false } ∷ [];
}

-- The locked block of `submit`; `none` is a refusal.
unfoldable pub submit : State → Bool → Option State
submit s urgent =
    if not s.connected || s.closing || s.worker_exit
    then none
    else if not urgent && (s.ordinary_busy || not (s.urgent_count == 0))
    then none
    else some (if urgent then push_urgent s else push_ordinary s)

-- The first locked block of `run`, with a job in front.
unfoldable pub take : State → Job → List Job → State
take s job rest = record s { running = some job; queue = rest }

-- The last locked block of `run`.
unfoldable pub finish : State → Job → State
finish s job =
    if job.urgent
    then record s { running = none; urgent_count = (s.urgent_count + (2 ^ 32 - 1)) % 2 ^ 32 }
    else record s { running = none; ordinary_busy = false }

-- The end of `run`, with `cleanup`.
unfoldable pub leave : State → State
leave s = record s { alive = false; connected = false }

-- The locked block of `disconnect`.
unfoldable pub close : State → State
close s = record s {
  closing = true;
  connected = false;
  generation = next_generation s;
  worker_exit = true;
}

-- The locked block of `connect`, with `cleanup` where the worker cannot be started.
unfoldable pub start : State → Bool → State
start s starts =
    let begun = record s { closing = false; worker_exit = false; generation = next_generation s } in
    if starts
    then record begun {
      ordinary_busy = true;
      queue = s.queue ++ record { token = next_generation s; urgent = false } ∷ [];
      alive = true;
      joinable = true;
    }
    else record begun { queue = []; ordinary_busy = false; connected = false }

-- The steps of the callers and the worker. `opens` is where a job, `open_device`, writes `connected`.
pub data Step : State → State → Type 0 where
  submits : {s t : State} (urgent : Bool) → submit s urgent ≡ some t → Step s t
  takes :
      {s : State} (job : Job) (rest : List Job)
      → s.alive ≡ true
      → s.running ≡ none
      → s.queue ≡ job ∷ rest
      → Step s (take s job rest)
  finishes : {s : State} (job : Job) → s.running ≡ some job → Step s (finish s job)
  leaves :
      {s : State}
      → s.alive ≡ true
      → s.running ≡ none
      → s.queue ≡ []
      → s.worker_exit ≡ true
      → Step s (leave s)
  closes : {s : State} → Step s (close s)
  joins : {s : State} → s.alive ≡ false → Step s (record s { joinable = false })
  starts : {s : State} (ok : Bool) → s.joinable ≡ false → Step s (start s ok)
  opens :
      {s : State} (job : Job) (connected : Bool)
      → s.running ≡ some job
      → Step s (record s { connected = connected })

-- The states of a hand.
pub data Reachable : State → Type 0 where
  begins : Reachable initial
  goes : {s t : State} → Reachable s → Step s t → Reachable t
