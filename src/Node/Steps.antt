-- ===== src/Node/Steps.antt =====
-- The threads of ros2/rphand_ros/src/rphand_node.cpp: the handlers that ROS calls, the manager thread
-- and the session thread that it starts and joins. A step is a block that holds `mutex_`.
use roboparty_dexhand.Base.{◌≡◌, Bool, true, false, List, ℤ}
use roboparty_dexhand.Node.{
  Shared, fresh, on_command, on_reset, on_exit, wakes, take_reset, not_started, finish_reset,
  is_exiting,
}

-- The session thread: in `reset`, in the loop of `run`, or joined, done or not there.
pub data Phase : Type 0 where
  initializing serving ended : Phase

-- The manager thread: in its wait, behind it, between its two blocks where it makes a thread, or past
-- its loop.
pub data Manager : Type 0 where
  waiting joining spawning left : Manager

pub record Node : Type 0 where
  pub shared : Shared
  pub session : Phase
  pub manager : Manager

-- The first session is `run(false)`.
abbrev pub start : Node
start = record { shared = fresh; session = serving; manager = waiting }

-- The join is the wait until the session has ended.
pub data Step : Node → Node → Type 0 where
  commands :
      (n : Node) (values : List ℤ) → Step n (record n { shared = on_command n.shared values })
  asks_reset : (n : Node) → Step n (record n { shared = (on_reset n.shared).0 })
  exits : (n : Node) → Step n (record n { shared = on_exit n.shared })
  wakes_up :
      (n : Node)
      → n.manager ≡ waiting
      → wakes n.shared ≡ true
      → Step n (record n { manager = joining })
  takes_reset :
      (n : Node)
      → n.manager ≡ joining
      → n.session ≡ ended
      → n.shared.exiting ≡ false
      → Step n (record n { shared = take_reset n.shared; manager = spawning })
  starts :
      (n : Node)
      → n.manager ≡ spawning
      → Step n (record n { session = initializing; manager = waiting })
  cannot_start :
      (n : Node)
      → n.manager ≡ spawning
      → Step n (record n { shared = not_started n.shared; manager = waiting })
  leaves :
      (n : Node)
      → n.manager ≡ joining
      → n.session ≡ ended
      → n.shared.exiting ≡ true
      → Step n (record n { manager = left })
  initializes :
      (n : Node) (success : Bool)
      → n.session ≡ initializing
      → Step n (record n { shared = finish_reset n.shared success; session = serving })
  stops :
      (n : Node) (ok : Bool)
      → n.session ≡ serving
      → is_exiting n.shared ok ≡ true
      → Step n (record n { session = ended })

-- One node after another.
pub data Run (n : Node) : Node → Type 0 where
  here : Run n n
  then_step : {m k : Node} → Run n m → Step m k → Run n k
