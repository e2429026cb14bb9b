-- ===== src/Hand/Configure/Laws.antt =====
-- When the feedback of the hand counts as configured.
use roboparty_dexhand.Base.{
  ℕ, zero, suc, ◌+◌, ◌*◌, ◌≡◌, Bool, true, not, ◌&&◌, List, [], ◌∷◌, ◌==◌, if◌then◌else◌, if_ind,
  arith, ap, All,
}
use roboparty_dexhand.Session.State.{SdoResult}
use roboparty_dexhand.Hand.World.{
  World, Trace, Event, requests, awaits, counts_errors, cancelled, failed, broken, pause, command,
  snapshot, Operation,
}
use roboparty_dexhand.Hand.Configure.{
  acknowledged, may_retry, period_attempts, write_feedback_period, write_periods,
  send_configuration, configure_feedback, period_indices,
}

-- One of the events says it.
pub data Happened (P : Event → Type 0) : Trace → Type 0 where
  here : {e : Event} {tr : Trace} → P e → Happened P (e ∷ tr)
  before : {e : Event} {tr : Trace} → Happened P tr → Happened P (e ∷ tr)

-- The device acknowledged the write to this index.
pub data WritesPeriod (index : ℕ) : Event → Type 0 where
  writes_period : (r : SdoResult) → acknowledged r ≡ true → WritesPeriod index (requests index r)

module _ {P : Event → Type 0} (w : World) where
  pub Happened-broken : (tr : Trace) → Happened P tr → Happened P (broken w tr).1
  unfolding broken cancelled failed
  Happened-broken tr h =
      if_ind (λ (q : Bool × Trace). Happened P q.1) (w.cancelled tr) (λ _. before h)
        (λ _. before (before h))

  pub Happened-pause :
      (duration : ℕ) (tr : Trace) → Happened P tr → Happened P (pause w duration tr).1
  unfolding pause
  Happened-pause duration tr h = before h

  pub Happened-command :
      (op : Operation) (tr : Trace) → Happened P tr → Happened P (command w op tr).1
  unfolding command
  Happened-command op tr h =
      if_ind (λ (q : Bool × Trace). Happened P q.1)
        (w.code (counts_errors (w.errors tr) ∷ tr) op == 0) (λ _. before (before (before h)))
        (λ _. before (before h))

  pub Happened-next :
      (left duration : ℕ) (tr : Trace)
      → Happened P tr
      → Happened P (if left == 0 then tr else (pause w duration tr).1)
  Happened-next left duration tr h =
      if_ind (Happened P) (left == 0) (λ _. h) (λ _. Happened-pause duration tr h)

  Happened-period_attempts :
      (left index : ℕ) (tr : Trace) → Happened P tr → Happened P (period_attempts w left index tr).1
  unfolding period_attempts
  Happened-period_attempts zero index tr h = h
  Happened-period_attempts (suc left) index tr h =
      let Q = λ (q : Bool × Trace). Happened P q.1 in
      let (b1, t1) = broken w tr in
      let r = w.period t1 index in
      let (b2, t2) = broken w (requests index r ∷ t1) in
      let h1 = Happened-broken tr h in
      let h2 = Happened-broken (requests index r ∷ t1) (before h1) in
      if_ind Q b1 (λ _. h1)
        λ _.
          if_ind Q b2 (λ _. h2)
            λ _.
              if_ind Q (acknowledged r) (λ _. h2)
                λ _.
                  if_ind Q (not (may_retry r)) (λ _. h2)
                    λ _.
                      if_ind Q (not (left == 0) && not (pause w 50 t2).0)
                        (λ _. Happened-pause 50 t2 h2)
                        λ _. Happened-period_attempts left index _ (Happened-next left 50 t2 h2)

  Happened-write_periods :
      (indices : List ℕ) (tr : Trace) → Happened P tr → Happened P (write_periods w indices tr).1
  unfolding write_periods write_feedback_period
  Happened-write_periods [] tr h = h
  Happened-write_periods (index ∷ indices) tr h =
      let h1 = Happened-period_attempts 3 index tr h in
      if_ind (λ (q : Bool × Trace). Happened P q.1) (period_attempts w 3 index tr).0
        (λ _. Happened-write_periods indices (period_attempts w 3 index tr).1 h1) (λ _. h1)

  Happened-send_configuration :
      (left : ℕ) (tr : Trace) → Happened P tr → Happened P (send_configuration w left tr).1
  unfolding send_configuration
  Happened-send_configuration zero tr h = h
  Happened-send_configuration (suc left) tr h =
      let Q = λ (q : Bool × Trace). Happened P q.1 in
      let t1 = (broken w tr).1 in
      let t2 = (command w Operation.configure_feedback t1).1 in
      let h1 = Happened-broken tr h in
      let h2 = Happened-command Operation.configure_feedback t1 h1 in
      if_ind Q (broken w tr).0 (λ _. h1)
        λ _.
          if_ind Q (not (command w Operation.configure_feedback t1).0) (λ _. h2)
            λ _.
              if_ind Q (not (left == 0) && not (pause w 5 t2).0) (λ _. Happened-pause 5 t2 h2)
                λ _. Happened-send_configuration left _ (Happened-next left 5 t2 h2)

  pub Happened-configure_feedback :
      (tr : Trace) → Happened P tr → Happened P (configure_feedback w tr).1
  unfolding configure_feedback snapshot
  Happened-configure_feedback tr h =
      let Q = λ (q : Bool × Trace). Happened P q.1 in
      let h1 = Happened-write_periods period_indices tr h in
      let t2 = (snapshot w (write_periods w period_indices tr).1).1 in
      let h3 = Happened-send_configuration 10 t2 (before h1) in
      if_ind Q (not (write_periods w period_indices tr).0) (λ _. h1)
        λ _. if_ind Q (not (send_configuration w 10 t2).0) (λ _. h3) (λ _. before h3)

-- The feedback period of each axis, 0x40 behind that of the axis before.
abbrev pub all_periods : List ℕ
all_periods =
    0x201d
    ∷ (0x201d + 0x40)
    ∷ (0x201d + 2 * 0x40)
    ∷ (0x201d + 3 * 0x40)
    ∷ (0x201d + 4 * 0x40)
    ∷ (0x201d + 5 * 0x40)
    ∷ []

module _ (w : World) where
  period_attempts-writes :
      (left index : ℕ) (tr : Trace)
      → (period_attempts w left index tr).0 ≡ true
      → Happened (WritesPeriod index) (period_attempts w left index tr).1
  unfolding period_attempts
  period_attempts-writes zero index tr = λ z. absurd (ground arith)
  period_attempts-writes (suc left) index tr =
      let Q = λ (q : Bool × Trace). q.0 ≡ true → Happened (WritesPeriod index) q.1 in
      let (b1, t1) = broken w tr in
      let r = w.period t1 index in
      let (b2, t2) = broken w (requests index r ∷ t1) in
      if_ind Q b1 (λ _ z. absurd (ground arith))
        λ _.
          if_ind Q b2 (λ _ z. absurd (ground arith))
            λ _.
              if_ind Q (acknowledged r)
                (λ e z. Happened-broken w (requests index r ∷ t1) (here (writes_period r e)))
                λ _.
                  if_ind Q (not (may_retry r)) (λ _ z. absurd (ground arith))
                    λ _.
                      if_ind Q (not (left == 0) && not (pause w 50 t2).0)
                        (λ _ z. absurd (ground arith)) λ _ z. period_attempts-writes left index _ z

  write_periods-writes :
      (indices : List ℕ) (tr : Trace)
      → (write_periods w indices tr).0 ≡ true
      → All (λ i. Happened (WritesPeriod i) (write_periods w indices tr).1) indices
  unfolding write_periods write_feedback_period
  write_periods-writes [] tr = λ z. tt
  write_periods-writes (index ∷ indices) tr =
      if_ind
        (λ (q : Bool × Trace).
          q.0 ≡ true → All (λ i. Happened (WritesPeriod i) q.1) (index ∷ indices))
        (period_attempts w 3 index tr).0
        (λ e z. (
          Happened-write_periods w indices (period_attempts w 3 index tr).1
              (period_attempts-writes 3 index tr e),
          write_periods-writes indices (period_attempts w 3 index tr).1 z,
        ))
        (λ _ z. absurd (ground arith))

  keep-All :
      (indices : List ℕ) (t1 : Trace) (answer : Bool)
      → All (λ i. Happened (WritesPeriod i) t1) indices
      → All
          (λ i.
            Happened
              (WritesPeriod i)
              (awaits answer ∷ (send_configuration w 10 (snapshot w t1).1).1))
          indices
  unfolding snapshot
  keep-All [] t1 answer h = tt
  keep-All (i ∷ indices) t1 answer h = (
    before (Happened-send_configuration w 10 (snapshot w t1).1 (before h.0)),
    keep-All indices t1 answer h.1,
  )

  -- When `configure_feedback` succeeds, the device has acknowledged the write of all six feedback
  -- periods, and the last thing it did was a wait in which both groups of feedback came.
  pub configure_feedback_acknowledged :
      (tr : Trace)
      → (configure_feedback w tr).0 ≡ true
      → let t = (configure_feedback w tr).1 in
        All (λ i. Happened (WritesPeriod i) t) all_periods
        × ((last : Trace) × (t ≡ awaits true ∷ last))
  unfolding configure_feedback
  configure_feedback_acknowledged tr =
      let Q = λ (q : Bool × Trace).
        q.0 ≡ true
        → All (λ i. Happened (WritesPeriod i) q.1) period_indices
          × ((last : Trace) × (q.1 ≡ awaits true ∷ last)) in
      let t1 = (write_periods w period_indices tr).1 in
      let t2 = (snapshot w t1).1 in
      let t3 = (send_configuration w 10 t2).1 in
      if_ind Q (not (write_periods w period_indices tr).0) (λ _ z. absurd (ground arith))
        λ written.
          if_ind Q (not (send_configuration w 10 t2).0) (λ _ z. absurd (ground arith))
            λ _ z. (
              keep-All period_indices t1 (w.awaited t3)
                  (write_periods-writes period_indices tr (ground (arith, written))),
              (t3, ap (λ (b : Bool). awaits b ∷ t3) z),
            )
