-- ===== src/Hand/Configure.antt =====
-- `write_feedback_period` and `configure_feedback` of src/hand.cpp.
pub mod Laws
use roboparty_dexhand.Base.{
  ℕ, zero, suc, Bool, true, false, not, ◌&&◌, ◌||◌, List, [], ◌∷◌, ◌==◌, if◌then◌else◌,
}
use roboparty_dexhand.Session.State.{SdoResult}
use roboparty_dexhand.Hand.World.{
  World, Trace, Event, requests, awaits, cancelled, broken, pause, command, Operation,
}

-- `response.code == 0 && response.received && !response.aborted`.
abbrev pub acknowledged : SdoResult → Bool
acknowledged r = (r.code == 0) && r.received && not r.aborted

-- A send failure or an unanswered request may be tried again.
abbrev pub may_retry : SdoResult → Bool
may_retry r = not r.aborted && (r.code == 6 || ((r.code == 7) && not r.received))

abbrev pub period_indices : List ℕ
period_indices = 0x201d ∷ 0x205d ∷ 0x209d ∷ 0x20dd ∷ 0x211d ∷ 0x215d ∷ []

module _ (w : World) where
  -- The loop with the attempts that are left.
  unfoldable pub period_attempts : ℕ → ℕ → Trace → Bool × Trace
  period_attempts zero index tr = (false, tr)
  period_attempts (suc left) index tr =
      let (b1, t1) = broken w tr in
      let r = w.period t1 index in
      let (b2, t2) = broken w (requests index r ∷ t1) in
      let (rested, t3) = pause w 50 t2 in
      let again = period_attempts left index (if left == 0 then t2 else t3) in
      if b1
      then (false, t1)
      else if b2
      then (false, t2)
      else if acknowledged r
      then (true, t2)
      else if not (may_retry r)
      then (false, t2)
      else if not (left == 0) && not rested
      then (false, t3)
      else again

  unfoldable pub write_feedback_period : ℕ → Trace → Bool × Trace
  write_feedback_period index tr = period_attempts 3 index tr

  -- The first loop of `configure_feedback`.
  unfoldable pub write_periods : List ℕ → Trace → Bool × Trace
  write_periods [] tr = (true, tr)
  write_periods (index ∷ indices) tr =
      let (ok, t1) = write_feedback_period index tr in
      let rest = write_periods indices t1 in if ok then rest else (false, t1)

  -- The second loop, with the rounds that are left.
  unfoldable pub send_configuration : ℕ → Trace → Bool × Trace
  send_configuration zero tr = (true, tr)
  send_configuration (suc left) tr =
      let (b, t1) = broken w tr in
      let (sent, t2) = command w Operation.configure_feedback t1 in
      let (rested, t3) = pause w 5 t2 in
      let rest = send_configuration left (if left == 0 then t2 else t3) in
      if b
      then (false, t1)
      else if not sent
      then (false, t2)
      else if not (left == 0) && not rested
      then (false, t3)
      else rest

  -- `wait_for_feedback` stands for the wait for both groups of feedback, which other threads bring.
  unfoldable pub configure_feedback : Trace → Bool × Trace
  configure_feedback tr =
      let (written, t1) = write_periods period_indices tr in
      let (_, t2) = roboparty_dexhand.Hand.World.snapshot w t1 in
      let (sent, t3) = send_configuration 10 t2 in
      if not written
      then (false, t1)
      else if not sent
      then (false, t3)
      else (w.awaited t3, awaits (w.awaited t3) ∷ t3)
