-- ===== src/Hand/Ends.antt =====
-- The loops of src/hand.cpp that end by the clock: what they need of it and of the waits in them.
pub mod Homing
use roboparty_dexhand.Base.{
  ◌||◌, ltb, ℕ, zero, suc, ◌+◌, ◌*◌, ◌≤◌, ◌<◌, ◌≡◌, refl, Bool, true, false, not, ◌&&◌, Option,
  some, [], ◌∷◌, leb, ◌==◌, if_ind, option_ind, pos, arith,
}
use roboparty_dexhand.Session.State.{Snapshot, ms}
use roboparty_dexhand.Hand.World.{
  World, Trace, Operation, cancelled, failed, snapshot, pause, clock, command, reads_clock, sleeps,
  sees, asks_cancelled, awaits_status, all_set, set_control_mode, home_motors, counts_errors,
}
use roboparty_dexhand.Hand.Action.{
  Mode, is_enable, healthy, matches, operation, confirms, confirm_until, confirm, attempts_of,
  action, stop, disable,
}
use roboparty_dexhand.Hand.Home.{
  at_home, able, Retry, ends, watches, rests, restore_mode, retry, home_until, home,
}
use roboparty_dexhand.Hand.Jobs.{prepare_disconnect}

-- The least that the clock can say: it does not go back, and a pause that is not cut short takes its
-- time.
abbrev pub earliest : Trace → ℕ
earliest [] = 0
earliest (reads_clock now ∷ tr) = now
earliest (sleeps duration true ∷ tr) = earliest tr + duration * ms
earliest (_ ∷ tr) = earliest tr

-- The latest snapshot that was seen shows that every axis was observed to home.
abbrev pub last_observed : Trace → Bool
last_observed [] = false
last_observed (sees value ∷ tr) = all_set value.observed_home
last_observed (_ ∷ tr) = last_observed tr

-- Why `wait_for_status` is over: the job is cancelled, the deadline has come, there is a newer
-- status than `sequence`, or the receiver has failed; each as the loop of `confirm` then sees it.
abbrev pub Woken : World → ℕ → ℕ → Trace → Type 0
Woken w sequence deadline tr =
    let t1 = asks_cancelled (w.cancelled tr) ∷ tr in
    let t2 = reads_clock (w.clock t1) ∷ t1 in
    let t3 = sees (w.snapshot t2) ∷ t2 in
    (w.cancelled tr
      || leb deadline (w.clock t1)
      || ltb sequence (w.snapshot t2).sequence_statuses
      || w.failed t3)
    ≡ true

-- What `steady_clock` and the waits of a `condition_variable` promise, and the session: that an axis
-- was observed to home stays so during a job, and the numbers of statuses have a bound, such as that
-- of 64 bits.
pub record Timely (w : World) (bound : ℕ) : Type 0 where
  pub onward : (tr : Trace) → earliest tr ≤ w.clock tr
  pub cut : (duration : ℕ) (tr : Trace) → w.cancelled (sleeps duration false ∷ tr) ≡ true
  pub woken :
      (sequence deadline : ℕ) (tr : Trace)
      → Woken w sequence deadline (awaits_status sequence deadline ∷ tr)
  pub bounded : (tr : Trace) → (w.snapshot tr).sequence_statuses ≤ bound
  pub observed :
      (tr : Trace) → last_observed tr ≡ true → all_set (w.snapshot tr).observed_home ≡ true

-- There is a result.
abbrev pub Returns : Option Bool × Trace → Type 0
Returns r = (b : Bool) × (r.0 ≡ some b)

newer :
    (c late new broken : Bool)
    → (c || late || new || broken) ≡ true
    → c ≡ false
    → late ≡ false
    → broken ≡ false
    → new ≡ true
newer c late new broken e a b d = ground (arith, e, a, b, d)

module _ (w : World) (bound : ℕ) (timely : Timely w bound) where
  -- A round of `confirm` returns, if the rounds after its wait do.
  confirm_round :
      (fuel deadline baseline : ℕ) (predicate : Snapshot → Bool) (tr : Trace)
      → (let t1 = (cancelled w tr).1 in
          let t2 = (clock w t1).1 in
          let t3 = (snapshot w t2).1 in
          let sequence = (w.snapshot t2).sequence_statuses in
          w.cancelled tr ≡ false
          → leb deadline (w.clock t1) ≡ false
          → w.failed t3 ≡ false
          → Returns (
              confirm_until w fuel deadline baseline predicate
                (awaits_status sequence deadline ∷ (failed w t3).1)))
      → Returns (confirm_until w (suc fuel) deadline baseline predicate tr)
  unfolding confirm_until cancelled clock snapshot failed
  confirm_round fuel deadline baseline predicate tr rest =
      let t1 = (cancelled w tr).1 in
      let t2 = (clock w t1).1 in
      let t3 = (snapshot w t2).1 in
      if_ind Returns (w.cancelled tr) (λ _. (false, refl))
        λ e1.
          if_ind Returns (leb deadline (w.clock t1)) (λ _. (false, refl))
            λ e2.
              if_ind Returns (confirms baseline predicate (w.snapshot t2)) (λ _. (true, refl))
                λ _. if_ind Returns (w.failed t3) (λ _. (false, refl)) (λ e3. rest e1 e2 e3)

  -- After a wait, each round that goes on has seen a newer status.
  confirm_until-Returns :
      (fuel sequence deadline baseline : ℕ) (predicate : Snapshot → Bool) (tr : Trace)
      → sequence ≤ bound
      → bound < sequence + fuel
      → Woken w sequence deadline tr
      → Returns (confirm_until w fuel deadline baseline predicate tr)
  unfolding cancelled clock snapshot failed
  confirm_until-Returns zero sequence deadline baseline predicate tr low room woken =
      absurd (omega (arith, low, room))
  confirm_until-Returns (suc fuel) sequence deadline baseline predicate tr low room woken =
      let t1 = (cancelled w tr).1 in
      let t2 = (clock w t1).1 in
      let t3 = (snapshot w t2).1 in
      let next = (w.snapshot t2).sequence_statuses in
      confirm_round fuel deadline baseline predicate tr λ e1 e2 e3.
        let new : ltb sequence next ≡ true =
          newer (w.cancelled tr) (leb deadline (w.clock t1)) (ltb sequence next) (w.failed t3) woken
            e1 e2 e3 in
        confirm_until-Returns fuel next deadline baseline predicate _ (timely.bounded t2)
          (ground (arith, new, room)) (timely.woken next deadline (failed w t3).1)

  module _ (fuel : ℕ) (enough : bound + 2 ≤ fuel) where
    -- The first round comes before any wait.
    first_round :
        (fuel deadline baseline : ℕ) (predicate : Snapshot → Bool) (tr : Trace)
        → bound + 2 ≤ fuel
        → Returns (confirm_until w fuel deadline baseline predicate tr)
    unfolding cancelled clock snapshot failed
    first_round zero deadline baseline predicate tr h = absurd (omega (arith, h))
    first_round (suc fuel) deadline baseline predicate tr h =
        let t2 = (clock w (cancelled w tr).1).1 in
        let next = (w.snapshot t2).sequence_statuses in
        confirm_round fuel deadline baseline predicate tr λ e1 e2 e3.
          confirm_until-Returns fuel next deadline baseline predicate _ (timely.bounded t2)
            (omega (arith, h)) (timely.woken next deadline (failed w (snapshot w t2).1).1)

    confirm-Returns :
        (baseline : ℕ) (predicate : Snapshot → Bool) (tr : Trace)
        → Returns (confirm w fuel baseline predicate tr)
    unfolding confirm clock
    confirm-Returns baseline predicate tr =
        first_round fuel (w.clock tr + 500 * ms) baseline predicate (clock w tr).1 enough

    attempts_of-Returns :
        (attempts : ℕ) (mode : Mode) (tr : Trace) → Returns (attempts_of w fuel attempts mode tr)
    unfolding attempts_of
    attempts_of-Returns zero mode tr = (false, refl)
    attempts_of-Returns (suc attempts) mode tr =
        let t1 = (cancelled w tr).1 in
        let (before, t2) = snapshot w t1 in
        let (sent, t3) = command w (operation mode) t2 in
        let (rested, t5) = pause w 100 t3 in
        let c = confirm w fuel before.sequence_statuses (matches mode) t3 in
        if_ind Returns (cancelled w tr).0 (λ _. (false, refl))
          λ _.
            if_ind Returns (not sent)
              (λ _.
                if_ind Returns (not rested) (λ _. (false, refl))
                  (λ _. attempts_of-Returns attempts mode t5))
              (λ _.
                option_ind Returns c.0
                  (λ e.
                    let (b, z) = confirm-Returns before.sequence_statuses (matches mode) t3 in
                    absurd (ground (arith, e, z)))
                  (λ arrived _.
                    if_ind Returns arrived (λ _. (true, refl))
                      (λ _. attempts_of-Returns attempts mode c.1)))

    action-Returns :
        (mode : Mode) (attempts : ℕ) (tr : Trace) → Returns (action w fuel mode attempts tr)
    unfolding action
    action-Returns mode attempts tr =
        let (value, t1) = snapshot w tr in
        let (ok, t2) = command w (set_control_mode (pos 0)) t1 in
        if_ind Returns (is_enable mode && not (healthy value)) (λ _. (false, refl))
          λ _.
            if_ind Returns (value.state.feedback_valid && matches mode value) (λ _. (true, refl))
              λ _.
                if_ind Returns (is_enable mode && not (all_set value.stopped)) (λ _. (false, refl))
                  λ _.
                    if_ind Returns (is_enable mode && not ok) (λ _. (false, refl))
                      (λ _. attempts_of-Returns attempts mode _)

    prepare_disconnect-Returns : (tr : Trace) → Returns (prepare_disconnect w fuel tr)
    unfolding prepare_disconnect
    prepare_disconnect-Returns tr =
        let r = action w fuel stop 1 tr in
        let q = action w fuel disable 1 r.1 in
        option_ind Returns r.0
          (λ e. let (b, z) = action-Returns stop 1 tr in absurd (ground (arith, e, z)))
          (λ a _.
            option_ind Returns q.0
              (λ e. let (b, z) = action-Returns disable 1 r.1 in absurd (ground (arith, e, z)))
              (λ b _. (a && b, refl)))
