-- ===== src/Hand/Ends/Homing.antt =====
-- The end of `home`, and of every job that waits.
use roboparty_dexhand.Base.{
  ℕ, zero, suc, ◌+◌, ◌*◌, ◌≤◌, ◌≡◌, refl, Bool, true, false, not, ◌&&◌, some, ◌⊎◌, inl, inr,
  if◌then◌else◌, ◌∷◌, leb, ◌==◌, if_ind, pos, arith,
}
use roboparty_dexhand.Session.State.{Snapshot, ms}
use roboparty_dexhand.Hand.World.{
  World, Trace, Operation, cancelled, snapshot, pause, clock, command, all_set, home_motors,
  counts_errors,
}
use roboparty_dexhand.Hand.Action.{Mode, action}
use roboparty_dexhand.Hand.Home.{
  at_home, able, Retry, ends, watches, rests, restore_mode, retry, home_until, home,
}
use roboparty_dexhand.Hand.Jobs.{prepare_disconnect}
use roboparty_dexhand.Hand.Ends.{
  earliest, last_observed, Timely, Returns, action-Returns, prepare_disconnect-Returns,
}

-- Time for the rounds that are left: two for each ten milliseconds, and one if the axes were just
-- seen to have homed.
abbrev Enough : ℕ → ℕ → Trace → Type 0
Enough fuel deadline tr =
    deadline + (if last_observed tr then 5 * ms else 10 * ms) ≤ earliest tr + 5 * ms * fuel

slack_low : (b : Bool) → 5 * ms ≤ (if b then 5 * ms else 10 * ms)
slack_low true = omega arith
slack_low false = omega arith

slack_high : (b : Bool) → (if b then 5 * ms else 10 * ms) ≤ 10 * ms
slack_high true = omega arith
slack_high false = omega arith

module _ (w : World) (bound : ℕ) (timely : Timely w bound) where
  -- There is a round left, with enough time, or for the cancellation.
  abbrev Ready : ℕ → ℕ → Trace → Type 0
  Ready fuel deadline tr = (1 ≤ fuel) × (Enough fuel deadline tr ⊎ (w.cancelled tr ≡ true))

  earliest-command : (op : Operation) (tr : Trace) → earliest (command w op tr).1 ≡ earliest tr
  unfolding command
  earliest-command op tr =
      if_ind (λ (r : Bool × Trace). earliest r.1 ≡ earliest tr)
        (w.code (counts_errors (w.errors tr) ∷ tr) op == 0) (λ _. refl) (λ _. refl)

  -- The loop goes on with a clock that has not gone back, and without a pause only when the axes have
  -- homed since the snapshot `value`.
  abbrev Later : ℕ → Snapshot → Retry → Type 0
  Later now value (ends tr) = Unit
  Later now value (watches n at tr) =
      (now ≤ earliest tr) × (last_observed tr ≡ true) × (all_set value.observed_home ≡ false)
  Later now value (rests n at tr) = now ≤ earliest tr

  late_and_missing : (a b : Bool) → not (a && not b) ≡ false → b ≡ false
  late_and_missing a b e = ground (arith, e)

  retry-Later :
      (attempts retry_at : ℕ) (value : Snapshot) (tr : Trace)
      → Later (earliest tr) value (retry w attempts retry_at value tr)
  unfolding retry clock cancelled snapshot
  retry-Later attempts retry_at value tr =
      let P = Later (earliest tr) value in
      let now = w.clock tr in
      let t1 = (clock w tr).1 in
      let t2 = (cancelled w t1).1 in
      let (again, t3) = snapshot w t2 in
      let t4 = (command w (home_motors (pos 0)) t3).1 in
      let more = timely.onward tr in
      let more_later = timely.onward t4 in
      let same = earliest-command (home_motors (pos 0)) t3 in
      if_ind P (not (leb retry_at now && not (all_set value.observed_home))) (λ _. more)
        λ missing.
          if_ind P (cancelled w t1).0 (λ _. tt)
            λ _.
              if_ind P (all_set again.observed_home)
                (λ seen. (
                  more,
                  seen,
                  late_and_missing (leb retry_at now) (all_set value.observed_home) missing,
                ))
                λ _.
                  if_ind P (leb 30 attempts) (λ _. tt) (λ _. omega (arith, more, more_later, same))

  -- What is left after a round, when it ended with a pause, or with axes that have homed.
  after_pause :
      (rested : Bool) (fuel deadline now : ℕ) (t5 : Trace)
      → w.rested t5 ≡ rested
      → deadline ≤ now + 5 * ms * fuel
      → leb deadline now ≡ false
      → now ≤ earliest t5
      → Ready fuel deadline (pause w 10 t5).1
  unfolding pause
  after_pause true fuel deadline now t5 e time early l =
      let high = slack_high (last_observed t5) in
      rw e (ground (arith, time, early), inl (omega (arith, time, l, high)))
  after_pause false fuel deadline now t5 e time early l =
      rw e (ground (arith, time, early), inr (timely.cut 10 t5))

  after_watch :
      (fuel deadline now : ℕ) (t5 : Trace)
      → deadline + 5 * ms ≤ now + 5 * ms * fuel
      → leb deadline now ≡ false
      → now ≤ earliest t5
      → last_observed t5 ≡ true
      → Ready fuel deadline t5
  after_watch fuel deadline now t5 time early l seen =
      (ground (arith, time, early), inl (rw seen (omega (arith, time, l))))

  module _ (fuel deadline now : ℕ) (value : Snapshot) where
    -- The rest of a round of `home`, when the rounds after it return.
    goes_on :
        ((n at : ℕ) (t5 : Trace)
          → Ready fuel deadline t5
          → Returns (home_until w fuel deadline n at t5))
        → deadline ≤ now + 5 * ms * fuel
        → (all_set value.observed_home ≡ false → deadline + 5 * ms ≤ now + 5 * ms * fuel)
        → leb deadline now ≡ false
        → (r : Retry) → Later now value r
        → Returns (elim r [
          | ends t5 ↦ (some false, t5)
          | watches n at t5 ↦ home_until w fuel deadline n at t5
          | rests n at t5 ↦ home_until w fuel deadline n at (pause w 10 t5).1
        ])
    goes_on rest time more early (ends t5) l = (false, refl)
    goes_on rest time more early (watches n at t5) l =
        rest n at t5 (after_watch fuel deadline now t5 (more l.2) early l.0 l.1)
    goes_on rest time more early (rests n at t5) l =
        rest n at (pause w 10 t5).1
          (after_pause (w.rested t5) fuel deadline now t5 refl time early l)

  not_observed :
      (tr : Trace) → all_set (w.snapshot tr).observed_home ≡ false → last_observed tr ≡ false
  not_observed tr e = by (last_observed tr) refl
    where
      by : (b : Bool) → last_observed tr ≡ b → b ≡ false
      by true h = let all = timely.observed tr h in absurd (ground (arith, all, e))
      by false h = refl

  time_left :
      (fuel deadline e now : ℕ) (seen : Bool)
      → deadline + (if seen then 5 * ms else 10 * ms) ≤ e + 5 * ms * suc fuel
      → e ≤ now
      → deadline ≤ now + 5 * ms * fuel
  time_left fuel deadline e now seen h l = let low = slack_low seen in omega (arith, h, l, low)

  more_left :
      (fuel deadline e now : ℕ) (seen : Bool)
      → deadline + (if seen then 5 * ms else 10 * ms) ≤ e + 5 * ms * suc fuel
      → e ≤ now
      → seen ≡ false
      → deadline + 5 * ms ≤ now + 5 * ms * fuel
  more_left fuel deadline e now true h l z = absurd (ground (arith, z))
  more_left fuel deadline e now false h l z = omega (arith, h, l)

  enough_of : (tr : Trace) (P : Type 0) → P ⊎ (w.cancelled tr ≡ true) → w.cancelled tr ≡ false → P
  enough_of tr P (inl p) e = p
  enough_of tr P (inr c) e = absurd (ground (arith, c, e))

  home_until-Returns :
      (fuel deadline attempts retry_at : ℕ) (tr : Trace)
      → Ready fuel deadline tr
      → Returns (home_until w fuel deadline attempts retry_at tr)
  unfolding home_until clock cancelled snapshot
  home_until-Returns zero deadline attempts retry_at tr h = absurd (ground (arith, h))
  home_until-Returns (suc fuel) deadline attempts retry_at tr h =
      let t1 = (cancelled w tr).1 in
      let now = w.clock t1 in
      let t2 = (clock w t1).1 in
      let (value, t3) = snapshot w t2 in
      let onward = timely.onward t1 in
      if_ind Returns (w.cancelled tr) (λ _. (false, refl))
        λ c.
          if_ind Returns (leb deadline now) (λ _. (false, refl))
            λ early.
              if_ind Returns (not (able value)) (λ _. (false, refl))
                λ _.
                  if_ind Returns (at_home value) (λ _. ((restore_mode w 30 true t3).0, refl))
                    (λ _.
                      let time = enough_of tr (Enough (suc fuel) deadline tr) h.1 c in
                      goes_on fuel deadline now value
                        (λ n at t5 g. home_until-Returns fuel deadline n at t5 g)
                        (time_left fuel deadline (earliest tr) now (last_observed tr) time onward)
                        (λ z.
                          more_left fuel deadline (earliest tr) now (last_observed tr) time onward
                            (not_observed t2 z))
                        early (retry w attempts retry_at value t3)
                        (retry-Later attempts retry_at value t3))

  home-Returns : (fuel : ℕ) (tr : Trace) → 12002 ≤ fuel → Returns (home w fuel tr)
  unfolding home clock
  home-Returns fuel tr enough =
      let t2 = (command w (home_motors (pos 0)) (cancelled w tr).1).1 in
      let t3 = (clock w t2).1 in
      let t4 = (clock w t3).1 in
      let onward = timely.onward t3 in
      let high = slack_high (last_observed t4) in
      if_ind Returns (cancelled w tr).0 (λ _. (false, refl))
        (λ _.
          home_until-Returns fuel (w.clock t2 + 60000 * ms) 1 (w.clock t3 + 1000 * ms) t4
            (omega (arith, enough), inl (omega (arith, enough, onward, high))))

-- When the clock does not go back, a pause takes its time unless the job is cancelled, a wait for a
-- status ends only for one of its reasons, axes that were observed to home stay observed, and the
-- numbers of the statuses have a bound, then fuel for 12002 rounds and for two more than the bound is
-- enough: `home`, `action` in each mode with any number of attempts, and `prepare_disconnect` return a
-- result.
pub jobs-Returns :
    (w : World) (bound fuel attempts : ℕ) (mode : Mode) (tr : Trace)
    → Timely w bound
    → 12002 ≤ fuel
    → bound + 2 ≤ fuel
    → Returns (home w fuel tr)
      × Returns (action w fuel mode attempts tr)
      × Returns (prepare_disconnect w fuel tr)
jobs-Returns w bound fuel attempts mode tr timely minute enough = (
  home-Returns w bound timely fuel tr minute,
  action-Returns w bound timely fuel enough mode attempts tr,
  prepare_disconnect-Returns w bound timely fuel enough tr,
)
