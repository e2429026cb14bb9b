-- ===== src/Hand/Action/Laws.antt =====
-- What a successful action has seen.
use roboparty_dexhand.Base.{
  ℕ, zero, ◌⊎◌, suc, ◌+◌, ◌*◌, ◌≡◌, ap, Bool, true, false, not, ◌&&◌, Option, none, some, ltb, leb,
  if◌then◌else◌, if_ind, arith, pos, ◌∷◌,
}
use roboparty_dexhand.Session.State.{Snapshot, ms}
use roboparty_dexhand.Hand.World.{
  World, Trace, Event, sees, awaits_status, cancelled, failed, snapshot, pause, clock, command,
  all_set, set_control_mode,
}
use roboparty_dexhand.Hand.Configure.Laws.{Happened, here}
use roboparty_dexhand.Hand.Action.{
  healthy, Mode, is_enable, matches, operation, confirms, confirm_until, confirm, attempts_of,
  action,
}

-- A snapshot with valid feedback that matches the mode was seen.
pub data Shows (mode : Mode) : Event → Type 0 where
  shows :
      (s : Snapshot) → s.state.feedback_valid ≡ true → matches mode s ≡ true → Shows mode (sees s)

abbrev is_true : Option Bool → Bool
is_true none = false
is_true (some b) = b

abbrev Succeeds : Mode → Option Bool × Trace → Type 0
Succeeds mode q = is_true q.0 ≡ true → Happened (Shows mode) q.1

valid-of : (a b c : Bool) → (a && b && c) ≡ true → (a ≡ true) × (c ≡ true)
valid-of a b c e = ground arith

both : (a b : Bool) → (a && b) ≡ true → (a ≡ true) × (b ≡ true)
both a b e = ground arith

well_enough : (a b : Bool) → (a && not b) ≡ false → (a ≡ false) ⊎ (b ≡ true)
well_enough a b e = ground arith

module _ (w : World) (mode : Mode) where
  confirm_until-shows :
      (fuel deadline baseline : ℕ) (tr : Trace)
      → Succeeds mode (confirm_until w fuel deadline baseline (matches mode) tr)
  unfolding confirm_until snapshot
  confirm_until-shows zero deadline baseline tr = λ z. absurd (ground arith)
  confirm_until-shows (suc fuel) deadline baseline tr =
      let Q = Succeeds mode in
      let (c, t1) = cancelled w tr in
      let (now, t2) = clock w t1 in
      let (value, t3) = snapshot w t2 in
      let (broken, t4) = failed w t3 in
      if_ind Q c (λ _ z. absurd (ground arith))
        λ _.
          if_ind Q (leb deadline now) (λ _ z. absurd (ground arith))
            λ _.
              if_ind Q (confirms baseline (matches mode) value)
                (λ e z.
                  let (valid, same) =
                    valid-of value.state.feedback_valid (ltb baseline value.sequence_statuses)
                      (matches mode value) e in
                  here (shows value valid same))
                λ _.
                  if_ind Q broken (λ _ z. absurd (ground arith))
                    λ _.
                      confirm_until-shows fuel deadline baseline
                        (awaits_status value.sequence_statuses deadline ∷ t4)

  confirm-shows :
      (fuel baseline : ℕ) (tr : Trace) → Succeeds mode (confirm w fuel baseline (matches mode) tr)
  unfolding confirm
  confirm-shows fuel baseline tr =
      confirm_until-shows fuel ((clock w tr).0 + 500 * ms) baseline (clock w tr).1

  confirmed-shows :
      (r next : Option Bool × Trace)
      → Succeeds mode r
      → Succeeds mode next
      → Succeeds mode (elim (r.0) [
        | none ↦ (none, r.1)
        | some arrived ↦ if arrived then (some true, r.1) else next
      ])
  confirmed-shows (none, t) next h k = λ z. absurd (ground arith)
  confirmed-shows (some true, t) next h k = h
  confirmed-shows (some false, t) next h k = k

  attempts_of-shows : (fuel left : ℕ) (tr : Trace) → Succeeds mode (attempts_of w fuel left mode tr)
  unfolding attempts_of
  attempts_of-shows fuel zero tr = λ z. absurd (ground arith)
  attempts_of-shows fuel (suc left) tr =
      let Q = Succeeds mode in
      let (c, t1) = cancelled w tr in
      let (value, t2) = snapshot w t1 in
      let (sent, t3) = command w (operation mode) t2 in
      let (rested, t5) = pause w 100 t3 in
      if_ind Q c (λ _ z. absurd (ground arith))
        λ _.
          if_ind Q (not sent)
            (λ _.
              if_ind Q (not rested) (λ _ z. absurd (ground arith))
                (λ _. attempts_of-shows fuel left t5))
            (λ _.
              confirmed-shows (confirm w fuel value.sequence_statuses (matches mode) t3)
                (attempts_of w fuel left mode
                  (confirm w fuel value.sequence_statuses (matches mode) t3).1)
                (confirm-shows fuel value.sequence_statuses t3)
                (attempts_of-shows fuel left
                  (confirm w fuel value.sequence_statuses (matches mode) t3).1))

  -- When `action` reports success, it has seen a snapshot with valid feedback in which every axis is
  -- enabled, disabled or stopped, as the mode says; to enable, the hand was healthy at the start.
  pub action-Shows :
      (fuel attempts : ℕ) (tr : Trace)
      → (action w fuel mode attempts tr).0 ≡ some true
      → Happened (Shows mode) (action w fuel mode attempts tr).1
        × ((is_enable mode ≡ false) ⊎ (healthy (w.snapshot tr) ≡ true))
  unfolding action snapshot
  action-Shows fuel attempts tr z =
      let Q = λ (q : Option Bool × Trace).
        is_true q.0 ≡ true
        → Happened (Shows mode) q.1
          × ((is_enable mode ≡ false) ⊎ (healthy (w.snapshot tr) ≡ true)) in
      let (value, t1) = snapshot w tr in
      let (ok, t2) = command w (set_control_mode (pos 0)) t1 in
      let all_cases : Q (action w fuel mode attempts tr) =
        if_ind Q (is_enable mode && not (healthy value)) (λ _ z. absurd (ground arith))
          λ well.
            let fit = well_enough (is_enable mode) (healthy value) well in
            if_ind Q (value.state.feedback_valid && matches mode value)
              (λ e z. (
                here (
                    shows value (both value.state.feedback_valid (matches mode value) e).0
                      (both value.state.feedback_valid (matches mode value) e).1),
                fit,
              ))
              λ _.
                if_ind Q (is_enable mode && not (all_set value.stopped))
                  (λ _ z. absurd (ground arith))
                  λ _.
                    if_ind Q (is_enable mode && not ok) (λ _ z. absurd (ground arith))
                      λ _ z. (
                        attempts_of-shows fuel attempts (if is_enable mode then t2 else t1) z,
                        fit,
                      ) in
      all_cases (ap is_true z)
