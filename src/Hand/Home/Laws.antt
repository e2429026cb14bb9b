-- ===== src/Hand/Home/Laws.antt =====
-- What a successful homing has seen.
use roboparty_dexhand.Base.{
  ℕ, zero, suc, ◌+◌, ◌*◌, ◌≡◌, ap, Bool, true, false, not, ◌&&◌, ◌||◌, Option, none, some, leb,
  ◌==◌, if_ind, arith, pos,
}
use roboparty_dexhand.Session.State.{Snapshot, ms}
use roboparty_dexhand.Hand.World.{
  World, Trace, Event, sees, cancelled, snapshot, pause, clock, command, all_set, set_control_mode,
  home_motors,
}
use roboparty_dexhand.Hand.Configure.Laws.{
  Happened, here, before, Happened-command, Happened-pause, Happened-next,
}
use roboparty_dexhand.Hand.Home.{
  at_home, able, restore_mode, retry, Retry, ends, watches, rests, home_until, home,
}

-- A snapshot of a healthy, enabled hand with every axis homed under observation and at rest.
pub data ShowsHome : Event → Type 0 where
  shows_home : (s : Snapshot) → able s ≡ true → at_home s ≡ true → ShowsHome (sees s)

module _ {P : Event → Type 0} (w : World) where
  Happened-restore_mode :
      (left : ℕ) (sent_all : Bool) (tr : Trace)
      → Happened P tr
      → Happened P (restore_mode w left sent_all tr).1
  unfolding restore_mode snapshot cancelled
  Happened-restore_mode zero sent_all tr h = before h
  Happened-restore_mode (suc left) sent_all tr h =
      let Q = λ (q : Bool × Trace). Happened P q.1 in
      let (current, t1) = snapshot w tr in
      let (c, t2) = cancelled w t1 in
      let (sent, t3) = command w (set_control_mode (pos 0)) t2 in
      let h2 : Happened P t2 = before (before h) in
      let h3 = Happened-command w (set_control_mode (pos 0)) t2 h2 in
      if_ind Q (c || not (able current) || not (all_set current.state.homed)) (λ _. h2)
        λ _.
          if_ind Q (not (left == 0) && not (pause w 20 t3).0) (λ _. Happened-pause w 20 t3 h3)
            λ _. Happened-restore_mode left (sent && sent_all) _ (Happened-next w left 20 t3 h3)

abbrev is_true : Option Bool → Bool
is_true none = false
is_true (some b) = b

abbrev Succeeds : Option Bool × Trace → Type 0
Succeeds q = is_true q.0 ≡ true → Happened ShowsHome q.1

not-false : (a : Bool) → not a ≡ false → a ≡ true
not-false a e = ground arith

module _ (w : World) where
  retried :
      (r : Retry) (next : ℕ → ℕ → Trace → Option Bool × Trace)
      → ((n at : ℕ) (t : Trace) → Succeeds (next n at t))
      → Succeeds (elim r [
        | ends t5 ↦ (some false, t5)
        | watches n at t5 ↦ next n at t5
        | rests n at t5 ↦ next n at (pause w 10 t5).1
      ])
  retried (ends t5) next h = λ z. absurd (ground arith)
  retried (watches n at t5) next h = h n at t5
  retried (rests n at t5) next h = h n at (pause w 10 t5).1

  home_until-shows :
      (fuel deadline attempts retry_at : ℕ) (tr : Trace)
      → Succeeds (home_until w fuel deadline attempts retry_at tr)
  unfolding home_until snapshot
  home_until-shows zero deadline attempts retry_at tr = λ z. absurd (ground arith)
  home_until-shows (suc fuel) deadline attempts retry_at tr =
      let (c, t1) = cancelled w tr in
      let (now, t2) = clock w t1 in
      let (value, t3) = snapshot w t2 in
      if_ind Succeeds c (λ _ z. absurd (ground arith))
        λ _.
          if_ind Succeeds (leb deadline now) (λ _ z. absurd (ground arith))
            λ _.
              if_ind Succeeds (not (able value)) (λ _ z. absurd (ground arith))
                λ well.
                  if_ind Succeeds (at_home value)
                    (λ there z.
                      Happened-restore_mode w 30 true t3
                        (here (shows_home value (not-false (able value) well) there)))
                    λ _.
                      retried (retry w attempts retry_at value t3) (home_until w fuel deadline)
                        (λ n at t. home_until-shows fuel deadline n at t)

  -- When `home` reports success, it has seen a snapshot in which the hand is healthy and enabled,
  -- every axis was observed to home and reports that it is homed, and every axis stands still.
  pub home-ShowsHome :
      (fuel : ℕ) (tr : Trace)
      → (home w fuel tr).0 ≡ some true
      → Happened ShowsHome (home w fuel tr).1
  unfolding home
  home-ShowsHome fuel tr z =
      let (c, t1) = cancelled w tr in
      let t2 = (command w (home_motors (pos 0)) t1).1 in
      let (start, t3) = clock w t2 in
      let (then_at, t4) = clock w t3 in
      if_ind Succeeds c (λ _ e. absurd (ground arith))
        (λ _. home_until-shows fuel (start + 60000 * ms) 1 (then_at + 1000 * ms) t4) (ap is_true z)
