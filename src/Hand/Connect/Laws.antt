-- ===== src/Hand/Connect/Laws.antt =====
-- What `open_device` has done, whether it succeeds or not.
use roboparty_dexhand.Base.{
  ℕ, ◌≡◌, refl, ap, subst, Bool, true, false, not, ◌∷◌, ◌==◌, if_ind, ℤ, pos, All, List, [], arith,
}
use roboparty_dexhand.Hand.World.{
  World, Trace, Event, asks_cancelled, calls, cancelled, failed, broken, opens_transport, connects,
  cleans_up, opens_session, set_move_no_home, Operation,
}
use roboparty_dexhand.Hand.Configure.{configure_feedback}
use roboparty_dexhand.Hand.Configure.Laws.{
  Happened, here, before, WritesPeriod, all_periods, configure_feedback_acknowledged,
  Happened-configure_feedback,
}
use roboparty_dexhand.Hand.Connect.{check, prepare, open_device}

-- The event is this one.
pub data Is (e : Event) : Event → Type 0 where
  is : Is e e

-- The device was opened: the transport, the session for the node and the command that lets the
-- motors move without homing; and every feedback period was acknowledged.
pub record Opened (node : ℤ) (tr : Trace) : Type 0 where
  pub transport : Happened (Is (opens_transport true)) tr
  pub session : Happened (Is (calls (opens_session node) 0)) tr
  pub without_home : Happened (Is (calls (set_move_no_home (pos 1)) 0)) tr
  pub periods : All (λ i. Happened (WritesPeriod i) tr) all_periods

-- Nothing undoes what happened.
later :
    (e : Event) (tr : Trace) (indices : List ℕ)
    → All (λ i. Happened (WritesPeriod i) tr) indices
    → All (λ i. Happened (WritesPeriod i) (e ∷ tr)) indices
later e tr [] a = tt
later e tr (i ∷ indices) a = (before a.0, later e tr indices a.1)

kept : {node : ℤ} {e : Event} {tr : Trace} → Opened node tr → Opened node (e ∷ tr)
kept {node} {e} {tr} h = record {
  transport = before h.transport;
  session = before h.session;
  without_home = before h.without_home;
  periods = later e tr all_periods h.periods;
}

noted :
    (op : Operation) (n : ℕ) (tr : Trace)
    → (n == 0) ≡ true
    → Happened (Is (calls op 0)) (calls op n ∷ tr)
noted op n tr e =
    subst (λ k. Happened (Is (calls op 0)) (calls op k ∷ tr)) (ground (arith, e)) (here is)

module _ (w : World) (node : ℤ) where
  broken-Opened : (tr : Trace) → Opened node tr → Opened node (broken w tr).1
  unfolding broken cancelled failed
  broken-Opened tr h =
      if_ind (λ (q : Bool × Trace). Opened node q.1) (w.cancelled tr) (λ _. kept h)
        (λ _. kept (kept h))

  prepare-Opened : (tr : Trace) → (prepare w node tr).0 ≡ true → Opened node (prepare w node tr).1
  unfolding prepare check cancelled
  prepare-Opened tr =
      let Q = λ (q : Bool × Trace). q.0 ≡ true → Opened node q.1 in
      let t1 = asks_cancelled (w.cancelled tr) ∷ tr in
      let t2 = opens_transport (w.opened t1) ∷ t1 in
      let rc1 = w.code t2 (opens_session node) in
      let t3 = calls (opens_session node) rc1 ∷ t2 in
      let rc2 = w.code t3 (set_move_no_home (pos 1)) in
      let t4 = calls (set_move_no_home (pos 1)) rc2 ∷ t3 in
      let t5 = (configure_feedback w t4).1 in
      if_ind Q (w.cancelled tr) (λ _ z. absurd (ground arith))
        λ _.
          if_ind Q (not (w.opened t1)) (λ _ z. absurd (ground arith))
            λ opened.
              if_ind Q (not (rc1 == 0)) (λ _ z. absurd (ground arith))
                λ started.
                  if_ind Q (not (rc2 == 0)) (λ _ z. absurd (ground arith))
                    λ allowed.
                      if_ind Q (not (configure_feedback w t4).0) (λ _ z. absurd (ground arith))
                        λ configured z. broken-Opened t5 (record {
                          transport =
                              Happened-configure_feedback w t4
                                (before (before (transport_open (w.opened t1) t1 opened)));
                          session = Happened-configure_feedback w t4 (
                              before (noted (opens_session node) rc1 t2 (ground (arith, started))));
                          without_home =
                              Happened-configure_feedback w t4
                                (noted (set_move_no_home (pos 1)) rc2 t3 (ground (arith, allowed)));
                          periods =
                              (configure_feedback_acknowledged w t4 (ground (arith, configured))).0;
                        })
    where
      transport_open :
          (b : Bool) (rest : Trace)
          → not b ≡ false
          → Happened (Is (opens_transport true)) (opens_transport b ∷ rest)
      transport_open true rest e = here is
      transport_open false rest e = absurd (ground (arith, e))

  -- What the result of `open_device` says of what it did.
  abbrev pub Tells : Bool × Trace → Type 0
  Tells (true, tr) =
      Opened node tr × ((last : Trace) × (tr ≡ asks_cancelled false ∷ connects ∷ last))
  Tells (false, tr) = (last : Trace) × (tr ≡ cleans_up ∷ last)

  -- When `open_device` succeeds, the transport was opened, `initial` and `set_move_no_home(1)` returned
  -- 0, the device acknowledged every feedback period, and only then was the hand marked as connected
  -- and found not to be cancelled; when it fails, the last thing it did is the clean-up.
  pub open_device-Tells : (tr : Trace) → Tells (open_device w node tr)
  unfolding open_device cancelled
  open_device-Tells tr =
      let t1 = (prepare w node tr).1 in
      if_ind Tells (not (prepare w node tr).0) (λ _. (t1, refl))
        λ ready.
          if_ind Tells (w.cancelled (connects ∷ t1))
            (λ _. (asks_cancelled (w.cancelled (connects ∷ t1)) ∷ connects ∷ t1, refl))
            λ e. (
              kept (kept (prepare-Opened tr (ground (arith, ready)))),
              (t1, ap (λ b. asks_cancelled b ∷ connects ∷ t1) e),
            )
