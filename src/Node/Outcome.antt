-- ===== src/Node/Outcome.antt =====
-- What `reset` of ros2/rphand_ros/src/rphand_node.cpp has done when it returns.
use roboparty_dexhand.Base.{
  ◌≡◌, ◌⊎◌, inl, inr, refl, ap, ◌∙◌, Bool, true, false, not, ◌||◌, List, [], ◌∷◌, if_ind, arith,
}
use roboparty_dexhand.Node.{Parameters}
use roboparty_dexhand.Node.Reset.{
  Call, connect, disable, set_speed, set_current_limit, set_torque_mode, enable, home, disconnect,
  Answer, returns, throws, asked, called, Log, Sdk, succeeds, ask, make, perform, cleanup,
  initialize, reset,
}

-- The calls among the events, the latest first.
abbrev pub calls_of : Log → List (Call × Answer)
calls_of [] = []
calls_of (asked b ∷ log) = calls_of log
calls_of (called c a ∷ log) = (c, a) ∷ calls_of log

-- The calls of a reset that goes through, the latest first, each of which returned true.
abbrev pub all_calls : Parameters → List (Call × Answer)
all_calls p =
    (home, returns true)
    ∷ (enable, returns true)
    ∷ (set_torque_mode p.torque_stop, returns true)
    ∷ (set_current_limit p.current, returns true)
    ∷ (set_speed p.speed, returns true)
    ∷ (disable, returns true)
    ∷ (connect p.node_id, returns true)
    ∷ []

-- A session that was given up: the last thing was `disconnect`.
abbrev pub Released : Log → Type 0
Released log =
    (a : Answer) × (rest : List (Call × Answer)) × (calls_of log ≡ (disconnect, a) ∷ rest)

succeeds-true : (a : Answer) → succeeds a ≡ true → a ≡ returns true
unfolding succeeds
succeeds-true (returns b) h = ap returns h
succeeds-true throws h = absurd (ground (arith, h))

not-true : (b : Bool) → not b ≡ true → b ≡ false
not-true b h = ground arith

-- A reset that succeeded: every call returned true, in this order, and then nobody asked to stop.
pub record Prepared (p : Parameters) (r : Bool × Log) : Type 0 where
  pub result : r.0 ≡ true
  pub calls : calls_of r.1 ≡ all_calls p
  pub rest : Log
  pub last : r.1 ≡ asked false ∷ rest

-- A reset that failed, and holds no session any more.
pub record GaveUp (r : Bool × Log) : Type 0 where
  pub result : r.0 ≡ false
  pub released : (calls_of r.1 ≡ []) ⊎ Released r.1

module _ (w : Sdk) where
  performed :
      (call : Call) (log : Log)
      → (perform w call log).0 ≡ true
      → calls_of (perform w call log).1 ≡ (call, returns true) ∷ calls_of log
  unfolding perform make ask
  performed call log =
      if_ind (λ (r : Bool × Log). r.0 ≡ true → calls_of r.1 ≡ (call, returns true) ∷ calls_of log)
        (w.exiting log) (λ _ z. absurd (ground (arith, z))) (λ _ z. rw (succeeds-true _ z))

  -- One more call, if it returned true.
  joined :
      (call : Call) (log : Log) (before : List (Call × Answer))
      → not (perform w call log).0 ≡ false
      → calls_of log ≡ before
      → calls_of (perform w call log).1 ≡ (call, returns true) ∷ before
  joined call log before ok same =
      performed call log (ground (arith, ok)) ∙ ap (λ rest. (call, returns true) ∷ rest) same

  -- All the calls have returned true, and after the last one nobody had asked to stop.
  abbrev Initialized : Parameters → Bool × Log → Type 0
  Initialized p q =
      q.0 ≡ true → (calls_of q.1 ≡ all_calls p) × ((rest : Log) × (q.1 ≡ asked false ∷ rest))

  stopped : (p : Parameters) (log : Log) → Initialized p (false, log)
  stopped p log z = absurd (ground (arith, z))

  initialized :
      (p : Parameters) (log : Log) → calls_of log ≡ [] → Initialized p (initialize w p log)
  unfolding initialize ask
  initialized p log none_before =
      let P = Initialized p in
      let (connected, l1) = perform w (connect p.node_id) log in
      let (disabled, l2) = perform w disable l1 in
      let (speed_set, l3) = perform w (set_speed p.speed) l2 in
      let (current_set, l4) = perform w (set_current_limit p.current) l3 in
      let (mode_set, l5) = perform w (set_torque_mode p.torque_stop) l4 in
      let (enabled, l6) = perform w enable l5 in
      let (homed, l7) = perform w home l6 in
      if_ind P (not connected) (λ _. stopped p l1)
        λ e1.
          if_ind P (not disabled) (λ _. stopped p l2)
            λ e2.
              if_ind P (not speed_set) (λ _. stopped p l3)
                λ e3.
                  if_ind P (not current_set) (λ _. stopped p l4)
                    λ e4.
                      if_ind P (not mode_set) (λ _. stopped p l5)
                        λ e5.
                          if_ind P (not enabled) (λ _. stopped p l6)
                            λ e6.
                              if_ind P (not homed) (λ _. stopped p l7)
                                λ e7 z.
                                  let c1 = joined (connect p.node_id) log [] e1 none_before in
                                  let c2 = joined disable l1 _ e2 c1 in
                                  let c3 = joined (set_speed p.speed) l2 _ e3 c2 in
                                  let c4 = joined (set_current_limit p.current) l3 _ e4 c3 in
                                  let c5 = joined (set_torque_mode p.torque_stop) l4 _ e5 c4 in
                                  let c6 = joined enable l5 _ e6 c5 in
                                  (
                                    joined home l6 _ e7 c6,
                                    (l7, ap (λ b. asked b ∷ l7) (not-true (w.exiting l7) z)),
                                  )

  cleaned : (log : Log) → Released (cleanup w log)
  unfolding cleanup make
  cleaned log = (_, _, refl)

-- `reset` succeeds only after all seven calls, connect, disable, the speed, the current limit, the
-- torque mode, enable and home, have returned true in this order, and nobody asked to stop after that.
-- If it fails, it has made no call, or `disconnect` was the last one.
pub reset_cases : (w : Sdk) (p : Parameters) → Prepared p (reset w p []) ⊎ GaveUp (reset w p [])
unfolding reset ask
reset_cases w p =
    let l1 = asked (w.exiting []) ∷ [] in
    let r = initialize w p l1 in
    let P = λ (q : Bool × Log). Prepared p q ⊎ GaveUp q in
    if_ind P (w.exiting [] || not w.creates)
      (λ _. inr (record { result = refl; released = inl refl }))
      λ _.
        if_ind P r.0
          (λ ok.
            let (calls, (rest, last)) = initialized w p l1 refl ok in
            inl (record { result = refl; calls = calls; rest = rest; last = last }))
          (λ _. inr (record { result = refl; released = inr (cleaned w r.1) }))
