-- ===== src/Node/Rate.antt =====
-- How often ros2/rphand_ros/src/rphand_node.cpp sends.
use roboparty_dexhand.Base.{
  ℕ, ◌+◌, ◌-◌, ◌*◌, ◌/◌, ◌≤◌, ◌<◌, ◌≡◌, ◌⊎◌, inl, inr, refl, true, false, not, ◌&&◌, Option, none,
  some, List, [], ◌∷◌, ◌++◌, leb, if◌then◌else◌, if_ind, All, ℤ, arith,
}
use native.Mathlib.Omega.{div_any}
use native.Mathlib.Nat.{mod-lt}
use roboparty_dexhand.Session.State.{HandState}
use roboparty_dexhand.Node.Serve.{
  advance, Output, sends, publishes, Turn, Deadlines, send_target, command_turn, state_turn, turn,
  serve,
}

-- The deadline stays, if it is still to come; or it moves to the first point of its grid after now.
abbrev pub Next : ℕ → ℕ → ℕ → ℕ → Type 0
Next deadline period now next =
    ((now < deadline) × (next ≡ deadline))
    ⊎ ((deadline + period ≤ next) × (now < next) × (next ≤ now + period))

past : (a b : ℕ) → leb a b ≡ true → a ≤ b
past a b e = ground arith

ahead : (a b : ℕ) → leb a b ≡ false → b < a
ahead a b e = ground arith

advance-Next :
    (deadline period now : ℕ) → 0 < period → Next deadline period now (advance deadline period now)
unfolding advance
advance-Next deadline period now h =
    if_ind (Next deadline period now) (leb deadline now)
      (λ e.
        let low = past deadline now e in
        let q = (now - deadline) / period in
        let one_more : period * (q + 1) ≡ period * q + period = grind arith in
        let whole = div_any (now - deadline) period in
        inr (
          omega arith,
          (let small = mod-lt (now - deadline) h in omega (arith, small, whole, one_more, low)),
          omega arith,
        ))
      (λ e. inl (ahead deadline now e, refl))

abbrev pub count_sends : List Output → ℕ
count_sends [] = 0
count_sends (sends values ∷ rest) = 1 + count_sends rest
count_sends (publishes m ∷ rest) = count_sends rest

count_sends-append :
    (xs ys : List Output) → count_sends (xs ++ ys) ≡ count_sends xs + count_sends ys
count_sends-append [] ys = omega arith
count_sends-append (sends values ∷ xs) ys = omega (arith, count_sends-append xs ys)
count_sends-append (publishes m ∷ xs) ys = count_sends-append xs ys

-- The clock does not go back within a turn, and has not passed the end.
abbrev pub Within : ℕ → Turn → Type 0
Within end t = (t.sending ≤ t.sent) × (t.sent ≤ end)

-- Each command pays a period.
abbrev Paid : ℕ → ℕ → ℕ → ℕ × List Output → Type 0
Paid end period deadline r = (deadline + count_sends r.1 * period ≤ r.0) × (r.0 ≤ end + period)

at_most_one : (o : Option (List ℤ)) (hand : Option HandState) → count_sends (send_target o hand) ≤ 1
unfolding send_target
at_most_one none hand = omega arith
at_most_one (some values) none = omega arith
at_most_one (some values) (some s) = omega arith

one_period : (n period : ℕ) → n ≤ 1 → n * period ≤ period
one_period n period h = grind arith

state_turn-no_sends : (t : Turn) (next_state : ℕ) → count_sends (state_turn t next_state).1 ≡ 0
unfolding state_turn
state_turn-no_sends t next_state =
    if_ind (λ (r : ℕ × List Output). count_sends r.1 ≡ 0) (leb next_state t.stating && not t.exits)
      (λ _. refl) (λ _. refl)

module _ (end period : ℕ) (some_time : 0 < period) where
  moved :
      (deadline now n : ℕ) (next : ℕ)
      → deadline ≤ now
      → now ≤ end
      → n ≤ 1
      → Next deadline period now next
      → (deadline + n * period ≤ next) × (next ≤ end + period)
  moved deadline now n next late within few (inl (early, same)) = absurd (omega arith)
  moved deadline now n next late within few (inr (one, later, soon)) =
      let pay = one_period n period few in (omega (arith, pay, one), omega (arith, soon, within))

  command_turn-Paid :
      (t : Turn) (deadline : ℕ)
      → Within end t
      → deadline ≤ end + period
      → Paid end period deadline (command_turn period t deadline)
  unfolding command_turn
  command_turn-Paid t deadline w h =
      if_ind (Paid end period deadline) (leb deadline t.sending)
        (λ e.
          let late = past deadline t.sending e in
          moved deadline t.sent _ (advance deadline period t.sent) (omega (arith, late, w.0)) w.1
            (at_most_one (if leb deadline t.locked then t.shared.target else none) t.hand)
            (advance-Next deadline period t.sent some_time))
        (λ _. (omega arith, h))

  turn-Paid :
      (t : Turn) (d : Deadlines)
      → Within end t
      → d.next_command ≤ end + period
      → let r = turn period t d in Paid end period d.next_command (r.0.next_command, r.1)
  unfolding turn
  turn-Paid t d w h =
      let (pay, low) = command_turn-Paid t d.next_command w h in
      let split =
        count_sends-append (command_turn period t d.next_command).1 (state_turn t d.next_state).1 in
      let none_here = state_turn-no_sends t d.next_state in
      let same : count_sends
            ((command_turn period t d.next_command).1 ++ (state_turn t d.next_state).1)
          ≡ count_sends (command_turn period t d.next_command).1 =
        omega (arith, split, none_here) in
      (rw same pay, low)

  serve-Paid :
      (turns : List Turn) (d : Deadlines)
      → All (Within end) turns
      → d.next_command ≤ end + period
      → let r = serve period turns d in Paid end period d.next_command (r.0.next_command, r.1)
  unfolding serve
  serve-Paid [] d w h = (omega arith, h)
  serve-Paid (t ∷ turns) d w h =
      let d1 = (turn period t d).0 in
      let first = (turn period t d).1 in
      let rest = (serve period turns d1).1 in
      let (pay, low) = turn-Paid t d w.0 h in
      let (pay_rest, low_rest) = serve-Paid turns d1 w.1 low in
      let split = count_sends-append first rest in
      let sum : count_sends (first ++ rest) * period
          ≡ count_sends first * period + count_sends rest * period =
        rw split (grind arith) in
      (omega (arith, sum, pay, pay_rest), low_rest)

-- Whatever the targets and however late the thread runs, up to a time `end` the loop sends at most one
-- command more than there are whole periods since the first deadline.
pub serve-rate :
    (end period : ℕ) (turns : List Turn) (d : Deadlines)
    → 0 < period
    → All (Within end) turns
    → d.next_command ≤ end
    → count_sends (serve period turns d).1 * period ≤ end - d.next_command + period
serve-rate end period turns d some_time w h =
    let (pay, low) = serve-Paid end period some_time turns d w (omega (arith, h)) in
    omega (arith, pay, low, h)
