-- ===== src/Node/Progress.antt =====
-- A reset of ros2/rphand_ros/src/rphand_node.cpp that was accepted can always be completed.
use roboparty_dexhand.Base.{
  ◌≡◌, ◌∙◌, ◌⊎◌, inl, inr, refl, Bool, true, false, Option, none, some, List, arith, ℤ,
}
use roboparty_dexhand.Node.{Shared, take_reset, finish_reset}
use roboparty_dexhand.Node.Steps.{
  Phase, initializing, serving, ended, Manager, waiting, joining, spawning, left, Node, start, Step,
  wakes_up, takes_reset, starts, initializes, stops, Run, here, then_step,
}
use roboparty_dexhand.Node.Invariant.{
  Coherent, Wanted, Sound, is_initializing, is_starting, is_spawning, is_joining, is_left,
  Run-Sound,
}

-- A session serves again, and it takes targets if the reset was successful.
pub record Completed (success : Bool) (n : Node) : Type 0 where
  pub session : n.session ≡ serving
  pub free : n.shared.reset_busy ≡ false
  pub accepting : n.shared.accept_targets ≡ success
  pub target : n.shared.target ≡ none

abbrev Reaches : Bool → Node → Type 0
Reaches success n = (m : Node) × Run n m × Completed success m

after : {n m k : Node} → Step n m → Run m k → Run n k
after step here = then_step here step
after step (then_step path next) = then_step (after step path) next

step_first : {success : Bool} {n m : Node} → Step n m → Reaches success m → Reaches success n
step_first step (k, path, done) = (k, after step path, done)

spawning_only : (m : Manager) → is_spawning m ≡ true → m ≡ spawning
spawning_only m h = ground arith

module _ (success : Bool) where
  finish_here :
      (n : Node)
      → n.session ≡ initializing
      → n.shared.exiting ≡ false
      → n.shared.stop_requested ≡ false
      → n.shared.target ≡ none
      → Reaches success n
  unfolding finish_reset
  finish_here n p exiting stop empty = (
    record n { shared = finish_reset n.shared success; session = serving },
    then_step here (initializes n success p),
    record {
      session = refl;
      free = refl;
      accepting = ground (arith, exiting, stop);
      target = empty;
    },
  )

  from_spawning :
      (n : Node)
      → n.manager ≡ spawning
      → n.shared.exiting ≡ false
      → n.shared.stop_requested ≡ false
      → n.shared.target ≡ none
      → Reaches success n
  from_spawning n m exiting stop empty =
      step_first (starts n m) (
        finish_here (record n { session = initializing; manager = waiting }) refl exiting stop
          empty)

  from_ended :
      (n : Node)
      → n.manager ≡ joining
      → n.session ≡ ended
      → n.shared.exiting ≡ false
      → n.shared.target ≡ none
      → Reaches success n
  unfolding take_reset
  from_ended n m p exiting empty = step_first (takes_reset n m p exiting) (
      from_spawning (record n { shared = take_reset n.shared; manager = spawning }) refl exiting
        refl empty)

  from_joining :
      (n : Node) (p : Phase)
      → n.session ≡ p
      → is_initializing p ≡ false
      → n.manager ≡ joining
      → n.shared.exiting ≡ false
      → n.shared.stop_requested ≡ true
      → n.shared.target ≡ none
      → Reaches success n
  from_joining n initializing e h m exiting stop empty = absurd (ground (arith, h))
  from_joining n serving e h m exiting stop empty =
      step_first (stops n true e (ground (arith, stop, exiting)))
        (from_ended (record n { session = ended }) m refl exiting empty)
  from_joining n ended e h m exiting stop empty = from_ended n m e exiting empty

  from_pending :
      (n : Node) (m : Manager)
      → n.manager ≡ m
      → is_left m ≡ false
      → is_starting n.session m ≡ false
      → n.shared.exiting ≡ false
      → n.shared.pending_reset ≡ true
      → n.shared.stop_requested ≡ true
      → n.shared.target ≡ none
      → Reaches success n
  from_pending n waiting e h i exiting pending stop empty =
      step_first (wakes_up n e (ground (arith, pending, exiting))) (
        from_joining (record n { manager = joining }) n.session refl (ground (arith, i)) refl
          exiting stop empty)
  from_pending n joining e h i exiting pending stop empty =
      from_joining n n.session refl (ground (arith, i)) e exiting stop empty
  from_pending n spawning e h i exiting pending stop empty = absurd (ground (arith, i))
  from_pending n left e h i exiting pending stop empty = absurd (ground (arith, h))

  no_target : (s : Shared) (t : Option (List ℤ)) → Wanted s t → s.accept_targets ≡ false → t ≡ none
  no_target s none w a = refl
  no_target s (some values) w a = let b = w.2 in absurd (ground (arith, a, b))

  facts :
      (s : Shared) (i j l : Bool)
      → Coherent s i j l
      → s.reset_busy ≡ true
      → s.exiting ≡ false
      → (s.accept_targets ≡ false)
        × (l ≡ false)
        × (((i ≡ true) × (s.stop_requested ≡ false))
            ⊎ ((i ≡ false) × (s.pending_reset ≡ true) × (s.stop_requested ≡ true)))
  facts s i j l h busy exiting = (ground arith, ground arith, ground arith)

  from_starting :
      (n : Node) (p : Phase) (m : Manager)
      → n.session ≡ p
      → n.manager ≡ m
      → is_starting p m ≡ true
      → n.shared.exiting ≡ false
      → n.shared.stop_requested ≡ false
      → n.shared.target ≡ none
      → Reaches success n
  from_starting n initializing m e z i exiting stop empty = finish_here n e exiting stop empty
  from_starting n serving m e z i exiting stop empty =
      from_spawning n (z ∙ spawning_only m (ground (arith, i))) exiting stop empty
  from_starting n ended m e z i exiting stop empty =
      from_spawning n (z ∙ spawning_only m (ground (arith, i))) exiting stop empty

  complete :
      (n : Node)
      → Sound n
      → n.shared.reset_busy ≡ true
      → n.shared.exiting ≡ false
      → Reaches success n
  complete n h busy exiting =
      let (closed, here_still, cases) =
        facts n.shared (is_starting n.session n.manager) (is_joining n.manager) (is_left n.manager)
          h.coherent busy exiting in
      let empty = no_target n.shared n.shared.target h.wanted closed in
      elim cases [
        | inl c ↦ from_starting n n.session n.manager refl refl c.0 exiting c.1 empty
        | inr c ↦ from_pending n n.manager refl here_still c.0 exiting c.1 c.2 empty
      ]

-- From every state that the node reaches in which a reset is under way and the node is not exiting,
-- steps lead to a state in which a session serves and no reset is under way; then targets are accepted
-- exactly if the initialisation was successful, and none is left from before.
pub reset_completes :
    (n : Node) (success : Bool)
    → Run start n
    → n.shared.reset_busy ≡ true
    → n.shared.exiting ≡ false
    → (m : Node) × Run n m × Completed success m
reset_completes n success path busy exiting = complete success n (Run-Sound n path) busy exiting
