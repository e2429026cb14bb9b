-- ===== src/Node/Invariant.antt =====
-- What holds of the node of ros2/rphand_ros/src/rphand_node.cpp in any interleaving of its threads.
use roboparty_dexhand.Base.{
  ◌≡◌, refl, Bool, true, false, not, ◌&&◌, ◌||◌, Option, none, some, List, if_ind, length, any,
  subst, sym, ◌∙◌, arith, ℤ, ◌==◌,
}
use roboparty_dexhand.Hand.Jobs.{outside}
use roboparty_dexhand.Node.{
  Shared, on_command, on_reset, on_exit, wakes, take_reset, not_started, finish_reset,
}
use roboparty_dexhand.Node.Steps.{
  Phase, initializing, serving, ended, Manager, waiting, joining, spawning, left, Node, start, Step,
  commands, asks_reset, exits, wakes_up, takes_reset, starts, cannot_start, leaves, initializes,
  stops, Run, here, then_step,
}

abbrev pub is_initializing : Phase → Bool
is_initializing initializing = true
is_initializing _ = false

abbrev pub is_joining : Manager → Bool
is_joining joining = true
is_joining _ = false

abbrev pub is_left : Manager → Bool
is_left left = true
is_left _ = false

abbrev pub is_ended : Phase → Bool
is_ended ended = true
is_ended _ = false

abbrev pub is_spawning : Manager → Bool
is_spawning spawning = true
is_spawning _ = false

-- A session is being started or is being initialised.
abbrev pub is_starting : Phase → Manager → Bool
is_starting p m = is_initializing p || is_spawning m

-- A target is six values that the SDK takes, and it is only kept while targets are accepted.
abbrev pub Wanted : Shared → Option (List ℤ) → Type 0
Wanted s none = Unit
Wanted s (some values) =
    (length values ≡ 6)
    × (any (λ v. outside v 10000) values ≡ false)
    × (s.accept_targets ≡ true)
    × (s.exiting ≡ false)

-- Implications between the members.
pub record Coherent (s : Shared) (starting joins left : Bool) : Type 0 where
  pub pending : (not s.pending_reset || (s.reset_busy && s.stop_requested)) ≡ true
  pub initial : (not starting || (s.reset_busy && not s.pending_reset)) ≡ true
  pub accepting : (not s.accept_targets || not s.reset_busy) ≡ true
  pub stopping : (not s.stop_requested || s.exiting || s.pending_reset) ≡ true
  pub busy : (not s.reset_busy || s.pending_reset || starting) ≡ true
  pub awake : (not joins || s.exiting || s.pending_reset) ≡ true
  pub gone : (not left || s.exiting) ≡ true

pub record Sound (n : Node) : Type 0 where
  pub coherent :
      Coherent n.shared (is_starting n.session n.manager) (is_joining n.manager) (is_left n.manager)
  pub wanted : Wanted n.shared n.shared.target
  pub alone : (not (is_spawning n.manager) || is_ended n.session) ≡ true

on_command-Sound :
    (n : Node) (values : List ℤ)
    → Sound n
    → Sound (record n { shared = on_command n.shared values })
unfolding on_command
on_command-Sound n values h =
    let s = n.shared in
    let c = h.coherent in
    if_ind (λ (t : Shared). Sound (record n { shared = t }))
      (not (length values == 6) || any (λ v. outside v 10000) values) (λ _. h)
      λ fits.
        if_ind (λ (t : Shared). Sound (record n { shared = t }))
          (not s.accept_targets || s.reset_busy || s.exiting) (λ _. h)
          λ open_now. record {
            coherent = record {
              pending = c.pending;
              initial = c.initial;
              accepting = c.accepting;
              stopping = c.stopping;
              busy = c.busy;
              awake = c.awake;
              gone = c.gone;
            };
            wanted = (
              ground (arith, fits),
              ground (arith, fits),
              ground (arith, open_now),
              ground (arith, open_now),
            );
            alone = h.alone;
          }

reset-Coherent : (s : Shared) (i j l : Bool) → Coherent s i j l → Coherent (on_reset s).0 i j l
unfolding on_reset
reset-Coherent s i j l h = ground arith

reset-Wanted : (s : Shared) → Wanted s s.target → Wanted (on_reset s).0 (on_reset s).0.target
unfolding on_reset
reset-Wanted s h =
    if_ind (λ (r : Shared × Bool). Wanted r.0 r.0.target) (s.reset_busy || s.exiting) (λ _. h)
      (λ _. tt)

exit-Coherent : (s : Shared) (i j l : Bool) → Coherent s i j l → Coherent (on_exit s) i j l
unfolding on_exit
exit-Coherent s i j l h = ground arith

take-Coherent :
    (s : Shared)
    → Coherent s false true false
    → s.exiting ≡ false
    → Coherent (take_reset s) true false false
unfolding take_reset
take-Coherent s h e = ground arith

start-Coherent :
    (s : Shared) (i : Bool) → Coherent s (i || true) false false → Coherent s true false false
start-Coherent s true h = h
start-Coherent s false h = h

fail-Coherent :
    (s : Shared) (i : Bool)
    → Coherent s (i || true) false false
    → i ≡ false
    → Coherent (not_started s) (i || false) false false
unfolding not_started
fail-Coherent s true h e = absurd (ground (arith, e))
fail-Coherent s false h e = ground arith

finish-Coherent :
    (s : Shared) (success j l : Bool)
    → Coherent s true j l
    → Coherent (finish_reset s success) false j l
unfolding finish_reset
finish-Coherent s success j l h = ground arith

finish-Wanted :
    (s : Shared) (success j l : Bool) (t : Option (List ℤ))
    → Coherent s true j l
    → Wanted s t
    → Wanted (finish_reset s success) t
finish-Wanted s success j l none h w = tt
finish-Wanted s success j l (some values) h w =
    let a = h.initial in let b = h.accepting in let c = w.2 in absurd (ground (arith, a, b, c))

same-Wanted :
    (s t : Shared) (o : Option (List ℤ))
    → t.accept_targets ≡ s.accept_targets
    → t.exiting ≡ s.exiting
    → Wanted s o
    → Wanted t o
same-Wanted s t none a e h = tt
same-Wanted s t (some values) a e h = (h.0, h.1, a ∙ h.2, e ∙ h.3)

wake-Coherent :
    (s : Shared) (i : Bool) → Coherent s i false false → wakes s ≡ true → Coherent s i true false
wake-Coherent s i h e = ground arith

leave-Coherent :
    (s : Shared) → Coherent s false true false → s.exiting ≡ true → Coherent s false false true
leave-Coherent s h e = ground arith

-- The invariant with the state of one of the threads put in.
with_manager :
    (n : Node) (m : Manager)
    → n.manager ≡ m
    → Sound n
    → Coherent n.shared (is_starting n.session m) (is_joining m) (is_left m)
with_manager n m e h =
    subst (λ x. Coherent n.shared (is_starting n.session x) (is_joining x) (is_left x)) e h.coherent

with_session :
    (n : Node) (p : Phase)
    → n.session ≡ p
    → Sound n
    → Coherent n.shared (is_starting p n.manager) (is_joining n.manager) (is_left n.manager)
with_session n p e h =
    subst
      (λ x. Coherent n.shared (is_starting x n.manager) (is_joining n.manager) (is_left n.manager))
      e h.coherent

with_both :
    (n : Node)
    → n.manager ≡ joining
    → n.session ≡ ended
    → Sound n
    → Coherent n.shared false true false
with_both n m p h =
    subst (λ x. Coherent n.shared (is_starting x joining) true false) p (with_manager n joining m h)

-- While the manager makes a thread, no other is there.
ended_then :
    (p : Phase) (m : Manager)
    → m ≡ spawning
    → (not (is_spawning m) || is_ended p) ≡ true
    → is_ended p ≡ true
ended_then p m e h = subst (λ x. (not (is_spawning x) || is_ended p) ≡ true) e h

not_initializing : (p : Phase) → is_ended p ≡ true → is_initializing p ≡ false
not_initializing initializing h = absurd (ground (arith, h))
not_initializing serving h = refl
not_initializing ended h = refl

not_spawning :
    (p : Phase) (m : Manager)
    → p ≡ initializing
    → (not (is_spawning m) || is_ended p) ≡ true
    → is_spawning m ≡ false
not_spawning p m e h =
    let g = subst (λ x. (not (is_spawning m) || is_ended x) ≡ true) e h in ground (arith, g)

Step-Sound : {n m : Node} → Step n m → Sound n → Sound m
unfolding on_exit take_reset not_started finish_reset
Step-Sound (commands n values) h = on_command-Sound n values h
Step-Sound (asks_reset n) h = record {
  coherent =
      reset-Coherent n.shared (is_starting n.session n.manager) (is_joining n.manager)
        (is_left n.manager) h.coherent;
  wanted = reset-Wanted n.shared h.wanted;
  alone = h.alone;
}
Step-Sound (exits n) h = record {
  coherent =
      exit-Coherent n.shared (is_starting n.session n.manager) (is_joining n.manager)
        (is_left n.manager) h.coherent;
  wanted = tt;
  alone = h.alone;
}
Step-Sound (wakes_up n m e) h = record {
  coherent = wake-Coherent n.shared (is_starting n.session waiting) (with_manager n waiting m h) e;
  wanted = h.wanted;
  alone = refl;
}
Step-Sound (takes_reset n m p e) h = record {
  coherent =
      subst (λ x. Coherent (take_reset n.shared) (is_starting x spawning) false false) (sym p)
        (take-Coherent n.shared (with_both n m p h) e);
  wanted = same-Wanted n.shared (take_reset n.shared) n.shared.target refl refl h.wanted;
  alone = subst (λ x. is_ended x ≡ true) (sym p) refl;
}
Step-Sound (starts n m) h = record {
  coherent = start-Coherent n.shared (is_initializing n.session) (with_manager n spawning m h);
  wanted = h.wanted;
  alone = refl;
}
Step-Sound (cannot_start n m) h = record {
  coherent =
      fail-Coherent n.shared (is_initializing n.session) (with_manager n spawning m h)
        (not_initializing n.session (ended_then n.session n.manager m h.alone));
  wanted = same-Wanted n.shared (not_started n.shared) n.shared.target refl refl h.wanted;
  alone = refl;
}
Step-Sound (leaves n m p e) h = record {
  coherent =
      subst (λ x. Coherent n.shared (is_starting x left) false true) (sym p)
        (leave-Coherent n.shared (with_both n m p h) e);
  wanted = h.wanted;
  alone = refl;
}
Step-Sound (initializes n success p) h =
    let c = with_session n initializing p h in
    let idle = not_spawning n.session n.manager p h.alone in
    record {
      coherent =
          subst
            (λ x.
              Coherent (finish_reset n.shared success) x (is_joining n.manager) (is_left n.manager))
            (sym idle)
            (finish-Coherent n.shared success (is_joining n.manager) (is_left n.manager) c);
      wanted =
          finish-Wanted n.shared success (is_joining n.manager) (is_left n.manager) n.shared.target
            c h.wanted;
      alone = ground (arith, idle);
    }
Step-Sound (stops n ok p e) h = record {
  coherent = with_session n serving p h;
  wanted = h.wanted;
  alone = ground arith;
}

start-Sound : Sound start
start-Sound = record {
  coherent = record {
    pending = refl;
    initial = refl;
    accepting = refl;
    stopping = refl;
    busy = refl;
    awake = refl;
    gone = refl;
  };
  wanted = tt;
  alone = refl;
}

-- In every state that the node reaches, whatever its threads do in which order: a target that is kept
-- is six values from 0 to 10000, and the node accepts targets and is not exiting; while it accepts
-- them, no reset is under way; while one is under way, it is pending, or a session is being started or
-- initialised, never both; a session is only started when the one before has ended; and one is only
-- asked to stop by a reset that is pending or by the exit.
pub Run-Sound : (n : Node) → Run start n → Sound n
Run-Sound n here = start-Sound
Run-Sound n (then_step path step) = Step-Sound step (Run-Sound _ path)
