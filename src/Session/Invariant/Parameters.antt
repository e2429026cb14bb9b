-- ===== src/Session/Invariant/Parameters.antt =====
-- Setting parameters, and opening, keep the session's invariant.
use roboparty_dexhand.Base.{
  ℕ, suc, ◌%◌, ◌^◌, ◌≤◌, ◌≡◌, refl, ◌∙◌, Bool, false, not, ◌||◌, ◌&&◌, List, [], ◌∷◌, map, arith,
  to_u32, ltb, replicate, ℤ, pos, negsuc, eq_ℤ, eq_ℤ_iff, if_ind,
}
use roboparty_dexhand.Protocol.Encode.{Axis, control, framed, default_axis, stop_recovery_payload}
use roboparty_dexhand.Protocol.Encode.Layout.{length-framed}
use roboparty_dexhand.Session.State.{Session, Receive}
use roboparty_dexhand.Session.Sending.{recover_stop}
use roboparty_dexhand.Session.Commands.{
  for_selected, any_selected, initial, set_move_no_home, set_position_velocity, set_max_current,
}
use roboparty_dexhand.Session.Invariant.{
  Inv, send-Emission, Emission-Inv, framed-velocity, framed-current, length-for_selected,
  map-for_selected, flags-Inv,
}

abbrev Keeps : Session × ℕ → Type 0
Keeps r = Inv r.0

-- Setting a value marks it dirty unless no axis changes.
unchanged :
    (g : Axis → ℤ) (f : Axis → Axis) (id v : ℤ) (i : ℕ) (axes : List Axis)
    → ((a : Axis) → g (f a) ≡ v)
    → any_selected id (λ a. not (eq_ℤ (g a) v)) i axes ≡ false
    → map g (for_selected id f i axes) ≡ map g axes
unfolding any_selected for_selected
unchanged g f id v i [] h e = refl
unchanged g f id v i (a ∷ axes) h e =
    ground (arith, h a, eq_ℤ_iff (g a) v, unchanged g f id v (suc i) axes h)

or-false : (a b : Bool) → (a || b) ≡ false → (a ≡ false) × (b ≡ false)
or-false a b e = ground arith

pub set_position_velocity-Inv :
    (s : Session) (id x : ℤ) → Inv s → Inv (set_position_velocity s id x).0
unfolding set_position_velocity
set_position_velocity-Inv s id x v = if_ind Keeps _ (λ _. set) (λ _. v)
  where
    f : Axis → Axis
    f a = record a { velocity = x }

    changed : Bool
    changed = any_selected id (λ a. not (eq_ℤ a.velocity x)) 0 s.axes

    set : Inv (record s {
      axes = for_selected id f 0 s.axes;
      velocity_dirty = s.velocity_dirty || changed;
    })
    set = record {
      six = length-for_selected id f 0 s.axes ∙ v.six;
      node_low = v.node_low;
      node_high = v.node_high;
      fits = v.fits;
      velocity = λ e.
          let (clean, same) = or-false s.velocity_dirty changed e in
          rw
            (framed-velocity s.axes (for_selected id f 0 s.axes)
              (unchanged (λ a. a.velocity) f id x 0 s.axes (λ a. refl) same))
            (v.velocity clean);
      current = λ e.
          rw
            (framed-current s.axes (for_selected id f 0 s.axes)
              (map-for_selected (λ a. a.current) id f 0 s.axes (λ a. refl)))
            (v.current e);
    }

pub set_max_current-Inv : (s : Session) (id x : ℤ) → Inv s → Inv (set_max_current s id x).0
unfolding set_max_current
set_max_current-Inv s id x v = if_ind Keeps _ (λ _. set) (λ _. v)
  where
    f : Axis → Axis
    f a = record a { current = x }

    changed : Bool
    changed = any_selected id (λ a. not (eq_ℤ a.current x)) 0 s.axes

    set :
        Inv (record s {
          axes = for_selected id f 0 s.axes;
          current_dirty = s.current_dirty || changed;
        })
    set = record {
      six = length-for_selected id f 0 s.axes ∙ v.six;
      node_low = v.node_low;
      node_high = v.node_high;
      fits = v.fits;
      velocity = λ e.
          rw
            (framed-velocity s.axes (for_selected id f 0 s.axes)
              (map-for_selected (λ a. a.velocity) id f 0 s.axes (λ a. refl)))
            (v.velocity e);
      current = λ e.
          let (clean, same) = or-false s.current_dirty changed e in
          rw
            (framed-current s.axes (for_selected id f 0 s.axes)
              (unchanged (λ a. a.current) f id x 0 s.axes (λ a. refl) same))
            (v.current clean);
    }

pub set_move_no_home-Inv : (s : Session) (enable : ℤ) → Inv s → Inv (set_move_no_home s enable).0
unfolding set_move_no_home
set_move_no_home-Inv s enable v =
    if_ind Keeps (not (eq_ℤ enable (pos 0)) && not (eq_ℤ enable (pos 1))) (λ _. v)
      (λ _. flags-Inv s.restore_pending (eq_ℤ enable (pos 1)) v)

pub recover_stop-Inv : (s : Session) (command : ℤ) → Inv s → Inv (recover_stop s command).0
unfolding recover_stop stop_recovery_payload
recover_stop-Inv s command v =
    let axis = record default_axis { home_function = 1; control = to_u32 command % 2 ^ 8 } in
    let axes = replicate 6 axis in
    Emission-Inv v (omega arith) (length-framed control axes 2 (omega arith)) refl refl
      (send-Emission s 0x500 (framed control axes 2))

-- What `close` and the receiver change is not in the invariant, but for the node.
pub receive-Inv :
    (s : Session) (r : Receive) → r.node ≡ s.rx.node → Inv s → Inv (record s { rx = r })
receive-Inv s r e v = record {
  six = v.six;
  node_low = omega (arith, v.node_low);
  node_high = omega (arith, v.node_high);
  fits = v.fits;
  velocity = v.velocity;
  current = v.current;
}

node_bounds :
    (b : Bool) (node : ℕ) → (b || ltb node 1 || ltb 127 node) ≡ false → (1 ≤ node) × (node ≤ 127)
node_bounds b node e = ground arith

pub initial-Inv : (s : Session) (mode node : ℤ) → Inv s → Inv (initial s mode node).0
unfolding initial
initial-Inv s mode (negsuc node) v = v
initial-Inv s mode (pos node) v =
    if_ind Keeps (not (eq_ℤ mode (pos 1)) || ltb node 1 || ltb 127 node) (λ _. v)
      λ ok.
        if_ind Keeps (not s.rx.closed) (λ _. v)
          λ _.
            let in_range = node_bounds (not (eq_ℤ mode (pos 1))) node ok in
            record {
              six = refl;
              node_low = in_range.0;
              node_high = in_range.1;
              fits = v.fits;
              velocity = λ e. cc;
              current = λ e. cc;
            }
