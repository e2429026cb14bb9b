-- ===== src/Node/Accepted.antt =====
-- What ros2/rphand_ros/src/rphand_node.cpp passes to the SDK, against the checks of src/hand.cpp.
use roboparty_dexhand.Base.{◌≡◌, false, Option, some, List, any, length, ℤ, arith, subst}
use roboparty_dexhand.Hand.World.{World}
use roboparty_dexhand.Hand.Connect.{options_for, refuses_options}
use roboparty_dexhand.Hand.Parameter.{speed, current, parameter}
use roboparty_dexhand.Hand.Jobs.{outside, set_speed, set_current_limit, set_positions, move_all}
use roboparty_dexhand.Node.{Parameters, Shared, refuses_parameters}
use roboparty_dexhand.Node.Steps.{Node, start, Run}
use roboparty_dexhand.Node.Invariant.{Wanted, Run-Sound}

options_accepted :
    (p : Parameters)
    → refuses_parameters p ≡ false
    → refuses_options (options_for p.interface_empty p.node_id) ≡ false
unfolding refuses_parameters refuses_options options_for
options_accepted p h = ground (arith, h)

speed_accepted :
    (w : World) (p : Parameters)
    → refuses_parameters p ≡ false
    → set_speed w p.speed ≡ some (parameter w speed p.speed)
unfolding refuses_parameters set_speed
speed_accepted w p h = ground (arith, h)

current_accepted :
    (w : World) (p : Parameters)
    → refuses_parameters p ≡ false
    → set_current_limit w p.current ≡ some (parameter w current p.current)
unfolding refuses_parameters set_current_limit
current_accepted w p h = ground (arith, h)

positions_accepted :
    (w : World) (values : List ℤ)
    → any (λ v. outside v 10000) values ≡ false
    → set_positions w values ≡ some (move_all w values)
unfolding set_positions
positions_accepted w values h = rw h

Wanted-values :
    (s : Shared) (o : Option (List ℤ)) (values : List ℤ)
    → Wanted s o
    → o ≡ some values
    → Wanted s (some values)
Wanted-values s o values h e = subst (Wanted s) e h

-- With parameters that the node takes, and a target that it keeps in a state that it reaches, the SDK
-- refuses no argument: neither the options of the connection, nor the speed, the current limit or the
-- six positions.
pub sdk_accepts :
    (w : World) (p : Parameters) (n : Node) (values : List ℤ)
    → refuses_parameters p ≡ false
    → Run start n
    → n.shared.target ≡ some values
    → (refuses_options (options_for p.interface_empty p.node_id) ≡ false)
      × (set_speed w p.speed ≡ some (parameter w speed p.speed))
      × (set_current_limit w p.current ≡ some (parameter w current p.current))
      × (length values ≡ 6)
      × (set_positions w values ≡ some (move_all w values))
sdk_accepts w p n values accepted path kept =
    let s = Run-Sound n path in
    let wanted = Wanted-values n.shared n.shared.target values s.wanted kept in
    (
      options_accepted p accepted,
      speed_accepted w p accepted,
      current_accepted w p accepted,
      wanted.0,
      positions_accepted w values wanted.1,
    )
