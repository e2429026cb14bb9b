-- ===== src/Demo/Examples.antt =====
-- The theorem on command lines at one for Linux and one for Windows.
use Prim.Native.String.{String}
use roboparty_dexhand.Base.{◌≡◌, refl, true, false, some, none, List, [], ◌∷◌}
use roboparty_dexhand.Hand.Connect.{gs_usb_win_usb}
use roboparty_dexhand.Demo.Options.{
  Settings, defaults, number, integer, with_node, with_amplitude, take_option, parse_loop, finish,
  parse,
}
use roboparty_dexhand.Demo.Accepted.{Accepted, parse-Accepted}

abbrev on_linux : List String
on_linux = "--side" ∷ "right" ∷ "--connect-only" ∷ "--node-id" ∷ "12" ∷ "--amplitude" ∷ "500" ∷ []

abbrev linux_settings : Settings
linux_settings = record defaults {
  interface_name = "can3";
  node_id = 12;
  amplitude = 500;
  connect_only = true;
}

linux_accepted : parse false true on_linux ≡ some linux_settings
unfolding parse parse_loop take_option with_node integer number with_amplitude finish
linux_accepted = refl

parse-Accepted_example : Accepted false linux_settings
parse-Accepted_example = parse-Accepted false true on_linux linux_settings linux_accepted

windows_accepted :
    parse true true ("--serial" ∷ "00aF" ∷ [])
    ≡ some (record defaults { serial = "00aF"; backend = gs_usb_win_usb })
unfolding parse parse_loop take_option with_node integer number with_amplitude finish
windows_accepted = refl

no_number : parse false true ("--node-id" ∷ "1x" ∷ []) ≡ none
unfolding parse parse_loop take_option with_node integer number with_amplitude finish
no_number = refl

two_names : parse false true ("--side" ∷ "left" ∷ "--interface" ∷ "can1" ∷ []) ≡ none
unfolding parse parse_loop take_option with_node integer number with_amplitude finish
two_names = refl
