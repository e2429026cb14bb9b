-- ===== src/Demo/Options.antt =====
-- `parse` of examples/cpp/options.hpp. Texts are native; what is read of a number is what
-- `std::from_chars` makes of its characters.
use Prim.Native.String.{String}
use text.Mathlib.Text.{◌==◌ as ◌is◌}
use roboparty_dexhand.Base.{
  is_empty, codes, is_digit, is_hex, ℕ, ◌+◌, ◌-◌, ◌*◌, Bool, true, false, not, ◌&&◌, ◌||◌, Option,
  none, some, List, [], ◌∷◌, all, any, leb, if◌then◌else◌, pos,
}
use roboparty_dexhand.Hand.Connect.{Backend, socket_can, gs_usb_win_usb, ConnectionOptions}

-- `Options` with its connection; the default of `interface` is that of types.hpp.
pub record Settings : Type 0 where
  pub backend : Backend
  pub interface_name : String
  pub serial : String
  pub node_id : ℕ
  pub bitrate : ℕ
  pub data_bitrate : ℕ
  pub amplitude : ℕ
  pub connect_only : Bool

abbrev pub defaults : Settings
defaults = record {
  backend = socket_can;
  interface_name = "can0";
  serial = "";
  node_id = 1;
  bitrate = 1000000;
  data_bitrate = 5000000;
  amplitude = 6000;
  connect_only = false;
}

-- The connection as `connect` reads it.
unfoldable pub connection : Settings → ConnectionOptions
connection o = record {
  backend = o.backend;
  interface_empty = is_empty o.interface_name;
  serial_empty = is_empty o.serial;
  channel = pos 0;
  node_id = pos o.node_id;
  bitrate = pos o.bitrate;
  data_bitrate = pos o.data_bitrate;
}

-- The number that digits stand for, after a number that was read.
unfoldable pub number : ℕ → List ℕ → ℕ
number n [] = n
number n (c ∷ cs) = number (n * 10 + (c - b'0')) cs

-- `integer` with its maximum, which an `int` holds: `from_chars` also reads a sign, but then the value
-- is below 1.
unfoldable pub integer : String → ℕ → Option ℕ
integer value maximum =
    let n = number 0 (codes value) in
    if is_empty value || not (all is_digit (codes value)) || not (leb 1 n) || not (leb n maximum)
    then none
    else some n

-- The options with the flags of the loop.
pub record Parsing : Type 0 where
  pub settings : Settings
  pub usb : Bool
  pub named : Bool
  pub side : Bool
  pub rates : Bool

abbrev pub start : Parsing
start = record { settings = defaults; usb = false; named = false; side = false; rates = false }

-- `std::numeric_limits<int>::max()`.
abbrev pub int_max : ℕ
int_max = 2147483647

unfoldable pub with_node : Parsing → Option ℕ → Option Parsing
with_node p none = none
with_node p (some n) = some (record p { settings = record p.settings { node_id = n } })

unfoldable pub with_amplitude : Parsing → Option ℕ → Option Parsing
with_amplitude p none = none
with_amplitude p (some n) = some (record p { settings = record p.settings { amplitude = n } })

unfoldable pub with_rate : Parsing → Bool → Option ℕ → Option Parsing
with_rate p nominal none = none
with_rate p true (some n) =
    some (record p { settings = record p.settings { bitrate = n }; rates = true })
with_rate p false (some n) =
    some (record p { settings = record p.settings { data_bitrate = n }; rates = true })

-- The branches of the loop for an argument with its value.
unfoldable pub take_option : Bool → String → String → Parsing → Option Parsing
take_option wave arg value p =
    if arg is "--serial"
    then (if is_empty value || any (λ c. not (is_hex c)) (codes value)
        then none
        else some (record p { settings = record p.settings { serial = value }; usb = true }))
    else if arg is "--interface"
    then (if is_empty value
        then none
        else some
            (record p { settings = record p.settings { interface_name = value }; named = true }))
    else if arg is "--side"
    then (if not (value is "left") && not (value is "right")
        then none
        else some (record p {
          settings = record p.settings {
            interface_name = if value is "left" then "can0" else "can3";
          };
          side = true;
        }))
    else if arg is "--node-id"
    then with_node p (integer value 127)
    else if wave && (arg is "--amplitude")
    then with_amplitude p (integer value 10000)
    else if (arg is "--bitrate") || (arg is "--data-bitrate")
    then with_rate p (arg is "--bitrate") (integer value int_max)
    else none

abbrev pub and_then : Option Parsing → (Parsing → Option Parsing) → Option Parsing
and_then none f = none
and_then (some p) f = f p

abbrev pub only_connect : Parsing → Parsing
only_connect p = record p { settings = record p.settings { connect_only = true } }

-- The loop over the arguments behind the program's name.
unfoldable pub parse_loop : Bool → List String → Parsing → Option Parsing
parse_loop wave [] p = some p
parse_loop wave (arg ∷ []) p =
    if wave && (arg is "--connect-only") then some (only_connect p) else none
parse_loop wave (arg ∷ value ∷ rest) p =
    let alone = parse_loop wave (value ∷ rest) (only_connect p) in
    let pair = and_then (take_option wave arg value p) (parse_loop wave rest) in
    if wave && (arg is "--connect-only") then alone else pair

-- The tests after the loop; `windows` is `_WIN32`.
unfoldable pub finish : Bool → Parsing → Option Settings
finish windows p =
    if (p.named && p.side) || (p.usb && (p.named || p.side))
    then none
    else if windows
    then (if not p.usb then none else some (record p.settings { backend = gs_usb_win_usb }))
    else if p.usb || p.rates
    then none
    else some p.settings

abbrev pub finish_parsed : Bool → Option Parsing → Option Settings
finish_parsed windows none = none
finish_parsed windows (some p) = finish windows p

-- `parse` of empty options; `none` is false.
unfoldable pub parse : Bool → Bool → List String → Option Settings
parse windows wave args = finish_parsed windows (parse_loop wave args start)
