-- ===== src/Demo/Accepted.antt =====
-- What a command line that is accepted gives, against the checks of `connect` and `set_positions`.
use Prim.Native.String.{String}
use text.Mathlib.Text.{◌==◌ as ◌is◌}
use roboparty_dexhand.Base.{
  is_empty, codes, is_hex, ℕ, ◌≤◌, ◌≡◌, refl, ap, subst, Bool, true, false, not, ◌&&◌, ◌||◌, Option,
  none, some, List, [], ◌∷◌, any, if◌then◌else◌, if_ind, arith,
}
use roboparty_dexhand.Hand.Connect.{Backend, socket_can, gs_usb_win_usb, refuses_options}
use roboparty_dexhand.Transport.{make_transport, socket, usb}
use roboparty_dexhand.Demo.Options.{
  Settings, Parsing, start, connection, integer, int_max, with_node, with_amplitude, with_rate,
  take_option, and_then, only_connect, parse_loop, finish, finish_parsed, parse,
}

-- The settings so far are usable.
pub record Usable (o : Settings) : Type 0 where
  pub node_low : 1 ≤ o.node_id
  pub node_high : o.node_id ≤ 127
  pub bitrate : 1 ≤ o.bitrate
  pub data_bitrate : 1 ≤ o.data_bitrate
  pub amplitude_low : 1 ≤ o.amplitude
  pub amplitude_high : o.amplitude ≤ 10000
  pub named : is_empty o.interface_name ≡ false
  pub hex : any (λ c. not (is_hex c)) (codes o.serial) ≡ false

record Valid (p : Parsing) : Type 0 where
  usable : Usable p.settings
  serial : (not p.usb || not (is_empty p.settings.serial)) ≡ true
  plain : p.settings.backend ≡ socket_can

abbrev AllValid : Option Parsing → Type 0
AllValid o = (q : Parsing) → o ≡ some q → Valid q

none-AllValid : AllValid none
none-AllValid q z = absurd (ground (arith, z))

some_same : (x y : Parsing) → some x ≡ some y → x ≡ y
some_same x y e = ap (λ o. elim o [ none ↦ x | some z ↦ z ]) e

some-AllValid : (p : Parsing) → Valid p → AllValid (some p)
some-AllValid p v q z = subst Valid (some_same p q z) v

integer_bounds :
    (value : String) (maximum n : ℕ) → integer value maximum ≡ some n → (1 ≤ n) × (n ≤ maximum)
unfolding integer
integer_bounds value maximum n e = ground (arith, e)

module _ (p : Parsing) (v : Valid p) where
  with_node-AllValid :
      (o : Option ℕ) → ((n : ℕ) → o ≡ some n → (1 ≤ n) × (n ≤ 127)) → AllValid (with_node p o)
  unfolding with_node
  with_node-AllValid none h = none-AllValid
  with_node-AllValid (some n) h =
      let (low, high) = h n refl in
      some-AllValid (record p { settings = record p.settings { node_id = n } }) (ground arith)

  with_amplitude-AllValid :
      (o : Option ℕ)
      → ((n : ℕ) → o ≡ some n → (1 ≤ n) × (n ≤ 10000))
      → AllValid (with_amplitude p o)
  unfolding with_amplitude
  with_amplitude-AllValid none h = none-AllValid
  with_amplitude-AllValid (some n) h =
      let (low, high) = h n refl in
      some-AllValid (record p { settings = record p.settings { amplitude = n } }) (ground arith)

  with_rate-AllValid :
      (nominal : Bool) (o : Option ℕ)
      → ((n : ℕ) → o ≡ some n → (1 ≤ n) × (n ≤ int_max))
      → AllValid (with_rate p nominal o)
  unfolding with_rate
  with_rate-AllValid nominal none h = none-AllValid
  with_rate-AllValid true (some n) h =
      let (low, high) = h n refl in
      some-AllValid (record p { settings = record p.settings { bitrate = n }; rates = true })
        (ground arith)
  with_rate-AllValid false (some n) h =
      let (low, high) = h n refl in
      some-AllValid (record p { settings = record p.settings { data_bitrate = n }; rates = true })
        (ground arith)

  serial-Valid :
      (value : String)
      → (is_empty value || any (λ c. not (is_hex c)) (codes value)) ≡ false
      → Valid (record p { settings = record p.settings { serial = value }; usb = true })
  serial-Valid value e = ground arith

  named-Valid :
      (value : String) (named side : Bool)
      → is_empty value ≡ false
      → Valid (record p {
        settings = record p.settings { interface_name = value };
        named = named;
        side = side;
      })
  named-Valid value named side e = ground arith

  side_named : (left : Bool) → is_empty (if left then "can0" else "can3") ≡ false
  side_named true = refl
  side_named false = refl

  take_option-AllValid :
      (wave : Bool) (arg value : String) → AllValid (take_option wave arg value p)
  unfolding take_option
  take_option-AllValid wave arg value =
      if_ind AllValid (arg is "--serial")
        (λ _.
          if_ind AllValid (is_empty value || any (λ c. not (is_hex c)) (codes value))
            (λ _. none-AllValid) (λ e. some-AllValid _ (serial-Valid value e)))
        λ _.
          if_ind AllValid (arg is "--interface")
            (λ _.
              if_ind AllValid (is_empty value) (λ _. none-AllValid)
                (λ e. some-AllValid _ (named-Valid value true p.side e)))
            λ _.
              if_ind AllValid (arg is "--side")
                (λ _.
                  if_ind AllValid (not (value is "left") && not (value is "right"))
                    (λ _. none-AllValid)
                    (λ _.
                      some-AllValid _ (named-Valid _ p.named true (side_named (value is "left")))))
                λ _.
                  if_ind AllValid (arg is "--node-id")
                    (λ _. with_node-AllValid (integer value 127) (integer_bounds value 127))
                    λ _.
                      if_ind AllValid (wave && (arg is "--amplitude"))
                        (λ _.
                          with_amplitude-AllValid (integer value 10000)
                            (integer_bounds value 10000))
                        λ _.
                          if_ind AllValid ((arg is "--bitrate") || (arg is "--data-bitrate"))
                            (λ _.
                              with_rate-AllValid (arg is "--bitrate") (integer value int_max)
                                (integer_bounds value int_max))
                            (λ _. none-AllValid)

  only_connect-Valid : Valid (only_connect p)
  only_connect-Valid = ground arith

and_then-AllValid :
    (o : Option Parsing) (f : Parsing → Option Parsing)
    → AllValid o
    → ((q : Parsing) → Valid q → AllValid (f q))
    → AllValid (and_then o f)
and_then-AllValid none f h k = none-AllValid
and_then-AllValid (some q) f h k = k q (h q refl)

parse_loop-AllValid :
    (wave : Bool) (args : List String) (p : Parsing) → Valid p → AllValid (parse_loop wave args p)
unfolding parse_loop
parse_loop-AllValid wave [] p v = some-AllValid p v
parse_loop-AllValid wave (arg ∷ []) p v =
    if_ind AllValid (wave && (arg is "--connect-only"))
      (λ _. some-AllValid (only_connect p) (only_connect-Valid p v)) (λ _. none-AllValid)
parse_loop-AllValid wave (arg ∷ value ∷ rest) p v =
    if_ind AllValid (wave && (arg is "--connect-only"))
      (λ _. parse_loop-AllValid wave (value ∷ rest) (only_connect p) (only_connect-Valid p v))
      (λ _.
        and_then-AllValid (take_option wave arg value p) (parse_loop wave rest)
          (take_option-AllValid p v wave arg value) (λ q w. parse_loop-AllValid wave rest q w))

start-Valid : Valid start
start-Valid = ground arith

-- A command line that is accepted.
pub record Accepted (windows : Bool) (o : Settings) : Type 0 where
  pub connects : refuses_options (connection o) ≡ false
  pub backend : o.backend ≡ (if windows then gs_usb_win_usb else socket_can)
  pub transport : make_transport windows o.backend ≡ some (if windows then usb else socket)
  pub usable : Usable o

abbrev AllAccepted : Bool → Option Settings → Type 0
AllAccepted windows o = (s : Settings) → o ≡ some s → Accepted windows s

settings_same : (x y : Settings) → some x ≡ some y → x ≡ y
settings_same x y e = ap (λ o. elim o [ none ↦ x | some z ↦ z ]) e

usb-accepted :
    (p : Parsing)
    → Valid p
    → not p.usb ≡ false
    → refuses_options (connection (record p.settings { backend = gs_usb_win_usb })) ≡ false
unfolding refuses_options connection
usb-accepted p v e = let u = v.usable in let s = v.serial in ground (arith, e, s)

can-accepted :
    (o : Settings) → Usable o → o.backend ≡ socket_can → refuses_options (connection o) ≡ false
unfolding refuses_options connection
can-accepted o u e = rw e (ground arith)

usable_backend : (o : Settings) (b : Backend) → Usable o → Usable (record o { backend = b })
usable_backend o b u = ground arith

finish-Accepted : (windows : Bool) (p : Parsing) → Valid p → AllAccepted windows (finish windows p)
unfolding finish make_transport
finish-Accepted windows p v =
    if_ind (AllAccepted windows) ((p.named && p.side) || (p.usb && (p.named || p.side)))
      (λ _ s z. absurd (ground (arith, z))) (λ _. on windows)
  where
    on :
        (w : Bool)
        → AllAccepted w (
            if w
            then (if not p.usb then none else some (record p.settings { backend = gs_usb_win_usb }))
            else if p.usb || p.rates
            then none
            else some p.settings)
    on true =
        if_ind (AllAccepted true) (not p.usb) (λ _ s z. absurd (ground (arith, z)))
          (λ e s z. subst (Accepted true) (settings_same _ s z) (record {
            connects = usb-accepted p v e;
            backend = refl;
            transport = refl;
            usable = usable_backend p.settings gs_usb_win_usb v.usable;
          }))
    on false =
        if_ind (AllAccepted false) (p.usb || p.rates) (λ _ s z. absurd (ground (arith, z)))
          (λ e s z. subst (Accepted false) (settings_same _ s z) (record {
            connects = can-accepted p.settings v.usable v.plain;
            backend = v.plain;
            transport = rw v.plain refl;
            usable = v.usable;
          }))

finish_parsed-Accepted :
    (windows : Bool) (o : Option Parsing)
    → AllValid o
    → AllAccepted windows (finish_parsed windows o)
finish_parsed-Accepted windows none h = λ s z. absurd (ground (arith, z))
finish_parsed-Accepted windows (some p) h = finish-Accepted windows p (h p refl)

-- Whatever the command line, if `parse` accepts it, `connect` refuses none of its options, the
-- backend is that of the platform and has its transport, a serial has only hexadecimal digits, the
-- node is from 1 to 127, and the amplitude from 1 to 10000.
pub parse-Accepted :
    (windows wave : Bool) (args : List String) (o : Settings)
    → parse windows wave args ≡ some o
    → Accepted windows o
unfolding parse
parse-Accepted windows wave args o e =
    finish_parsed-Accepted windows (parse_loop wave args start)
      (parse_loop-AllValid wave args start start-Valid) o e
