-- ===== src/Hand/Connect.antt =====
-- `open_device` of src/hand.cpp and the check of the options in `connect`.
pub mod Laws
use roboparty_dexhand.Base.{
  Bool, true, false, not, ◌&&◌, ◌||◌, ◌∷◌, ◌==◌, if◌then◌else◌, ℤ, pos, at_most, eq_ℤ,
}
use roboparty_dexhand.Hand.World.{
  World, Trace, Operation, calls, cancelled, broken, opens_transport, connects, cleans_up,
  opens_session, set_move_no_home,
}
use roboparty_dexhand.Hand.Configure.{configure_feedback}

-- `enum class Backend`; a value of the underlying type may be neither.
pub data Backend : Type 0 where
  socket_can gs_usb_win_usb neither : Backend

abbrev pub is_usb : Backend → Bool
is_usb gs_usb_win_usb = true
is_usb _ = false

abbrev pub is_known : Backend → Bool
is_known neither = false
is_known _ = true

-- Of the two names only whether they are empty is read here.
pub record ConnectionOptions : Type 0 where
  pub backend : Backend
  pub interface_empty : Bool
  pub serial_empty : Bool
  pub channel : ℤ
  pub node_id : ℤ
  pub bitrate : ℤ
  pub data_bitrate : ℤ

-- The options that `connect` makes of a name and a node.
unfoldable pub options_for : Bool → ℤ → ConnectionOptions
options_for name_empty node = record {
  backend = socket_can;
  interface_empty = name_empty;
  serial_empty = true;
  channel = pos 0;
  node_id = node;
  bitrate = pos 1000000;
  data_bitrate = pos 5000000;
}

-- The options that `connect` refuses.
unfoldable pub refuses_options : ConnectionOptions → Bool
refuses_options o =
    (if is_usb o.backend then o.serial_empty else o.interface_empty)
    || at_most o.node_id 0
    || not (at_most o.node_id 127)
    || not (is_known o.backend)
    || (is_usb o.backend
        && (not (eq_ℤ o.channel (pos 0)) || at_most o.bitrate 0 || at_most o.data_bitrate 0))

module _ (w : World) where
  -- `check` of a call.
  unfoldable pub check : Operation → Trace → Bool × Trace
  check op tr = (w.code tr op == 0, calls op (w.code tr op) ∷ tr)

  -- The condition in `open_device`, with the calls that it gets to.
  unfoldable pub prepare : ℤ → Trace → Bool × Trace
  prepare node tr =
      let (c, t1) = cancelled w tr in
      let t2 = opens_transport (w.opened t1) ∷ t1 in
      let (started, t3) = check (opens_session node) t2 in
      let (allowed, t4) = check (set_move_no_home (pos 1)) t3 in
      let (configured, t5) = configure_feedback w t4 in
      let (b, t6) = broken w t5 in
      if c
      then (false, t1)
      else if not (w.opened t1)
      then (false, t2)
      else if not started
      then (false, t3)
      else if not allowed
      then (false, t4)
      else if not configured
      then (false, t5)
      else (not b, t6)

  unfoldable pub open_device : ℤ → Trace → Bool × Trace
  open_device node tr =
      let (ready, t1) = prepare node tr in
      let (c, t2) = cancelled w (connects ∷ t1) in
      if not ready
      then (false, cleans_up ∷ t1)
      else if c
      then (false, cleans_up ∷ t2)
      else (true, t2)
