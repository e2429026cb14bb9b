-- ===== src/Transport.antt =====
-- `make_transport` of src/rphand/transport.cpp; `windows` is `_WIN32`.
use roboparty_dexhand.Base.{Bool, true, false, Option, none, some}
use roboparty_dexhand.Hand.Connect.{Backend, socket_can, gs_usb_win_usb}

-- The classes of transports.
pub data Transport : Type 0 where
  socket usb : Transport

unfoldable pub make_transport : Bool → Backend → Option Transport
make_transport true gs_usb_win_usb = some usb
make_transport false socket_can = some socket
make_transport windows backend = none
