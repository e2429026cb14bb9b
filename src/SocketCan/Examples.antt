-- ===== src/SocketCan/Examples.antt =====
-- The theorems on the socket transport at small frames.
use roboparty_dexhand.Base.{◌≡◌, refl, true, false, some, [], ◌∷◌, replicate, arith}
use roboparty_dexhand.Gs.Wire.{CanFrame}
use roboparty_dexhand.SocketCan.{CanFdFrame, receive, arrives}
use roboparty_dexhand.SocketCan.Laws.{Received, receive-Received}

abbrev arrived : CanFdFrame
arrived = record { can_id = 0x481; len = 2; flags = 1; bytes = 0x5a ∷ 6 ∷ [] }

abbrev reported : CanFrame
reported = record {
  can_id = 0x481;
  len = 2;
  fd = true;
  brs = true;
  extended = false;
  bytes = 0x5a ∷ 6 ∷ replicate 62 0;
}

reports : (receive (arrives 72 arrived)).1 ≡ some reported
unfolding receive
reports = refl

receive-Received_example : Received 72 arrived reported
receive-Received_example = receive-Received 72 arrived reported (omega arith) reports
