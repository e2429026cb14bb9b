-- ===== src/SocketCan/Opening/Examples.antt =====
-- A transport that is opened, opened again on an interface that is down, and opened once more.
use roboparty_dexhand.Base.{◌≡◌, refl, true, false, some, [], ◌∷◌, List}
use roboparty_dexhand.SocketCan.Opening.{
  Answers, Request, opening, run, unopened, close, open_socket, set_up, try_all,
}
use roboparty_dexhand.SocketCan.Opening.Laws.{Balanced, Says, open_socket-Balanced}

abbrev works : Answers
works = record {
  index = 2;
  descriptor = some 7;
  mtu = some 72;
  flags = some 0x10c1;
  fd_frames = true;
  filters = true;
  send_timeout = true;
  bound = true;
}

abbrev down : Answers
down = record works { flags = some 0x80 }

abbrev history : List Request
history = opening 1 works ∷ opening 1 down ∷ []

open_socket-Balanced_example :
    let s = run unopened history in
    Balanced s
    × Says 1 works (close s).calls (open_socket s 1 works)
    × Balanced (open_socket s 1 works).0
open_socket-Balanced_example = open_socket-Balanced history 1 works

first_opens : (open_socket unopened 1 works).1 ≡ true
unfolding open_socket set_up try_all close
first_opens = refl

down_refused : (open_socket (run unopened (opening 1 works ∷ [])) 1 down).1 ≡ false
unfolding run open_socket set_up try_all close
down_refused = refl
