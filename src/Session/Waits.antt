-- ===== src/Session/Waits.antt =====
-- The receiver thread of src/rphand/session.cpp and the waits for what it receives: `open_transport`,
-- `receive_loop`, `pause`, `wait_for_status` and `wait_for_feedback`.
pub mod Laws
use roboparty_dexhand.Base.{
  ℕ, Bool, true, false, not, ◌&&◌, ◌||◌, some, List, [], ◌∷◌, ltb, if◌then◌else◌,
}
use roboparty_dexhand.Protocol.Encode.{Bytes}
use roboparty_dexhand.Session.State.{Session, Receive, Callback, no_feedbacks, no_snapshot}
use roboparty_dexhand.Session.Receive.{set_canfd_data_decode}
use roboparty_dexhand.Session.Sending.{close}
use roboparty_dexhand.Session.Transaction.{Event, Waiting, wait_for}

-- `opened` says whether the transport was made and opened; its `send` becomes the callback. That the
-- receiver thread cannot be started, which throws, is left out.
unfoldable pub open_transport : Session → Bool → Callback → Session × Bool
open_transport s opened transport =
    let t = close s in
    let r = record t.rx {
      rx_failed = false;
      feedback = no_feedbacks;
      snapshot = no_snapshot;
      track_home = false;
    } in
    if not opened
    then (record t { rx = r }, false)
    else (record t { rx = r; callback = some transport }, true)

-- What a call of the transport's `receive` gives: a negative result, zero, or a frame and the clock.
pub data Polled : Type 0 where
  fails nothing : Polled
  arrives : ℕ → Bytes → ℕ → Polled

-- The loop over the calls until `rx_done_`.
unfoldable pub receive_loop : Receive → List Polled → Receive
receive_loop r [] = r
receive_loop r (fails ∷ polls) = record r { rx_failed = true }
receive_loop r (nothing ∷ polls) = receive_loop r polls
receive_loop r (arrives id bytes now ∷ polls) =
    receive_loop (set_canfd_data_decode r id (some bytes) now).0 polls

-- The events of a wait are those before its time is over.
unfoldable pub pause : Waiting → List Event → Waiting × Bool
pause w events = let (v, _) = wait_for (λ u. u.cancelled) w events in (v, not v.cancelled)

unfoldable pub wait_for_status : ℕ → Waiting → List Event → Waiting
wait_for_status sequence w events =
    (wait_for (λ u. u.cancelled || u.rx.rx_failed || ltb sequence u.rx.snapshot.sequence_statuses) w
      events).0

-- `complete`, for the two numbers of the baseline.
unfoldable pub complete : ℕ → ℕ → Waiting → Bool
complete positions statuses w =
    ltb positions w.rx.snapshot.sequence_positions && ltb statuses w.rx.snapshot.sequence_statuses

unfoldable pub wait_for_feedback : ℕ → ℕ → Waiting → List Event → Waiting × Bool
wait_for_feedback positions statuses w events =
    let (v, _) =
      wait_for (λ u. complete positions statuses u || u.rx.closed || u.rx.rx_failed || u.cancelled)
        w events in
    (v, complete positions statuses v && not v.rx.closed && not v.rx.rx_failed && not v.cancelled)
