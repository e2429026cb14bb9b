-- ===== src/Session/Transaction.antt =====
-- SDO transactions of src/rphand/session.cpp: `transact_sdo`, `feedback_period` and `read_sdo`.
pub mod Laws
use roboparty_dexhand.Base.{
  ℕ, ◌+◌, ◌%◌, ◌^◌, Bool, true, false, not, ◌&&◌, ◌||◌, Option, none, some, List, [], ◌∷◌, ◌==◌,
  if◌then◌else◌,
}
use roboparty_dexhand.Protocol.Encode.{Bytes}
use roboparty_dexhand.Protocol.Sdo.{SdoCommand, read, write, sdo_payload}
use roboparty_dexhand.Session.State.{Session, Receive, SdoResult, no_result}
use roboparty_dexhand.Session.Receive.{set_canfd_data_decode}
use roboparty_dexhand.Session.Sending.{send}

-- What other threads do while a transaction waits: the receiver decodes a frame or fails, the
-- session is closed, or the caller's predicate starts to report cancellation.
pub data Event : Type 0 where
  frame : ℕ → Option Bytes → ℕ → Event
  receive_failure : Event
  closes : Event
  cancels : Event

-- The receive state with what `cancelled()` reports.
pub record Waiting : Type 0 where
  pub rx : Receive
  pub cancelled : Bool

unfoldable pub happen : Waiting → Event → Waiting
happen w (frame id bytes now) = record w { rx = (set_canfd_data_decode w.rx id bytes now).0 }
happen w receive_failure = record w { rx = record (w.rx) { rx_failed = true } }
happen w closes = record w { rx = record (w.rx) { closed = true; ready = false } }
happen w cancels = record w { cancelled = true }

-- `wait_for` with a predicate: the events are those before the deadline, in order. The result says
-- whether the predicate held in the end; the events behind it are left out.
unfoldable pub wait_for : (Waiting → Bool) → Waiting → List Event → Waiting × Bool
wait_for done w [] = (w, done w)
wait_for done w (e ∷ es) =
    let rest = wait_for done (happen w e) es in if done w then (w, true) else rest

-- `stopped()`; a transaction without a predicate is never stopped.
abbrev pub stopped : Bool → Waiting → Bool
stopped cancellable w = cancellable && w.cancelled

abbrev pub finished : Bool → Bool → Waiting → Bool
finished cancellable configuration w =
    w.rx.answered || w.rx.closed || stopped cancellable w || (configuration && w.rx.rx_failed)

abbrev pub wait_code : Bool → Bool → Waiting × Bool → ℕ
wait_code cancellable configuration (w, done) =
    if not done
    then 7
    else if w.rx.closed || stopped cancellable w
    then 2
    else if configuration && w.rx.rx_failed
    then 6
    else w.rx.sdo.code

-- The first locked block.
unfoldable pub begin_sdo : Receive → ℕ → ℕ → Bool → Bool → Receive
begin_sdo r index sub writes configuration = record r {
  pending_index = index;
  pending_sub = sub;
  pending = true;
  answered = false;
  pending_write = writes;
  pending_configuration = configuration;
  sdo = no_result;
}

-- The end of the second locked block.
unfoldable pub end_sdo : Session → Receive → ℕ → Session × SdoResult
end_sdo s r rc = (record s { rx = record r { pending = false } }, record (r.sdo) { code = rc })

unfoldable pub answer : Session → Bool → Bool → Waiting × Bool → Session × SdoResult
answer s cancellable configuration w = end_sdo s w.0.rx (wait_code cancellable configuration w)

-- `value` goes through a conversion to `uint16_t`, `index` and `sub` are in range.
unfoldable pub request : Session → Bool → ℕ → ℕ → Bool → ℕ → Session × ℕ
request s stops index sub writes value =
    if stops
    then (s, 2)
    else send s 0x600 (
        sdo_payload (if writes then write else read) (index % 2 ^ 16) (sub % 2 ^ 8)
          (value % 2 ^ 16))

-- From the second locked block on, with the code of the request.
unfoldable pub conclude : Session × ℕ → Bool → Bool → Bool → List Event → Session × SdoResult
conclude (s, rc) cancellable cancelled configuration events =
    if rc == 0
    then answer s cancellable configuration (
        wait_for (finished cancellable configuration) (record { rx = s.rx; cancelled = cancelled })
          events)
    else end_sdo s s.rx rc

-- `cancelled` is what the predicate reports before the request is sent.
unfoldable pub transact_sdo :
    Session → ℕ → ℕ → Bool → ℕ → Bool → Bool → Bool → List Event → Session × SdoResult
transact_sdo s index sub writes value cancellable cancelled configuration events =
    conclude
      (request (record s { rx = begin_sdo s.rx index sub writes configuration })
        (cancellable && cancelled) index sub writes value)
      cancellable cancelled configuration events

unfoldable pub feedback_period : Session → ℕ → Bool → Bool → List Event → Session × SdoResult
feedback_period s index writes cancelled events =
    transact_sdo s index 0x14 writes (if writes then 200 else 0) true cancelled true events

-- The last part is what goes through `value`; `null` says that `value` is a null pointer.
unfoldable pub read_sdo : Session → ℕ → ℕ → Bool → List Event → Session × ℕ × Option ℕ
read_sdo s index sub null events =
    if null
    then (s, 1, none)
    else let (s', result) = transact_sdo s index sub false 0 false false false events in
      (s', result.code, if result.code == 0 then some result.value else none)
