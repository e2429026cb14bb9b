-- ===== src/Session/Transaction/Laws.antt =====
-- An SDO transaction succeeds only on the device's matching answer.
use roboparty_dexhand.Base.{
  Exists, ℕ, ◌+◌, ◌≡◌, ◌≢◌, ◌⊎◌, refl, inl, inr, sym, Bool, true, false, not, ◌&&◌, ◌||◌, Option,
  some, List, [], ◌∷◌, arith, ltb, ◌==◌, if◌then◌else◌, if_ind,
}
use roboparty_dexhand.Protocol.Encode.{Bytes}
use roboparty_dexhand.Protocol.Sdo.{SdoReply, decode_sdo_reply}
use roboparty_dexhand.Session.State.{Session, Receive, SdoResult}
use roboparty_dexhand.Session.Receive.{take_reply, take_feedback, matches, accepts}
use roboparty_dexhand.Session.Receive.Laws.{set_canfd_data_decode_ind}
use roboparty_dexhand.Session.Sending.{send}
use roboparty_dexhand.Session.Transaction.{
  Event, frame, receive_failure, closes, cancels, Waiting, happen, wait_for, finished, wait_code,
  begin_sdo, end_sdo, answer, request, conclude, transact_sdo,
}

-- The replies that acknowledge a write, or answer a read.
abbrev pub fits_request : Bool → Bool → ℕ → Bool
fits_request true configuration command = command == 0x60
fits_request false configuration command =
    command == 0x4b || command == 0x43 || (not configuration && command == 0x4f)

-- The event brings the device's answer to this request, with this value.
pub data Acknowledges (node index sub : ℕ) (writes configuration : Bool) (value : ℕ)
    : Event → Type 0 where
  acknowledges :
      (bytes : Option Bytes) (now : ℕ) (reply : SdoReply)
      → decode_sdo_reply bytes ≡ some reply
      → reply.index ≡ index
      → reply.subindex ≡ sub
      → fits_request writes configuration reply.command ≡ true
      → reply.value ≡ value
      → Acknowledges node index sub writes configuration value (frame (0x580 + node) bytes now)

accepted :
    (w c : Bool) (command : ℕ) (writes configuration : Bool)
    → w ≡ writes
    → c ≡ configuration
    → (command == 0x80
        || (if w
            then command == 0x60
            else command == 0x4b || command == 0x43 || (not c && command == 0x4f)))
      ≡ true
    → command ≢ 0x80
    → fits_request writes configuration command ≡ true
accepted w c command true configuration p q a n = ground arith
accepted w c command false configuration p q a n = ground arith

wait_for-done :
    (done : Waiting → Bool) (w : Waiting) (es : List Event)
    → done w ≡ true
    → wait_for done w es ≡ (w, true)
unfolding wait_for
wait_for-done done w [] h = rw h
wait_for-done done w (e ∷ es) h = rw h

-- The result of a wait is its predicate in the last state.
wait_for-finished :
    (done : Waiting → Bool) (w : Waiting) (es : List Event)
    → (wait_for done w es).1 ≡ done (wait_for done w es).0
unfolding wait_for
wait_for-finished done w [] = refl
wait_for-finished done w (e ∷ es) =
    if_ind (λ (r : Waiting × Bool). r.1 ≡ done r.0) (done w) (λ h. sym h)
      (λ _. wait_for-finished done (happen w e) es)

module _ (node index sub : ℕ) (writes configuration : Bool) where
  -- The request waits for its answer.
  record Open (r : Receive) : Type 0 where
    node_same : r.node ≡ node
    index_same : r.pending_index ≡ index
    sub_same : r.pending_sub ≡ sub
    writes_same : r.pending_write ≡ writes
    configuration_same : r.pending_configuration ≡ configuration
    unanswered : r.answered ≡ false

  abbrev Ack : ℕ → Event → Type 0
  Ack = Acknowledges node index sub writes configuration

  -- The request still waits, or this event answered it.
  abbrev Next : Event → Receive → Type 0
  Next e r = Open r ⊎ ((r.answered ≡ true) × (r.sdo.code ≡ 0 → Ack r.sdo.value e))

  acked :
      (r : Receive) (bytes : Option Bytes) (now : ℕ) (reply : SdoReply)
      → Open r
      → decode_sdo_reply bytes ≡ some reply
      → matches r reply ≡ true
      → accepts r reply ≡ true
      → ◌≡◌ {A = ℕ} (if reply.command == 0x80 then 7 else 0) 0
      → Ack reply.value (frame (0x580 + node) bytes now)
  unfolding matches accepts
  acked r bytes now reply o d m a z =
      acknowledges bytes now reply d (ground arith) (ground arith)
        (accepted r.pending_write r.pending_configuration reply.command writes configuration
          o.writes_same o.configuration_same a (ground arith))
        refl

  take_reply-Next :
      (r : Receive) (bytes : Option Bytes) (now : ℕ) (reply : SdoReply)
      → Open r
      → decode_sdo_reply bytes ≡ some reply
      → Next (frame (0x580 + node) bytes now) (take_reply r reply).0
  unfolding take_reply
  take_reply-Next r bytes now reply o d =
      let P = λ (q : Receive × ℕ). Next (frame (0x580 + node) bytes now) q.0 in
      if_ind P
        (reply.command == 0x43
          && ltb 0xffff reply.value
          && not (matches r reply && r.pending_configuration))
        (λ _. inl o)
        λ _.
          if_ind P (matches r reply)
            (λ m.
              if_ind P (not (accepts r reply)) (λ _. inl o)
                (λ a. inr (refl, acked r bytes now reply o d m (ground arith))))
            (λ _. inl o)

  take_feedback-Open : (r : Receive) (b : Bytes) (now : ℕ) → Open r → Open (take_feedback r b now).0
  unfolding take_feedback
  take_feedback-Open r b now o = ground arith

  happen-Next : (w : Waiting) (e : Event) → Open w.rx → Next e (happen w e).rx
  unfolding happen
  happen-Next w (frame id bytes now) o =
      set_canfd_data_decode_ind (λ q. Next (frame id bytes now) q.0) w.rx id bytes now
        (λ _ _. inl o)
        (λ reply _ e d.
          let e' : id ≡ 0x580 + node = omega (arith, o.node_same) in
          rw e' (take_reply-Next w.rx bytes now reply o d))
        (λ b _ _ _. inl (take_feedback-Open w.rx b now o))
  happen-Next w receive_failure o = inl (record {
    node_same = o.node_same;
    index_same = o.index_same;
    sub_same = o.sub_same;
    writes_same = o.writes_same;
    configuration_same = o.configuration_same;
    unanswered = o.unanswered;
  })
  happen-Next w closes o = inl (record {
    node_same = o.node_same;
    index_same = o.index_same;
    sub_same = o.sub_same;
    writes_same = o.writes_same;
    configuration_same = o.configuration_same;
    unanswered = o.unanswered;
  })
  happen-Next w cancels o = inl o

  -- A wait that ends with an answer was given it by one of the events.
  wait_for-answered :
      (cancellable : Bool) (w : Waiting) (es : List Event)
      → Open w.rx
      → let q = (wait_for (finished cancellable configuration) w es).0.rx in
        q.answered ≡ true → q.sdo.code ≡ 0 → Exists (Ack q.sdo.value) es
  unfolding wait_for
  wait_for-answered cancellable w [] o = λ a z. cc (o.unanswered)
  wait_for-answered cancellable w (e ∷ es) o =
      if_ind
        (λ (r : Waiting × Bool).
          r.0.rx.answered ≡ true → r.0.rx.sdo.code ≡ 0 → Exists (Ack r.0.rx.sdo.value) (e ∷ es))
        (finished cancellable configuration w) (λ _ a z. cc (o.unanswered))
        (λ _. later (happen-Next w e o) (wait_for-answered cancellable (happen w e) es))
    where
      done : Waiting → Bool
      done = finished cancellable configuration

      later :
          Next e (happen w e).rx
          → (Open (happen w e).rx
              → let q = (wait_for done (happen w e) es).0.rx in
                q.answered ≡ true → q.sdo.code ≡ 0 → Exists (Ack q.sdo.value) es)
          → let q = (wait_for done (happen w e) es).0.rx in
            q.answered ≡ true → q.sdo.code ≡ 0 → Exists (Ack q.sdo.value) (e ∷ es)
      later (inl o') rest a z = inr (rest o' a z)
      later (inr (given, ack)) rest a z =
          let stops = wait_for-done done (happen w e) es (ground arith) in
          rw stops (inl (ack (rw stops at z)))

-- A wait that gives code 0 was answered.
wait_code-zero :
    (cancellable configuration : Bool) (r : Waiting × Bool)
    → r.1 ≡ finished cancellable configuration r.0
    → wait_code cancellable configuration r ≡ 0
    → (r.0.rx.answered ≡ true) × (r.0.rx.sdo.code ≡ 0)
wait_code-zero cancellable configuration r f z = ground arith

send-rx : (s : Session) (base : ℕ) (bytes : Bytes) → (send s base bytes).0.rx ≡ s.rx
unfolding send
send-rx s base bytes = ground arith

request-rx :
    (s : Session) (stops : Bool) (index sub : ℕ) (writes : Bool) (value : ℕ)
    → (request s stops index sub writes value).0.rx ≡ s.rx
unfolding request
request-rx s stops index sub writes value =
    if_ind (λ (r : Session × ℕ). r.0.rx ≡ s.rx) stops (λ _. refl) (λ _. send-rx s 0x600 _)

conclude-acknowledged :
    (node index sub : ℕ) (writes : Bool) (r : Session × ℕ)
    (cancellable cancelled configuration : Bool) (events : List Event)
    → Open node index sub writes configuration r.0.rx
    → let q = conclude r cancellable cancelled configuration events in
      q.1.code ≡ 0 → Exists (Acknowledges node index sub writes configuration q.1.value) events
unfolding conclude answer end_sdo
conclude-acknowledged node index sub writes r cancellable cancelled configuration events o =
    if_ind
      (λ (q : Session × SdoResult).
        q.1.code ≡ 0 → Exists (Acknowledges node index sub writes configuration q.1.value) events)
      (r.1 == 0)
      (λ _ z.
        let (answered, code) =
          wait_code-zero cancellable configuration
            (wait_for (finished cancellable configuration) w events)
            (wait_for-finished (finished cancellable configuration) w events) z in
        wait_for-answered node index sub writes configuration cancellable w events o answered code)
      (λ n z. absurd (ground arith))
  where
    w : Waiting
    w = record { rx = r.0.rx; cancelled = cancelled }

-- A transaction that returns code 0 was answered while it waited: one of the events is a frame from
-- this node that decodes to a reply for the requested register, of a kind that acknowledges the
-- write or answers the read, and the result's value is the one in that reply.
pub transact_sdo-acknowledged :
    (s : Session) (index sub : ℕ) (writes : Bool) (value : ℕ)
    (cancellable cancelled configuration : Bool) (events : List Event)
    → let r = transact_sdo s index sub writes value cancellable cancelled configuration events in
      r.1.code ≡ 0 → Exists (Acknowledges s.rx.node index sub writes configuration r.1.value) events
unfolding transact_sdo begin_sdo
transact_sdo-acknowledged s index sub writes value cancellable cancelled configuration events =
    let s1 = record s { rx = begin_sdo s.rx index sub writes configuration } in
    let stops = cancellable && cancelled in
    conclude-acknowledged s.rx.node index sub writes (request s1 stops index sub writes value)
      cancellable cancelled configuration events
      (rw (request-rx s1 stops index sub writes value) (record {
        node_same = refl;
        index_same = refl;
        sub_same = refl;
        writes_same = refl;
        configuration_same = refl;
        unanswered = refl;
      }))
