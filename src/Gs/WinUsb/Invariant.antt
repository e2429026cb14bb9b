-- ===== src/Gs/WinUsb/Invariant.antt =====
-- No echo slot of the adapter of src/rphand/backends/gs_usb_winusb.cpp is in use twice, and the receive
-- buffer stays in its bounds.
use roboparty_dexhand.Base.{
  ℕ, ◌≤◌, ◌≡◌, inl, inr, refl, sym, Bool, true, false, not, ◌||◌, Option, some, List, [], ltb, ◌==◌,
  if_ind, if_ind_both, option_ind, any, length, get_or, arith, ℤ, subst, to_u32,
}
use roboparty_dexhand.Protocol.Encode.{Bytes}
use roboparty_dexhand.Hand.Connect.{ConnectionOptions}
use roboparty_dexhand.Gs.Wire.{
  CanFrame, Decoded, Kind, frame, echo, ignore, status, failure, incomplete, Reason, encode,
}
use roboparty_dexhand.Gs.Buffer.{ReceiveBuffer, max_chunk, append, next, empty_buffer}
use roboparty_dexhand.Gs.Buffer.Stream.{IsValid, append_queue}
use roboparty_dexhand.Gs.Buffer.Records.{next_queue}
use roboparty_dexhand.Gs.WinUsb.{
  Adapter, first_free, available, count_error, broken, take_echo, dispatch, reserve, Reserved,
  Written, write_error, wrote, finish_send, Read, read_timeout, read_error, received, take_record,
  read_more, receive, is_incomplete, Shutdown, close,
}
use roboparty_dexhand.Gs.WinUsb.Access.{Device}
use roboparty_dexhand.Gs.WinUsb.Open.{open_adapter}
use roboparty_dexhand.Gs.WinUsb.Handles.{Holds, handles_known, close-Holds}
use roboparty_dexhand.Gs.WinUsb.Configured.{IsClosed, close-IsClosed, IsStarted}
use roboparty_dexhand.Gs.WinUsb.Starting.{open_adapter_cases}
use roboparty_dexhand.Gs.WinUsb.Slots.{
  Balanced, first_free_lem, take-Balanced, free-Balanced, miss-Balanced, empty-Balanced,
}
use roboparty_dexhand.Gs.WinUsb.Steps.{
  System, erase, answered, seen, seen_after_read, given, Step, reserves, finishes, receives, opens,
  closes, Reachable, here, next_step,
}

-- Each slot in use has one packet, the buffer is in its bounds, a read fits into the chunk that it is
-- made into, and the adapter knows the handles that it holds.
pub record Sound (a : Adapter) (slots : List ℕ) : Type 0 where
  pub balanced : Balanced a.pending slots
  pub buffer : IsValid a.buffer
  pub packet : a.input_packet_size ≤ max_chunk
  pub handles : Holds a

empty-IsValid : IsValid empty_buffer
empty-IsValid = record { room = refl; order = omega arith; inside = omega arith }

found_free :
    (a : Adapter)
    → (not (available a) || a.failed || not a.started) ≡ false
    → any (λ p. not p) a.pending ≡ true
found_free a e = ground arith

reserve-Sound :
    (a : Adapter) (slots : List ℕ) (id : ℕ) (bytes : Option Bytes) (size : ℕ) (extended : Bool)
    → Sound a slots
    → let r = reserve a id bytes size extended in Sound r.0 (given r.1 slots)
unfolding reserve count_error given
reserve-Sound a slots id bytes size extended h =
    let P = λ (r : Adapter × Reserved). Sound r.0 (given r.1 slots) in
    if_ind P (not (available a) || a.failed || not a.started)
      (λ _. record {
        balanced = h.balanced;
        buffer = h.buffer;
        packet = h.packet;
        handles = h.handles;
      })
      λ e.
        option_ind P (encode (first_free a.pending) 0 id bytes size extended)
          (λ _. record {
            balanced = h.balanced;
            buffer = h.buffer;
            packet = h.packet;
            handles = h.handles;
          })
          λ packet _.
            let (low, free) = first_free_lem a.pending (found_free a e) in
            record {
              balanced = take-Balanced a.pending slots (first_free a.pending) low free h.balanced;
              buffer = h.buffer;
              packet = h.packet;
              handles = h.handles;
            }

finish_send-Sound :
    (a : Adapter) (slots : List ℕ) (written : Written)
    → Sound a slots
    → Sound (finish_send a written).0 slots
unfolding finish_send count_error broken
finish_send-Sound a slots write_error h = record {
  balanced = h.balanced;
  buffer = h.buffer;
  packet = h.packet;
  handles = h.handles;
}
finish_send-Sound a slots (wrote sent) h =
    if_ind (λ (r : Adapter × Bool). Sound r.0 slots) (not (sent == 76))
      (λ _. record {
        balanced = h.balanced;
        buffer = h.buffer;
        packet = h.packet;
        handles = h.handles;
      })
      (λ _. h)

take_echo-Sound :
    (a : Adapter) (slots : List ℕ) (slot : ℕ)
    → Sound a slots
    → Sound (take_echo a slot).0 (erase slot slots)
unfolding take_echo broken
take_echo-Sound a slots slot h =
    if_ind (λ (r : Adapter × ℤ). Sound r.0 (erase slot slots)) (not (get_or a.pending slot false))
      (λ e. record {
        balanced = miss-Balanced a.pending slots slot (ground (arith, e)) h.balanced;
        buffer = h.buffer;
        packet = h.packet;
        handles = h.handles;
      })
      (λ e. record {
        balanced = free-Balanced a.pending slots slot (ground (arith, e)) h.balanced;
        buffer = h.buffer;
        packet = h.packet;
        handles = h.handles;
      })

dispatch_kinds :
    (a : Adapter) (slots : List ℕ) (k : Kind) (r : Reason) (f : CanFrame) (slot : ℕ)
    → Sound a slots
    → let d : Decoded = record { kind = k; reason = r; frame = f; echo = slot } in
      Sound (dispatch a d).0 (answered (some d) slots)
unfolding dispatch answered broken
dispatch_kinds a slots frame r f slot h = h
dispatch_kinds a slots echo r f slot h = take_echo-Sound a slots slot h
dispatch_kinds a slots ignore r f slot h = h
dispatch_kinds a slots status r f slot h = record {
  balanced = h.balanced;
  buffer = h.buffer;
  packet = h.packet;
  handles = h.handles;
}
dispatch_kinds a slots failure r f slot h = record {
  balanced = h.balanced;
  buffer = h.buffer;
  packet = h.packet;
  handles = h.handles;
}
dispatch_kinds a slots incomplete r f slot h = h

buffer-Sound :
    (a : Adapter) (slots : List ℕ) (b : ReceiveBuffer)
    → Sound a slots
    → IsValid b
    → Sound (record a { buffer = b }) slots
buffer-Sound a slots b h v = record {
  balanced = h.balanced;
  buffer = v;
  packet = h.packet;
  handles = h.handles;
}

dispatch-Sound :
    (a : Adapter) (slots : List ℕ) (d : Decoded)
    → Sound a slots
    → Sound (dispatch a d).0 (answered (some d) slots)
dispatch-Sound a slots d h = dispatch_kinds a slots d.kind d.reason d.frame d.echo h

appended-IsValid :
    (b : ReceiveBuffer) (chunk : Bytes) (transfer_end : Bool)
    → IsValid b
    → not (append b chunk (length chunk) transfer_end).1 ≡ false
    → IsValid (append b chunk (length chunk) transfer_end).0
appended-IsValid b chunk transfer_end v ok =
    elim (append_queue b chunk (length chunk) transfer_end v (omega arith)) [
      | inl refused ↦ let e = refused.result in absurd (ground (arith, e, ok))
      | inr added ↦ added.valid
    ]

-- The results of `receive` with the record that was seen.
abbrev Kept : List ℕ → (Adapter × ℤ) × CanFrame → Option Decoded → Type 0
Kept slots r d = Sound r.0.0 (answered d slots)

read_more-Sound :
    (a : Adapter) (slots : List ℕ) (old : CanFrame) (slot : ℕ) (read : Read)
    → Sound a slots
    → Kept slots (read_more a old slot read) (seen_after_read a old slot read)
unfolding read_more seen_after_read answered broken take_record
read_more-Sound a slots old slot read_timeout h = h
read_more-Sound a slots old slot read_error h = record {
  balanced = h.balanced;
  buffer = h.buffer;
  packet = h.packet;
  handles = h.handles;
}
read_more-Sound a slots old slot (received chunk) h =
    let end = ltb (length chunk) a.input_packet_size in
    let r = append a.buffer chunk (length chunk) end in
    if_ind_both (Kept slots) (not r.1)
      (λ _. record {
        balanced = h.balanced;
        buffer = h.buffer;
        packet = h.packet;
        handles = h.handles;
      })
      λ ok.
        let v = appended-IsValid a.buffer chunk end h.buffer ok in
        let (w, _, _) = next_queue r.0 old slot v in
        dispatch-Sound (record a { buffer = (next r.0 old slot).0 }) slots (next r.0 old slot).1
          (buffer-Sound a slots (next r.0 old slot).0 h w)

receive-Sound :
    (a : Adapter) (slots : List ℕ) (old : CanFrame) (read : Read)
    → Sound a slots
    → Kept slots (receive a old read) (seen a old read)
unfolding receive seen answered
receive-Sound a slots old read h =
    let (b, d) = next a.buffer old 0 in
    let (v, _, _) = next_queue a.buffer old 0 h.buffer in
    let k = buffer-Sound a slots b h v in
    if_ind_both (Kept slots) a.failed (λ _. h)
      λ _.
        if_ind_both (Kept slots) (is_incomplete d.kind)
          (λ _. read_more-Sound (record a { buffer = b }) slots d.frame d.echo read k)
          (λ _. dispatch-Sound (record a { buffer = b }) slots d k)

closed-Sound : (a : Adapter) → IsClosed a → Holds a → Sound a []
closed-Sound a h handles = record {
  balanced = subst (λ p. Balanced p []) (sym h.pending) empty-Balanced;
  buffer = subst IsValid (sym h.buffer) empty-IsValid;
  packet = let e = h.packet_size in omega (arith, e);
  handles = handles;
}

started-Sound : (node : ℕ) (a : Adapter) → IsStarted node a → Sound a []
started-Sound node a h = record {
  balanced = subst (λ p. Balanced p []) (sym h.pending) empty-Balanced;
  buffer = subst IsValid (sym h.buffer) empty-IsValid;
  packet = h.small;
  handles = handles_known a true true h.held h.usb h.file;
}

open-Sound :
    {F : Type 0} (infinity : F) (error : ℕ → ℕ → F) (at_least : F → F → Bool) (a : Adapter)
    (o : ConnectionOptions) (d : Device) (before cleanup : Shutdown)
    → Holds a
    → Sound (open_adapter infinity error at_least a o d before cleanup).0 []
open-Sound infinity error at_least a o d before cleanup holds =
    let b = (open_adapter infinity error at_least a o d before cleanup).0 in
    elim (open_adapter_cases infinity error at_least a o d before cleanup holds) [
      | inl h ↦ started-Sound (to_u32 o.node_id) b h.configured.state
      | inr h ↦
          let closed = h.state in
          closed-Sound b closed (handles_known b false false h.held closed.usb closed.file)
    ]

Step-Sound : {s t : System} → Step s t → Sound s.adapter s.unanswered → Sound t.adapter t.unanswered
Step-Sound (reserves s id bytes size extended) h =
    reserve-Sound s.adapter s.unanswered id bytes size extended h
Step-Sound (finishes s written) h = finish_send-Sound s.adapter s.unanswered written h
Step-Sound (receives s old read fits) h = receive-Sound s.adapter s.unanswered old read h
Step-Sound (opens s infinity error at_least o d before cleanup) h =
    open-Sound infinity error at_least s.adapter o d before cleanup h.handles
Step-Sound (closes s shutdown) h =
    closed-Sound (close s.adapter shutdown) (close-IsClosed s.adapter shutdown)
      (close-Holds s.adapter shutdown h.handles)

-- In every state that calls of `open`, `send`, `receive` and `close` reach, in any order and with any
-- answers of the device, the flag of a slot is set exactly while one packet has the slot and its echo
-- has not come, no two packets have the same slot, the receive buffer is in its bounds, a read fits
-- into a chunk, and the adapter knows of every handle that Windows gave it and it has not released.
pub Reachable-Sound : (s : System) → Reachable s → Sound s.adapter s.unanswered
Reachable-Sound s here = record {
  balanced = empty-Balanced;
  buffer = empty-IsValid;
  packet = omega arith;
  handles = refl;
}
Reachable-Sound s (next_step r step) = Step-Sound step (Reachable-Sound _ r)
