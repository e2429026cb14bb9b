-- ===== src/Gs/WinUsb/Receiving.antt =====
-- The three results of `receive` in src/rphand/backends/gs_usb_winusb.cpp.
use roboparty_dexhand.Base.{
  ℕ, ◌+◌, ◌≤◌, ◌<◌, ◌≡◌, ◌⊎◌, inl, inr, refl, ap, Bool, true, false, not, ◌||◌, Option, some, List,
  ltb, ◌==◌, if◌then◌else◌, if_ind, if_ind_both, length, get_or, pos, negsuc, arith, ℤ,
}
use roboparty_dexhand.Protocol.Encode.{Bytes}
use roboparty_dexhand.Gs.Wire.{
  CanFrame, Decoded, Kind, frame, echo, ignore, status, failure, incomplete, Reason,
}
use roboparty_dexhand.Gs.Buffer.{ReceiveBuffer, max_chunk, append, next}
use roboparty_dexhand.Gs.Buffer.Stream.{contents, IsValid, append_queue}
use roboparty_dexhand.Gs.Buffer.Records.{next_queue}
use roboparty_dexhand.Gs.WinUsb.{
  Adapter, broken, take_echo, dispatch, Read, read_timeout, read_error, received, take_record,
  read_more, receive, is_incomplete,
}
use roboparty_dexhand.Gs.WinUsb.Records.{next_short}
use roboparty_dexhand.Gs.WinUsb.Steps.{seen, seen_after_read, Fits}
use roboparty_dexhand.Gs.WinUsb.Invariant.{Sound}

abbrev pub Result : Type 0
Result = (Adapter × ℤ) × CanFrame

-- A frame of this node is delivered: a position or status frame, or an answer to a request.
pub record Delivers (node : ℕ) (d : Decoded) (r : Result) : Type 0 where
  pub result : r.0.1 ≡ pos 1
  pub working : r.0.0.failed ≡ false
  pub kind : d.kind ≡ frame
  pub content : r.1 ≡ d.frame
  pub own : (d.frame.can_id ≡ 0x480 + node) ⊎ (d.frame.can_id ≡ 0x580 + node)

-- There is nothing to deliver.
pub record Waits (r : Result) : Type 0 where
  pub result : r.0.1 ≡ pos 0
  pub working : r.0.0.failed ≡ false

-- The transport fails, and stays so.
pub record Breaks (r : Result) : Type 0 where
  pub result : r.0.1 ≡ negsuc 0
  pub failed : r.0.0.failed ≡ true

-- What makes the adapter fail for a record.
abbrev pub IsFault : Adapter → Decoded → Type 0
IsFault a d = (d.kind ≡ failure) ⊎ ((d.kind ≡ echo) × (get_or a.pending d.echo false ≡ false))

abbrev pub Handled : Adapter → Decoded → Result → Type 0
Handled a d r = Delivers a.node d r ⊎ ((Waits r × ¬ IsFault a d) ⊎ (Breaks r × IsFault a d))

-- The kinds that are never a fault.
abbrev is_frame_or_status : Kind → Bool
is_frame_or_status failure = false
is_frame_or_status echo = false
is_frame_or_status _ = true

in_use :
    (a : Adapter) (d : Decoded)
    → d.kind ≡ echo
    → get_or a.pending d.echo false ≡ true
    → ¬ IsFault a d
in_use a d k e (inl z) = absurd (ground (arith, k, z))
in_use a d k e (inr z) = let free = z.1 in absurd (ground (arith, e, free))

own_id :
    (n node : ℕ)
    → (n == 0x480 + node || n == 0x580 + node) ≡ true
    → (n ≡ 0x480 + node) ⊎ (n ≡ 0x580 + node)
own_id n node e = ground arith

kind_sound : (a : Adapter) (d : Decoded) → is_frame_or_status d.kind ≡ true → ¬ IsFault a d
kind_sound a d e (inl k) = absurd (ground (arith, ap is_frame_or_status k, e))
kind_sound a d e (inr k) = absurd (ground (arith, ap is_frame_or_status k.0, e))

frame-Handled :
    (a : Adapter) (d : Decoded)
    → a.failed ≡ false
    → d.kind ≡ frame
    → Handled a d (
      (
        a,
        if (d.frame.can_id == 0x480 + a.node) || (d.frame.can_id == 0x580 + a.node)
            then pos 1
            else pos 0,
      ),
      d.frame,
    )
frame-Handled a d h k =
    if_ind (λ (z : ℤ). Handled a d ((a, z), d.frame))
      ((d.frame.can_id == 0x480 + a.node) || (d.frame.can_id == 0x580 + a.node))
      (λ e. inl (record {
        result = refl;
        working = h;
        kind = k;
        content = refl;
        own = own_id d.frame.can_id a.node e;
      }))
      (λ _.
        inr (inl (record { result = refl; working = h }, kind_sound a d (ap is_frame_or_status k))))

echo-Handled :
    (a : Adapter) (d : Decoded)
    → a.failed ≡ false
    → d.kind ≡ echo
    → Handled a d (take_echo a d.echo, d.frame)
unfolding take_echo broken
echo-Handled a d h k =
    if_ind (λ (z : Adapter × ℤ). Handled a d (z, d.frame)) (not (get_or a.pending d.echo false))
      (λ e. inr (inr (record { result = refl; failed = refl }, inr (k, ground (arith, e)))))
      (λ e. inr (inl (record { result = refl; working = h }, in_use a d k (ground (arith, e)))))

dispatch_kinds :
    (a : Adapter) (k : Kind) (r : Reason) (f : CanFrame) (slot : ℕ)
    → a.failed ≡ false
    → let d : Decoded = record { kind = k; reason = r; frame = f; echo = slot } in
      Handled a d (dispatch a d, f)
unfolding dispatch broken
dispatch_kinds a frame r f slot h =
    frame-Handled a (record { kind = frame; reason = r; frame = f; echo = slot }) h refl
dispatch_kinds a echo r f slot h =
    echo-Handled a (record { kind = echo; reason = r; frame = f; echo = slot }) h refl
dispatch_kinds a ignore r f slot h = inr (
    inl (
      record { result = refl; working = h },
      kind_sound a (record { kind = ignore; reason = r; frame = f; echo = slot }) refl,
    ))
dispatch_kinds a status r f slot h = inr (
    inl (
      record { result = refl; working = h },
      kind_sound a (record { kind = status; reason = r; frame = f; echo = slot }) refl,
    ))
dispatch_kinds a failure r f slot h = inr (inr (record { result = refl; failed = refl }, inl refl))
dispatch_kinds a incomplete r f slot h = inr (
    inl (
      record { result = refl; working = h },
      kind_sound a (record { kind = incomplete; reason = r; frame = f; echo = slot }) refl,
    ))

dispatch-Handled :
    (a : Adapter) (b : ReceiveBuffer) (d : Decoded)
    → a.failed ≡ false
    → Handled a d (dispatch (record a { buffer = b }) d, d.frame)
dispatch-Handled a b d h = dispatch_kinds (record a { buffer = b }) d.kind d.reason d.frame d.echo h

-- A record shorter than 76 bytes is left when the buffer is read again, so a chunk fits.
chunk_fits :
    (b : ReceiveBuffer) (chunk : Bytes) (transfer_end : Bool)
    → IsValid b
    → length (contents b) < 76
    → length chunk ≤ max_chunk
    → (append b chunk (length chunk) transfer_end).1 ≡ true
chunk_fits b chunk transfer_end v short small =
    elim (append_queue b chunk (length chunk) transfer_end v (omega arith)) [
      | inl refused ↦ let why = refused.reason in absurd (ground (arith, why))
      | inr added ↦ added.result
    ]

-- All that `receive` does, with the record that it saw: it hands over a frame of the node; or it has
-- nothing to hand over; or it fails, which it does only if it had failed before, if the read failed,
-- or for a record that is a failure or an echo of a slot that was not in use.
abbrev pub Cases : Adapter → Read → Result → Option Decoded → Type 0
Cases a read r d =
    ((z : Decoded) × (d ≡ some z) × Handled a z r)
    ⊎ ((Waits r × (read ≡ read_timeout)) ⊎ (Breaks r × ((a.failed ≡ true) ⊎ (read ≡ read_error))))

read_more-Cases :
    (a : Adapter) (b : ReceiveBuffer) (old : CanFrame) (slot : ℕ) (read : Read)
    → a.failed ≡ false
    → IsValid b
    → length (contents b) < 76
    → Fits read a.input_packet_size
    → a.input_packet_size ≤ max_chunk
    → let c = record a { buffer = b } in
      Cases a read (read_more c old slot read) (seen_after_read c old slot read)
unfolding read_more seen_after_read broken take_record
read_more-Cases a b old slot read_timeout h v short fits small =
    inr (inl (record { result = refl; working = h }, refl))
read_more-Cases a b old slot read_error h v short fits small =
    inr (inr (record { result = refl; failed = refl }, inr refl))
read_more-Cases a b old slot (received chunk) h v short fits small =
    let end = ltb (length chunk) a.input_packet_size in
    let r = append b chunk (length chunk) end in
    let fitted = chunk_fits b chunk end v short (omega (arith, fits, small)) in
    if_ind_both (Cases a (received chunk)) (not r.1) (λ e. absurd (ground (arith, e, fitted)))
      λ _. let (c, d) = next r.0 old slot in inl (d, refl, dispatch-Handled a c d h)

-- On an adapter that keeps the invariant, with a read that is no longer than it was asked for,
-- `receive` hands over the frame that it saw, whose id is that of the feedback or the answers of the
-- node; or it reports nothing and has not failed; or it fails and stays failed. It fails only if it
-- had failed before, if the read failed, or for a record that is a failure or an echo of a slot that
-- was not in use: the chunk always fits into the buffer.
pub receive-Cases :
    (a : Adapter) (slots : List ℕ) (old : CanFrame) (read : Read)
    → Sound a slots
    → Fits read a.input_packet_size
    → Cases a read (receive a old read) (seen a old read)
unfolding receive seen
receive-Cases a slots old read s fits =
    let (b, d) = next a.buffer old 0 in
    let (v, _, _) = next_queue a.buffer old 0 s.buffer in
    let small = s.packet in
    if_ind_both (Cases a read) a.failed
      (λ e. inr (inr (record { result = refl; failed = e }, inl e)))
      λ h.
        if_ind_both (Cases a read) (is_incomplete d.kind)
          (λ e.
            read_more-Cases a b d.frame d.echo read h v (next_short a.buffer old 0 s.buffer e) fits
              small)
          (λ _. inl (d, refl, dispatch-Handled a b d h))
