-- ===== src/Gs/WinUsb/Records.antt =====
-- What `next` can find, as far as `receive` of src/rphand/backends/gs_usb_winusb.cpp relies on it.
use roboparty_dexhand.Base.{
  ℕ, ◌+◌, ◌<◌, ◌≡◌, refl, sym, ap, ◌∙◌, Bool, true, false, not, ◌&&◌, ltb, ◌==◌, if◌then◌else◌,
  if_ind, length, length-drop, arith,
}
use roboparty_dexhand.Protocol.Encode.{Bytes}
use roboparty_dexhand.Gs.Wire.{
  rx_echo, tx_slots, at, get32, Kind, echo, failure, incomplete, CanFrame, Decoded, has, length_of,
  decode_error, decode_received, decode, Reason, short_at_boundary, no_reason, invalid_echo,
  outcome,
}
use roboparty_dexhand.Gs.Buffer.{
  ReceiveBuffer, next, Scan, scan, scan_short, consume, stay, full_size,
}
use roboparty_dexhand.Gs.Buffer.Stream.{contents, IsValid}
use roboparty_dexhand.Gs.Buffer.Records.{next_queue}
use roboparty_dexhand.Gs.WinUsb.{is_incomplete}

abbrev pub is_echo : Kind → Bool
is_echo echo = true
is_echo _ = false

-- An echo names a slot.
abbrev pub NamesSlot : Decoded → Type 0
NamesSlot d = is_echo d.kind ≡ true → d.echo < tx_slots

-- Of the records of a kind that was found, none is incomplete.
abbrev Found : Decoded → Type 0
Found d = NamesSlot d × (is_incomplete d.kind ≡ false)

error-Found :
    (p : Bytes) (size id : ℕ)
    → (is_echo (decode_error p size id).0 ≡ false)
      × (is_incomplete (decode_error p size id).0 ≡ false)
unfolding decode_error
error-Found p size id = ground arith

no_slot : (n : ℕ) → false ≡ true → n < tx_slots
no_slot n z = absurd (ground (arith, z))

received-Found : (p : Bytes) (size id : ℕ) (old : CanFrame) → Found (decode_received p size id old)
unfolding decode_received
received-Found p size id old =
    let (a, b) = error-Found p size id in
    if_ind Found (has id 0x20000000) (λ _. (λ z. absurd (ground (arith, a, z)), b))
      λ _.
        if_ind Found (has id 0xc0000000) (λ _. (no_slot rx_echo, refl))
          λ _.
            if_ind Found (ltb 0x7ff id) (λ _. (no_slot rx_echo, refl))
              λ _.
                if_ind Found (ltb size (12 + length_of p)) (λ _. (no_slot rx_echo, refl))
                  (λ _. (no_slot rx_echo, refl))

slot-Found :
    (slot : ℕ) (old : CanFrame)
    → Found (
        outcome
          (if ltb slot tx_slots then (Kind.echo, no_reason) else (failure, invalid_echo))
          old
          slot)
slot-Found slot old =
    if_ind (λ (k : Kind × Reason). Found (outcome k old slot)) (ltb slot tx_slots)
      (λ e. (λ _. ground (arith, e), refl)) (λ _. (no_slot slot, refl))

decode-Found :
    (p : Bytes) (size channel : ℕ) (old : CanFrame) (slot : ℕ)
    → Found (decode p size channel old slot)
unfolding decode
decode-Found p size channel old slot =
    if_ind Found (size == 0) (λ _. (no_slot slot, refl))
      λ _.
        if_ind Found (ltb size 12) (λ _. (no_slot slot, refl))
          λ _.
            if_ind Found (not (at p 9 == channel)) (λ _. (no_slot slot, refl))
              λ _.
                if_ind Found (ltb 15 (at p 8)) (λ _. (no_slot slot, refl))
                  λ _.
                    if_ind Found (has (at p 10) 1) (λ _. (no_slot slot, refl))
                      λ _.
                        if_ind Found (not (get32 p 0 == rx_echo)) (λ _. slot-Found (get32 p 0) old)
                          (λ _. received-Found p size (get32 p 4) old)

-- What a scan of n bytes finds: an incomplete record is shorter than a full one.
abbrev Seen : ℕ → Scan → Type 0
Seen n s = NamesSlot s.result × (is_incomplete s.result.kind ≡ true → n < 76)

consume-Seen : (p : Bytes) (n m : ℕ) (old : CanFrame) (slot : ℕ) → Seen n (consume p m old slot)
unfolding consume
consume-Seen p n m old slot =
    let (names, whole) = decode-Found p m 0 old slot in
    (names, λ z. absurd (ground (arith, whole, z)))

not_short : (n : ℕ) → false ≡ true → n < 76
not_short n z = absurd (ground (arith, z))

boundary-Seen :
    (n : ℕ) (transfer_end : Bool) (old : CanFrame) (slot : ℕ)
    → n < 76
    → Seen n (
        stay n
          (if transfer_end then (failure, short_at_boundary) else (incomplete, no_reason))
          old
          slot)
boundary-Seen n true old slot h = (no_slot slot, λ _. h)
boundary-Seen n false old slot h = (no_slot slot, λ _. h)

below_full : (p : Bytes) (n : ℕ) → ltb n (full_size p) ≡ true → n < 76
below_full p n e = ground arith

scan-Seen :
    (p : Bytes) (n : ℕ) (transfer_end : Bool) (old : CanFrame) (slot : ℕ)
    → Seen n (scan p n transfer_end old slot)
unfolding scan scan_short
scan-Seen p n transfer_end old slot =
    if_ind (Seen n) (n == 0) (λ e. (no_slot slot, λ _. ground (arith, e)))
      λ _.
        if_ind (Seen n) (ltb n 12) (λ e. boundary-Seen n transfer_end old slot (ground (arith, e)))
          λ _.
            if_ind (Seen n) (ltb 15 (at p 8)) (λ _. (no_slot slot, not_short n))
              λ _.
                if_ind (Seen n) (ltb n (full_size p))
                  (λ e.
                    if_ind (Seen n) (not transfer_end) (λ _. (no_slot slot, λ _. below_full p n e))
                      λ _.
                        if_ind (Seen n)
                          (not (n == 12 + length_of p)
                            && not ((n == 12) && ltb (get32 p 0) tx_slots))
                          (λ _. (no_slot slot, not_short n)) (λ _. consume-Seen p n n old slot))
                  (λ _. consume-Seen p n (full_size p) old slot)

-- An echo that `next` finds names a slot.
pub next-NamesSlot : (b : ReceiveBuffer) (old : CanFrame) (slot : ℕ) → NamesSlot (next b old slot).1
unfolding next
next-NamesSlot b old slot = (scan-Seen _ _ b.transfer_end old slot).0

-- A record that is not complete yet takes no byte off the queue and is shorter than 76 bytes.
pub next_short :
    (b : ReceiveBuffer) (old : CanFrame) (slot : ℕ)
    → IsValid b
    → is_incomplete (next b old slot).1.kind ≡ true
    → length (contents (next b old slot).0) < 76
next_short b old slot v z =
    let s = scan (contents b) (length (contents b)) b.transfer_end old slot in
    let (_, left, same) = next_queue b old slot v in
    let short =
      (scan-Seen (contents b) (length (contents b)) b.transfer_end old slot).1
        (ap (λ (d : Decoded). is_incomplete d.kind) (sym same) ∙ z) in
    omega (arith, ap length left, length-drop s.consumed (contents b), short)
