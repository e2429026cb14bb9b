-- ===== src/Gs/Wire/Decoding.antt =====
-- What `decode` accepts.
use roboparty_dexhand.Base.{
  zero, suc, ◌-◌, ◌*◌, sym, subst, ◌&&◌, [], ◌∷◌, ◌++◌, take, drop, replicate, min, ℕ, ◌+◌, ◌≤◌,
  ◌<◌, ◌≡◌, refl, ap, ◌∙◌, Bool, true, false, not, some, ltb, ◌==◌, if◌then◌else◌, if_ind, length,
  get_or, arith, all_below, all_below_sound, leb,
}
use roboparty_dexhand.Protocol.Encode.{Bytes}
use roboparty_dexhand.Gs.Wire.{
  rx_echo, tx_slots, lengths, at, get32, Kind, frame, echo, failure, CanFrame, Decoded, has,
  length_of, decode_error, frame_of, decode_received, decode, Reason, no_reason, invalid_echo,
  outcome, encode,
}
use roboparty_dexhand.Gs.Wire.Encoding.{encode_standard}

abbrev is_frame : Kind → Bool
is_frame frame = true
is_frame _ = false

-- The number of bytes that a code stands for.
abbrev pub size_of_code : Bool → ℕ → ℕ
size_of_code fd code =
    if leb code 8
    then code
    else if not fd
    then 8
    else if leb code 12
    then 4 * (code - 6)
    else 16 * (code - 11)

-- The frame that a record carries, member by member and byte by byte.
pub record Carries (p : Bytes) (f : CanFrame) : Type 0 where
  pub id : f.can_id ≡ get32 p 4
  pub fd : f.fd ≡ has (at p 10) 2
  pub brs : f.brs ≡ (has (at p 10) 2 && has (at p 10) 4)
  pub extended : f.extended ≡ false
  pub len : f.len ≡ size_of_code (has (at p 10) 2) (at p 8)
  pub inside : (i : ℕ) → i < f.len → get_or f.bytes i 0 ≡ at p (12 + i)
  pub behind : (i : ℕ) → f.len ≤ i → get_or f.bytes i 0 ≡ 0

-- The conditions on a record that carries a frame.
pub record DataRecord (p : Bytes) (size channel : ℕ) (d : Decoded) : Type 0 where
  pub whole : 12 + d.frame.len ≤ size
  pub short : d.frame.len ≤ 64
  pub own : at p 9 ≡ channel
  pub received : get32 p 0 ≡ 0xffffffff
  pub standard : d.frame.can_id ≤ 0x7ff
  pub content : Carries p d.frame

zeros_at : (m i : ℕ) → let zeros : Bytes = replicate m 0 in get_or zeros i 0 ≡ 0
zeros_at zero i = refl
zeros_at (suc m) zero = refl
zeros_at (suc m) (suc i) = zeros_at m i

padded_at :
    (n m : ℕ) (xs : Bytes) (i : ℕ)
    → get_or (take n xs ++ replicate m 0) i 0 ≡ (if ltb i n then get_or xs i 0 else 0)
padded_at zero m xs i = ground (arith, zeros_at m i)
padded_at (suc n) m [] i = ground (arith, zeros_at m i)
padded_at (suc n) m (x ∷ xs) zero = ground arith
padded_at (suc n) m (x ∷ xs) (suc i) = ground (arith, padded_at n m xs i)

drop_at : (k : ℕ) (xs : Bytes) (i : ℕ) → get_or (drop k xs) i 0 ≡ get_or xs (k + i) 0
drop_at zero xs i = ap (λ n. get_or xs n 0) (omega arith)
drop_at (suc k) [] i = refl
drop_at (suc k) (x ∷ xs) i =
    let next : suc (k + i) ≡ suc k + i = omega arith in
    drop_at k xs i ∙ ap (λ n. get_or (x ∷ xs) n 0) next

same_size : Bool → ℕ → Bool
same_size fd code = (if fd then get_or lengths code 0 else min code 8) == size_of_code fd code

sizes-all : (fd : Bool) → all_below 16 (same_size fd) ≡ true
unfolding same_size
sizes-all true = refl
sizes-all false = refl

length_of-code : (p : Bytes) → at p 8 ≤ 15 → length_of p ≡ size_of_code (has (at p 10) 2) (at p 8)
unfolding same_size
length_of-code p h =
    let fd = has (at p 10) 2 in
    ground (arith, all_below_sound 16 (same_size fd) (at p 8) (sizes-all fd))

frame_of-Carries : (p : Bytes) → at p 8 ≤ 15 → Carries p (frame_of p (get32 p 4))
unfolding frame_of
frame_of-Carries p h = record {
  id = refl;
  fd = refl;
  brs = refl;
  extended = refl;
  len = length_of-code p h;
  inside = λ i low.
      ground (arith, padded_at (length_of p) (64 - length_of p) (drop 12 p) i, drop_at 12 p i, low);
  behind = λ i high. ground (arith, padded_at (length_of p) (64 - length_of p) (drop 12 p) i, high);
}

lengths-all : all_below 16 (λ i. leb (get_or lengths i 0) 64) ≡ true
lengths-all = refl

length_of-short : (p : Bytes) → at p 8 ≤ 15 → length_of p ≤ 64
length_of-short p h =
    ground (arith, all_below_sound 16 (λ i. leb (get_or lengths i 0) 64) (at p 8) lengths-all)

error-frame : (p : Bytes) (size id : ℕ) → is_frame (decode_error p size id).0 ≡ false
unfolding decode_error
error-frame p size id = ground arith

abbrev FrameFacts : Bytes → ℕ → ℕ → Decoded → Type 0
FrameFacts p size id q =
    is_frame q.kind ≡ true → (12 + length_of p ≤ size) × (id ≤ 0x7ff) × (q.frame ≡ frame_of p id)

received-frame :
    (p : Bytes) (size id : ℕ) (old : CanFrame)
    → FrameFacts p size id (decode_received p size id old)
unfolding decode_received
received-frame p size id old =
    let Q = FrameFacts p size id in
    if_ind Q (has id 0x20000000) (λ _ z. absurd (ground (arith, error-frame p size id)))
      λ _.
        if_ind Q (has id 0xc0000000) (λ _ z. absurd (ground arith))
          λ _.
            if_ind Q (ltb 0x7ff id) (λ _ z. absurd (ground arith))
              λ low.
                if_ind Q (ltb size (12 + length_of p)) (λ _ z. absurd (ground arith))
                  λ whole z. (ground arith, ground arith, refl)

not-same : (a b : ℕ) → not (a == b) ≡ false → a ≡ b
not-same a b h = ground arith

abbrev RecordFacts : Bytes → ℕ → ℕ → Decoded → Type 0
RecordFacts p size channel q = is_frame q.kind ≡ true → DataRecord p size channel q

slot-frame :
    (p : Bytes) (size channel slot : ℕ) (old : CanFrame)
    → RecordFacts p size channel (
        outcome
          (if ltb slot tx_slots then (Kind.echo, no_reason) else (failure, invalid_echo))
          old
          slot)
slot-frame p size channel slot old =
    if_ind (λ (k : Kind × Reason). RecordFacts p size channel (outcome k old slot))
      (ltb slot tx_slots) (λ _ z. absurd (ground arith)) (λ _ z. absurd (ground arith))

from_frame :
    (p : Bytes) (size channel : ℕ) (q : Decoded)
    → 12 + length_of p ≤ size
    → at p 8 ≤ 15
    → at p 9 ≡ channel
    → get32 p 0 ≡ rx_echo
    → get32 p 4 ≤ 0x7ff
    → q.frame ≡ frame_of p (get32 p 4)
    → DataRecord p size channel q
unfolding frame_of
from_frame p size channel q whole code own received low same = record {
  whole = subst (λ (f : CanFrame). 12 + f.len ≤ size) (sym same) whole;
  short = subst (λ (f : CanFrame). f.len ≤ 64) (sym same) (length_of-short p code);
  own = own;
  received = received;
  standard = subst (λ (f : CanFrame). f.can_id ≤ 0x7ff) (sym same) low;
  content = subst (Carries p) (sym same) (frame_of-Carries p code);
}

record-frame :
    (p : Bytes) (size channel : ℕ) (old : CanFrame) (slot : ℕ)
    → RecordFacts p size channel (decode p size channel old slot)
unfolding decode
record-frame p size channel old slot =
    let Q = RecordFacts p size channel in
    if_ind Q (size == 0) (λ _ z. absurd (ground arith))
      λ _.
        if_ind Q (ltb size 12) (λ _ z. absurd (ground arith))
          λ _.
            if_ind Q (not (at p 9 == channel)) (λ _ z. absurd (ground arith))
              λ own.
                if_ind Q (ltb 15 (at p 8)) (λ _ z. absurd (ground arith))
                  λ code.
                    if_ind Q (has (at p 10) 1) (λ _ z. absurd (ground arith))
                      λ _.
                        if_ind Q (not (get32 p 0 == rx_echo))
                          (λ _. slot-frame p size channel (get32 p 0) old)
                          λ rx z.
                            let (whole, low, same) = received-frame p size (get32 p 4) old z in
                            from_frame p size channel (decode_received p size (get32 p 4) old) whole
                              (ground (arith, code)) (not-same (at p 9) channel own)
                              (not-same (get32 p 0) rx_echo rx) low same

-- `decode` reports a frame only for a received record of the channel with a standard id whose bytes
-- are all inside the given size; the frame has the id and the flags of the record, as its length what
-- the code stands for, at most 64, and as its bytes those from index 12 on, with zeros behind them.
pub decode_frame :
    (p : Bytes) (size channel : ℕ) (old : CanFrame) (slot : ℕ)
    → (decode p size channel old slot).kind ≡ frame
    → DataRecord p size channel (decode p size channel old slot)
decode_frame p size channel old slot z = record-frame p size channel old slot (ap is_frame z)

echo-record :
    (p : Bytes) (channel : ℕ) (old : CanFrame) (before : ℕ)
    → at p 9 ≡ channel
    → at p 8 ≤ 15
    → has (at p 10) 1 ≡ false
    → get32 p 0 < tx_slots
    → decode p 76 channel old before ≡ outcome (echo, no_reason) old (get32 p 0)
unfolding decode
echo-record p channel old before own code clear small =
    let Q = λ (q : Decoded). q ≡ outcome (echo, no_reason) old (get32 p 0) in
    if_ind Q (not (at p 9 == channel)) (λ e. absurd (ground arith))
      λ _.
        if_ind Q (ltb 15 (at p 8)) (λ e. absurd (ground arith))
          λ _.
            if_ind Q (has (at p 10) 1) (λ e. absurd (ground (arith, e, clear)))
              λ _.
                if_ind Q (not (get32 p 0 == rx_echo))
                  (λ _.
                    if_ind (λ (k : Kind × Reason). Q (outcome k old (get32 p 0)))
                      (ltb (get32 p 0) tx_slots) (λ _. refl) (λ e. absurd (ground arith)))
                  λ e. absurd (ground arith)

-- When the packet of a frame comes back from the adapter, `decode` reports the echo of its slot.
pub decode-encode :
    (slot channel id : ℕ) (bytes : Bytes) (size : ℕ) (old : CanFrame) (before : ℕ)
    → slot < tx_slots
    → channel < 256
    → id ≤ 0x7ff
    → size ≤ 64
    → size ≤ length bytes
    → (p : Bytes) × (encode slot channel id (some bytes) size false ≡ some p)
      × (decode p 76 channel old before ≡ outcome (echo, no_reason) old slot)
decode-encode slot channel id bytes size old before s c i n m =
    let (p, made, _, same, _, low, _, _, own, flags, _) =
      encode_standard slot channel id bytes size s c i n m in
    (
      p,
      made,
      echo-record p channel old before own (omega arith) (rw flags refl) (rw same s) ∙ rw same refl,
    )
