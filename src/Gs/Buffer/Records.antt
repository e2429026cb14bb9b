-- ===== src/Gs/Buffer/Records.antt =====
-- `next` takes a record off the front of the queue of bytes.
use roboparty_dexhand.Base.{
  ℕ, zero, suc, ◌+◌, ◌-◌, ◌≤◌, ◌≡◌, refl, sym, ap, ◌∙◌, Bool, true, false, not, ◌&&◌, [], ◌∷◌, ltb,
  ◌==◌, if◌then◌else◌, if_ind, length, take, drop, arith, length-drop, dec_lt,
}
use roboparty_dexhand.Protocol.Encode.{Bytes}
use roboparty_dexhand.Gs.Wire.{
  tx_slots, at, get32, Kind, failure, incomplete, CanFrame, Decoded, length_of, decode, no_reason,
  short_at_boundary,
}
use roboparty_dexhand.Gs.Wire.Locality.{
  decode_locality, at_same, get32_same, take-take, drop-take, if_cong, below, within,
}
use roboparty_dexhand.Gs.Buffer.{
  ReceiveBuffer, Scan, consume, stay, scan_short, full_size, scan, next, is_failure,
}
use roboparty_dexhand.Gs.Buffer.Stream.{contents, IsValid, length-contents}

-- Scans of memories that agree on the bytes give the same.
consume_same :
    (p q : Bytes) (n : ℕ) (old : CanFrame) (slot : ℕ)
    → take n p ≡ take n q
    → consume p n old slot ≡ consume q n old slot
unfolding consume
consume_same p q n old slot same =
    ap
      (λ (d : Decoded). record {
        size = n;
        consumed = if is_failure d.kind then 0 else n;
        result = d;
      })
      (decode_locality p q n 0 old slot same)

short_same :
    (p q : Bytes) (n : ℕ) (transfer_end : Bool) (old : CanFrame) (slot : ℕ)
    → take n p ≡ take n q
    → 12 ≤ n
    → scan_short p n transfer_end old slot ≡ scan_short q n transfer_end old slot
unfolding scan_short
short_same p q n transfer_end old slot same h =
    rw
      (
        at_same p q n 8 same (omega arith),
        at_same p q n 10 same (omega arith),
        get32_same p q n 0 same (omega arith),
        consume_same p q n old slot same,
      )
      refl

shorter : (p q : Bytes) (m n : ℕ) → take n p ≡ take n q → m ≤ n → take m p ≡ take m q
shorter p q m n same h = sym (take-take p m n h) ∙ ap (take m) same ∙ take-take q m n h

pub scan_locality :
    (p q : Bytes) (n : ℕ) (transfer_end : Bool) (old : CanFrame) (slot : ℕ)
    → take n p ≡ take n q
    → scan p n transfer_end old slot ≡ scan q n transfer_end old slot
unfolding scan
scan_locality p q n transfer_end old slot same = elim (dec_lt n 12) [
  | yes h ↦ rw (below n 12 h) refl
  | no h ↦
      rw (at_same p q n 8 same (omega arith), at_same p q n 10 same (omega arith))
        (if_cong (n == 0) (λ _. refl)
          λ _.
            if_cong (ltb n 12) (λ _. refl)
              λ _.
                if_cong (ltb 15 (at q 8)) (λ _. refl)
                  λ _.
                    if_cong (ltb n (full_size q))
                      (λ _. short_same p q n transfer_end old slot same (omega arith))
                      λ e.
                        consume_same p q (full_size q) old slot
                          (shorter p q (full_size q) n same (within n (full_size q) e)))
]

consumed_within :
    (p : Bytes) (n m : ℕ) (old : CanFrame) (slot : ℕ) → m ≤ n → (consume p m old slot).consumed ≤ n
unfolding consume
consumed_within p n m old slot h =
    if_ind (λ (c : ℕ). c ≤ n) (is_failure (decode p m 0 old slot).kind) (λ _. omega arith) (λ _. h)

scan_within :
    (p : Bytes) (n : ℕ) (transfer_end : Bool) (old : CanFrame) (slot : ℕ)
    → (scan p n transfer_end old slot).consumed ≤ n
unfolding scan scan_short
scan_within p n transfer_end old slot =
    let Q = λ (s : Scan). s.consumed ≤ n in
    if_ind Q (n == 0) (λ _. omega arith)
      λ _.
        if_ind Q (ltb n 12) (λ _. omega arith)
          λ _.
            if_ind Q (ltb 15 (at p 8)) (λ _. omega arith)
              λ _.
                if_ind Q (ltb n (full_size p))
                  (λ _.
                    if_ind Q (not transfer_end) (λ _. omega arith)
                      λ _.
                        if_ind Q
                          (not (n == 12 + length_of p)
                            && not ((n == 12) && ltb (get32 p 0) tx_slots))
                          (λ _. omega arith) (λ _. consumed_within p n n old slot (omega arith)))
                  (λ e. consumed_within p n (full_size p) old slot (within n (full_size p) e))

drop_empty : (n : ℕ) → drop {A = ℕ} n [] ≡ []
drop_empty zero = refl
drop_empty (suc n) = refl

drop-drop : (p : Bytes) (n m : ℕ) → drop m (drop n p) ≡ drop (n + m) p
drop-drop p zero m = ap (λ k. drop k p) (omega arith)
drop-drop [] (suc n) m = drop_empty m ∙ sym (drop_empty (suc n + m))
drop-drop (x ∷ p) (suc n) m =
    let shift : suc n + m ≡ suc (n + m) = omega arith in
    drop-drop p n m ∙ ap (λ k. drop k (x ∷ p)) (sym shift)

drop_range :
    (p : Bytes) (first last count : ℕ)
    → first + count ≤ last
    → take (last - (first + count)) (drop (first + count) p)
      ≡ drop count (take (last - first) (drop first p))
drop_range p first last count h =
    ap (take (last - (first + count))) (sym (drop-drop p first count))
    ∙ sym (drop-take (drop first p) count (last - (first + count)) (last - first) (omega arith))

-- On a valid buffer `next` does what a scan of the queue says: its result and how many bytes it takes
-- off the front depend on the queue alone.
pub next_queue :
    (b : ReceiveBuffer) (old : CanFrame) (slot : ℕ)
    → IsValid b
    → let s = scan (contents b) (length (contents b)) b.transfer_end old slot in
      let r = next b old slot in
      IsValid r.0 × (contents r.0 ≡ drop s.consumed (contents b)) × (r.1 ≡ s.result)
unfolding next
next_queue b old slot v =
    let n = b.end - b.begin in
    let p = drop b.begin b.bytes in
    let same : scan p n b.transfer_end old slot
        ≡ scan (contents b) (length (contents b)) b.transfer_end old slot =
      scan_locality p (contents b) n b.transfer_end old slot (sym (take-take p n n (omega arith)))
      ∙ ap (λ k. scan (contents b) k b.transfer_end old slot) (sym (length-contents b v)) in
    let c = (scan p n b.transfer_end old slot).consumed in
    let fits : c ≤ n = scan_within p n b.transfer_end old slot in
    let o = v.order in
    (
      record { room = v.room; order = omega arith; inside = v.inside },
      drop_range b.bytes b.begin b.end c (omega arith)
          ∙ ap (λ (s : Scan). drop s.consumed (contents b)) same,
      ap (λ (s : Scan). s.result) same,
    )

-- The kinds that a record gives which was taken off the queue.
abbrev pub takes : Kind → Bool
takes failure = false
takes incomplete = false
takes _ = true

abbrev Progress : Scan → Type 0
Progress s = takes s.result.kind ≡ true → 12 ≤ s.consumed

taken-success : (k : Kind) → takes k ≡ true → is_failure k ≡ false
taken-success k h = ground arith

consume-Progress :
    (p : Bytes) (m : ℕ) (old : CanFrame) (slot : ℕ) → 12 ≤ m → Progress (consume p m old slot)
unfolding consume
consume-Progress p m old slot h z = rw (taken-success (decode p m 0 old slot).kind z) h

boundary-Progress :
    (n : ℕ) (transfer_end : Bool) (old : CanFrame) (slot : ℕ)
    → Progress (
        stay n
          (if transfer_end then (failure, short_at_boundary) else (incomplete, no_reason))
          old
          slot)
boundary-Progress n true old slot z = absurd (ground arith)
boundary-Progress n false old slot z = absurd (ground arith)

scan-Progress :
    (p : Bytes) (n : ℕ) (transfer_end : Bool) (old : CanFrame) (slot : ℕ)
    → Progress (scan p n transfer_end old slot)
unfolding scan scan_short
scan-Progress p n transfer_end old slot =
    if_ind Progress (n == 0) (λ _ z. absurd (ground arith))
      λ _.
        if_ind Progress (ltb n 12) (λ _. boundary-Progress n transfer_end old slot)
          λ long.
            if_ind Progress (ltb 15 (at p 8)) (λ _ z. absurd (ground arith))
              λ _.
                if_ind Progress (ltb n (full_size p))
                  (λ _.
                    if_ind Progress (not transfer_end) (λ _ z. absurd (ground arith))
                      λ _.
                        if_ind Progress
                          (not (n == 12 + length_of p)
                            && not ((n == 12) && ltb (get32 p 0) tx_slots))
                          (λ _ z. absurd (ground arith))
                          (λ _. consume-Progress p n old slot (within n 12 long)))
                  (λ _. consume-Progress p (full_size p) old slot (ground arith))

-- When `next` on a valid buffer reports a frame, an echo, a status or an ignored record, at least
-- the 12 bytes of a header are gone from the queue, so a loop over `next` ends.
pub next_progress :
    (b : ReceiveBuffer) (old : CanFrame) (slot : ℕ)
    → IsValid b
    → takes (next b old slot).1.kind ≡ true
    → length (contents (next b old slot).0) + 12 ≤ length (contents b)
next_progress b old slot v z =
    let s = scan (contents b) (length (contents b)) b.transfer_end old slot in
    let (_, left, same) = next_queue b old slot v in
    let enough =
      scan-Progress (contents b) (length (contents b)) b.transfer_end old slot
        (ap (λ (d : Decoded). takes d.kind) (sym same) ∙ z) in
    let fits = scan_within (contents b) (length (contents b)) b.transfer_end old slot in
    omega (arith, ap length left, length-drop s.consumed (contents b), enough, fits)
