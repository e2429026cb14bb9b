-- ===== src/Gs/Wire/Locality.antt =====
-- `decode` reads inside the size that it is given.
use roboparty_dexhand.Base.{
  ℕ, zero, suc, ◌+◌, ◌≤◌, ◌<◌, ◌≡◌, refl, sym, ap, ◌∙◌, Bool, true, false, [], ◌∷◌, ltb,
  if◌then◌else◌, take, drop, arith, dec_lt,
}
use roboparty_dexhand.Protocol.Encode.{Bytes}
use roboparty_dexhand.Gs.Wire.{
  rx_echo, at, get32, Kind, frame, failure, CanFrame, has, length_of, decode_error, frame_of,
  decode_received, decode, Reason, outcome, malformed_error, no_reason, truncated_payload,
}

at-take : (p : Bytes) (n i : ℕ) → i < n → at (take n p) i ≡ at p i
at-take p zero i h = absurd (omega arith)
at-take [] (suc n) i h = refl
at-take (x ∷ p) (suc n) zero h = refl
at-take (x ∷ p) (suc n) (suc i) h = at-take p n i (omega arith)

-- Two memories that agree on the first bytes agree on each of them.
pub at_same : (p q : Bytes) (n i : ℕ) → take n p ≡ take n q → i < n → at p i ≡ at q i
at_same p q n i same h = sym (at-take p n i h) ∙ ap (λ (t : Bytes). at t i) same ∙ at-take q n i h

pub take-take : (p : Bytes) (n m : ℕ) → n ≤ m → take n (take m p) ≡ take n p
take-take p zero m h = refl
take-take p (suc n) zero h = absurd (omega arith)
take-take [] (suc n) (suc m) h = refl
take-take (x ∷ p) (suc n) (suc m) h = ap (λ (t : Bytes). x ∷ t) (take-take p n m (omega arith))

pub drop-take : (p : Bytes) (k m r : ℕ) → r ≡ k + m → drop k (take r p) ≡ take m (drop k p)
drop-take p zero m r e = ap (λ n. take n p) (e ∙ omega arith)
drop-take p (suc k) m zero e = absurd (omega arith)
drop-take [] (suc k) zero (suc r) e = refl
drop-take [] (suc k) (suc m) (suc r) e = refl
drop-take (x ∷ p) (suc k) m (suc r) e = drop-take p k m r (omega arith)

payload_same :
    (p q : Bytes) (n size : ℕ)
    → take size p ≡ take size q
    → 12 + n ≤ size
    → take n (drop 12 p) ≡ take n (drop 12 q)
payload_same p q n size same h =
    sym (drop-take p 12 n (12 + n) refl)
    ∙ ap (drop 12)
        (sym (take-take p (12 + n) size h) ∙ ap (take (12 + n)) same ∙ take-take q (12 + n) size h)
    ∙ drop-take q 12 n (12 + n) refl

pub get32_same : (p q : Bytes) (n i : ℕ) → take n p ≡ take n q → i + 3 < n → get32 p i ≡ get32 q i
unfolding get32
get32_same p q n i same h =
    rw
      (
        at_same p q n i same (omega arith),
        at_same p q n (i + 1) same (omega arith),
        at_same p q n (i + 2) same (omega arith),
        at_same p q n (i + 3) same (omega arith),
      )
      refl

error_short :
    (p : Bytes) (size id : ℕ) → size < 20 → decode_error p size id ≡ (failure, malformed_error)
unfolding decode_error
error_short p size id h = ground arith

error_same :
    (p q : Bytes) (size id : ℕ)
    → take size p ≡ take size q
    → decode_error p size id ≡ decode_error q size id
unfolding decode_error
error_same p q size id same = elim (dec_lt size 20) [
  | yes h ↦ error_short p size id h ∙ sym (error_short q size id h)
  | no h ↦
      rw
        (
          at_same p q size 8 same (omega arith),
          at_same p q size 10 same (omega arith),
          at_same p q size 13 same (omega arith),
          at_same p q size 18 same (omega arith),
          at_same p q size 19 same (omega arith),
        )
        refl
]

frame_same :
    (p q : Bytes) (size id : ℕ)
    → take size p ≡ take size q
    → 12 + length_of p ≤ size
    → frame_of p id ≡ frame_of q id
unfolding frame_of
frame_same p q size id same h =
    let e8 = at_same p q size 8 same (omega arith) in
    let e10 = at_same p q size 10 same (omega arith) in
    let content = payload_same p q (length_of q) size same (rw (sym e8, sym e10) h) in
    rw (e8, e10, content) refl

pub if_cong :
    {A : Type 0} (b : Bool) {x y x' y' : A}
    → (b ≡ true → x ≡ x')
    → (b ≡ false → y ≡ y')
    → (if b then x else y) ≡ (if b then x' else y')
if_cong true h k = h refl
if_cong false h k = k refl

pub within : (a b : ℕ) → ltb a b ≡ false → b ≤ a
within a b h = ground arith

pub below : (a b : ℕ) → a < b → ltb a b ≡ true
below a b h = ground arith

received_same :
    (p q : Bytes) (size id : ℕ) (old : CanFrame)
    → take size p ≡ take size q
    → 12 ≤ size
    → decode_received p size id old ≡ decode_received q size id old
unfolding decode_received
received_same p q size id old same h =
    let e8 = at_same p q size 8 same (omega arith) in
    let e10 = at_same p q size 10 same (omega arith) in
    let lengths_same : length_of p ≡ length_of q = rw (e8, e10) refl in
    if_cong (has id 0x20000000)
      (λ _. ap (λ (k : Kind × Reason). outcome k old rx_echo) (error_same p q size id same))
      λ _.
        if_cong (has id 0xc0000000) (λ _. refl)
          λ _.
            if_cong (ltb 0x7ff id) (λ _. refl)
              λ _.
                ap
                  (λ n.
                    if ltb size (12 + n)
                    then outcome (failure, truncated_payload) old rx_echo
                    else outcome (frame, no_reason) (frame_of p id) rx_echo)
                  lengths_same
                ∙ if_cong (ltb size (12 + length_of q)) (λ _. refl)
                    (λ fits.
                      ap (λ (f : CanFrame). outcome (frame, no_reason) f rx_echo)
                        (frame_same p q size id same
                          (rw lengths_same (within size (12 + length_of q) fits))))

-- Only the bytes inside the size decide what `decode` does.
pub decode_locality :
    (p q : Bytes) (size channel : ℕ) (old : CanFrame) (slot : ℕ)
    → take size p ≡ take size q
    → decode p size channel old slot ≡ decode q size channel old slot
unfolding decode
decode_locality p q size channel old slot same = elim (dec_lt size 12) [
  | yes h ↦ rw (below size 12 h) refl
  | no h ↦
      rw
        (
          at_same p q size 8 same (omega arith),
          at_same p q size 9 same (omega arith),
          at_same p q size 10 same (omega arith),
          get32_same p q size 0 same (omega arith),
          get32_same p q size 4 same (omega arith),
          received_same p q size (get32 q 4) old same (omega arith),
        )
        refl
]
