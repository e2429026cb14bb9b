-- ===== src/SocketCan/Laws.antt =====
-- What `send` writes and `receive` lets through.
use roboparty_dexhand.Base.{
  ℕ, zero, suc, subst, ◌-◌, ◌≤◌, ◌≡◌, ◌⊎◌, refl, ap, Bool, true, false, not, ◌&&◌, Option, none,
  some, [], ◌∷◌, ◌++◌, ltb, ◌==◌, if◌then◌else◌, if_ind, length, take, get_or, replicate, all_below,
  all_below_sound, ℤ, arith,
}
use roboparty_dexhand.Protocol.Encode.{Bytes}
use roboparty_dexhand.Gs.Wire.{CanFrame, has, lengths, dlc_from}
use roboparty_dexhand.SocketCan.{
  CanFdFrame, legal_lengths, padded, receive, arrives, can_mtu, canfd_mtu,
}

-- The padded size is the one that the table of DLC codes gives.
same_length : ℕ → Bool
same_length size = padded legal_lengths size == get_or lengths (dlc_from lengths size 0) 0

all_same : all_below 65 same_length ≡ true
unfolding same_length padded dlc_from
all_same = refl

-- Up to 64 bytes both transports pad a frame to the same legal length.
pub padded-lengths :
    (size : ℕ) → size ≤ 64 → padded legal_lengths size ≡ get_or lengths (dlc_from lengths size 0) 0
unfolding same_length
padded-lengths size h = ground (arith, all_below_sound 65 same_length size all_same (omega arith))

-- The frame that `receive` reports, if it reports one.
pub record Received (count : ℕ) (f : CanFdFrame) (out : CanFrame) : Type 0 where
  pub whole : (count ≡ can_mtu) ⊎ (count ≡ canfd_mtu)
  pub standard : has f.can_id 0xe0000000 ≡ false
  pub id : out.can_id ≡ f.can_id
  pub size : out.len ≤ 64
  pub classic : out.fd ≡ false → out.len ≤ 8
  pub content : take out.len out.bytes ≡ take f.len f.bytes

some-same : (x y : CanFrame) → some x ≡ some y → x ≡ y
some-same x y e = ap (λ o. elim o [ none ↦ x | some z ↦ z ]) e

either :
    (count : ℕ)
    → (not (count == can_mtu) && not (count == canfd_mtu)) ≡ false
    → (count ≡ can_mtu) ⊎ (count ≡ canfd_mtu)
either count e = ground arith

limit :
    (count len : ℕ)
    → ltb (if count == can_mtu then 8 else 64) len ≡ false
    → (len ≤ 64)
      × ((count ≡ can_mtu) ⊎ (count ≡ canfd_mtu) → (count == canfd_mtu) ≡ false → len ≤ 8)
limit count len e = (ground arith, λ w d. ground arith)

take-front : (n : ℕ) (xs ys : Bytes) → n ≤ length xs → take n (take n xs ++ ys) ≡ take n xs
take-front zero xs ys h = refl
take-front (suc n) [] ys h = absurd (omega arith)
take-front (suc n) (x ∷ xs) ys h = ap (λ (t : Bytes). x ∷ t) (take-front n xs ys (omega arith))

-- A frame that `receive` reports came whole, has neither the extended, the remote nor the error
-- flag, holds at most 64 bytes, a classic one at most 8, and these are the bytes that were read,
-- where that many were.
pub receive-Received :
    (count : ℕ) (f : CanFdFrame) (out : CanFrame)
    → f.len ≤ length f.bytes
    → (receive (arrives count f)).1 ≡ some out
    → Received count f out
unfolding receive
receive-Received count f out room =
    let Q = λ (q : ℤ × Option CanFrame). q.1 ≡ some out → Received count f out in
    if_ind Q (not (count == can_mtu) && not (count == canfd_mtu))
      (λ _ z. absurd (ground (arith, z)))
      λ whole.
        if_ind Q (has f.can_id 0xe0000000) (λ _ z. absurd (ground (arith, z)))
          λ clear.
            if_ind Q (ltb (if count == can_mtu then 8 else 64) f.len)
              (λ _ z. absurd (ground (arith, z)))
              λ fits z. subst (Received count f) (some-same _ out z) (record {
                whole = either count whole;
                standard = clear;
                id = refl;
                size = (limit count f.len fits).0;
                classic = λ e. (limit count f.len fits).1 (either count whole) e;
                content = take-front f.len f.bytes (replicate (64 - f.len) 0) room;
              })
