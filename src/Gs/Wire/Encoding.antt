-- ===== src/Gs/Wire/Encoding.antt =====
-- What `encode` writes.
use roboparty_dexhand.Base.{
  ℕ, ◌+◌, ◌-◌, ◌*◌, ◌/◌, ◌%◌, ◌^◌, ◌≤◌, ◌<◌, ◌≡◌, ◌⊎◌, refl, Bool, true, false, ◌&&◌, ◌||◌, some,
  ◌++◌, bit_or, ltb, ◌==◌, length, get_or, take, drop, arith, all_below, all_below_sound, leb,
  length-append, length-take, length-drop, take-append,
}
use roboparty_dexhand.Base.Bits.{or-shifted}
use roboparty_dexhand.Protocol.Encode.{Bytes}
use roboparty_dexhand.Gs.Wire.{
  tx_slots, lengths, at, get32, put32, copy_to, dlc_from, header_of, packet_of, encode,
}

-- Four bytes, low first, as a number.
join-bytes :
    (a b c d : ℕ)
    → a < 256
    → b < 256
    → c < 256
    → d < 256
    → bit_or (bit_or (bit_or a (b * 2 ^ 8)) (c * 2 ^ 16)) (d * 2 ^ 24)
      ≡ a + b * 2 ^ 8 + c * 2 ^ 16 + d * 2 ^ 24
join-bytes a b c d p q r s = ground (
  arith,
  or-shifted 8 a b (omega arith),
  or-shifted 16 (a + b * 2 ^ 8) c (omega arith),
  or-shifted 24 (a + b * 2 ^ 8 + c * 2 ^ 16) d (omega arith),
)

digits32 :
    (v : ℕ)
    → v < 2 ^ 32
    → v % 2 ^ 8
        + v / 2 ^ 8 % 2 ^ 8 * 2 ^ 8
        + v / 2 ^ 16 % 2 ^ 8 * 2 ^ 16
        + v / 2 ^ 24 % 2 ^ 8 * 2 ^ 24
      ≡ v
digits32 v h = omega arith

-- The least legal length: its code is below 16, it is not below the size, the code before it is.
dlc-IsLeast : ℕ → Bool
dlc-IsLeast size =
    let d = dlc_from lengths size 0 in
    ltb d 16 && leb size (get_or lengths d 0) && (d == 0 || ltb (get_or lengths (d - 1) 0) size)

dlc-all : all_below 65 dlc-IsLeast ≡ true
unfolding dlc-IsLeast dlc_from
dlc-all = refl

pub length-copy_to :
    (p : Bytes) (i : ℕ) (src : Bytes)
    → i + length src ≤ length p
    → length (copy_to p i src) ≡ length p
unfolding copy_to
length-copy_to p i src h = ground (
  arith,
  length-append (take i p) (src ++ drop (i + length src) p),
  length-append src (drop (i + length src) p),
  length-take i p,
  length-drop (i + length src) p,
)

head32 :
    (v : ℕ)
    → v < 2 ^ 32
    → bit_or
        (bit_or (bit_or (v % 2 ^ 8) (v / 2 ^ 8 % 2 ^ 8 * 2 ^ 8)) (v / 2 ^ 16 % 2 ^ 8 * 2 ^ 16))
        (v / 2 ^ 24 % 2 ^ 8 * 2 ^ 24)
      ≡ v
head32 v h = omega (
  arith,
  join-bytes (v % 2 ^ 8) (v / 2 ^ 8 % 2 ^ 8) (v / 2 ^ 16 % 2 ^ 8) (v / 2 ^ 24 % 2 ^ 8) (omega arith)
      (omega arith) (omega arith) (omega arith),
  digits32 v h,
)

-- The header of a packet.
packet_of-slot :
    (slot channel id : ℕ) (bytes : Bytes) (size : ℕ) (extended : Bool)
    → slot < 2 ^ 32
    → get32 (packet_of slot channel id bytes size extended) 0 ≡ slot
unfolding get32 packet_of header_of put32 copy_to
packet_of-slot slot channel id bytes size extended h = head32 slot h

packet_of-id :
    (slot channel id : ℕ) (bytes : Bytes) (size : ℕ)
    → id < 2 ^ 32
    → get32 (packet_of slot channel id bytes size false) 4 ≡ id
unfolding get32 packet_of header_of put32 copy_to
packet_of-id slot channel id bytes size h = ground (arith, head32 id h, or-shifted 32 id 0)

pub take-prefix : (n : ℕ) (xs ys : Bytes) → n ≡ length xs → take n (xs ++ ys) ≡ xs
take-prefix n xs ys e = rw e (take-append xs ys)

packet_of-data :
    (slot channel id : ℕ) (bytes : Bytes) (size : ℕ) (extended : Bool)
    → size ≤ length bytes
    → take size (drop 12 (packet_of slot channel id bytes size extended)) ≡ take size bytes
unfolding packet_of header_of put32 copy_to
packet_of-data slot channel id bytes size extended h =
    take-prefix size (take size bytes) _ (omega (arith, length-take size bytes))

length-packet_of :
    (slot channel id : ℕ) (bytes : Bytes) (size : ℕ) (extended : Bool)
    → size ≤ 64
    → length (packet_of slot channel id bytes size extended) ≡ 76
unfolding packet_of header_of put32
length-packet_of slot channel id bytes size extended h =
    let fits : 12 + length (take size bytes) ≤ 76 = omega (arith, length-take size bytes) in
    length-copy_to (header_of slot channel id size extended) 12 (take size bytes) fits

-- The code in a packet is that of the least legal length that holds the bytes.
packet_of-dlc :
    (slot channel id : ℕ) (bytes : Bytes) (size : ℕ) (extended : Bool)
    → size ≤ 64
    → let d = at (packet_of slot channel id bytes size extended) 8 in
      (d < 16) × (size ≤ get_or lengths d 0) × ((d ≡ 0) ⊎ (get_or lengths (d - 1) 0 < size))
unfolding packet_of header_of put32 copy_to dlc-IsLeast
packet_of-dlc slot channel id bytes size extended h =
    ground (arith, all_below_sound 65 dlc-IsLeast size dlc-all (omega arith))

packet_of-channel :
    (slot channel id : ℕ) (bytes : Bytes) (size : ℕ)
    → channel < 256
    → at (packet_of slot channel id bytes size false) 9 ≡ channel
unfolding packet_of header_of put32 copy_to
packet_of-channel slot channel id bytes size h = omega arith

packet_of-flags :
    (slot channel id : ℕ) (bytes : Bytes) (size : ℕ)
    → at (packet_of slot channel id bytes size false) 10 ≡ 6
unfolding packet_of header_of put32 copy_to
packet_of-flags slot channel id bytes size = refl

encode-some :
    (slot channel id : ℕ) (bytes : Bytes) (size : ℕ)
    → slot < tx_slots
    → channel < 256
    → id ≤ 0x7ff
    → size ≤ 64
    → encode slot channel id (some bytes) size false
      ≡ some (packet_of slot channel id bytes size false)
unfolding encode
encode-some slot channel id bytes size s c i n = ground arith

-- A packet for at most 64 bytes with a standard id is not refused. It has 76 bytes: the slot, the id,
-- the code of the least legal length that holds the bytes, the channel, the flags for bit-rate
-- switching, and the bytes.
pub encode_standard :
    (slot channel id : ℕ) (bytes : Bytes) (size : ℕ)
    → slot < tx_slots
    → channel < 256
    → id ≤ 0x7ff
    → size ≤ 64
    → size ≤ length bytes
    → (p : Bytes) × (encode slot channel id (some bytes) size false ≡ some p)
      × (length p ≡ 76)
      × (get32 p 0 ≡ slot)
      × (get32 p 4 ≡ id)
      × (at p 8 < 16)
      × (size ≤ get_or lengths (at p 8) 0)
      × ((at p 8 ≡ 0) ⊎ (get_or lengths (at p 8 - 1) 0 < size))
      × (at p 9 ≡ channel)
      × (at p 10 ≡ 6)
      × (take size (drop 12 p) ≡ take size bytes)
encode_standard slot channel id bytes size s c i n m =
    let (low, enough, least) = packet_of-dlc slot channel id bytes size false n in
    (
      packet_of slot channel id bytes size false,
      encode-some slot channel id bytes size s c i n,
      length-packet_of slot channel id bytes size false n,
      packet_of-slot slot channel id bytes size false (omega arith),
      packet_of-id slot channel id bytes size (omega arith),
      low,
      enough,
      least,
      packet_of-channel slot channel id bytes size c,
      packet_of-flags slot channel id bytes size,
      packet_of-data slot channel id bytes size false m,
    )
