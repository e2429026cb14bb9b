-- ===== src/Gs/Buffer/Stream.antt =====
-- `ReceiveBuffer` as a queue of bytes: `append` adds a chunk behind, `next` takes a record off the
-- front.
use roboparty_dexhand.Base.{
  ℕ, zero, suc, ◌+◌, ◌-◌, ◌≤◌, ◌<◌, ◌≡◌, ◌⊎◌, refl, sym, ap, ◌∙◌, inl, inr, Bool, true, false, ◌||◌,
  [], ◌∷◌, ◌++◌, ltb, if_ind, length, take, drop, arith, length-take, length-drop,
}
use roboparty_dexhand.Protocol.Encode.{Bytes}
use roboparty_dexhand.Gs.Wire.{copy_to}
use roboparty_dexhand.Gs.Wire.Encoding.{length-copy_to, take-prefix}
use roboparty_dexhand.Gs.Buffer.{ReceiveBuffer, append, joined, max_chunk, capacity}

-- The bytes that are not yet taken.
abbrev pub contents : ReceiveBuffer → Bytes
contents b = take (b.end - b.begin) (drop b.begin b.bytes)

pub record IsValid (b : ReceiveBuffer) : Type 0 where
  pub room : length b.bytes ≡ capacity
  pub order : b.begin ≤ b.end
  pub inside : b.end ≤ capacity

pub length-contents : (b : ReceiveBuffer) → IsValid b → length (contents b) ≡ b.end - b.begin
length-contents b v =
    let o = v.order in
    let i = v.inside in
    let r = v.room in
    omega (
      arith,
      length-take (b.end - b.begin) (drop b.begin b.bytes),
      length-drop b.begin b.bytes,
      o,
      i,
      r,
    )

take-two :
    (n m : ℕ) (xs ys zs : Bytes)
    → n ≡ length xs
    → m ≡ length ys
    → take (n + m) (xs ++ (ys ++ zs)) ≡ xs ++ ys
take-two n m [] ys zs e f = take-prefix (n + m) ys zs (omega arith)
take-two zero m (x ∷ xs) ys zs e f = absurd (omega arith)
take-two (suc n) m (x ∷ xs) ys zs e f =
    let shift : suc n + m ≡ suc (n + m) = omega arith in
    ap (λ k. take k (x ∷ (xs ++ (ys ++ zs)))) shift
    ∙ ap (λ (t : Bytes). x ∷ t) (take-two n m xs ys zs (omega arith) f)

contents-joined :
    (b : ReceiveBuffer) (chunk : Bytes) (size : ℕ)
    → IsValid b
    → size ≤ length chunk
    → take (b.end - b.begin + size) (joined b chunk size) ≡ contents b ++ take size chunk
unfolding joined copy_to
contents-joined b chunk size v h =
    let front =
      take-prefix (b.end - b.begin) (contents b) (drop (0 + length (contents b)) b.bytes)
        (sym (length-contents b v)) in
    rw front (
      take-two (b.end - b.begin) size (contents b) (take size chunk) _ (sym (length-contents b v))
        (omega (arith, length-take size chunk)))

length-joined :
    (b : ReceiveBuffer) (chunk : Bytes) (size : ℕ)
    → IsValid b
    → b.end - b.begin + size ≤ capacity
    → length (joined b chunk size) ≡ capacity
unfolding joined
length-joined b chunk size v h =
    let r = v.room in
    let i = v.inside in
    let first : length (copy_to b.bytes 0 (contents b)) ≡ capacity =
      length-copy_to b.bytes 0 (contents b) (omega (arith, length-contents b v, r, i)) ∙ r in
    length-copy_to (copy_to b.bytes 0 (contents b)) (b.end - b.begin) (take size chunk)
      (omega (arith, length-take size chunk, first, h))
    ∙ first

-- The two results of `append`.
pub record Refused (b : ReceiveBuffer) (size : ℕ) (r : ReceiveBuffer × Bool) : Type 0 where
  pub result : r ≡ (b, false)
  pub reason : (max_chunk < size) ⊎ (capacity < length (contents b) + size)

pub record Added (b : ReceiveBuffer) (added : Bytes) (transfer_end : Bool)
    (r : ReceiveBuffer × Bool) : Type 0 where
  pub result : r.1 ≡ true
  pub small : length added ≤ max_chunk
  pub valid : IsValid r.0
  pub queue : contents r.0 ≡ contents b ++ added
  pub boundary : r.0.transfer_end ≡ transfer_end

too_big :
    (a n size : ℕ)
    → (ltb max_chunk size || ltb capacity (n + size)) ≡ true
    → a ≡ n
    → (max_chunk < size) ⊎ (capacity < a + size)
too_big a n size e f = ground arith

fitting :
    (n size : ℕ)
    → (ltb max_chunk size || ltb capacity (n + size)) ≡ false
    → (size ≤ max_chunk) × (n + size ≤ capacity)
fitting n size e = ground arith

-- On a valid buffer `append` either refuses a chunk that is above `max_chunk` or does not fit,
-- and changes nothing, or it puts the chunk behind the bytes that are left and keeps the buffer
-- valid.
pub append_queue :
    (b : ReceiveBuffer) (chunk : Bytes) (size : ℕ) (transfer_end : Bool)
    → IsValid b
    → size ≤ length chunk
    → let r = append b chunk size transfer_end in
      Refused b size r ⊎ Added b (take size chunk) transfer_end r
unfolding append
append_queue b chunk size transfer_end v h =
    if_ind
      (λ (r : ReceiveBuffer × Bool). Refused b size r ⊎ Added b (take size chunk) transfer_end r)
      (ltb max_chunk size || ltb capacity (b.end - b.begin + size))
      (λ e. inl (record {
        result = refl;
        reason = too_big (length (contents b)) (b.end - b.begin) size e (length-contents b v);
      }))
      λ e.
        let (small, fits) = fitting (b.end - b.begin) size e in
        let whole : b.end - b.begin + size - 0 ≡ b.end - b.begin + size = omega arith in
        inr (record {
          result = refl;
          small = omega (arith, length-take size chunk);
          valid = record {
            room = length-joined b chunk size v fits;
            order = omega arith;
            inside = fits;
          };
          queue = ap (λ n. take n (joined b chunk size)) whole ∙ contents-joined b chunk size v h;
          boundary = refl;
        })
