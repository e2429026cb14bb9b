-- ===== src/Gs/WinUsb/Starting.antt =====
-- What `open` of src/rphand/backends/gs_usb_winusb.cpp leaves behind.
use roboparty_dexhand.Base.{
  List, ap, ◌∙◌, length, ℕ, ◌≡◌, ◌⊎◌, inl, inr, refl, Bool, true, false, Option, none, some, [],
  if_ind, option_ind, to_u32, drop, arith,
}
use roboparty_dexhand.Protocol.Encode.{Bytes}
use roboparty_dexhand.Hand.Connect.{ConnectionOptions}
use roboparty_dexhand.Gs.Wire.{get32, put32}
use roboparty_dexhand.Gs.Timing.{limits, Segments, store}
use roboparty_dexhand.Gs.Timing.Laws.{IsExact, timing-IsExact}
use roboparty_dexhand.Gs.WinUsb.{Setup, Adapter, Shutdown, close}
use roboparty_dexhand.Gs.WinUsb.Access.{Device, access}
use roboparty_dexhand.Gs.WinUsb.Handles.{
  Holds, same-Holds, close-released, close-usb, close-file, access-Holds, configure-SameHandles,
}
use roboparty_dexhand.Gs.WinUsb.Open.{
  Attempt, configure, refuses, timing_at, initialize, close_unless, open_adapter,
}
use roboparty_dexhand.Gs.WinUsb.Ready.{IsReady, access-IsReady}
use roboparty_dexhand.Gs.WinUsb.Configured.{
  IsClosed, close-IsClosed, Configured, configure-Configured,
}

-- A successful `open`: the timings are exact for the clock and the limits that the device reported.
pub record Opened (o : ConnectionOptions) (d : Device) (before : List Setup) (r : Attempt)
    : Type 0 where
  pub capabilities : Bytes
  pub nominal : Segments
  pub fd : Segments
  pub accepted : refuses o ≡ false
  pub reported : d.capabilities ≡ some capabilities
  pub nominal_exact :
      IsExact (get32 capabilities 4) (to_u32 o.bitrate) (limits (drop 8 capabilities)) nominal
  pub fd_exact :
      IsExact (get32 capabilities 4) (to_u32 o.data_bitrate) (limits (drop 40 capabilities)) fd
  pub configured : Configured (to_u32 o.node_id) (store nominal) (store fd) before r

-- A failed one: everything that Windows gave is released.
pub record Closed (r : Attempt) : Type 0 where
  pub result : r.1 ≡ false
  pub state : IsClosed r.0
  pub held : r.0.held ≡ []

store-length : (t : Segments) → length (store t) ≡ 20
unfolding store put32
store-length t = refl

-- The arguments of `timing` that stand for `double`.
module _ {F : Type 0} (infinity : F) (error : ℕ → ℕ → F) (at_least : F → F → Bool)
    (o : ConnectionOptions) (d : Device) (before : List Setup) (accepted : refuses o ≡ false) where
  finish :
      (r : Attempt) (cleanup : Shutdown)
      → Holds r.0
      → Opened o d before r ⊎ (r.1 ≡ false)
      → Opened o d before (close_unless infinity error at_least r cleanup)
        ⊎ Closed (close_unless infinity error at_least r cleanup)
  unfolding close_unless
  finish (a, true) cleanup holds (inl h) = inl h
  finish (a, true) cleanup holds (inr z) = absurd (ground (arith, z))
  finish (a, false) cleanup holds h = inr (record {
    result = refl;
    state = close-IsClosed a cleanup;
    held = close-released a cleanup holds;
  })

  opened_of :
      (c p q : Bytes)
      → timing_at infinity error at_least c (to_u32 o.bitrate) 8 ≡ some p
      → timing_at infinity error at_least c (to_u32 o.data_bitrate) 40 ≡ some q
      → d.capabilities ≡ some c
      → (r : Attempt)
      → (length p ≡ 20 → length q ≡ 20 → Configured (to_u32 o.node_id) p q before r ⊎ (r.1 ≡ false))
      → Opened o d before r ⊎ (r.1 ≡ false)
  opened_of c p q e z reported r made =
      let (t, same_t, exact_t) =
        timing-IsExact infinity error at_least (get32 c 4) (to_u32 o.bitrate) (limits (drop 8 c)) p
          e in
      let (u, same_u, exact_u) =
        timing-IsExact infinity error at_least (get32 c 4) (to_u32 o.data_bitrate)
          (limits (drop 40 c)) q z in
      elim (made (ap length same_t ∙ store-length t) (ap length same_u ∙ store-length u)) [
        | inl h ↦ inl (record {
          capabilities = c;
          nominal = t;
          fd = u;
          accepted = accepted;
          reported = reported;
          nominal_exact = exact_t;
          fd_exact = exact_u;
          configured = rw (← same_t, ← same_u) h;
        })
        | inr h ↦ inr h
      ]

  initialize-Opened :
      (a : Adapter) (capabilities : Option Bytes)
      → Holds a
      → ((b : Bytes) → capabilities ≡ some b → IsReady before a × (d.capabilities ≡ some b))
      → let r = initialize infinity error at_least a o d capabilities in
        (Opened o d before r ⊎ (r.1 ≡ false)) × Holds r.0
  unfolding initialize
  initialize-Opened a none holds h = (inr refl, holds)
  initialize-Opened a (some c) holds h =
      let P = λ (r : Attempt). (Opened o d before r ⊎ (r.1 ≡ false)) × Holds r.0 in
      option_ind P (timing_at infinity error at_least c (to_u32 o.bitrate) 8)
        (λ _. (inr refl, holds))
        λ p e.
          option_ind P (timing_at infinity error at_least c (to_u32 o.data_bitrate) 40)
            (λ _. (inr refl, holds))
            λ q z.
              let (ready, reported) = h c refl in
              let r = configure a o d p q in
              (
                opened_of c p q e z reported r
                    (λ n m. configure-Configured a o d p q before n m holds ready),
                same-Holds a r.0 (configure-SameHandles a o d p q) holds,
              )

-- On an adapter that knows of every handle that it holds, `open` either succeeds or closes. After a
-- success the options were valid; the channel runs for the node, with an empty buffer and no slot in
-- use; the control transfers since the first `close` were the reads of the configuration and the
-- capabilities, the format, RESET, the two timings and START, in this order; and each timing is exact
-- for its bitrate with the clock and within the limits that the device reported. After a failure the
-- interface and the file are released.
pub open_adapter_cases :
    {F : Type 0} (infinity : F) (error : ℕ → ℕ → F) (at_least : F → F → Bool) (a : Adapter)
    (o : ConnectionOptions) (d : Device) (before cleanup : Shutdown)
    → Holds a
    → let r = open_adapter infinity error at_least a o d before cleanup in
      Opened o d (close a before).requests r ⊎ Closed r
unfolding open_adapter
open_adapter_cases infinity error at_least a o d before cleanup holds =
    let c = close a before in
    let free = close-released a before holds in
    if_ind (λ (r : Attempt). Opened o d c.requests r ⊎ Closed r) (refuses o)
      (λ _. inr (record { result = refl; state = close-IsClosed a before; held = free }))
      λ accepted.
        let (b, capabilities) = access c d in
        let (opened, still) =
          initialize-Opened infinity error at_least o d c.requests accepted b capabilities
            (access-Holds c d (close-usb a before) (close-file a before) free)
            (access-IsReady c d) in
        finish infinity error at_least o d c.requests accepted
          (initialize infinity error at_least b o d capabilities) cleanup still opened
