-- ===== src/Gs/WinUsb/Configured.antt =====
-- A channel that runs, one that is closed, and how the end of `open` of
-- src/rphand/backends/gs_usb_winusb.cpp gets to the first.
use roboparty_dexhand.Base.{
  List, ap, ◌∙◌, length, ℕ, ◌≤◌, ◌<◌, ◌≡◌, ◌⊎◌, inl, inr, refl, Bool, true, false, not, ◌||◌, [],
  ◌∷◌, if_ind, to_u32, arith,
}
use roboparty_dexhand.Protocol.Encode.{Bytes}
use roboparty_dexhand.Hand.Connect.{ConnectionOptions}
use roboparty_dexhand.Gs.Wire.{put32}
use roboparty_dexhand.Gs.Buffer.{empty_buffer, max_chunk}
use roboparty_dexhand.Gs.WinUsb.{
  usb_handle, file_handle, Setup, setup, moves, Adapter, no_pending, control, Shutdown,
  reset_and_drain, free_usb, close,
}
use roboparty_dexhand.Gs.WinUsb.Access.{Device}
use roboparty_dexhand.Gs.WinUsb.Handles.{
  handles_of, Holds, reset_and_drain-SameHandles, free_usb-usb, close_file-file, close_file-usb,
}
use roboparty_dexhand.Gs.WinUsb.Open.{format_bytes, Attempt, configure}
use roboparty_dexhand.Gs.WinUsb.Ready.{written, reading, IsReady}

-- The transfers of a device that starts, the latest first: the configuration, the capabilities, and all
-- capabilities are read; then the format, RESET, the two timings and START are written.
abbrev pub starting_requests : Bytes → Bytes → List Setup → List Setup
starting_requests nominal fd before =
    written 2 0 (1 ∷ 0 ∷ 0 ∷ 0 ∷ 0 ∷ 1 ∷ 0 ∷ 0 ∷ [])
    ∷ written 10 0 fd
    ∷ written 1 0 nominal
    ∷ written 2 0 (0 ∷ 0 ∷ 0 ∷ 0 ∷ 0 ∷ 0 ∷ 0 ∷ 0 ∷ [])
    ∷ written 0 1 (0xef ∷ 0xbe ∷ 0 ∷ 0 ∷ [])
    ∷ reading 11 0 72
    ∷ reading 4 0 40
    ∷ reading 5 1 12
    ∷ before

-- The channel runs.
pub record IsStarted (node : ℕ) (a : Adapter) : Type 0 where
  pub file : a.file ≡ true
  pub usb : a.usb ≡ true
  pub started : a.started ≡ true
  pub failed : a.failed ≡ false
  pub pending : a.pending ≡ no_pending
  pub node_id : a.node ≡ node
  pub nonzero : 0 < a.input_packet_size
  pub small : a.input_packet_size ≤ max_chunk
  pub buffer : a.buffer ≡ empty_buffer
  pub errors : a.errors ≡ 0
  pub held : a.held ≡ usb_handle ∷ file_handle ∷ []

-- No handle is left, and a sender or receiver is told of the failure.
pub record IsClosed (a : Adapter) : Type 0 where
  pub file : a.file ≡ false
  pub usb : a.usb ≡ false
  pub started : a.started ≡ false
  pub failed : a.failed ≡ true
  pub pending : a.pending ≡ no_pending
  pub packet_size : a.input_packet_size ≡ 0
  pub buffer : a.buffer ≡ empty_buffer

pub close-IsClosed : (a : Adapter) (s : Shutdown) → IsClosed (close a s)
unfolding close
close-IsClosed a s = record {
  file = close_file-file (free_usb a s);
  usb = close_file-usb (free_usb a s) ∙ free_usb-usb a s;
  started = refl;
  failed = refl;
  pending = refl;
  packet_size = refl;
  buffer = refl;
}

-- What a reset that is confirmed leaves.
record Reset (a b : Adapter) : Type 0 where
  file : b.file ≡ a.file
  usb : b.usb ≡ a.usb
  packet_size : b.input_packet_size ≡ a.input_packet_size
  buffer : b.buffer ≡ empty_buffer
  requests : b.requests ≡ written 2 0 (0 ∷ 0 ∷ 0 ∷ 0 ∷ 0 ∷ 0 ∷ 0 ∷ 0 ∷ []) ∷ a.requests

reset_and_drain-Reset :
    (a : Adapter) (s : Shutdown) → (reset_and_drain a s).1 ≡ true → Reset a (reset_and_drain a s).0
unfolding reset_and_drain control setup
reset_and_drain-Reset a s =
    let P = λ (r : Adapter × Bool). r.1 ≡ true → Reset a r.0 in
    if_ind P (not (moves s.reset 8)) (λ _ z. absurd (ground (arith, z)))
      λ _.
        if_ind P (not s.flush) (λ _ z. absurd (ground (arith, z)))
          (λ _ z. record {
            file = refl;
            usb = refl;
            packet_size = refl;
            buffer = refl;
            requests = refl;
          })

-- What an attempt that succeeds has done with two timings.
pub record Configured (node : ℕ) (nominal fd : Bytes) (before : List Setup) (r : Attempt)
    : Type 0 where
  pub result : r.1 ≡ true
  pub state : IsStarted node r.0
  pub requests : r.0.requests ≡ starting_requests nominal fd before

pub configure-Configured :
    (a : Adapter) (o : ConnectionOptions) (d : Device) (nominal fd : Bytes) (before : List Setup)
    → length nominal ≡ 20
    → length fd ≡ 20
    → Holds a
    → IsReady before a
    → Configured (to_u32 o.node_id) nominal fd before (configure a o d nominal fd)
      ⊎ ((configure a o d nominal fd).1 ≡ false)
unfolding configure control setup put32
configure-Configured a o d nominal fd before n20 f20 holds h =
    let P = λ (r : Attempt). Configured (to_u32 o.node_id) nominal fd before r ⊎ (r.1 ≡ false) in
    let (a1, formatted) = control a false 0 format_bytes 4 d.format in
    let a2 = (reset_and_drain a1 d.shutdown).0 in
    if_ind P
      (not d.receive_timeout
        || not d.keeps_short_packets
        || not d.no_partial_reads
        || not d.send_timeout)
      (λ _. inr refl)
      λ _.
        if_ind P (not (moves d.format 4)) (λ _. inr refl)
          λ _.
            if_ind P (not (reset_and_drain a1 d.shutdown).1) (λ _. inr refl)
              λ drained.
                if_ind P (not (moves d.nominal 20)) (λ _. inr refl)
                  λ _.
                    if_ind P (not (moves d.fd 20)) (λ _. inr refl)
                      λ _.
                        if_ind P (not (moves d.start 8)) (λ _. inr refl)
                          λ _.
                            let reset =
                              reset_and_drain-Reset a1 d.shutdown (ground (arith, drained)) in
                            let same = reset_and_drain-SameHandles a1 d.shutdown in
                            let size = reset.packet_size in
                            let low = h.nonzero in
                            let high = h.small in
                            inl (record {
                              result = refl;
                              state = record {
                                file = reset.file ∙ h.file;
                                usb = reset.usb ∙ h.usb;
                                started = refl;
                                failed = refl;
                                pending = refl;
                                node_id = refl;
                                nonzero = omega (arith, size, low);
                                small = omega (arith, size, high);
                                buffer = reset.buffer;
                                errors = refl;
                                held =
                                    same.held
                                    ∙ holds
                                    ∙ ap (λ u. handles_of u a.file) h.usb
                                    ∙ ap (handles_of true) h.file;
                              };
                              requests = rw (reset.requests, h.requests, n20, f20) refl;
                            })
