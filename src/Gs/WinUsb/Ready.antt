-- ===== src/Gs/WinUsb/Ready.antt =====
-- What `access` of src/rphand/backends/gs_usb_winusb.cpp leaves when it is true, and its transfers.
use roboparty_dexhand.Base.{
  List, length, ℕ, ◌≤◌, ◌<◌, ◌≡◌, refl, Bool, true, false, not, ◌||◌, Option, none, some, [], ◌∷◌,
  if_ind, option_ind, arith,
}
use roboparty_dexhand.Protocol.Encode.{Bytes}
use roboparty_dexhand.Gs.Buffer.{max_chunk}
use roboparty_dexhand.Gs.WinUsb.{Setup, setup, Adapter, control}
use roboparty_dexhand.Gs.WinUsb.Access.{
  Device, no_endpoints, choose, control_read, read_capabilities, supported, is_adapter, is_zero,
  usable, access,
}

-- A control transfer that writes to the channel, and one that reads; those for the whole device have
-- another value.
abbrev pub written : ℕ → ℕ → Bytes → Setup
written request value bytes = record {
  request_type = 0x41;
  request = request;
  value = value;
  length = length bytes;
  bytes = bytes;
}

abbrev pub reading : ℕ → ℕ → ℕ → Setup
reading request value size = record {
  request_type = 0xc1;
  request = request;
  value = value;
  length = size;
  bytes = [];
}

-- The interface as `access` leaves it when it is true, with the transfers that it made.
pub record IsReady (before : List Setup) (a : Adapter) : Type 0 where
  pub file : a.file ≡ true
  pub usb : a.usb ≡ true
  pub nonzero : 0 < a.input_packet_size
  pub small : a.input_packet_size ≤ max_chunk
  pub requests : a.requests ≡ reading 11 0 72 ∷ reading 4 0 40 ∷ reading 5 1 12 ∷ before

read_same :
    (a : Adapter) (request n : ℕ) (o : Option Bytes) (b : Bytes)
    → (control_read a request n o).1 ≡ some b
    → o ≡ some b
unfolding control_read control
read_same a request n none b e = absurd (ground (arith, e))
read_same a request n (some c) b e = ground (arith, e)

-- What reading the capabilities leaves as it was, and the transfers when it succeeds.
record ReadAll (a : Adapter) (d : Device) (b : Bytes) (c : Adapter) : Type 0 where
  file : c.file ≡ a.file
  usb : c.usb ≡ a.usb
  packet_size : c.input_packet_size ≡ a.input_packet_size
  requests : c.requests ≡ reading 11 0 72 ∷ reading 4 0 40 ∷ reading 5 1 12 ∷ a.requests
  reported : d.capabilities ≡ some b

read_capabilities-ReadAll :
    (a : Adapter) (d : Device) (b : Bytes)
    → (read_capabilities a d).1 ≡ some b
    → ReadAll a d b (read_capabilities a d).0
unfolding read_capabilities control_read control setup
read_capabilities-ReadAll a d b =
    let P = λ (r : Adapter × Option Bytes). r.1 ≡ some b → ReadAll a d b r.0 in
    let (a1, config) = control_read a 5 12 d.config in
    let (a2, first) = control_read a1 4 40 d.basic_capabilities in
    option_ind P config (λ _ z. absurd (ground (arith, z)))
      λ x _.
        option_ind P first (λ _ z. absurd (ground (arith, z)))
          λ y _.
            if_ind P (supported x y)
              (λ _ z. record {
                file = refl;
                usb = refl;
                packet_size = refl;
                requests = refl;
                reported = read_same a2 11 72 d.capabilities b z;
              })
              (λ _ z. absurd (ground (arith, z)))

usable_size :
    (queried : Bool) (i o n : ℕ)
    → (not queried || not (usable (record { input = i; output = o; packet_size = n }))) ≡ false
    → (0 < n) × (n ≤ max_chunk)
usable_size queried i o n e = ground arith

pub access-IsReady :
    (a : Adapter) (d : Device) (b : Bytes)
    → (access a d).1 ≡ some b
    → IsReady a.requests (access a d).0 × (d.capabilities ≡ some b)
unfolding access
access-IsReady a d b =
    let P = λ (r : Adapter × Option Bytes).
      r.1 ≡ some b → IsReady a.requests r.0 × (d.capabilities ≡ some b) in
    let (e, queried) = choose d.endpoints no_endpoints in
    if_ind P (not d.found || not d.opened) (λ _ z. absurd (ground (arith, z)))
      λ _.
        if_ind P (not d.initialized) (λ _ z. absurd (ground (arith, z)))
          λ _.
            if_ind P
              (not d.control_timeout
                || not (is_adapter d.descriptor)
                || not (is_zero d.interface_number))
              (λ _ z. absurd (ground (arith, z)))
              λ _.
                if_ind P (not queried || not (usable e)) (λ _ z. absurd (ground (arith, z)))
                  λ ok z.
                    let (low, high) = usable_size queried e.input e.output e.packet_size ok in
                    let read = read_capabilities-ReadAll _ d b z in
                    let size = read.packet_size in
                    (
                      record {
                        file = read.file;
                        usb = read.usb;
                        nonzero = omega (arith, size, low);
                        small = omega (arith, size, high);
                        requests = read.requests;
                      },
                      read.reported,
                    )
