-- ===== src/Gs/WinUsb/Handles.antt =====
-- The handles that the adapter of src/rphand/backends/gs_usb_winusb.cpp holds, against those that Windows
-- has given and not got back.
use roboparty_dexhand.Base.{
  ◌≡◌, refl, sym, ap, ◌∙◌, Bool, true, false, not, ◌||◌, Option, List, [], ◌∷◌, if◌then◌else◌,
  if_ind, option_ind,
}
use roboparty_dexhand.Protocol.Encode.{Bytes}
use roboparty_dexhand.Hand.Connect.{ConnectionOptions}
use roboparty_dexhand.Gs.WinUsb.{
  Handle, file_handle, usb_handle, Adapter, moves, control, Shutdown, reset_and_drain, released,
  free_usb, close_file, close,
}
use roboparty_dexhand.Gs.WinUsb.Access.{
  Device, choose, no_endpoints, usable, is_adapter, is_zero, control_read, read_capabilities,
  supported, access,
}
use roboparty_dexhand.Gs.WinUsb.Open.{Attempt, format_bytes, configure}

abbrev pub handles_of : Bool → Bool → List Handle
handles_of true true = usb_handle ∷ file_handle ∷ []
handles_of true false = usb_handle ∷ []
handles_of false true = file_handle ∷ []
handles_of false false = []

-- The adapter knows of every handle that it was given and has not released.
abbrev pub Holds : Adapter → Type 0
Holds a = a.held ≡ handles_of a.usb a.file

pub handles_known :
    (a : Adapter) (usb file : Bool)
    → a.held ≡ handles_of usb file
    → a.usb ≡ usb
    → a.file ≡ file
    → Holds a
handles_known a usb file held same_usb same_file =
    held ∙ ap (λ u. handles_of u file) (sym same_usb) ∙ ap (handles_of a.usb) (sym same_file)

-- The handles are as in another state.
pub record SameHandles (a b : Adapter) : Type 0 where
  pub held : b.held ≡ a.held
  pub usb : b.usb ≡ a.usb
  pub file : b.file ≡ a.file

pub same-Holds : (a b : Adapter) → SameHandles a b → Holds a → Holds b
same-Holds a b same h =
    same.held
    ∙ h
    ∙ ap (λ u. handles_of u a.file) (sym same.usb)
    ∙ ap (handles_of b.usb) (sym same.file)

pub reset_and_drain-SameHandles :
    (a : Adapter) (s : Shutdown) → SameHandles a (reset_and_drain a s).0
unfolding reset_and_drain control
reset_and_drain-SameHandles a s =
    let P = λ (r : Adapter × Bool). SameHandles a r.0 in
    if_ind P (not (moves s.reset 8)) (λ _. record { held = refl; usb = refl; file = refl })
      λ _.
        if_ind P (not s.flush) (λ _. record { held = refl; usb = refl; file = refl })
          (λ _. record { held = refl; usb = refl; file = refl })

released_usb : (file : Bool) → released usb_handle (handles_of true file) ≡ handles_of false file
unfolding released
released_usb true = refl
released_usb false = refl

released_file : (usb : Bool) → released file_handle (handles_of usb true) ≡ handles_of usb false
unfolding released
released_file true = refl
released_file false = refl

-- After a release the interface is gone, and the rest is as it was.
freed :
    (b : Adapter) (usb file : Bool)
    → b.held ≡ handles_of usb file
    → usb ≡ true
    → b.file ≡ file
    → Holds (record b { usb = false; held = released usb_handle b.held })
freed b usb file h on same =
    ap (released usb_handle) (h ∙ ap (λ u. handles_of u file) on)
    ∙ released_usb file
    ∙ ap (handles_of false) (sym same)

drained_or_not :
    (a : Adapter) (s : Shutdown) → SameHandles a (if a.started then (reset_and_drain a s).0 else a)
drained_or_not a s =
    if_ind (SameHandles a) a.started (λ _. reset_and_drain-SameHandles a s)
      (λ _. record { held = refl; usb = refl; file = refl })

free_usb-Holds : (a : Adapter) (s : Shutdown) → Holds a → Holds (free_usb a s)
unfolding free_usb
free_usb-Holds a s h =
    let same = drained_or_not a s in
    let b : Adapter = if a.started then (reset_and_drain a s).0 else a in
    if_ind Holds a.usb (λ on. freed b a.usb a.file (same.held ∙ h) on same.file) (λ _. h)

pub free_usb-usb : (a : Adapter) (s : Shutdown) → (free_usb a s).usb ≡ false
unfolding free_usb
free_usb-usb a s = if_ind (λ (b : Adapter). b.usb ≡ false) a.usb (λ _. refl) (λ e. e)

close_file-held : (a : Adapter) → Holds a → a.usb ≡ false → (close_file a).held ≡ []
unfolding close_file
close_file-held a h gone =
    if_ind (λ (b : Adapter). b.held ≡ []) a.file
      (λ on.
        ap (released file_handle) (h ∙ ap (λ f. handles_of a.usb f) on)
        ∙ released_file a.usb
        ∙ ap (λ u. handles_of u false) gone)
      (λ off. h ∙ ap (λ f. handles_of a.usb f) off ∙ ap (λ u. handles_of u false) gone)

pub close_file-file : (a : Adapter) → (close_file a).file ≡ false
unfolding close_file
close_file-file a = if_ind (λ (b : Adapter). b.file ≡ false) a.file (λ _. refl) (λ e. e)

pub close_file-usb : (a : Adapter) → (close_file a).usb ≡ a.usb
unfolding close_file
close_file-usb a = if_ind (λ (b : Adapter). b.usb ≡ a.usb) a.file (λ _. refl) (λ _. refl)

-- `close` gives every handle back.
pub close-released : (a : Adapter) (s : Shutdown) → Holds a → (close a s).held ≡ []
unfolding close
close-released a s h = close_file-held (free_usb a s) (free_usb-Holds a s h) (free_usb-usb a s)

pub close-usb : (a : Adapter) (s : Shutdown) → (close a s).usb ≡ false
unfolding close
close-usb a s = close_file-usb (free_usb a s) ∙ free_usb-usb a s

pub close-file : (a : Adapter) (s : Shutdown) → (close a s).file ≡ false
unfolding close
close-file a s = close_file-file (free_usb a s)

pub close-Holds : (a : Adapter) (s : Shutdown) → Holds a → Holds (close a s)
close-Holds a s h =
    close-released a s h
    ∙ ap (λ u. handles_of u false) (sym (close-usb a s))
    ∙ ap (handles_of (close a s).usb) (sym (close-file a s))

read_capabilities-SameHandles : (a : Adapter) (d : Device) → SameHandles a (read_capabilities a d).0
unfolding read_capabilities control_read control
read_capabilities-SameHandles a d =
    let P = λ (r : Adapter × Option Bytes). SameHandles a r.0 in
    let (b, config) = control_read a 5 12 d.config in
    let (c, first) = control_read b 4 40 d.basic_capabilities in
    option_ind P config (λ _. record { held = refl; usb = refl; file = refl })
      λ x _.
        option_ind P first (λ _. record { held = refl; usb = refl; file = refl })
          λ y _.
            if_ind P (supported x y) (λ _. record { held = refl; usb = refl; file = refl })
              (λ _. record { held = refl; usb = refl; file = refl })

-- `access` on an adapter that holds nothing.
pub access-Holds :
    (a : Adapter) (d : Device) → a.usb ≡ false → a.file ≡ false → a.held ≡ [] → Holds (access a d).0
unfolding access
access-Holds a d no_usb no_file empty =
    let P = λ (r : Adapter × Option Bytes). Holds r.0 in
    let a1 = record a { file = true; held = file_handle ∷ a.held } in
    let b = record a1 { usb = true; held = usb_handle ∷ a1.held } in
    let (e, queried) = choose d.endpoints no_endpoints in
    let c = record b { input_packet_size = e.packet_size } in
    let both : b.held ≡ usb_handle ∷ file_handle ∷ [] =
      ap (λ hs. usb_handle ∷ file_handle ∷ hs) empty in
    if_ind P (not d.found || not d.opened)
      (λ _. empty ∙ ap (λ u. handles_of u false) (sym no_usb) ∙ ap (handles_of a.usb) (sym no_file))
      λ _.
        if_ind P (not d.initialized)
          (λ _. ap (λ hs. file_handle ∷ hs) empty ∙ ap (λ u. handles_of u true) (sym no_usb))
          λ _.
            if_ind P
              (not d.control_timeout
                || not (is_adapter d.descriptor)
                || not (is_zero d.interface_number))
              (λ _. both)
              λ _.
                if_ind P (not queried || not (usable e)) (λ _. both)
                  (λ _.
                    same-Holds c (read_capabilities c d).0 (read_capabilities-SameHandles c d) both)

pub configure-SameHandles :
    (a : Adapter) (o : ConnectionOptions) (d : Device) (nominal fd : Bytes)
    → SameHandles a (configure a o d nominal fd).0
unfolding configure control
configure-SameHandles a o d nominal fd =
    let P = λ (r : Attempt). SameHandles a r.0 in
    let (a1, formatted) = control a false 0 format_bytes 4 d.format in
    let (a2, drained) = reset_and_drain a1 d.shutdown in
    let same = reset_and_drain-SameHandles a1 d.shutdown in
    if_ind P
      (not d.receive_timeout
        || not d.keeps_short_packets
        || not d.no_partial_reads
        || not d.send_timeout)
      (λ _. record { held = refl; usb = refl; file = refl })
      λ _.
        if_ind P (not formatted) (λ _. record { held = refl; usb = refl; file = refl })
          λ _.
            if_ind P (not drained)
              (λ _. record { held = same.held; usb = same.usb; file = same.file })
              λ _.
                if_ind P (not (moves d.nominal 20))
                  (λ _. record { held = same.held; usb = same.usb; file = same.file })
                  λ _.
                    if_ind P (not (moves d.fd 20))
                      (λ _. record { held = same.held; usb = same.usb; file = same.file })
                      λ _.
                        if_ind P (not (moves d.start 8))
                          (λ _. record { held = same.held; usb = same.usb; file = same.file })
                          (λ _. record { held = same.held; usb = same.usb; file = same.file })
