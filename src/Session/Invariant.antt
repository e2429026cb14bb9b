-- ===== src/Session/Invariant.antt =====
-- What holds of a session between commands: six axes, frames that fit the bus, and a clean flag only
-- where the device has been sent the cached values.
pub mod Commands
pub mod Parameters
pub mod Motion
use roboparty_dexhand.Base.{
  ℕ, zero, suc, ◌+◌, ◌*◌, ◌%◌, ◌^◌, ◌≤◌, ◌<◌, ◌≡◌, ◌≢◌, ◌⊎◌, refl, sym, ap, ◌∙◌, inl, inr, Bool,
  true, false, not, Option, none, some, List, [], ◌∷◌, map, arith, ◌==◌, if◌then◌else◌, length,
  length-map, All, ℤ, pos, quot_ℤ, if_ind,
}
use roboparty_dexhand.Protocol.Encode.{
  Bytes, Axis, Command, config, control, move, CommandState, framed, command_payload,
}
use roboparty_dexhand.Protocol.Encode.Layout.{
  words, all_fields, framed_move, all_fields-velocity, all_fields-current, command_payload-framed,
}
use roboparty_dexhand.Session.State.{Session, Receive, Sent, Callback}
use roboparty_dexhand.Session.Sending.{send, send_by, send_payload, emit, code_of}
use roboparty_dexhand.Session.Commands.{for_selected, selected}

abbrev pub starts : ℕ → Bytes → Bool
starts kind [] = false
starts kind (b ∷ bytes) = b == kind

-- The payload of the latest call whose first byte is `kind`.
abbrev pub latest : ℕ → List Sent → Option Bytes
latest kind [] = none
latest kind (c ∷ calls) = if starts kind c.payload then some c.payload else latest kind calls

-- A frame that every transport takes: a standard CAN id and at most 64 bytes.
abbrev pub FitsBus : Sent → Type 0
FitsBus c = (c.id ≤ 0x7ff) × (length c.payload ≤ 64)

pub record Inv (s : Session) : Type 0 where
  pub six : length s.axes ≡ 6
  pub node_low : 1 ≤ s.rx.node
  pub node_high : s.rx.node ≤ 127
  pub fits : All FitsBus s.calls
  pub velocity : s.velocity_dirty ≡ false → latest 3 s.calls ≡ some (framed move s.axes 3)
  pub current : s.current_dirty ≡ false → latest 4 s.calls ≡ some (framed move s.axes 4)

-- What a call of `send` with this payload can lead to.
pub data Emission (s : Session) (base : ℕ) (bytes : Bytes) : Session × ℕ → Type 0 where
  kept : (code : ℕ) → code ≢ 0 → Emission s base bytes (s, code)
  called :
      (code : ℕ)
      → Emission s base bytes
          (record s { calls = record { id = base + s.rx.node; payload = bytes } ∷ s.calls }, code)

pub send-Emission :
    (s : Session) (base : ℕ) (bytes : Bytes) → Emission s base bytes (send s base bytes)
unfolding send
send-Emission s base bytes =
    if_ind (Emission s base bytes) s.rx.closed (λ _. kept 2 (omega arith)) (λ _. by s.callback)
  where
    by : (c : Option Callback) → Emission s base bytes (send_by c s (base + s.rx.node) bytes)
    by none = kept 6 (omega arith)
    by (some callback) = called (code_of (callback (length s.calls) (base + s.rx.node) bytes))

pub emit-send :
    (s : Session) (c : Command) (frame : ℕ)
    → length s.axes ≡ 6
    → emit s c frame ≡ send s 0x500 (framed c s.axes frame)
unfolding emit
emit-send s c frame six =
    rw (command_payload-framed c (record { axes = s.axes }) frame (omega arith))

pub emit-Emission :
    (s : Session) (c : Command) (frame : ℕ)
    → length s.axes ≡ 6
    → Emission s 0x500 (framed c s.axes frame) (emit s c frame)
emit-Emission s c frame six =
    rw (emit-send s c frame six) (send-Emission s 0x500 (framed c s.axes frame))

-- A frame that holds neither velocities nor currents keeps the invariant.
pub Emission-Inv :
    {s : Session} {base : ℕ} {bytes : Bytes} {r : Session × ℕ}
    → Inv s
    → base ≤ 0x600
    → length bytes ≤ 64
    → starts 3 bytes ≡ false
    → starts 4 bytes ≡ false
    → Emission s base bytes r
    → Inv r.0
Emission-Inv v b l n3 n4 (kept code h) = v
Emission-Inv {s} v b l n3 n4 (called code) = record {
  six = v.six;
  node_low = v.node_low;
  node_high = v.node_high;
  fits = ((omega arith, l), v.fits);
  velocity = λ e. rw n3 (v.velocity e);
  current = λ e. rw n4 (v.current e);
}

-- The frames depend on the velocities and on the currents alone.
pub framed-velocity :
    (axes axes' : List Axis)
    → map (λ a. a.velocity) axes' ≡ map (λ a. a.velocity) axes
    → framed move axes' 3 ≡ framed move axes 3
framed-velocity axes axes' e =
    rw
      (
        framed_move axes' 3,
        framed_move axes 3,
        all_fields-velocity axes',
        all_fields-velocity axes,
        e,
      )
      (ap (λ (n : ℕ). 3 ∷ (n % 256) ∷ words (map (λ v. quot_ℤ v 10) (map (λ a. a.velocity) axes)))
        (sym (length-map (λ (a : Axis). a.velocity) axes')
          ∙ ap length e
          ∙ length-map (λ (a : Axis). a.velocity) axes))

pub framed-current :
    (axes axes' : List Axis)
    → map (λ a. a.current) axes' ≡ map (λ a. a.current) axes
    → framed move axes' 4 ≡ framed move axes 4
framed-current axes axes' e =
    rw
      (
        framed_move axes' 4,
        framed_move axes 4,
        all_fields-current axes',
        all_fields-current axes,
        e,
      )
      (ap (λ (n : ℕ). 4 ∷ (n % 256) ∷ words (map (λ a. a.current) axes))
        (sym (length-map (λ (a : Axis). a.current) axes')
          ∙ ap length e
          ∙ length-map (λ (a : Axis). a.current) axes))

pub length-for_selected :
    (id : ℤ) (f : Axis → Axis) (i : ℕ) (axes : List Axis)
    → length (for_selected id f i axes) ≡ length axes
unfolding for_selected
length-for_selected id f i [] = refl
length-for_selected id f i (a ∷ axes) = ap suc (length-for_selected id f (suc i) axes)

pub map-for_selected :
    (g : Axis → ℤ) (id : ℤ) (f : Axis → Axis) (i : ℕ) (axes : List Axis)
    → ((a : Axis) → g (f a) ≡ g a)
    → map g (for_selected id f i axes) ≡ map g axes
unfolding for_selected
map-for_selected g id f i [] h = refl
map-for_selected g id f i (a ∷ axes) h = ground (arith, h a, map-for_selected g id f (suc i) axes h)

-- So does a change of the axes that keeps the velocities and the currents.
pub update-Inv :
    {s : Session} (id : ℤ) (f : Axis → Axis)
    → ((a : Axis) → (f a).velocity ≡ a.velocity)
    → ((a : Axis) → (f a).current ≡ a.current)
    → Inv s
    → Inv (record s { axes = for_selected id f 0 s.axes })
update-Inv {s} id f hv hc v = record {
  six = length-for_selected id f 0 s.axes ∙ v.six;
  node_low = v.node_low;
  node_high = v.node_high;
  fits = v.fits;
  velocity = λ e.
      rw
        (framed-velocity s.axes (for_selected id f 0 s.axes)
          (map-for_selected (λ a. a.velocity) id f 0 s.axes hv))
        (v.velocity e);
  current = λ e.
      rw
        (framed-current s.axes (for_selected id f 0 s.axes)
          (map-for_selected (λ a. a.current) id f 0 s.axes hc))
        (v.current e);
}

-- The other flags are not in the invariant.
pub flags-Inv :
    {s : Session} (pending allowed : Bool)
    → Inv s
    → Inv (record s { restore_pending = pending; allow_no_home = allowed })
flags-Inv pending allowed v = record {
  six = v.six;
  node_low = v.node_low;
  node_high = v.node_high;
  fits = v.fits;
  velocity = v.velocity;
  current = v.current;
}
