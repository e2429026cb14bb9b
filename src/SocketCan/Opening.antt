-- ===== src/SocketCan/Opening.antt =====
-- `open` and `close` of src/rphand/backends/socketcan.cpp. The calls of the operating system are
-- written down, the latest first; what they give is an argument.
pub mod Laws
mod Examples
use roboparty_dexhand.Base.{
  ℕ, ◌+◌, ◌-◌, Bool, true, false, not, ◌&&◌, Option, none, some, List, [], ◌∷◌, ◌==◌, if◌then◌else◌,
  bit_and,
}

-- The calls on a descriptor; a filter is an id with a mask.
pub data Call : Type 0 where
  opens closes : ℕ → Call
  asks_mtu asks_flags enables_fd_frames sets_send_timeout binds : Call
  sets_filters : List (ℕ × ℕ) → Call

-- `fd_`, with `none` for -1.
pub record Socket : Type 0 where
  pub fd : Option ℕ
  pub calls : List Call

-- What the calls of `open` give; `none` is a failure, and the index of a missing interface is 0.
pub record Answers : Type 0 where
  pub index : ℕ
  pub descriptor : Option ℕ
  pub mtu : Option ℕ
  pub flags : Option ℕ
  pub fd_frames : Bool
  pub filters : Bool
  pub send_timeout : Bool
  pub bound : Bool

unfoldable pub close : Socket → Socket
close s = elim s.fd [ none ↦ s | some fd ↦ record { fd = none; calls = closes fd ∷ s.calls } ]

-- CANFD_MTU, the size of a `struct canfd_frame`.
abbrev pub has_mtu : Option ℕ → Bool
has_mtu none = false
has_mtu (some n) = n == 72

-- IFF_UP.
abbrev pub is_up : Option ℕ → Bool
is_up none = false
is_up (some flags) = not (bit_and flags 1 == 0)

-- The ids of feedback and of answers, with the masks CAN_SFF_MASK, CAN_EFF_FLAG and CAN_RTR_FLAG.
abbrev pub filters_for : ℕ → List (ℕ × ℕ)
filters_for node = (0x480 + node, 0xc00007ff) ∷ (0x580 + node, 0xc00007ff) ∷ []

-- The operands of `ok`: each call with the test of what it gave.
abbrev pub settings : ℕ → Answers → List (Call × Bool)
settings node a =
    (asks_mtu, has_mtu a.mtu)
    ∷ (asks_flags, is_up a.flags)
    ∷ (enables_fd_frames, a.fd_frames)
    ∷ (sets_filters (filters_for node), a.filters)
    ∷ (sets_send_timeout, a.send_timeout)
    ∷ (binds, a.bound)
    ∷ []

-- `&&` over the operands.
unfoldable pub try_all : List (Call × Bool) → List Call → Bool × List Call
try_all [] calls = (true, calls)
try_all (s ∷ rest) calls =
    let others = try_all rest (s.0 ∷ calls) in if s.1 then others else (false, s.0 ∷ calls)

-- The part of `open` from the new descriptor on.
unfoldable pub set_up : ℕ → Answers → ℕ → List Call → Socket × Bool
set_up node a fd calls =
    let (ok, after) = try_all (settings node a) (opens fd ∷ calls) in
    let s : Socket = record { fd = some fd; calls = after } in
    if not ok then (close s, ok) else (s, ok)

unfoldable pub open_socket : Socket → ℕ → Answers → Socket × Bool
open_socket s node a =
    let t = close s in
    if a.index == 0
    then (t, false)
    else elim a.descriptor [ none ↦ (t, false) | some fd ↦ set_up node a fd t.calls ]

-- What is asked of a transport.
pub data Request : Type 0 where
  opening : ℕ → Answers → Request
  closing : Request

abbrev pub unopened : Socket
unopened = record { fd = none; calls = [] }

unfoldable pub run : Socket → List Request → Socket
run s [] = s
run s (opening node a ∷ requests) = run (open_socket s node a).0 requests
run s (closing ∷ requests) = run (close s) requests
