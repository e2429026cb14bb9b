-- ===== src/SocketCan/Opening/Laws.antt =====
-- The descriptors that are open after any calls of `open` and `close`.
use roboparty_dexhand.Base.{
  ℕ, ◌≡◌, refl, ap, ◌∙◌, Bool, true, false, ◌&&◌, Option, none, some, List, [], ◌∷◌, ◌==◌,
  if◌then◌else◌, if_ind, arith, Bool-cases, option_ind, inl, inr,
}
use roboparty_dexhand.SocketCan.Opening.{
  Call, opens, closes, asks_mtu, asks_flags, enables_fd_frames, sets_send_timeout, binds,
  sets_filters, Socket, Answers, close, has_mtu, is_up, filters_for, settings, try_all, set_up,
  open_socket, Request, opening, closing, run, unopened,
}

-- Takes the first of these out.
abbrev pub without : ℕ → List ℕ → List ℕ
without n [] = []
without n (m ∷ ms) = if m == n then ms else m ∷ without n ms

-- The descriptors that are open after these calls.
abbrev pub live : List Call → List ℕ
live [] = []
live (opens fd ∷ calls) = fd ∷ live calls
live (closes fd ∷ calls) = without fd (live calls)
live (_ ∷ calls) = live calls

-- The transport has just the descriptor that it knows of.
abbrev pub Balanced : Socket → Type 0
Balanced s = live s.calls ≡ elim s.fd [ none ↦ [] | some fd ↦ fd ∷ [] ]

without_first : (n : ℕ) (ms : List ℕ) → without n (n ∷ ms) ≡ ms
without_first n ms = rw (same n) refl
  where
    same : (n : ℕ) → (n == n) ≡ true
    same n = ground arith

close_released :
    (fd : Option ℕ) (calls : List Call)
    → Balanced (record { fd = fd; calls = calls })
    → let t = close (record { fd = fd; calls = calls }) in (t.fd ≡ none) × (live t.calls ≡ [])
unfolding close
close_released none calls h = (refl, h)
close_released (some fd) calls h = (refl, ap (without fd) h ∙ without_first fd [])

released-Balanced : (s : Socket) → s.fd ≡ none → live s.calls ≡ [] → Balanced s
released-Balanced s e h = rw e h

-- An operand only asks and sets.
abbrev Quiet : List (Call × Bool) → Type 0
Quiet [] = Unit
Quiet (s ∷ rest) = ((calls : List Call) → live (s.0 ∷ calls) ≡ live calls) × Quiet rest

try_all-live :
    (ops : List (Call × Bool)) (calls : List Call)
    → Quiet ops
    → live (try_all ops calls).1 ≡ live calls
unfolding try_all
try_all-live [] calls q = refl
try_all-live (s ∷ rest) calls q =
    if_ind (λ (r : Bool × List Call). live r.1 ≡ live calls) s.1
      (λ _. try_all-live rest (s.0 ∷ calls) q.1 ∙ q.0 calls) (λ _. q.0 calls)

settings-Quiet : (node : ℕ) (a : Answers) → Quiet (settings node a)
settings-Quiet node a =
    (λ _. refl, (λ _. refl, (λ _. refl, (λ _. refl, (λ _. refl, (λ _. refl, tt))))))

-- The calls that set a descriptor up for the node, the latest first.
abbrev pub set_up_calls : ℕ → ℕ → List Call → List Call
set_up_calls node fd before =
    binds
    ∷ sets_send_timeout
    ∷ sets_filters (filters_for node)
    ∷ enables_fd_frames
    ∷ asks_flags
    ∷ asks_mtu
    ∷ opens fd
    ∷ before

-- A descriptor is open and set up on an interface that has frames of CAN FD and is up.
pub record Ready (node : ℕ) (a : Answers) (before : List Call) (s : Socket) : Type 0 where
  pub descriptor : ℕ
  pub known : s.fd ≡ some descriptor
  pub given : a.descriptor ≡ some descriptor
  pub found : (a.index == 0) ≡ false
  pub mtu : has_mtu a.mtu ≡ true
  pub up : is_up a.flags ≡ true
  pub answers : (a.fd_frames && a.filters && a.send_timeout && a.bound) ≡ true
  pub calls : s.calls ≡ set_up_calls node descriptor before

-- What the result of `open` says of the descriptor; `before` are the calls up to its own.
abbrev pub Says : ℕ → Answers → List Call → Socket × Bool → Type 0
Says node a before (s, true) = Ready node a before s
Says node a before (s, false) = s.fd ≡ none

module _ (node : ℕ) (a : Answers) where
  -- When all operands hold, all calls were made.
  try_all-calls :
      (calls : List Call)
      → (try_all (settings node a) calls).0 ≡ true
      → (has_mtu a.mtu ≡ true)
        × (is_up a.flags ≡ true)
        × ((a.fd_frames && a.filters && a.send_timeout && a.bound) ≡ true)
        × ((try_all (settings node a) calls).1
            ≡ binds
              ∷ sets_send_timeout
              ∷ sets_filters (filters_for node)
              ∷ enables_fd_frames
              ∷ asks_flags
              ∷ asks_mtu
              ∷ calls)
  unfolding try_all
  try_all-calls calls =
      let late : List Call =
        binds
        ∷ sets_send_timeout
        ∷ sets_filters (filters_for node)
        ∷ enables_fd_frames
        ∷ asks_flags
        ∷ asks_mtu
        ∷ calls in
      let Q = λ (r : Bool × List Call).
        r.0 ≡ true
        → (has_mtu a.mtu ≡ true)
          × (is_up a.flags ≡ true)
          × ((a.fd_frames && a.filters && a.send_timeout && a.bound) ≡ true)
          × (r.1 ≡ late) in
      if_ind Q (has_mtu a.mtu)
        (λ e1.
          if_ind Q (is_up a.flags)
            (λ e2.
              if_ind Q a.fd_frames
                (λ e3.
                  if_ind Q a.filters
                    (λ e4.
                      if_ind Q a.send_timeout
                        (λ e5.
                          if_ind Q a.bound (λ e6 _. (e1, e2, ground (arith, e3, e4, e5, e6), refl))
                            (λ _ z. absurd (ground arith)))
                        (λ _ z. absurd (ground arith)))
                    (λ _ z. absurd (ground arith)))
                (λ _ z. absurd (ground arith)))
            (λ _ z. absurd (ground arith)))
        (λ _ z. absurd (ground arith))

  set_up-Says :
      (fd : ℕ) (calls : List Call)
      → a.descriptor ≡ some fd
      → (a.index == 0) ≡ false
      → live calls ≡ []
      → Says node a calls (set_up node a fd calls) × Balanced (set_up node a fd calls).0
  unfolding set_up close
  set_up-Says fd calls given found none_live =
      let ops = settings node a in
      let after = (try_all ops (opens fd ∷ calls)).1 in
      let lives : live after ≡ fd ∷ [] =
        try_all-live ops (opens fd ∷ calls) (settings-Quiet node a)
        ∙ ap (λ ms. fd ∷ ms) none_live in
      elim (Bool-cases (try_all ops (opens fd ∷ calls)).0) [
        | inl e ↦
            let (mtu, up, answers, all_calls) = try_all-calls (opens fd ∷ calls) e in
            rw e (
              record {
                descriptor = fd;
                known = refl;
                given = given;
                found = found;
                mtu = mtu;
                up = up;
                answers = answers;
                calls = all_calls;
              },
              lives,
            )
        | inr e ↦ rw e (refl, ap (without fd) lives ∙ without_first fd [])
      ]

open_socket-Says :
    (s : Socket) (node : ℕ) (a : Answers)
    → Balanced s
    → Says node a (close s).calls (open_socket s node a) × Balanced (open_socket s node a).0
unfolding open_socket
open_socket-Says s node a h =
    let t = close s in
    let (free, none_live) = close_released s.fd s.calls h in
    let failed : (t.fd ≡ none) × Balanced t = (free, released-Balanced t free none_live) in
    let P = λ (r : Socket × Bool). Says node a t.calls r × Balanced r.0 in
    if_ind P (a.index == 0) (λ _. failed)
      (λ found.
        option_ind P a.descriptor (λ _. failed)
          (λ fd e. set_up-Says node a fd t.calls e found none_live))

run-Balanced : (requests : List Request) (s : Socket) → Balanced s → Balanced (run s requests)
unfolding run
run-Balanced [] s h = h
run-Balanced (opening node a ∷ requests) s h =
    run-Balanced requests _ (open_socket-Says s node a h).1
run-Balanced (closing ∷ requests) s h =
    let (free, none_live) = close_released s.fd s.calls h in
    run-Balanced requests (close s) (released-Balanced (close s) free none_live)

-- After any history of `open` and `close` the only descriptor that is open is the one that the
-- transport knows of, and so it is after one more `open`: when this returns true, the interface was
-- found, has frames of CAN FD and is up, and the new descriptor was set up and bound with the filters
-- of the node; when it returns false, no descriptor is open.
pub open_socket-Balanced :
    (requests : List Request) (node : ℕ) (a : Answers)
    → let s = run unopened requests in
      Balanced s
      × Says node a (close s).calls (open_socket s node a)
      × Balanced (open_socket s node a).0
open_socket-Balanced requests node a =
    let h = run-Balanced requests unopened refl in
    let (says, balanced) = open_socket-Says (run unopened requests) node a h in (h, says, balanced)
