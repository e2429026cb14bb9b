-- ===== src/Hand/Owners.antt =====
-- The devices that the hands of a process own: `owners`, `owner_key` and `owns_device` of src/hand.cpp,
-- in the blocks of `connect` and `cleanup` that hold `owners_mutex`.
pub mod Keys
pub mod Counting
pub mod Laws
mod Examples
use Prim.Native.String.{String, ◌++◌ as ◌<>◌}
use roboparty_dexhand.Base.{
  ℕ, Bool, true, false, ◌≡◌, List, [], ◌∷◌, if◌then◌else◌, ◌<◌, length, get_or, set, replicate, ℤ,
  pos, not,
}
use roboparty_dexhand.Hand.Owners.Keys.{Key, contains, erase}

-- `owner_key` for the name of the interface or the serial.
unfoldable pub owner_key : Bool → String → ℤ → Key
owner_key usb name id = record {
  device = (if usb then "usb:" else "socketcan:") <> name;
  node = if usb then pos 0 else id;
}

-- The worker thread of a hand: not there or joined, running, or past its end.
pub data Worker : Type 0 where
  absent running ended : Worker

abbrev pub joinable : Worker → Bool
joinable absent = false
joinable _ = true

pub record Holder : Type 0 where
  pub owns : Bool
  pub key : Key
  pub worker : Worker

pub record Process : Type 0 where
  pub owners : List Key
  pub hands : List Holder

abbrev pub nobody : Holder
nobody = record { owns = false; key = record { device = ""; node = pos 0 }; worker = absent }

abbrev pub hand : Process → ℕ → Holder
hand p i = get_or p.hands i nobody

-- `cleanup`.
unfoldable pub cleanup : Process → ℕ → Process
cleanup p i =
    let h = hand p i in
    if h.owns
    then record { owners = erase h.key p.owners; hands = set p.hands i (record h { owns = false }) }
    else p

-- The locked block of `connect`, without what it does to the queue (`start` of Hand.Queue); `starts`
-- says whether the thread could be started.
unfoldable pub claim : Process → ℕ → Key → Bool → Process × Bool
claim p i k starts =
    let h = hand p i in
    let owned : Process = record {
      owners = k ∷ p.owners;
      hands = set p.hands i (record { owns = true; key = k; worker = h.worker });
    } in
    if joinable h.worker
    then (p, false)
    else if contains p.owners k
    then (record p { hands = set p.hands i (record h { key = k }) }, false)
    else if not starts
    then (cleanup owned i, false)
    else (
      record owned { hands = set p.hands i (record { owns = true; key = k; worker = running }) },
      true,
    )

-- The worker's thread ends, or is joined.
abbrev pub with_worker : Process → ℕ → Worker → Process
with_worker p i w = record p { hands = set p.hands i (record (hand p i) { worker = w }) }

-- What the hands of a process can do, in any order.
pub data Step : Process → Process → Type 0 where
  claims :
      (p : Process) (i : ℕ) (k : Key) (starts : Bool)
      → i < length p.hands
      → Step p (claim p i k starts).0
  gives_up : (p : Process) (i : ℕ) → (hand p i).worker ≡ running → Step p (cleanup p i)
  ends :
      (p : Process) (i : ℕ)
      → (hand p i).worker ≡ running
      → Step p (with_worker (cleanup p i) i ended)
  joins : (p : Process) (i : ℕ) → (hand p i).worker ≡ ended → Step p (with_worker p i absent)

-- A process with a number of hands.
abbrev pub begin : ℕ → Process
begin n = record { owners = []; hands = replicate n nobody }

pub data Reachable (n : ℕ) : Process → Type 0 where
  here : Reachable n (begin n)
  next : {p q : Process} → Reachable n p → Step p q → Reachable n q
