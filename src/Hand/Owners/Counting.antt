-- ===== src/Hand/Owners/Counting.antt =====
-- How many of the hands own a key, and hands that own only while they run.
use roboparty_dexhand.Base.{
  ℕ, zero, suc, ◌+◌, ◌≤◌, ◌<◌, ◌≡◌, ◌≢◌, refl, ap, Bool, true, false, not, ◌&&◌, ◌||◌, List, [],
  ◌∷◌, if◌then◌else◌, get_or, set, length, All, replicate, arith,
}
use roboparty_dexhand.Hand.Owners.Keys.{Key, eq_key, eq_key_iff}
use roboparty_dexhand.Hand.Owners.{Worker, running, joinable, Holder, nobody}

abbrev pub holds : Key → Holder → ℕ
holds k h = if h.owns && eq_key h.key k then 1 else 0

-- How many hands own the key.
abbrev pub owning : Key → List Holder → ℕ
owning k [] = 0
owning k (h ∷ hs) = holds k h + owning k hs

pub owning-set :
    (k : Key) (hs : List Holder) (i : ℕ) (h : Holder)
    → i < length hs
    → owning k (set hs i h) + holds k (get_or hs i nobody) ≡ owning k hs + holds k h
owning-set k [] i h low = absurd (omega (arith, low))
owning-set k (x ∷ hs) zero h low = omega arith
owning-set k (x ∷ hs) (suc i) h low = omega (arith, owning-set k hs i h (omega (arith, low)))

abbrev pub is_running : Worker → Bool
is_running running = true
is_running _ = false

-- A hand owns a device only while its worker runs.
abbrev pub Busy : Holder → Type 0
Busy h = (not h.owns || is_running h.worker) ≡ true

pub All-get_or : (hs : List Holder) (i : ℕ) → All Busy hs → Busy (get_or hs i nobody)
All-get_or [] i a = refl
All-get_or (x ∷ hs) zero a = a.0
All-get_or (x ∷ hs) (suc i) a = All-get_or hs i a.1

pub All-set : (hs : List Holder) (i : ℕ) (h : Holder) → Busy h → All Busy hs → All Busy (set hs i h)
All-set [] i h b a = tt
All-set (x ∷ hs) zero h b a = (b, a.1)
All-set (x ∷ hs) (suc i) h b a = (a.0, All-set hs i h b a.1)

pub All-set_twice :
    (hs : List Holder) (i : ℕ) (g h : Holder)
    → Busy h
    → All Busy hs
    → All Busy (set (set hs i g) i h)
All-set_twice [] i g h b a = tt
All-set_twice (x ∷ hs) zero g h b a = (b, a.1)
All-set_twice (x ∷ hs) (suc i) g h b a = (a.0, All-set_twice hs i g h b a.1)

pub inside :
    (hs : List Holder) (i : ℕ) → joinable (get_or hs i nobody).worker ≡ true → i < length hs
inside [] i h = absurd (ground (arith, h))
inside (x ∷ hs) zero h = omega arith
inside (x ∷ hs) (suc i) h = omega (arith, inside hs i h)

pub inside_owner : (hs : List Holder) (i : ℕ) → (get_or hs i nobody).owns ≡ true → i < length hs
inside_owner [] i h = absurd (ground (arith, h))
inside_owner (x ∷ hs) zero h = omega arith
inside_owner (x ∷ hs) (suc i) h = omega (arith, inside_owner hs i h)

pub owning_none : (k : Key) (n : ℕ) → owning k (replicate n nobody) ≡ 0
owning_none k zero = refl
owning_none k (suc n) = omega (arith, owning_none k n)

pub busy_none : (n : ℕ) → All Busy (replicate n nobody)
busy_none zero = tt
busy_none (suc n) = (refl, busy_none n)

-- Two places that own a key count twice.
pub owning_one :
    (k : Key) (hs : List Holder) (i : ℕ) → holds k (get_or hs i nobody) ≡ 1 → 1 ≤ owning k hs
owning_one k [] i h = absurd (omega (arith, h))
owning_one k (x ∷ hs) zero h = omega (arith, h)
owning_one k (x ∷ hs) (suc i) h = omega (arith, owning_one k hs i h)

pub owning_two :
    (k : Key) (hs : List Holder) (i j : ℕ)
    → i ≢ j
    → holds k (get_or hs i nobody) ≡ 1
    → holds k (get_or hs j nobody) ≡ 1
    → 2 ≤ owning k hs
owning_two k [] i j d h g = absurd (omega (arith, h))
owning_two k (x ∷ hs) zero zero d h g = absurd (d refl)
owning_two k (x ∷ hs) zero (suc j) d h g = omega (arith, h, owning_one k hs j g)
owning_two k (x ∷ hs) (suc i) zero d h g = omega (arith, g, owning_one k hs i h)
owning_two k (x ∷ hs) (suc i) (suc j) d h g =
    omega (arith, owning_two k hs i j (λ e. d (ap suc e)) h g)

pub holds_own : (h : Holder) → h.owns ≡ true → holds h.key h ≡ 1
holds_own h e = rw (e, (eq_key_iff h.key h.key).1 refl) refl
