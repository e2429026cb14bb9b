-- ===== src/Gs/WinUsb/Slots.antt =====
-- The flags of `pending` in src/rphand/backends/gs_usb_winusb.cpp against the slots in use.
use roboparty_dexhand.Base.{
  ℕ, zero, suc, ◌+◌, ◌-◌, ◌<◌, ◌≡◌, refl, ◌∙◌, Bool, true, false, not, List, [], ◌∷◌, ◌==◌,
  if◌then◌else◌, any, length, get_or, set, length-set, replicate, arith,
}
use roboparty_dexhand.Gs.Wire.{tx_slots}
use roboparty_dexhand.Gs.WinUsb.{no_pending, first_free}
use roboparty_dexhand.Gs.WinUsb.Steps.{erase}

abbrev pub count : ℕ → List ℕ → ℕ
count i [] = 0
count i (x ∷ xs) = (if x == i then 1 else 0) + count i xs

abbrev one : Bool → ℕ
one true = 1
one false = 0

-- A slot is marked exactly while one packet has it, and all slots are among the ten.
pub record Balanced (flags : List Bool) (slots : List ℕ) : Type 0 where
  pub size : length flags ≡ tx_slots
  pub counts : (i : ℕ) → count i slots ≡ one (get_or flags i false)

count-erase :
    (i n : ℕ) (xs : List ℕ) → count i (erase n xs) ≡ count i xs - (if n == i then 1 else 0)
unfolding erase
count-erase i n [] = ground arith
count-erase i n (x ∷ xs) = ground (arith, count-erase i n xs)

-- The first free flag, where there is one.
pub first_free_lem :
    (flags : List Bool)
    → any (λ p. not p) flags ≡ true
    → (first_free flags < length flags) × (get_or flags (first_free flags) false ≡ false)
unfolding first_free
first_free_lem [] h = absurd (ground (arith, h))
first_free_lem (true ∷ flags) h = let (a, b) = first_free_lem flags h in (omega (arith, a), b)
first_free_lem (false ∷ flags) h = (omega arith, refl)

set_inside : (flags : List Bool) (i : ℕ) → get_or flags i false ≡ true → i < length flags
set_inside [] i h = absurd (ground (arith, h))
set_inside (x ∷ flags) zero h = omega arith
set_inside (x ∷ flags) (suc i) h = omega (arith, set_inside flags i h)

get_or-set_flag :
    (flags : List Bool) (n i : ℕ) (v : Bool)
    → n < length flags
    → get_or (set flags n v) i false ≡ (if n == i then v else get_or flags i false)
get_or-set_flag [] n i v h = absurd (omega (arith, h))
get_or-set_flag (x ∷ flags) zero zero v h = refl
get_or-set_flag (x ∷ flags) zero (suc i) v h = ground arith
get_or-set_flag (x ∷ flags) (suc n) zero v h = ground arith
get_or-set_flag (x ∷ flags) (suc n) (suc i) v h =
    ground (arith, get_or-set_flag flags n i v (omega (arith, h)))

-- A free slot is taken.
pub take-Balanced :
    (flags : List Bool) (slots : List ℕ) (n : ℕ)
    → n < length flags
    → get_or flags n false ≡ false
    → Balanced flags slots
    → Balanced (set flags n true) (n ∷ slots)
take-Balanced flags slots n low free b = record {
  size = length-set flags n true ∙ b.size;
  counts = λ i. ground (arith, b.counts i, get_or-set_flag flags n i true low, free);
}

-- A slot in use becomes free.
pub free-Balanced :
    (flags : List Bool) (slots : List ℕ) (n : ℕ)
    → get_or flags n false ≡ true
    → Balanced flags slots
    → Balanced (set flags n false) (erase n slots)
free-Balanced flags slots n busy b = record {
  size = length-set flags n false ∙ b.size;
  counts = λ i. ground (
    arith,
    count-erase i n slots,
    b.counts i,
    b.counts n,
    get_or-set_flag flags n i false (set_inside flags n busy),
    busy,
  );
}

-- Nothing is taken out for a slot that is free.
pub miss-Balanced :
    (flags : List Bool) (slots : List ℕ) (n : ℕ)
    → get_or flags n false ≡ false
    → Balanced flags slots
    → Balanced flags (erase n slots)
miss-Balanced flags slots n free b = record {
  size = b.size;
  counts = λ i. ground (arith, count-erase i n slots, b.counts i, b.counts n, free);
}

none_set : (k i : ℕ) → get_or (replicate k false) i false ≡ false
none_set zero i = refl
none_set (suc k) zero = refl
none_set (suc k) (suc i) = none_set k i

pub empty-Balanced : Balanced no_pending []
empty-Balanced = record { size = refl; counts = λ i. ground (arith, none_set 10 i) }
