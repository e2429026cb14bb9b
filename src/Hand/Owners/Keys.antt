-- ===== src/Hand/Owners/Keys.antt =====
-- The keys of owned devices, and sets of them as lists.
use Prim.Native.String.{String}
use text.Mathlib.Text.{◌==◌ as ◌is◌}
use text.Mathlib.TextEquality.{eq_iff}
use roboparty_dexhand.Base.{
  ℕ, ◌+◌, ◌-◌, ◌≡◌, refl, ◌↔◌, Bool, true, false, ◌&&◌, ◌||◌, List, [], ◌∷◌, if◌then◌else◌, arith,
  ℤ, eq_ℤ, eq_ℤ_iff,
}

-- `std::pair<std::string, int>`.
pub record Key : Type 0 where
  pub device : String
  pub node : ℤ

abbrev pub eq_key : Key → Key → Bool
eq_key a b = (a.device is b.device) && eq_ℤ a.node b.node

unfoldable pub contains : List Key → Key → Bool
contains [] k = false
contains (x ∷ xs) k = eq_key x k || contains xs k

unfoldable pub erase : Key → List Key → List Key
erase k [] = []
erase k (x ∷ xs) = if eq_key x k then xs else x ∷ erase k xs

abbrev pub count : Key → List Key → ℕ
count k [] = 0
count k (x ∷ xs) = (if eq_key x k then 1 else 0) + count k xs

pub eq_key_iff : (a b : Key) → (eq_key a b ≡ true) ↔ (a ≡ b)
eq_key_iff a b = ground (arith, eq_iff a.device b.device, eq_ℤ_iff a.node b.node)

pub contains-count : (xs : List Key) (k : Key) → contains xs k ≡ false → count k xs ≡ 0
unfolding contains
contains-count [] k h = refl
contains-count (x ∷ xs) k h = ground (arith, contains-count xs k)

pub count-erase :
    (k j : Key) (xs : List Key) → count k (erase j xs) ≡ count k xs - (if eq_key j k then 1 else 0)
unfolding erase
count-erase k j [] = ground arith
count-erase k j (x ∷ xs) =
    ground (arith, count-erase k j xs, eq_key_iff x j, eq_key_iff x k, eq_key_iff j k)
