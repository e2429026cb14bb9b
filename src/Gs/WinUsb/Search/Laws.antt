-- ===== src/Gs/WinUsb/Search/Laws.antt =====
-- What is found is a device with the whole serial.
use Prim.Native.String.{String}
use roboparty_dexhand.Base.{
  ℕ, ◌≡◌, refl, ap, Bool, true, false, not, ◌||◌, ◌&&◌, Option, none, some, List, [], ◌∷◌, ◌++◌,
  ◌==◌, map, if_ind, arith, Exists, inl, inr, ◌⊎◌,
}
use roboparty_dexhand.Gs.WinUsb.Search.{
  starts_with, finds, is_bad_serial, no_text, needle, search, search_all, device_path,
}

split_both : (p c : ℕ) (b : Bool) → ((p == c) && b) ≡ true → (c ≡ p) × (b ≡ true)
split_both p c b e = ground (arith, e)

split_either : (a b : Bool) → (a || b) ≡ true → (a ≡ true) ⊎ (b ≡ true)
split_either true b e = inl refl
split_either false b e = inr e

starts_with_front :
    (ps text : List ℕ) → starts_with ps text ≡ true → (after : List ℕ) × (text ≡ ps ++ after)
unfolding starts_with
starts_with_front [] text e = (text, refl)
starts_with_front (p ∷ ps) [] e = absurd (ground (arith, e))
starts_with_front (p ∷ ps) (c ∷ cs) e =
    let (same, more) = split_both p c (starts_with ps cs) e in
    let (after, rest) = starts_with_front ps cs more in (after, rw (same, rest) refl)

-- The pattern stands somewhere in the text.
abbrev pub Inside : List ℕ → List ℕ → Type 0
Inside ps text = (front : List ℕ) × (after : List ℕ) × (text ≡ front ++ (ps ++ after))

finds-Inside : (ps text : List ℕ) → finds ps text ≡ true → Inside ps text
unfolding finds
finds-Inside ps [] e = let (after, same) = starts_with_front ps [] e in ([], after, same)
finds-Inside ps (c ∷ cs) e = elim (split_either (starts_with ps (c ∷ cs)) (finds ps cs) e) [
  | inl h ↦ let (after, same) = starts_with_front ps (c ∷ cs) h in ([], after, same)
  | inr h ↦
      let (front, after, same) = finds-Inside ps cs h in
      (c ∷ front, after, ap (λ rest. c ∷ rest) same)
]

module _ (towlower : ℕ → ℕ) where
  -- A device of one of the interfaces whose path holds the text.
  abbrev pub Listed : List ℕ → List (Option (List (Option (List ℕ)))) → List ℕ → Type 0
  Listed wanted interfaces path =
      Exists
        (λ i.
          (devices : List (Option (List ℕ))) × (i ≡ some devices)
          × Exists (λ d. d ≡ some path) devices)
        interfaces
      × Inside wanted (map towlower path)

  search-listed :
      (wanted : List ℕ) (devices : List (Option (List ℕ)))
      → no_text (search towlower wanted devices) ≡ false
      → let path = search towlower wanted devices in
        Exists (λ d. d ≡ some path) devices × Inside wanted (map towlower path)
  unfolding search
  search-listed wanted [] = λ e. absurd (ground (arith, e))
  search-listed wanted (none ∷ devices) =
      λ e. let (there, holds) = search-listed wanted devices e in (inr there, holds)
  search-listed wanted (some p ∷ devices) =
      if_ind
        (λ path.
          no_text path ≡ false
          → Exists (λ d. d ≡ some path) (some p ∷ devices) × Inside wanted (map towlower path))
        (finds wanted (map towlower p)) (λ h _. (inl refl, finds-Inside wanted (map towlower p) h))
        (λ _ e. let (there, holds) = search-listed wanted devices e in (inr there, holds))

  search_all-Listed :
      (wanted : List ℕ) (interfaces : List (Option (List (Option (List ℕ)))))
      → no_text (search_all towlower wanted interfaces) ≡ false
      → Listed wanted interfaces (search_all towlower wanted interfaces)
  unfolding search_all
  search_all-Listed wanted [] = λ e. absurd (ground (arith, e))
  search_all-Listed wanted (none ∷ interfaces) =
      λ e. let (there, holds) = search_all-Listed wanted interfaces e in (inr there, holds)
  search_all-Listed wanted (some devices ∷ interfaces) =
      if_ind (λ path. no_text path ≡ false → Listed wanted (some devices ∷ interfaces) path)
        (not (no_text (search towlower wanted devices)))
        (λ h e.
          let (there, holds) = search-listed wanted devices e in
          (inl (devices, refl, there), holds))
        (λ _ e. let (there, holds) = search_all-Listed wanted interfaces e in (inr there, holds))

  -- When `device_path` gives a path that is not empty, the serial is not empty and has only hexadecimal
  -- digits, and the path is that of a listed device which, in lower case, holds the identity of the
  -- adapter and then the whole serial between two marks.
  pub device_path-Listed :
      (serial : String) (interfaces : List (Option (List (Option (List ℕ)))))
      → no_text (device_path towlower serial interfaces) ≡ false
      → (is_bad_serial serial ≡ false)
        × Listed (needle towlower serial) interfaces (device_path towlower serial interfaces)
  unfolding device_path
  device_path-Listed serial interfaces =
      if_ind
        (λ path.
          no_text path ≡ false
          → (is_bad_serial serial ≡ false) × Listed (needle towlower serial) interfaces path)
        (is_bad_serial serial) (λ _ e. absurd (ground (arith, e)))
        (λ good e. (good, search_all-Listed (needle towlower serial) interfaces e))
