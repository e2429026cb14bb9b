-- ===== src/Protocol/Kinematics.antt =====
-- `Kinematics` of src/rphand/protocol.cpp over any type that stands for `float`. `none` is an exception.
pub mod Laws
mod Examples
use roboparty_dexhand.Base.{
  ℕ, zero, suc, ◌≡◌, ◌-◌, ◌+◌, ◌≤◌, Bool, true, false, not, ◌&&◌, ◌||◌, Option, none, some, List,
  [], ◌∷◌, ◌++◌, map, ltb, leb, ◌==◌, if◌then◌else◌, get_or, replicate, ℤ, pos, negsuc, at_most,
  below_zero, eq_ℤ, FitsI16,
}

-- `a <= b` for integers.
abbrev pub leb_ℤ : ℤ → ℤ → Bool
leb_ℤ (pos a) (pos b) = leb a b
leb_ℤ (pos a) (negsuc b) = false
leb_ℤ (negsuc a) (pos b) = true
leb_ℤ (negsuc a) (negsuc b) = leb b a

-- `b - a` for a range from a to b.
abbrev pub span_ℤ : ℤ → ℤ → ℤ
span_ℤ (pos a) (pos b) = if leb a b then pos (b - a) else negsuc (a - b - 1)
span_ℤ (negsuc a) (pos b) = pos (b + a + 1)
span_ℤ (pos a) (negsuc b) = negsuc (a + b)
span_ℤ (negsuc a) (negsuc b) = if leb b a then pos (a - b) else negsuc (b - a - 1)

-- `float` and what is used of it; `literal` is a constant in ten-thousandths. Of the order it is used
-- that nothing is below itself, and that the conversion of small integers keeps their order.
pub record Floats : Type 1 where
  pub F : Type 0
  pub of_int : ℤ → F
  pub literal : ℤ → F
  pub tiny : F
  pub add : F → F → F
  pub sub : F → F → F
  pub mul : F → F → F
  pub div : F → F → F
  pub negate : F → F
  pub absolute : F → F
  pub sqrt : F → F
  pub less : F → F → Bool
  pub irreflexive : (x : F) → less x x ≡ false
  pub keeps_order :
      (a b : ℤ) → FitsI16 a → FitsI16 b → leb_ℤ a b ≡ true → less (of_int b) (of_int a) ≡ false

module _ (f : Floats) where
  open f use {F, of_int, literal, tiny, add, sub, mul, div, negate, absolute, sqrt, less}

  pub record Limits : Type 0 where
    pub min_angle : F
    pub max_angle : F
    pub min_position : ℤ
    pub max_position : ℤ

  pub record Kinematics : Type 0 where
    pub type : ℤ
    pub conversion : Bool
    pub active : ℕ
    pub limits : List Limits

  abbrev pub range : ℤ → ℤ → ℤ → ℤ → Limits
  range low high first last = record {
    min_angle = of_int low;
    max_angle = of_int high;
    min_position = first;
    max_position = last;
  }

  abbrev pub no_range : Limits
  no_range = range (pos 0) (pos 0) (pos 0) (pos 10000)

  abbrev pub upto : ℕ → Limits
  upto high = range (pos 0) (pos high) (pos 0) (pos 10000)

  abbrev pub six_limits : ℤ → List Limits
  six_limits type =
      if eq_ℤ type (pos 2)
      then upto 91 ∷ upto 59 ∷ upto 72 ∷ upto 72 ∷ upto 72 ∷ upto 74 ∷ []
      else upto 60 ∷ upto 30 ∷ upto 80 ∷ upto 80 ∷ upto 80 ∷ upto 80 ∷ []

  -- The three limits of a finger.
  abbrev pub finger : List Limits
  finger = range (negsuc 19) (pos 20) (negsuc 4999) (pos 5000) ∷ upto 90 ∷ upto 70 ∷ []

  abbrev pub sixteen_limits : List Limits
  sixteen_limits = upto 110 ∷ finger ++ (finger ++ (finger ++ (finger ++ finger)))

  -- The number behind a test that it is at least 1.
  abbrev pub natural : ℤ → ℕ
  natural (pos n) = n
  natural (negsuc n) = 0

  -- The constructor.
  unfoldable pub create : ℤ → Bool → ℤ → Option Kinematics
  create type conversion generic_axes =
      if below_zero type
        || not (at_most type 4)
        || at_most generic_axes 0
        || not (at_most generic_axes 30)
      then none
      else if at_most type 2
      then some (record {
        type = type;
        conversion = conversion;
        active = 6;
        limits = six_limits type ++ replicate 24 no_range;
      })
      else if eq_ℤ type (pos 3)
      then some (record {
        type = type;
        conversion = conversion;
        active = 16;
        limits = sixteen_limits ++ replicate 14 no_range;
      })
      else some (record {
        type = type;
        conversion = conversion;
        active = natural generic_axes;
        limits = replicate 30 (upto 90);
      })

  -- `limits`, for a zero-based axis.
  unfoldable pub limits : Kinematics → ℤ → Option Limits
  limits k (negsuc axis) = none
  limits k (pos axis) = if leb k.active axis then none else some (get_or k.limits axis no_range)

  abbrev pub converts : Kinematics → ℤ → Bool
  converts k axis = k.conversion && eq_ℤ k.type (pos 2) && not (at_most axis 1) && at_most axis 5

  -- A row of `formula`.
  pub record Row : Type 0 where
    pub a : F
    pub b : F
    pub c : F

  abbrev pub row : ℕ → ℕ → ℕ → Row
  row a b c = record { a = literal (negsuc (a - 1)); b = literal (pos b); c = literal (pos c) }

  abbrev pub formula : List Row
  formula = row 51 14017 4650 ∷ row 43 13244 2225 ∷ row 48 13605 3793 ∷ row 56 14499 4579 ∷ []

  -- `formula[axis-2]` for an axis that converts.
  abbrev pub row_of : ℤ → Row
  row_of (pos axis) = get_or formula (axis - 2) (row 51 14017 4650)
  row_of (negsuc axis) = row 51 14017 4650

  -- `std::min`.
  abbrev pub lesser : F → F → F
  lesser x y = if less y x then y else x

  abbrev pub zero_float : F
  zero_float = of_int (pos 0)

  -- The larger branch of `finger_to_linkage`: the root of a quadratic equation.
  unfoldable pub root_of : F → F → F → F → F
  root_of a b c angle =
      let discriminant = sub (mul b b) (mul (mul (sub c angle) a) (of_int (pos 4))) in
      let root = sqrt discriminant in
      let denominator = add a a in
      if less discriminant zero_float
      then zero_float
      else lesser (div (sub root b) denominator) (div (sub (negate b) root) denominator)

  unfoldable pub linkage : Row → F → F
  linkage r angle =
      if less (absolute r.a) tiny
      then (if not (less tiny (absolute r.b)) then zero_float else div (sub angle r.c) r.b)
      else root_of r.a r.b r.c angle

  unfoldable pub finger_to_linkage : Kinematics → ℤ → F → Option F
  finger_to_linkage k axis angle = elim (limits k axis) [
    | none ↦ none
    | some l ↦ some (if not (converts k axis) then angle else linkage (row_of axis) angle)
  ]

  unfoldable pub finger_of : Row → F → F
  finger_of r angle = add (add r.c (mul (mul r.a angle) angle)) (mul r.b angle)

  unfoldable pub linkage_to_finger : Kinematics → ℤ → F → Option F
  linkage_to_finger k axis angle = elim (limits k axis) [
    | none ↦ none
    | some l ↦ some (if not (converts k axis) then angle else finger_of (row_of axis) angle)
  ]

  -- `std::clamp`.
  abbrev pub clamp : F → F → F → F
  clamp x low high = if less x low then low else if less high x then high else x

  -- The angle before it is converted back, with the ends of the range as linkage angles.
  unfoldable pub interpolate : Limits → ℤ → F → F → F
  interpolate l position low high =
      if leb_ℤ l.max_position l.min_position
      then low
      else add
          (mul
            (div (of_int (span_ℤ l.min_position position))
              (of_int (span_ℤ l.min_position l.max_position)))
            (sub high low))
          low

  abbrev pub bind {ℓ} : {A B : Type ℓ} → Option A → (A → Option B) → Option B
  bind none g = none
  bind (some x) g = g x

  unfoldable pub angle_from_position : Kinematics → ℤ → ℤ → Option F
  angle_from_position k axis position = bind (limits k axis) λ l.
      bind (finger_to_linkage k axis l.min_angle) λ low.
        bind (finger_to_linkage k axis l.max_angle) λ high.
          bind (linkage_to_finger k axis (interpolate l position low high))
            λ angle. some (clamp angle l.min_angle l.max_angle)
