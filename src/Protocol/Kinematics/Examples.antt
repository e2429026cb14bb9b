-- ===== src/Protocol/Kinematics/Examples.antt =====
-- The theorem with whole numbers in the place of `float`.
use roboparty_dexhand.Base.{
  ℕ, ◌+◌, ◌*◌, ◌≡◌, refl, Bool, true, false, not, some, if◌then◌else◌, ℤ, pos, negsuc, arith,
  quot_ℤ, none, [],
}
use roboparty_dexhand.Protocol.Kinematics.{
  leb_ℤ, span_ℤ, Floats, Kinematics, create, limits, angle_from_position,
}
use roboparty_dexhand.Protocol.Kinematics.Laws.{InRange, angle_from_position-InRange}

abbrev minus : ℤ → ℤ
minus a = span_ℤ a (pos 0)

abbrev size : ℤ → ℕ
size (pos n) = n
size (negsuc n) = n + 1

abbrev is_negative : ℤ → Bool
is_negative (pos n) = false
is_negative (negsuc n) = true

abbrev times : ℤ → ℤ → ℤ
times a b =
    let n = size a * size b in
    elim (is_negative a) [
      | true ↦ if is_negative b then pos n else minus (pos n)
      | false ↦ if is_negative b then minus (pos n) else pos n
    ]

leb_same : (a : ℤ) → not (leb_ℤ a a) ≡ false
leb_same (pos n) = ground arith
leb_same (negsuc n) = ground arith

not_below : (a b : ℤ) → leb_ℤ a b ≡ true → not (leb_ℤ a b) ≡ false
not_below a b e = rw e refl

-- Whole numbers, with quotients cut to whole numbers; `sqrt` is only a stand-in.
abbrev whole : Floats
whole = record {
  F = ℤ;
  of_int = λ a. a;
  literal = λ a. a;
  tiny = pos 1;
  add = λ a b. span_ℤ (minus a) b;
  sub = λ a b. span_ℤ b a;
  mul = times;
  div = λ a b. if is_negative b then minus (quot_ℤ a (size b)) else quot_ℤ a (size b);
  negate = minus;
  absolute = λ a. pos (size a);
  sqrt = λ a. a;
  less = λ a b. not (leb_ℤ b a);
  irreflexive = leb_same;
  keeps_order = λ a b _ _ h. not_below a b h;
}

abbrev left_hand : Kinematics whole
unfolding create
left_hand = elim (create whole (pos 1) true (pos 6)) [
  | none ↦ record { type = pos 0; conversion = false; active = 0; limits = [] }
  | some k ↦ k
]

made : create whole (pos 1) true (pos 6) ≡ some left_hand
unfolding create
made = refl

angle_from_position-InRange_example :
    InRange whole
      (limits whole left_hand (pos 2))
      (angle_from_position whole left_hand (pos 2) (pos 5000))
angle_from_position-InRange_example =
    angle_from_position-InRange whole (pos 1) true (pos 6) left_hand (pos 2) (pos 5000) made
