-- ===== src/Protocol/Kinematics/Laws.antt =====
-- The angle of a position stays in the range of its axis.
use roboparty_dexhand.Base.{
  sym, ℕ, zero, suc, ◌<◌, ◌≡◌, inl, inr, refl, ap, subst, Bool, false, not, ◌||◌, Option, none,
  some, List, [], ◌∷◌, ◌++◌, leb, if◌then◌else◌, if_ind, Option-cases, All, get_or, replicate, ℤ,
  pos, negsuc, at_most, below_zero, eq_ℤ, arith,
}
use roboparty_dexhand.Protocol.Kinematics.{
  Floats, Limits, Kinematics, no_range, upto, six_limits, finger, sixteen_limits, create, limits,
  converts, linkage, finger_of, row_of, finger_to_linkage, linkage_to_finger, bind, clamp,
  interpolate, angle_from_position,
}

module _ (f : Floats) where
  open f use {F, of_int, less, irreflexive, keeps_order}

  -- The lower end is not above the upper one.
  abbrev Ordered : Limits f → Type 0
  Ordered l = less l.max_angle l.min_angle ≡ false

  All-append : (xs ys : List (Limits f)) → All Ordered xs → All Ordered ys → All Ordered (xs ++ ys)
  All-append [] ys a b = b
  All-append (x ∷ xs) ys a b = (a.0, All-append xs ys a.1 b)

  All-replicate : (n : ℕ) (l : Limits f) → Ordered l → All Ordered (replicate n l)
  All-replicate zero l o = tt
  All-replicate (suc n) l o = (o, All-replicate n l o)

  All-get_or :
      (xs : List (Limits f)) (i : ℕ) (d : Limits f)
      → Ordered d
      → All Ordered xs
      → Ordered (get_or xs i d)
  All-get_or [] i d o a = o
  All-get_or (x ∷ xs) zero d o a = a.0
  All-get_or (x ∷ xs) (suc i) d o a = All-get_or xs i d o a.1

  upto-Ordered : (n : ℕ) → n < 32768 → Ordered (upto f n)
  upto-Ordered n h = keeps_order (pos 0) (pos n) (omega arith) h (ground arith)

  no_range-Ordered : Ordered (no_range f)
  no_range-Ordered = irreflexive (of_int (pos 0))

  six-Ordered : (type : ℤ) → All Ordered (six_limits f type)
  six-Ordered type =
      let at : (n : ℕ) → n < 32768 → Ordered (upto f n) = upto-Ordered in
      if_ind (All Ordered) (eq_ℤ type (pos 2))
        (λ _. (
          at 91 (omega arith),
          (
            at 59 (omega arith),
            (
              at 72 (omega arith),
              (at 72 (omega arith), (at 72 (omega arith), (at 74 (omega arith), tt))),
            ),
          ),
        ))
        (λ _. (
          at 60 (omega arith),
          (
            at 30 (omega arith),
            (
              at 80 (omega arith),
              (at 80 (omega arith), (at 80 (omega arith), (at 80 (omega arith), tt))),
            ),
          ),
        ))

  finger-Ordered : All Ordered (finger f)
  finger-Ordered = (
    keeps_order (negsuc 19) (pos 20) (omega arith) (omega arith) refl,
    (upto-Ordered 90 (omega arith), (upto-Ordered 70 (omega arith), tt)),
  )

  sixteen-Ordered : All Ordered (sixteen_limits f)
  sixteen-Ordered =
      let more : (ys : List (Limits f)) → All Ordered ys → All Ordered (finger f ++ ys) =
        λ ys a. All-append (finger f) ys finger-Ordered a in
      (
        upto-Ordered 110 (omega arith),
        more (finger f ++ (finger f ++ (finger f ++ finger f))) (
            more (finger f ++ (finger f ++ finger f))
              (more (finger f ++ finger f) (more (finger f) finger-Ordered))),
      )

  -- What the constructor makes, if it makes something.
  abbrev Made : Option (Kinematics f) → Type 0
  Made none = Unit
  Made (some k) = All Ordered k.limits

  create-Made :
      (type : ℤ) (conversion : Bool) (generic_axes : ℤ)
      → Made (create f type conversion generic_axes)
  unfolding create
  create-Made type conversion generic_axes =
      if_ind Made
        (below_zero type
          || not (at_most type 4)
          || at_most generic_axes 0
          || not (at_most generic_axes 30))
        (λ _. tt)
        λ _.
          if_ind Made (at_most type 2)
            (λ _.
              All-append (six_limits f type) (replicate 24 (no_range f)) (six-Ordered type)
                (All-replicate 24 (no_range f) no_range-Ordered))
            λ _.
              if_ind Made (eq_ℤ type (pos 3))
                (λ _.
                  All-append (sixteen_limits f) (replicate 14 (no_range f)) sixteen-Ordered
                    (All-replicate 14 (no_range f) no_range-Ordered))
                (λ _. All-replicate 30 (upto f 90) (upto-Ordered 90 (omega arith)))

  limits_same : (x y : Limits f) → some x ≡ some y → x ≡ y
  limits_same x y e = ap (λ o. elim o [ none ↦ x | some z ↦ z ]) e

  limits-Ordered :
      (k : Kinematics f) (axis : ℤ) (l : Limits f)
      → All Ordered k.limits
      → limits f k axis ≡ some l
      → Ordered l
  unfolding limits
  limits-Ordered k (negsuc axis) l a e = absurd (ground (arith, e))
  limits-Ordered k (pos axis) l a e =
      if_ind (λ o. o ≡ some l → Ordered l) (leb k.active axis) (λ _ z. absurd (ground (arith, z)))
        (λ _ z.
          subst Ordered (limits_same _ l z)
            (All-get_or k.limits axis (no_range f) no_range-Ordered a))
        e

  -- An angle that is in the range l.
  abbrev Within : Limits f → F → Type 0
  Within l x = less x l.min_angle ≡ false × less l.max_angle x ≡ false

  clamp-Within : (l : Limits f) (x : F) → Ordered l → Within l (clamp f x l.min_angle l.max_angle)
  clamp-Within l x o =
      if_ind (Within l) (less x l.min_angle) (λ _. (irreflexive l.min_angle, o))
        λ above.
          if_ind (Within l) (less l.max_angle x) (λ _. (o, irreflexive l.max_angle))
            λ below. (above, below)

  -- The axis is refused, or the angle is in the range of the axis.
  abbrev pub InRange : Option (Limits f) → Option F → Type 0
  InRange none angle = angle ≡ none
  InRange (some l) none = ⊥
  InRange (some l) (some x) = Within l x

  bind_some :
      {A : Type 0} (P : Option F → Type 0) (g : A → Option F) {o : Option A} {x : A}
      → o ≡ some x
      → P (g x)
      → P (bind f o g)
  bind_some P g e h = subst (λ o. P (bind f o g)) (sym e) h

  linkage_of : (k : Kinematics f) (axis : ℤ) → F → F
  linkage_of k axis angle =
      if not (converts f k axis) then angle else linkage f (row_of f axis) angle

  angle_of : (k : Kinematics f) (axis : ℤ) → F → F
  angle_of k axis angle =
      if not (converts f k axis) then angle else finger_of f (row_of f axis) angle

  module _ (k : Kinematics f) (axis : ℤ) (l : Limits f) (e : limits f k axis ≡ some l) where
    finger_to_linkage_inside :
        (angle : F) → finger_to_linkage f k axis angle ≡ some (linkage_of k axis angle)
    unfolding finger_to_linkage linkage_of
    finger_to_linkage_inside angle = rw (finger_to_linkage, e) refl

    linkage_to_finger_inside :
        (angle : F) → linkage_to_finger f k axis angle ≡ some (angle_of k axis angle)
    unfolding linkage_to_finger angle_of
    linkage_to_finger_inside angle = rw (linkage_to_finger, e) refl

    angle_inside :
        (position : ℤ) → Ordered l → InRange (some l) (angle_from_position f k axis position)
    unfolding angle_from_position
    angle_inside position o =
        let low = linkage_of k axis l.min_angle in
        let high = linkage_of k axis l.max_angle in
        let x = interpolate f l position low high in
        bind_some (InRange (some l)) _ e (
          bind_some (InRange (some l)) _ (finger_to_linkage_inside l.min_angle) (
            bind_some (InRange (some l)) _ (finger_to_linkage_inside l.max_angle) (
              bind_some (InRange (some l)) (λ angle. some (clamp f angle l.min_angle l.max_angle))
                (linkage_to_finger_inside x) (clamp-Within l (angle_of k axis x) o))))

  angle_outside :
      (k : Kinematics f) (axis position : ℤ)
      → limits f k axis ≡ none
      → InRange (limits f k axis) (angle_from_position f k axis position)
  unfolding angle_from_position
  angle_outside k axis position e = rw e refl

  angle-Within :
      (k : Kinematics f) (axis position : ℤ)
      → All Ordered k.limits
      → InRange (limits f k axis) (angle_from_position f k axis position)
  angle-Within k axis position h = elim (Option-cases (limits f k axis)) [
    | inl e ↦ angle_outside k axis position e
    | inr (l, e) ↦ rw e (angle_inside k axis l e position (limits-Ordered k axis l h e))
  ]

  -- Whatever the float operations give, with any kinematics that the constructor makes, an axis that
  -- `limits` refuses has no angle, and the angle of a position of any other is not below the least nor
  -- above the greatest angle of the axis.
  pub angle_from_position-InRange :
      (type : ℤ) (conversion : Bool) (generic_axes : ℤ) (k : Kinematics f) (axis position : ℤ)
      → create f type conversion generic_axes ≡ some k
      → InRange (limits f k axis) (angle_from_position f k axis position)
  angle_from_position-InRange type conversion generic_axes k axis position e =
      angle-Within k axis position (subst Made e (create-Made type conversion generic_axes))
