-- ===== src/Protocol/Feedback/Loops.antt =====
-- The two loops of `decode_motor_feedback`, axis by axis.
use roboparty_dexhand.Base.{
  ℕ, zero, suc, ◌+◌, ◌≤◌, ◌<◌, ◌≡◌, refl, List, [], ◌∷◌, arith, length, get_or, set, length-set, ap,
  get_or-set_self, get_or-set_ne, dec_lt, ◌⊎◌,
}
use roboparty_dexhand.Protocol.Feedback.{
  FeedbackAxis, Config, no_feedback, decode_axis, decode_axes, settle, settle_position,
}

pub length-decode_axes :
    (byte : ℕ → ℕ) (c : Config) (active n i : ℕ) (st : List FeedbackAxis)
    → length (decode_axes byte c active n i st) ≡ length st
unfolding decode_axes
length-decode_axes byte c active zero i st = refl
length-decode_axes byte c active (suc n) i st = ground (
  arith,
  length-decode_axes byte c active n (i + 1),
  length-decode_axes byte c active n (i + 1) st,
  length-decode_axes byte c active n (i + 1)
      (set st (c.start + i) (decode_axis byte c i (get_or st (c.start + i) no_feedback))),
  length-set st (c.start + i) (decode_axis byte c i (get_or st (c.start + i) no_feedback)),
)

module _ (byte : ℕ → ℕ) (c : Config) (active : ℕ) (first : c.start ≡ 0) where
  -- Axes before the loop's index keep what they have.
  decode_axes_before :
      (n i j : ℕ) (st : List FeedbackAxis)
      → j < i
      → get_or (decode_axes byte c active n i st) j no_feedback ≡ get_or st j no_feedback
  unfolding decode_axes
  decode_axes_before zero i j st h = refl
  decode_axes_before (suc n) i j st h = ground (
    arith,
    decode_axes_before n (i + 1) j st,
    decode_axes_before n (i + 1) j
        (set st (c.start + i) (decode_axis byte c i (get_or st (c.start + i) no_feedback))),
    get_or-set_ne st (c.start + i) j (decode_axis byte c i (get_or st (c.start + i) no_feedback))
        no_feedback,
  )

  -- Every axis that the loop reaches is decoded once, from the state that it had.
  pub decode_axes_at :
      (n i j : ℕ) (st : List FeedbackAxis)
      → i ≤ j
      → j < i + n
      → j < active
      → j < length st
      → get_or (decode_axes byte c active n i st) j no_feedback
        ≡ decode_axis byte c j (get_or st j no_feedback)
  unfolding decode_axes
  decode_axes_at zero i j st p q r s = absurd (omega arith)
  decode_axes_at (suc n) i j st p q r s =
      let v = decode_axis byte c i (get_or st (c.start + i) no_feedback) in
      elim (dec_lt i j) [
        | yes later ↦
            let step = decode_axes_at n (i + 1) j (set st (c.start + i) v) in
            ground (
              arith,
              step,
              length-set st (c.start + i) v,
              get_or-set_ne st (c.start + i) j v no_feedback,
            )
        | no late ↦
            let here : c.start + i ≡ j = omega arith in
            let same : i ≡ j = omega arith in
            ground (
              arith,
              decode_axes_before n (i + 1) j (set st (c.start + i) v),
              get_or-set_self st (c.start + i) v no_feedback,
            )
      ]

pub length-settle : (active : ℕ) (st : List FeedbackAxis) → length (settle active st) ≡ length st
unfolding settle
length-settle zero st = refl
length-settle (suc active) [] = refl
length-settle (suc active) (s ∷ st) = ap suc (length-settle active st)

pub settle_at :
    (active j : ℕ) (st : List FeedbackAxis)
    → j < active
    → j < length st
    → let s = get_or st j no_feedback in
      get_or (settle active st) j no_feedback
      ≡ record s { position = settle_position s.raw_position }
unfolding settle
settle_at zero j st p q = absurd (omega arith)
settle_at (suc active) j [] p q = absurd (omega arith)
settle_at (suc active) zero (s ∷ st) p q = refl
settle_at (suc active) (suc j) (s ∷ st) p q = settle_at active j st (omega arith) (omega arith)

-- A reported position is at most 10000, but for the raw value 20000, which goes through.
pub settle_position_bounds :
    (raw : ℕ) → (settle_position raw ≤ 10000) ⊎ ((raw ≡ 20000) × (settle_position raw ≡ 20000))
unfolding settle_position
settle_position_bounds raw = ground arith
