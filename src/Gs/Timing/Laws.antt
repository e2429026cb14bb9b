-- ===== src/Gs/Timing/Laws.antt =====
-- What a bit timing that is found satisfies.
use roboparty_dexhand.Base.{
  ℕ, zero, suc, ◌+◌, ◌-◌, ◌*◌, ◌/◌, ◌%◌, ◌≤◌, ◌<◌, ◌≡◌, refl, sym, ap, ◌∙◌, Bool, true, false, not,
  ◌&&◌, ◌||◌, Option, none, some, ltb, leb, ◌==◌, if_ind, arith, subst,
}
use native.Mathlib.Omega.{div_any}
use roboparty_dexhand.Protocol.Encode.{Bytes}
use roboparty_dexhand.Gs.Timing.{
  Limits, unusable, Segments, store, Search, try_t2, t2_loop, try_brp, brp_loop, first_brp,
  bytes_of, timing,
}

-- The segments divide the clock exactly and are within the limits.
pub record IsExact (rate bitrate : ℕ) (l : Limits) (s : Segments) : Type 0 where
  pub exact : bitrate * s.brp * (1 + s.t1 + s.t2) ≡ rate
  pub t1_low : l.t1_min ≤ s.t1
  pub t1_high : s.t1 ≤ l.t1_max
  pub t2_low : l.t2_min ≤ s.t2
  pub t2_high : s.t2 ≤ l.t2_max
  pub brp_high : s.brp ≤ l.brp_max
  pub sjw_t1 : s.sjw ≤ s.t1
  pub sjw_t2 : s.sjw ≤ s.t2
  pub sjw_high : s.sjw ≤ l.sjw_max

t1_within : (t1 a b : ℕ) → (ltb t1 a || ltb b t1) ≡ false → (a ≤ t1) × (t1 ≤ b)
t1_within t1 a b e = ground arith

goes_on :
    (t2 high total : ℕ)
    → (leb t2 high && ltb (t2 + 1) total) ≡ true
    → (t2 ≤ high) × (t2 + 1 < total)
goes_on t2 high total e = ground arith

whole : (rate d : ℕ) → not (rate % d == 0) ≡ false → d * (rate / d) ≡ rate
whole rate d e = ground (arith, div_any rate d)

some-same : (x y : Segments) → some x ≡ some y → x ≡ y
some-same x y e = ap (λ o. elim o [ none ↦ x | some z ↦ z ]) e

bytes-same : (x y : Bytes) → some x ≡ some y → x ≡ y
bytes-same x y e = ap (λ o. elim o [ none ↦ x | some z ↦ z ]) e

in_reach : (a b : ℕ) → not (leb a b) ≡ false → a ≤ b
in_reach a b e = ground arith

module _ {F : Type 0} (infinity : F) (error : ℕ → ℕ → F) (at_least : F → F → Bool)
    (rate bitrate : ℕ) (l : Limits) where
  abbrev AllExact : Search infinity error at_least → Type 0
  AllExact s = (t : Segments) → s.found ≡ some t → IsExact rate bitrate l t

  try_t2-Exact :
      (total brp t2 : ℕ) (s : Search infinity error at_least)
      → bitrate * brp * total ≡ rate
      → brp ≤ l.brp_max
      → l.t2_min ≤ t2
      → t2 ≤ l.t2_max
      → t2 + 1 < total
      → AllExact s
      → AllExact (try_t2 infinity error at_least l total brp t2 s)
  unfolding try_t2
  try_t2-Exact total brp t2 s exact high low top room h =
      let t1 = total - 1 - t2 in
      if_ind AllExact (ltb t1 l.t1_min || ltb l.t1_max t1) (λ _. h)
        λ inside.
          if_ind AllExact (at_least (error t1 total) s.best) (λ _. h)
            λ _ t e.
              let (a, b) = t1_within t1 l.t1_min l.t1_max inside in
              let sum : 1 + t1 + t2 ≡ total = omega arith in
              subst (IsExact rate bitrate l) (some-same _ t e) (record {
                exact = ap (λ n. bitrate * brp * n) sum ∙ exact;
                t1_low = a;
                t1_high = b;
                t2_low = low;
                t2_high = top;
                brp_high = high;
                sjw_t1 = omega arith;
                sjw_t2 = omega arith;
                sjw_high = omega arith;
              })

  t2_loop-Exact :
      (fuel total brp t2 : ℕ) (s : Search infinity error at_least)
      → bitrate * brp * total ≡ rate
      → brp ≤ l.brp_max
      → l.t2_min ≤ t2
      → AllExact s
      → AllExact (t2_loop infinity error at_least fuel l total brp t2 s)
  unfolding t2_loop
  t2_loop-Exact zero total brp t2 s exact high low h = h
  t2_loop-Exact (suc fuel) total brp t2 s exact high low h =
      if_ind AllExact (leb t2 l.t2_max && ltb (t2 + 1) total)
        (λ e.
          let (top, room) = goes_on t2 l.t2_max total e in
          t2_loop-Exact fuel total brp (suc t2) _ exact high (omega arith)
            (try_t2-Exact total brp t2 s exact high low top room h))
        (λ _. h)

  try_brp-Exact :
      (brp : ℕ) (s : Search infinity error at_least)
      → brp ≤ l.brp_max
      → AllExact s
      → AllExact (try_brp infinity error at_least rate bitrate l brp s)
  unfolding try_brp
  try_brp-Exact brp s high h =
      let total = rate / (bitrate * brp) in
      if_ind AllExact (not (rate % (bitrate * brp) == 0)) (λ _. h)
        λ divides.
          if_ind AllExact (ltb total 3 || ltb (1 + l.t1_max + l.t2_max) total) (λ _. h)
            λ _.
              t2_loop-Exact (l.t2_max + 1) total brp l.t2_min s (whole rate (bitrate * brp) divides)
                high (omega arith) h

  brp_loop-Exact :
      (fuel brp : ℕ) (s : Search infinity error at_least)
      → AllExact s
      → AllExact (brp_loop infinity error at_least fuel rate bitrate l brp s)
  unfolding brp_loop
  brp_loop-Exact zero brp s h = h
  brp_loop-Exact (suc fuel) brp s h =
      if_ind AllExact (not (leb brp l.brp_max)) (λ _. h)
        λ inside.
          let k = try_brp-Exact brp s (in_reach brp l.brp_max inside) h in
          if_ind AllExact (ltb (l.brp_max - brp) l.brp_inc) (λ _. k)
            λ _. brp_loop-Exact fuel (brp + l.brp_inc) _ k

  stored :
      (o : Option Segments) (b : Bytes)
      → ((t : Segments) → o ≡ some t → IsExact rate bitrate l t)
      → bytes_of infinity error at_least o ≡ some b
      → (t : Segments) × (b ≡ store t) × IsExact rate bitrate l t
  unfolding bytes_of
  stored none b h e = absurd (ground (arith, e))
  stored (some t) b h e = (t, sym (bytes-same (store t) b e), h t refl)

  -- A timing that is found divides the clock exactly, whatever the comparison of sample points says:
  -- bitrate, prescaler and time quanta multiply to the clock, the segments and the prescaler are at
  -- most what the device allows, and the jump width is at most each segment and its own limit.
  pub timing-IsExact :
      (b : Bytes)
      → timing infinity error at_least rate bitrate l ≡ some b
      → (t : Segments) × (b ≡ store t) × IsExact rate bitrate l t
  unfolding timing
  timing-IsExact b =
      if_ind
        (λ (o : Option Bytes).
          o ≡ some b → (t : Segments) × (b ≡ store t) × IsExact rate bitrate l t)
        (unusable rate bitrate l) (λ _ e. absurd (ground (arith, e)))
        λ _ e.
          stored _ b
            (brp_loop-Exact (l.brp_max + 1) (first_brp infinity error at_least l)
              (record { best = infinity; found = none }) (λ t z. absurd (ground (arith, z))))
            e
