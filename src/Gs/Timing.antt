-- ===== src/Gs/Timing.antt =====
-- `limits` and `timing` of src/rphand/backends/gs_usb_protocol.hpp. The limits are checked to be at
-- most 65536 before the search, so nothing in it wraps.
pub mod Laws
use roboparty_dexhand.Base.{
  ℕ, zero, suc, ◌+◌, ◌-◌, ◌*◌, ◌/◌, ◌%◌, Bool, not, ◌&&◌, ◌||◌, Option, none, some, ltb, leb, ◌==◌,
  if◌then◌else◌, min, replicate,
}
use roboparty_dexhand.Protocol.Encode.{Bytes}
use roboparty_dexhand.Gs.Wire.{get32, put32}

pub record Limits : Type 0 where
  pub t1_min : ℕ
  pub t1_max : ℕ
  pub t2_min : ℕ
  pub t2_max : ℕ
  pub sjw_max : ℕ
  pub brp_min : ℕ
  pub brp_max : ℕ
  pub brp_inc : ℕ

unfoldable pub limits : Bytes → Limits
limits p = record {
  t1_min = get32 p 0;
  t1_max = get32 p 4;
  t2_min = get32 p 8;
  t2_max = get32 p 12;
  sjw_max = get32 p 16;
  brp_min = get32 p 20;
  brp_max = get32 p 24;
  brp_inc = get32 p 28;
}

-- The guard of `timing`.
abbrev pub unusable : ℕ → ℕ → Limits → Bool
unusable rate bitrate l =
    rate == 0
    || bitrate == 0
    || l.brp_min == 0
    || l.brp_inc == 0
    || l.sjw_max == 0
    || l.t1_min == 0
    || l.t2_min == 0
    || ltb l.brp_max l.brp_min
    || ltb l.t1_max l.t1_min
    || ltb l.t2_max l.t2_min
    || ltb 65536 l.brp_max
    || ltb 65536 l.brp_inc
    || ltb 65536 l.t1_max
    || ltb 65536 l.t2_max

-- The words that are put into the result.
pub record Segments : Type 0 where
  pub t1 : ℕ
  pub t2 : ℕ
  pub sjw : ℕ
  pub brp : ℕ

-- The five `put32` write all 20 bytes, so what stood there does not matter.
unfoldable pub store : Segments → Bytes
store s = put32 (put32 (put32 (put32 (put32 (replicate 20 0) 0 0) 4 s.t1) 8 s.t2) 12 s.sjw) 16 s.brp

-- `F` stands for `double`: infinity, the distance of a sample point from 80%, and `>=`.
module _ {F : Type 0} (infinity : F) (error : ℕ → ℕ → F) (at_least : F → F → Bool) where
  pub record Search : Type 0 where
    pub best : F
    pub found : Option Segments

  -- The body of the inner loop.
  unfoldable pub try_t2 : Limits → ℕ → ℕ → ℕ → Search → Search
  try_t2 l total brp t2 s =
      let t1 = total - 1 - t2 in
      if ltb t1 l.t1_min || ltb l.t1_max t1
      then s
      else if at_least (error t1 total) s.best
      then s
      else record {
        best = error t1 total;
        found = some (record { t1 = t1; t2 = t2; sjw = min (min t1 t2) l.sjw_max; brp = brp });
      }

  -- The inner loop; `t2` rises to `t2_max`, which bounds the rounds.
  unfoldable pub t2_loop : ℕ → Limits → ℕ → ℕ → ℕ → Search → Search
  t2_loop zero l total brp t2 s = s
  t2_loop (suc fuel) l total brp t2 s =
      let rest = t2_loop fuel l total brp (suc t2) (try_t2 l total brp t2 s) in
      if leb t2 l.t2_max && ltb (t2 + 1) total then rest else s

  -- The body of the outer loop.
  unfoldable pub try_brp : ℕ → ℕ → Limits → ℕ → Search → Search
  try_brp rate bitrate l brp s =
      let total = rate / (bitrate * brp) in
      if not (rate % (bitrate * brp) == 0)
      then s
      else if ltb total 3 || ltb (1 + l.t1_max + l.t2_max) total
      then s
      else t2_loop (l.t2_max + 1) l total brp l.t2_min s

  -- The outer loop; `brp` rises to `brp_max`, which bounds the rounds.
  unfoldable pub brp_loop : ℕ → ℕ → ℕ → Limits → ℕ → Search → Search
  brp_loop zero rate bitrate l brp s = s
  brp_loop (suc fuel) rate bitrate l brp s =
      let s1 = try_brp rate bitrate l brp s in
      let rest = brp_loop fuel rate bitrate l (brp + l.brp_inc) s1 in
      if not (leb brp l.brp_max) then s else if ltb (l.brp_max - brp) l.brp_inc then s1 else rest

  abbrev pub first_brp : Limits → ℕ
  first_brp l = (l.brp_min + l.brp_inc - 1) / l.brp_inc * l.brp_inc

  unfoldable pub bytes_of : Option Segments → Option Bytes
  bytes_of none = none
  bytes_of (some s) = some (store s)

  -- `none` is false, which leaves the result as it is.
  unfoldable pub timing : ℕ → ℕ → Limits → Option Bytes
  timing rate bitrate l =
      if unusable rate bitrate l
      then none
      else bytes_of
          (brp_loop (l.brp_max + 1) rate bitrate l (first_brp l)
            (record { best = infinity; found = none })).found
