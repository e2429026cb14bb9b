-- ===== src/Protocol/Feedback/Shape.antt =====
-- Which frames `decode_motor_feedback` gets to decode.
use roboparty_dexhand.Base.{
  ℕ, ◌+◌, ◌*◌, ◌%◌, ◌≤◌, ◌≡◌, ◌⊎◌, Bool, true, none, some, arith, ◌==◌, ◌||◌, if◌then◌else◌,
}
use roboparty_dexhand.Base.Bits.{and-mask}
use roboparty_dexhand.Protocol.Feedback.{valid_feedback, configs, find_config, motors, statuses}

abbrev pub is_position_type : ℕ → Bool
is_position_type t = t == 0x50 || t == 0xd0

abbrev pub is_status_type : ℕ → Bool
is_status_type t = t == 0x5a || t == 0xda

pub record ValidPositions (type slots len : ℕ) : Type 0 where
  pub kind : type % 128 ≡ 0x50
  pub lower : 6 ≤ slots
  pub upper : slots ≤ 8
  pub room : 50 + slots ≤ len
  pub fits : len ≤ 64

pub record ValidStatuses (type slots len : ℕ) : Type 0 where
  pub kind : type % 128 ≡ 0x5a
  pub lower : 6 ≤ slots
  pub upper : slots ≤ 31
  pub room : 2 + 2 * slots ≤ len
  pub fits : len ≤ 64

-- What `valid_feedback` lets through.
pub valid_feedback_cases :
    (type slots len : ℕ)
    → valid_feedback type slots len ≡ true
    → ValidPositions type slots len ⊎ ValidStatuses type slots len
unfolding valid_feedback
valid_feedback_cases type slots len h = ground (arith, and-mask 7 type)

pub find_config_position :
    (t : ℕ)
    → t % 128 ≡ 0x50
    → find_config configs t ≡ (if is_position_type t then some (motors t 8 0 6 true true) else none)
unfolding find_config
find_config_position t h = ground arith

pub find_config_status :
    (t : ℕ)
    → t % 128 ≡ 0x5a
    → find_config configs t ≡ (if is_status_type t then some (statuses t) else none)
unfolding find_config
find_config_status t h = ground arith
