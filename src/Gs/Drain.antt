-- ===== src/Gs/Drain.antt =====
-- `drain_stopped_rx` of src/rphand/backends/gs_usb_drain.hpp. Its arguments `read` and `now` are what
-- the n-th turn of the loop sees; times are nanoseconds.
pub mod Laws
use roboparty_dexhand.Base.{
  ℕ, zero, suc, ◌+◌, ◌-◌, ◌*◌, Bool, true, false, ◌&&◌, ltb, leb, Option, none, some, if◌then◌else◌,
}

-- `1ms`.
abbrev pub ms : ℕ
ms = 1000000

pub data DrainRead : Type 0 where
  data_read timeout read_failure : DrainRead

pub data DrainStatus : Type 0 where
  quiet failed limit : DrainStatus

pub record DrainResult : Type 0 where
  pub status : DrainStatus
  pub bytes : ℕ
  pub reads : ℕ

-- A turn: the clock at the test of the loop, the result of `read` and its bytes, the clock after it.
pub record Turn : Type 0 where
  pub test : ℕ
  pub read : DrainRead
  pub bytes : ℕ
  pub time : ℕ

abbrev pub is_data : DrainRead → Bool
is_data data_read = true
is_data _ = false

abbrev pub is_timeout : DrainRead → Bool
is_timeout timeout = true
is_timeout _ = false

abbrev pub is_read_failure : DrainRead → Bool
is_read_failure read_failure = true
is_read_failure _ = false

-- What a turn does: the loop ends with a result, or goes on with a result and `quiet_since`.
pub data Outcome : Type 0 where
  done : DrainResult → Outcome
  more : DrainResult → ℕ → Outcome

-- The tail of the body, with `quiet_since`.
unfoldable pub settle : ℕ → Turn → DrainResult → ℕ → Outcome
settle deadline t r quiet_since =
    if leb deadline t.time
    then done r
    else if is_timeout t.read && leb (quiet_since + 40 * ms) t.time
    then done (record r { status = quiet })
    else more r quiet_since

-- The body of the loop.
unfoldable pub turn : ℕ → Turn → DrainResult → ℕ → Outcome
turn deadline t before quiet_since =
    let r = record before { reads = suc before.reads } in
    if is_read_failure t.read
    then done (record r { status = failed })
    else if is_data t.read
    then (if leb (64 * 1024 - r.bytes) t.bytes
        then done (record r { bytes = 64 * 1024 })
        else settle deadline t (record r { bytes = r.bytes + t.bytes }) t.time)
    else settle deadline t r quiet_since

-- The condition of the loop.
abbrev pub goes_on : ℕ → Turn → DrainResult → Bool
goes_on deadline t r = ltb r.reads 1024 && ltb r.bytes (64 * 1024) && ltb t.test deadline

abbrev pub resume : Outcome → (DrainResult → ℕ → Option DrainResult) → Option DrainResult
resume (done r) next = some r
resume (more r quiet_since) next = next r quiet_since

-- `none` is out of fuel.
unfoldable pub loop : ℕ → (ℕ → Turn) → ℕ → DrainResult → ℕ → Option DrainResult
loop zero turns deadline r quiet_since = none
loop (suc fuel) turns deadline r quiet_since =
    if goes_on deadline (turns r.reads) r
    then resume (turn deadline (turns r.reads) r quiet_since) (loop fuel turns deadline)
    else some r

-- `start` and `begin` are the clock at the first two calls of `now`; each turn takes one of the 1024
-- reads.
unfoldable pub drain_stopped_rx : ℕ → ℕ → (ℕ → Turn) → Option DrainResult
drain_stopped_rx start begin turns =
    loop 1025 turns (start + 500 * ms) (record { status = limit; bytes = 0; reads = 0 }) begin
