-- ===== src/Gs/Drain/Laws.antt =====
-- When `drain_stopped_rx` ends and what its results mean.
use roboparty_dexhand.Base.{
  ℕ, zero, suc, ◌+◌, ◌-◌, ◌*◌, ◌≤◌, ◌<◌, ◌≡◌, refl, ap, Bool, true, false, ◌&&◌, ltb, leb, Option,
  some, if_ind, arith, sym, dec_lt, ◌∙◌,
}
use roboparty_dexhand.Gs.Drain.{
  ms, DrainRead, DrainStatus, quiet, limit, DrainResult, Turn, is_data, is_timeout, is_read_failure,
  Outcome, done, more, settle, turn, goes_on, loop, resume, drain_stopped_rx, timeout, data_read,
  read_failure,
}

abbrev is_quiet : DrainStatus → Bool
is_quiet quiet = true
is_quiet _ = false

quiet-facts : (k : DrainRead) (a b : ℕ) → (is_timeout k && leb a b) ≡ true → (k ≡ timeout) × (a ≤ b)
quiet-facts data_read a b e = absurd (ground arith)
quiet-facts read_failure a b e = absurd (ground arith)
quiet-facts timeout a b e = (refl, ground arith)

above : (a b : ℕ) → leb a b ≡ false → b < a
above a b e = ground arith

counted :
    (reads bytes test deadline : ℕ)
    → (ltb reads 1024 && ltb bytes (64 * 1024) && ltb test deadline) ≡ true
    → reads < 1024
counted reads bytes test deadline e = ground arith

roomy :
    (reads bytes test deadline : ℕ)
    → (ltb reads 1024 && ltb bytes (64 * 1024) && ltb test deadline) ≡ true
    → bytes < 64 * 1024
roomy reads bytes test deadline e = ground arith

filled : (a b : ℕ) → a < 64 * 1024 → leb (64 * 1024 - a) b ≡ false → a + b ≤ 64 * 1024
filled a b h e = ground arith

no_data : (k : DrainRead) → is_data k ≡ false → k ≡ data_read → false ≡ true
no_data k e z = sym e ∙ ap is_data z

module _ (turns : ℕ → Turn) (start begin : ℕ) where
  -- The last read was a timeout before the deadline, and 40 ms without data came before its end.
  pub record QuietAfter (r : DrainResult) : Type 0 where
    pub last : ℕ
    pub count : r.reads ≡ suc last
    pub end : (turns last).read ≡ timeout
    pub early : (turns last).time < start + 500 * ms
    pub since_begin : begin + 40 * ms ≤ (turns last).time
    pub silence :
        (i : ℕ)
        → i ≤ last
        → (turns i).read ≡ data_read
        → (turns i).time + 40 * ms ≤ (turns last).time

  -- What holds at the test of the loop.
  record Going (r : DrainResult) (quiet_since : ℕ) : Type 0 where
    reads : r.reads ≤ 1024
    bytes : r.bytes ≤ 64 * 1024
    status : is_quiet r.status ≡ false
    since : begin ≤ quiet_since
    heard : (i : ℕ) → i < r.reads → (turns i).read ≡ data_read → (turns i).time ≤ quiet_since

  pub record Ended (r : DrainResult) : Type 0 where
    pub reads : r.reads ≤ 1024
    pub bytes : r.bytes ≤ 64 * 1024
    pub settled : r.status ≡ quiet → QuietAfter r

  abbrev After : ℕ → Outcome → Type 0
  After reads (done r) = Ended r
  After reads (more r quiet_since) = Going r quiet_since × (r.reads ≡ suc reads)

  abbrev Result : Option DrainResult → Type 0
  Result o = (r : DrainResult) × (o ≡ some r) × Ended r

  open_quiet : (r : DrainResult) → is_quiet r.status ≡ false → r.status ≡ quiet → QuietAfter r
  open_quiet r e z = absurd (ground (arith, e, ap is_quiet z))

  -- `r` and `quiet_since` stand for what the turn has made of them.
  settle-After :
      (r : DrainResult) (last quiet_since : ℕ)
      → r.reads ≡ suc last
      → suc last ≤ 1024
      → r.bytes ≤ 64 * 1024
      → is_quiet r.status ≡ false
      → begin ≤ quiet_since
      → ((i : ℕ) → i ≤ last → (turns i).read ≡ data_read → (turns i).time ≤ quiet_since)
      → After last (settle (start + 500 * ms) (turns last) r quiet_since)
  unfolding settle
  settle-After r last quiet_since count few small opened since heard =
      if_ind (After last) (leb (start + 500 * ms) (turns last).time)
        (λ _. record { reads = omega arith; bytes = small; settled = open_quiet r opened })
        λ early.
          if_ind (After last)
            (is_timeout (turns last).read && leb (quiet_since + 40 * ms) (turns last).time)
            (λ e.
              let (end, long) =
                quiet-facts (turns last).read (quiet_since + 40 * ms) (turns last).time e in
              record {
                reads = omega arith;
                bytes = small;
                settled = λ _. record {
                  last = last;
                  count = count;
                  end = end;
                  early = above (start + 500 * ms) (turns last).time early;
                  since_begin = omega arith;
                  silence = λ i h d. let k = heard i h d in omega arith;
                };
              })
            λ _. (
              record {
                reads = omega arith;
                bytes = small;
                status = opened;
                since = since;
                heard = λ i h. heard i (omega arith);
              },
              count,
            )

  module _ (forward : (i j : ℕ) → i ≤ j → (turns i).time ≤ (turns j).time)
      (late : begin ≤ (turns 0).time) where
    before_turn :
        (r : DrainResult) (quiet_since : ℕ)
        → Going r quiet_since
        → is_data (turns r.reads).read ≡ false
        → (i : ℕ) → i ≤ r.reads
        → (turns i).read ≡ data_read
        → (turns i).time ≤ quiet_since
    before_turn r quiet_since g other i h d = elim (dec_lt i r.reads) [
      | yes lt ↦ g.heard i lt d
      | no ge ↦
          let same : r.reads ≡ i = omega arith in
          absurd (ground (arith, no_data (turns i).read (rw (sym same) other) d))
    ]

    turn-After :
        (r : DrainResult) (quiet_since : ℕ)
        → Going r quiet_since
        → goes_on (start + 500 * ms) (turns r.reads) r ≡ true
        → After r.reads (turn (start + 500 * ms) (turns r.reads) r quiet_since)
    unfolding turn
    turn-After r quiet_since g e =
        let t = turns r.reads in
        let few : suc r.reads ≤ 1024 = counted r.reads r.bytes t.test (start + 500 * ms) e in
        let small : r.bytes < 64 * 1024 = roomy r.reads r.bytes t.test (start + 500 * ms) e in
        if_ind (After r.reads) (is_read_failure t.read)
          (λ _. record {
            reads = few;
            bytes = g.bytes;
            settled = λ z. absurd (ground (arith, ap is_quiet z));
          })
          λ _.
            if_ind (After r.reads) (is_data t.read)
              (λ _.
                if_ind (After r.reads) (leb (64 * 1024 - r.bytes) t.bytes)
                  (λ _. record {
                    reads = few;
                    bytes = omega arith;
                    settled =
                        open_quiet (record r { bytes = 64 * 1024; reads = suc r.reads }) g.status;
                  })
                  λ fits.
                    settle-After (record r { reads = suc r.reads; bytes = r.bytes + t.bytes })
                      r.reads t.time refl few (filled r.bytes t.bytes small fits) g.status
                      (let k = forward 0 r.reads (omega arith) in omega (arith, late, k))
                      (λ i h d. forward i r.reads h))
              λ other.
                settle-After (record r { reads = suc r.reads }) r.reads quiet_since refl few g.bytes
                  g.status g.since (λ i h d. before_turn r quiet_since g other i h d)

    resume-Result :
        (next : DrainResult → ℕ → Option DrainResult) (last : ℕ)
        → ((r : DrainResult) (quiet_since : ℕ)
            → Going r quiet_since
            → r.reads ≡ suc last
            → Result (next r quiet_since))
        → (o : Outcome) → After last o
        → Result (resume o next)
    resume-Result next last h (done r) a = (r, refl, a)
    resume-Result next last h (more r quiet_since) a = h r quiet_since a.0 a.1

    loop-Result :
        (fuel : ℕ) (r : DrainResult) (quiet_since : ℕ)
        → Going r quiet_since
        → 1025 ≤ r.reads + fuel
        → Result (loop fuel turns (start + 500 * ms) r quiet_since)
    unfolding loop
    loop-Result zero r quiet_since g h = absurd (let k = g.reads in omega (arith, k, h))
    loop-Result (suc fuel) r quiet_since g h =
        if_ind Result (goes_on (start + 500 * ms) (turns r.reads) r)
          (λ e.
            resume-Result (loop fuel turns (start + 500 * ms)) r.reads
              (λ after quiet g1 n. loop-Result fuel after quiet g1 (omega (arith, h, n)))
              (turn (start + 500 * ms) (turns r.reads) r quiet_since)
              (turn-After r quiet_since g e))
          (λ _.
            (r, refl, record { reads = g.reads; bytes = g.bytes; settled = open_quiet r g.status }))

    -- `drain_stopped_rx` ends for every behaviour of the adapter and of a clock that does not go back,
    -- after at most 1024 reads and with at most 65536 bytes counted; it reports quiet only when the
    -- last read timed out before the deadline and no data came in the 40 ms before that.
    pub drain_stopped_rx_ends :
        (r : DrainResult) × (drain_stopped_rx start begin turns ≡ some r) × Ended r
    unfolding drain_stopped_rx
    drain_stopped_rx_ends =
        loop-Result 1025 (record { status = limit; bytes = 0; reads = 0 }) begin
          (record {
            reads = omega arith;
            bytes = omega arith;
            status = refl;
            since = omega arith;
            heard = λ i h. absurd (omega arith);
          })
          (omega arith)
