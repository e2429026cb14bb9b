-- ===== src/Gs/Examples.antt =====
-- The theorems on the gs_usb adapter at small packets, chunks and reads.
use roboparty_dexhand.Base.{
  leb, ℕ, zero, suc, ◌+◌, ◌-◌, ◌*◌, ◌≡◌, ◌≤◌, ◌<◌, ◌⊎◌, refl, true, false, some, [], ◌∷◌, ◌++◌,
  length, get_or, take, drop, replicate, arith,
}
use roboparty_dexhand.Protocol.Encode.{Bytes}
use roboparty_dexhand.Gs.Wire.{lengths, at, get32, encode, decode, decode_received, CanFrame, frame}
use roboparty_dexhand.Gs.Wire.Encoding.{encode_standard}
use roboparty_dexhand.Gs.Wire.Decoding.{DataRecord, decode_frame}
use roboparty_dexhand.Gs.Buffer.{
  ReceiveBuffer, empty_buffer, append, next, scan, scan_short, consume,
}
use roboparty_dexhand.Gs.Buffer.Stream.{contents, IsValid, Refused, Added, append_queue}
use roboparty_dexhand.Gs.Buffer.Records.{takes, next_queue}
use roboparty_dexhand.Gs.Timing.{
  Limits, Segments, store, timing, brp_loop, try_brp, t2_loop, try_t2, bytes_of,
}
use roboparty_dexhand.Gs.Timing.Laws.{IsExact, timing-IsExact}
use roboparty_dexhand.Gs.Drain.{Turn, DrainResult, drain_stopped_rx, timeout, data_read, ms}
use roboparty_dexhand.Gs.Drain.Laws.{Ended, drain_stopped_rx_ends}

abbrev payload : Bytes
payload = 1 ∷ 2 ∷ 3 ∷ []

encode_standard_example :
    (p : Bytes) × (encode 3 0 0x501 (some payload) 3 false ≡ some p)
    × (length p ≡ 76)
    × (get32 p 0 ≡ 3)
    × (get32 p 4 ≡ 0x501)
    × (at p 8 < 16)
    × (3 ≤ get_or lengths (at p 8) 0)
    × ((at p 8 ≡ 0) ⊎ (get_or lengths (at p 8 - 1) 0 < 3))
    × (at p 9 ≡ 0)
    × (at p 10 ≡ 6)
    × (take 3 (drop 12 p) ≡ take 3 payload)
encode_standard_example =
    encode_standard 3 0 0x501 payload 3 (omega arith) (omega arith) (omega arith) (omega arith)
      (omega arith)

abbrev no_frame : CanFrame
no_frame = record { can_id = 0; len = 0; fd = true; brs = true; extended = false; bytes = [] }

-- A received record with id 0x481 and two bytes.
abbrev received : Bytes
received = 255 ∷ 255 ∷ 255 ∷ 255 ∷ 0x81 ∷ 4 ∷ 0 ∷ 0 ∷ 2 ∷ 0 ∷ 2 ∷ 0 ∷ 9 ∷ 8 ∷ []

received-frame : (decode received 14 0 no_frame 0).kind ≡ frame
unfolding decode get32 decode_received
received-frame = refl

decode_frame_example : DataRecord received 14 0 (decode received 14 0 no_frame 0)
decode_frame_example = decode_frame received 14 0 no_frame 0 received-frame

empty-IsValid : IsValid empty_buffer
empty-IsValid = record { room = refl; order = omega arith; inside = omega arith }

append_queue_example :
    Refused empty_buffer 14 (append empty_buffer received 14 true)
    ⊎ Added empty_buffer received true (append empty_buffer received 14 true)
append_queue_example = append_queue empty_buffer received 14 true empty-IsValid (omega arith)

-- The record in the buffer.
abbrev filled : ReceiveBuffer
filled = record {
  bytes = received ++ replicate 1086 0;
  begin = 0;
  end = 14;
  last_begin = 0;
  last_size = 0;
  transfer_end = true;
}

filled-IsValid : IsValid filled
filled-IsValid = record { room = refl; order = omega arith; inside = omega arith }

next_queue_example :
    let s = scan received 14 true no_frame 0 in
    let r = next filled no_frame 0 in
    IsValid r.0 × (contents r.0 ≡ drop s.consumed received) × (r.1 ≡ s.result)
next_queue_example = next_queue filled no_frame 0 filled-IsValid

filled-takes : takes (next filled no_frame 0).1.kind ≡ true
unfolding next scan scan_short consume decode get32 decode_received
filled-takes = refl

-- Every read takes 20 ms; the first brings data, the others time out.
abbrev reads_of : ℕ → Turn
reads_of n = record {
  test = n * (20 * ms);
  read = elim n [ zero ↦ data_read | suc k ↦ timeout ];
  bytes = 76;
  time = (n + 1) * (20 * ms);
}

drain_stopped_rx_ends_example :
    (r : DrainResult) × (drain_stopped_rx 0 0 reads_of ≡ some r) × Ended reads_of 0 0 r
drain_stopped_rx_ends_example =
    drain_stopped_rx_ends reads_of 0 0 (λ i j h. omega arith) (omega arith)

-- 80 MHz and 5 Mbit/s: the first prescaler gives 16 quanta.
abbrev usual_limits : Limits
usual_limits = record {
  t1_min = 1;
  t1_max = 16;
  t2_min = 1;
  t2_max = 8;
  sjw_max = 4;
  brp_min = 1;
  brp_max = 2;
  brp_inc = 1;
}

-- The distance of a sample point from 80%, in tenths of quanta, with 100 as infinity.
abbrev distance : ℕ → ℕ → ℕ
distance t1 total = (10 * (1 + t1) - 8 * total) + (8 * total - 10 * (1 + t1))

abbrev chosen : Segments
chosen = record { t1 = 12; t2 = 3; sjw = 3; brp = 1 }

finds : timing 100 distance (λ a b. leb b a) 80000000 5000000 usual_limits ≡ some (store chosen)
unfolding timing brp_loop try_brp t2_loop try_t2 bytes_of
finds = refl

timing-IsExact_example :
    (t : Segments) × (store chosen ≡ store t) × IsExact 80000000 5000000 usual_limits t
timing-IsExact_example =
    timing-IsExact 100 distance (λ a b. leb b a) 80000000 5000000 usual_limits (store chosen) finds
