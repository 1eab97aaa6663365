-- ===== src/Harness/Perf/Latency.antt =====
-- `Latency` and `Percentile` (internal/harness/perf.go). Times are readings of `nowNanos`, below
-- 2^63; the readings and what the socket delivers are lists.
use vibe_switch.Base.{
  ℕ, suc, ◌+◌, ◌-◌, ◌%◌, ◌^◌, Bytes, not, ◌||◌, Option, none, some, List, [], ◌∷◌, ◌++◌, leb,
  length, get_elem?, if◌then◌else◌,
}
use vibe_switch.Base.Int.{ℤ, pos, negsuc, sub_ℕ, ltb_ℤ, of_bits64}
use vibe_switch.Base.Float.{Floats}
use vibe_switch.Frame.{Gopacket}
use vibe_switch.Harness.Probe.{Decoder, build_frame, FrameInfo, is_test, parse}
use vibe_switch.Harness.Perf.Stamps.{put_uint64, uint64_at}

-- The loop of the sender, over the readings of the clock: the frames that it hands to the socket.
unfoldable pub send_stamped : Gopacket → Bytes → Bytes → ℕ → List ℕ → List Bytes
send_stamped g src dst i [] = []
send_stamped g src dst i (now ∷ clock) =
    build_frame g src dst (put_uint64 (i % 2 ^ 64) ++ put_uint64 now) 0
    ∷ send_stamped g src dst (i + 1) clock

-- What a read of the receiver returns, with the time at which a frame is taken.
pub data TimedRead : Type 0 where
  timed_out failed : TimedRead
  got : Bytes → ℕ → TimedRead

-- `recv-sent`, in `int64`.
abbrev pub sub_int64 : ℕ → ℤ → ℤ
sub_int64 recv (pos sent) = sub_ℕ recv sent
sub_int64 recv (negsuc n) = of_bits64 ((recv + suc n) % 2 ^ 64)

-- What a frame adds to the latencies, in front of those of the later frames.
abbrev pub add_latency : Option FrameInfo → ℕ → List ℤ → List ℤ
add_latency none recv lat = lat
add_latency (some fi) recv lat =
    if not (is_test fi) || not (leb 20 (length fi.payload))
    then lat
    else sub_int64 recv (of_bits64 (uint64_at fi.payload 12)) ∷ lat

-- The loop of the receiver, until an error or until `done` is closed.
unfoldable pub receive_stamped : Decoder → List TimedRead → List ℤ
receive_stamped d [] = []
receive_stamped d (timed_out ∷ reads) = receive_stamped d reads
receive_stamped d (failed ∷ reads) = []
receive_stamped d (got b recv ∷ reads) = add_latency (parse d b) recv (receive_stamped d reads)

unfoldable pub place_latency : ℤ → List ℤ → List ℤ
place_latency a [] = a ∷ []
place_latency a (b ∷ bs) =
    let rest = place_latency a bs in if ltb_ℤ b a then b ∷ rest else a ∷ b ∷ bs

-- `sort.Slice`, as an insertion sort.
unfoldable pub sort_latencies : List ℤ → List ℤ
sort_latencies [] = []
sort_latencies (a ∷ lat) = place_latency a (sort_latencies lat)

-- What `Latency` returns of what its receiver read.
unfoldable pub latency : Decoder → List TimedRead → List ℤ
latency d reads = sort_latencies (receive_stamped d reads)

-- The bounds that `Percentile` puts on the index, for a slice that is not empty.
unfoldable pub clamp_index : ℤ → ℕ → ℕ
clamp_index (negsuc n) size = 0
clamp_index (pos i) size = if leb size i then size - 1 else i

module _ (fl : Floats) where
  open fl use {Float, of_uint, div, mul, to_int}

  -- `Percentile`; `none` is an index out of range.
  unfoldable pub percentile : List ℤ → Float → Option ℤ
  unfolding clamp_index
  percentile [] p = some (pos 0)
  percentile (a ∷ lat) p =
      let n = length (a ∷ lat) in
      get_elem? (a ∷ lat) (clamp_index (to_int (mul (div p (of_uint 100)) (of_uint (n - 1)))) n)
