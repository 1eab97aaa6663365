-- ===== src/Harness/Perf/Measured.antt =====
-- `Latency` from end to end (internal/harness/perf.go): what is stamped into the test frames is what
-- the receiver subtracts.
use vibe_switch.Base.{
  ℕ, ◌%◌, ◌^◌, ◌<◌, ◌≡◌, ◌⊎◌, inl, inr, Bool-cases, refl, ap, ◌∙◌, Bytes, true, Option, none, some,
  List, [], ◌∷◌, ◌++◌, length, map, All, replicate, arith, Returns,
}
use vibe_switch.Base.Int.{ℤ, sub_ℕ}
use mathlib.Core.List.{Permᴰ}
use vibe_switch.Frame.{Gopacket}
use vibe_switch.Harness.Probe.{Decoder, build_frame, FrameInfo, is_test, parse, magic}
use vibe_switch.Harness.Probe.RoundTrip.{ReadsBack, IsRead, parse-serialize}
use vibe_switch.Harness.Probe.Captured.{IsForeign, is_test-IsForeign}
use vibe_switch.Harness.Perf.Stamps.{put_uint64, uint64_at, regroup_uint64}
use vibe_switch.Harness.Perf.Latency.{
  TimedRead, timed_out, got, add_latency, receive_stamped, latency,
}
use vibe_switch.Harness.Perf.Percentiles.{IsAscending, sort_latencies-IsAscending}

-- What the receiver meets: a frame of the sender, with its number and the two times; another frame;
-- or an idle cycle.
pub data Delivery : Type 0 where
  stamped : ℕ → ℕ → ℕ → Delivery
  foreign : Bytes → ℕ → Delivery
  idle : Delivery

-- The body of a stamped frame.
abbrev pub stamp : ℕ → ℕ → Bytes
stamp i sent = put_uint64 (i % 2 ^ 64) ++ put_uint64 sent

-- Not a stamped frame: not a test frame, or one whose payload ends before its stamp does.
abbrev pub IsUnstamped : Option FrameInfo → Type 0
IsUnstamped none = Unit
IsUnstamped (some fi) = IsForeign (some fi) ⊎ (length fi.payload < 20)

-- Times are below 2^63, and the other frames are not stamped.
abbrev pub IsTimely : Decoder → Delivery → Type 0
IsTimely d (stamped i sent recv) = (sent < 2 ^ 63) × (recv < 2 ^ 63)
IsTimely d (foreign b recv) = IsUnstamped (parse d b)
IsTimely d idle = Unit {0}

-- The one-way latencies of the stamped frames.
abbrev pub one_way : List Delivery → List ℤ
one_way [] = []
one_way (stamped i sent recv ∷ ds) = sub_ℕ recv sent ∷ one_way ds
one_way (foreign b recv ∷ ds) = one_way ds
one_way (idle ∷ ds) = one_way ds

-- The stamp is read back from behind the marker.
stamp_read :
    (fi : FrameInfo) (i sent recv pad : ℕ) (lat : List ℤ)
    → sent < 2 ^ 63
    → is_test fi ≡ true
    → fi.payload ≡ magic ++ stamp i sent ++ replicate pad 0
    → add_latency (some fi) recv lat ≡ sub_ℕ recv sent ∷ lat
unfolding put_uint64 uint64_at
stamp_read fi i sent recv pad lat small test body =
    rw (test, body) (ground (arith, regroup_uint64 sent))

stamped_read :
    (o : Option FrameInfo) (src dst : Bytes) (i sent recv : ℕ) (lat : List ℤ)
    → sent < 2 ^ 63
    → Returns o (IsRead src dst 0 (stamp i sent))
    → add_latency o recv lat ≡ sub_ℕ recv sent ∷ lat
stamped_read none src dst i sent recv lat small h = elim h [ ]
stamped_read (some fi) src dst i sent recv lat small h =
    stamp_read fi i sent recv h.marked.0 lat small h.test h.marked.1

foreign_read :
    (o : Option FrameInfo) (recv : ℕ) (lat : List ℤ) → IsUnstamped o → add_latency o recv lat ≡ lat
foreign_read none recv lat h = refl
foreign_read (some fi) recv lat (inr short) = ground arith
foreign_read (some fi) recv lat (inl other) = elim (Bool-cases (is_test fi)) [
  | inr dropped ↦ rw dropped refl
  | inl kept ↦ absurd (is_test-IsForeign fi kept other)
]

module _ (g : Gopacket) (d : Decoder) (law : ReadsBack g d) (src dst : Bytes) where
  abbrev pub read_of : Delivery → TimedRead
  read_of (stamped i sent recv) = got (build_frame g src dst (stamp i sent) 0) recv
  read_of (foreign b recv) = got b recv
  read_of idle = timed_out

  receive_stamped_lem :
      (ds : List Delivery)
      → length src ≡ 6
      → length dst ≡ 6
      → All (IsTimely d) ds
      → receive_stamped d (map read_of ds) ≡ one_way ds
  unfolding receive_stamped build_frame
  receive_stamped_lem [] s t h = refl
  receive_stamped_lem (stamped i sent recv ∷ ds) s t h =
      stamped_read _ src dst i sent recv (receive_stamped d (map read_of ds)) h.0.0
        (parse-serialize g d law src dst 0 (stamp i sent) 0 s t (omega arith))
      ∙ ap (◌∷◌ (sub_ℕ recv sent)) (receive_stamped_lem ds s t h.1)
  receive_stamped_lem (foreign b recv ∷ ds) s t h =
      foreign_read (parse d b) recv (receive_stamped d (map read_of ds)) h.0
      ∙ receive_stamped_lem ds s t h.1
  receive_stamped_lem (idle ∷ ds) s t h = receive_stamped_lem ds s t h.1

  -- With a decoder that reads what the serializer writes, and times below 2^63: of whatever mixture
  -- of stamped frames, other frames and idle cycles the receiver meets, `Latency` returns the time
  -- of arrival less the time of sending of each stamped frame, once each, in ascending order.
  pub latency-IsAscending :
      (ds : List Delivery)
      → length src ≡ 6
      → length dst ≡ 6
      → All (IsTimely d) ds
      → IsAscending (latency d (map read_of ds)) × Permᴰ (latency d (map read_of ds)) (one_way ds)
  unfolding latency
  latency-IsAscending ds s t h =
      rw (receive_stamped_lem ds s t h) (sort_latencies-IsAscending (one_way ds))
