-- ===== src/Tests/Measurements.antt =====
-- The measurements of the harness at concrete readings.
use vibe_switch.Base.{◌≡◌, refl, true, ltb, List, [], ◌∷◌, map, ◌⊎◌, arith, Returns}
use vibe_switch.Base.Int.{ℤ, pos, negsuc}
use mathlib.Core.List.{Permᴰ}
use vibe_switch.Frame.{new_frame_parser}
use vibe_switch.Harness.Probe.{parse, Read, timed_out, got}
use vibe_switch.Harness.Perf.{
  latency, percentile, throughput, per_ms, send_loop, paced_loop, burst, Round,
}
use vibe_switch.Harness.Perf.Percentiles.{IsAscending, IsPicked, percentile-IsPicked}
use vibe_switch.Harness.Perf.Measured.{
  Delivery, stamped, foreign, idle, read_of, one_way, latency-IsAscending,
}
use vibe_switch.Samples.{codec, mac_a, mac_b}
use vibe_switch.Tests.Tables.{whole_numbers}
use vibe_switch.Tests.Probes.{decoder, decoder-ReadsBack}

abbrev readings : List ℤ
readings = negsuc 1 ∷ pos 3 ∷ pos 3 ∷ pos 8 ∷ []

percentile-IsPicked_example :
    Returns
      (percentile whole_numbers readings (pos 99))
      (λ v. ((readings ≡ []) × (v ≡ pos 0)) ⊎ IsPicked readings v)
percentile-IsPicked_example = percentile-IsPicked whole_numbers readings (pos 99) (ground arith)

abbrev deliveries : List Delivery
deliveries = stamped 0 100 350 ∷ idle ∷ foreign (1 ∷ 2 ∷ []) 400 ∷ stamped 1 200 380 ∷ []

latency-IsAscending_example :
    IsAscending
      (latency decoder (map (read_of codec decoder decoder-ReadsBack mac_a mac_b) deliveries))
    × Permᴰ
        (latency decoder (map (read_of codec decoder decoder-ReadsBack mac_a mac_b) deliveries))
        (one_way deliveries)
unfolding parse new_frame_parser
latency-IsAscending_example =
    latency-IsAscending codec decoder decoder-ReadsBack mac_a mac_b deliveries refl refl
      ((omega arith, omega arith), (tt, (tt, ((omega arith, omega arith), tt))))

abbrev warm : List Read
warm = timed_out ∷ got [] ∷ []

abbrev measured : List Read
measured = got [] ∷ timed_out ∷ got [] ∷ []

-- Two rounds in time, of which the second has its first write refused, and one that is late.
abbrev rounds : List Round
rounds =
    record { since = 20; takes = λ i. true; now = 300 }
    ∷ record { since = 1000100; takes = λ i. ltb 0 i; now = 1000400 }
    ∷ record { since = 2000200; takes = λ i. true; now = 2000300 }
    ∷ []

-- Five writes are taken, of the 7.5 that the target allows.
five_sent : (throughput 64 1500000 3000 warm measured rounds 10 2000500).tx ≡ 5
unfolding throughput send_loop paced_loop burst per_ms
five_sent = refl
