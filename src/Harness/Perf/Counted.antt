-- ===== src/Harness/Perf/Counted.antt =====
-- What the counts of `Throughput` (internal/harness/perf.go) are counts of.
use vibe_switch.Base.{ℕ, ◌+◌, List, [], ◌∷◌, ltb, if◌then◌else◌}
use vibe_switch.Harness.Probe.{Read, timed_out, failed, got}

-- The frames among the reads; none of them is an error.
abbrev pub frames : List Read → ℕ
frames [] = 0
frames (timed_out ∷ reads) = frames reads
frames (failed ∷ reads) = frames reads
frames (got b ∷ reads) = 1 + frames reads

abbrev pub HasNoError : List Read → Type 0
HasNoError [] = Unit {0}
HasNoError (timed_out ∷ reads) = HasNoError reads
HasNoError (failed ∷ reads) = ⊥
HasNoError (got b ∷ reads) = HasNoError reads

-- What a paced loop is capped by.
abbrev pub cap_of : ℕ → ℕ
cap_of target = if ltb target 1000 then 1000 else target
