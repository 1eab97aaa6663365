-- ===== src/Harness/Perf/Throughput.antt =====
-- `counter`, `ThroughputResult` and the loops of `Throughput` (internal/harness/perf.go). What the
-- socket takes and delivers, and the readings of the clock, in nanoseconds since the start, are
-- lists.
use vibe_switch.Base.{
  ℕ, zero, suc, ◌+◌, ◌-◌, ◌/◌, Bytes, Bool, List, [], ◌∷◌, ◌++◌, ◌==◌, ltb, leb, replicate,
  if◌then◌else◌,
}
use vibe_switch.Base.Int.{sub_ℕ}
use vibe_switch.Base.Float.{Floats}
use vibe_switch.Frame.{Gopacket}
use vibe_switch.Harness.Probe.{build_frame, Read, timed_out, failed, got}

-- `counter.loop`, until an error or until `done` is closed.
unfoldable pub counter_loop : List Read → ℕ → ℕ
counter_loop [] n = n
counter_loop (timed_out ∷ reads) n = counter_loop reads n
counter_loop (failed ∷ reads) n = n
counter_loop (got b ∷ reads) n = counter_loop reads (n + 1)

pub record ThroughputResult : Type 0 where
  pub frame_size : ℕ
  pub tx : ℕ
  pub rx : ℕ
  pub elapsed : ℕ

-- `perMs`, from a target above 0.
unfoldable pub per_ms : ℕ → ℕ
per_ms target = if ltb (target / 1000) 1 then 1 else target / 1000

-- One round of the measured loop: what `time.Since(start)` reads, whether the writes of the round
-- were taken, and the time since the start, at which `time.Until` is called if the loop is paced.
pub record Round : Type 0 where
  pub since : ℕ
  pub takes : ℕ → Bool
  pub now : ℕ

-- The writes of one tick, from the `i`-th on.
unfoldable pub burst : (ℕ → Bool) → ℕ → ℕ → ℕ → ℕ
burst takes zero i tx = tx
burst takes (suc n) i tx = burst takes n (i + 1) (if takes i then tx + 1 else tx)

-- The measured loop at full speed: a write in each round.
unfoldable pub full_loop : ℕ → List Round → ℕ → ℕ
full_loop d [] tx = tx
full_loop d (r ∷ rounds) tx =
    let rest = full_loop d rounds (burst r.takes 1 0 tx) in if ltb r.since d then rest else tx

-- How long the loop sleeps until the tick: not at all if it has passed.
unfoldable pub pause : ℕ → ℕ → ℕ
pause tick now = if ltb now tick then tick - now else 0

-- The measured loop if it is paced, from a tick on: a burst in each round, and a sleep until the
-- tick that is a millisecond later. The frames that were taken, and the sleeps.
unfoldable pub paced_loop : ℕ → ℕ → List Round → ℕ → ℕ → ℕ × List ℕ
paced_loop d writes [] tick tx = (tx, [])
paced_loop d writes (r ∷ rounds) tick tx =
    let next = tick + 1000000 in
    let rest = paced_loop d writes rounds next (burst r.takes writes 0 tx) in
    if ltb r.since d then (rest.0, pause next r.now ∷ rest.1) else (tx, [])

-- The measured loop: the frames that were taken, and the sleeps. At full speed there are none.
unfoldable pub send_loop : ℕ → ℕ → List Round → ℕ → ℕ × List ℕ
send_loop d target rounds tick =
    if leb target 0 then (full_loop d rounds 0, []) else paced_loop d (per_ms target) rounds tick 0

module _ (g : Gopacket) where
  -- The frame that `Throughput` sends.
  unfoldable pub throughput_frame : Bytes → Bytes → ℕ → Bytes
  throughput_frame src dst frame_size = build_frame g src dst (replicate 64 0) frame_size

-- `Throughput`, after the warm-up: the counter's reads before and after its first snapshot, the
-- rounds of the sender, its first tick, and the time that they took.
unfoldable pub throughput :
    ℕ → ℕ → ℕ → List Read → List Read → List Round → ℕ → ℕ → ThroughputResult
throughput frame_size d target warm measured rounds tick elapsed = record {
  frame_size = frame_size;
  tx = (send_loop d target rounds tick).0;
  rx = counter_loop (warm ++ measured) 0 - counter_loop warm 0;
  elapsed = elapsed;
}

module _ (fl : Floats) where
  open fl use {Float, of_uint, of_int, div, mul}

  -- `Elapsed.Seconds()`
  unfoldable pub elapsed_seconds : ThroughputResult → Float
  elapsed_seconds r = div (of_uint r.elapsed) (of_uint 1000000000)

  unfoldable pub pps : ThroughputResult → Float
  unfolding elapsed_seconds
  pps r = div (of_uint r.rx) (elapsed_seconds r)

  unfoldable pub mbps : ThroughputResult → Float
  unfolding elapsed_seconds
  mbps r =
      div (div (mul (mul (of_uint r.rx) (of_uint r.frame_size)) (of_uint 8)) (of_uint 1000000))
        (elapsed_seconds r)

  unfoldable pub loss_pct : ThroughputResult → Float
  loss_pct r =
      if r.tx == 0
      then of_uint 0
      else mul (div (of_int (sub_ℕ r.tx r.rx)) (of_uint r.tx)) (of_uint 100)
