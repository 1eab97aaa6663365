-- ===== src/Harness/Perf/Pace.antt =====
-- The pace of the measured loop of `Throughput` (internal/harness/perf.go): what its rounds send and
-- how many of them begin in a time.
use mathlib.Core.Path.{subst}
use vibe_switch.Base.{
  ℕ, zero, suc, true, ◌+◌, ◌*◌, ◌≤◌, ◌<◌, ◌≡◌, ◌⊎◌, refl, Bool, List, [], ◌∷◌, ltb, arith,
  Bool-cases, inl, inr, if◌then◌else◌,
}
use vibe_switch.Harness.Perf.Throughput.{Round, burst, pause, paced_loop}

-- Rounds that begin in time, up to the first that does not.
abbrev pub rounds_in_time : ℕ → List Round → ℕ
rounds_in_time d [] = 0
rounds_in_time d (r ∷ rounds) = if ltb r.since d then 1 + rounds_in_time d rounds else 0

-- The writes that a socket takes, from the `i`-th on.
abbrev pub taken : (ℕ → Bool) → ℕ → ℕ → ℕ
taken takes i zero = 0
taken takes i (suc n) = (if takes i then 1 else 0) + taken takes (i + 1) n

-- The writes that are taken in the rounds that begin in time.
abbrev pub taken_in_time : ℕ → ℕ → List Round → ℕ
taken_in_time d n [] = 0
taken_in_time d n (r ∷ rounds) =
    if ltb r.since d then taken r.takes 0 n + taken_in_time d n rounds else 0

burst_lem : (takes : ℕ → Bool) (n i tx : ℕ) → burst takes n i tx ≡ tx + taken takes i n
unfolding burst
burst_lem takes zero i tx = omega arith
burst_lem takes (suc n) i tx =
    ground (arith, burst_lem takes n (i + 1) (if takes i then tx + 1 else tx))

taken_bound : (takes : ℕ → Bool) (i n : ℕ) → taken takes i n ≤ n
taken_bound takes i zero = omega arith
taken_bound takes i (suc n) = ground (arith, taken_bound takes (i + 1) n)

one_more : (k w : ℕ) → (1 + k) * w ≡ w + k * w
one_more k w = grind arith

pub taken_in_time_bound :
    (d n : ℕ) (rounds : List Round) → taken_in_time d n rounds ≤ rounds_in_time d rounds * n
taken_in_time_bound d n [] = omega arith
taken_in_time_bound d n (r ∷ rounds) = ground (
  arith,
  taken_bound r.takes 0 n,
  taken_in_time_bound d n rounds,
  one_more (rounds_in_time d rounds) n,
)

pub paced_loop_lem :
    (d n : ℕ) (rounds : List Round) (tick tx : ℕ)
    → (paced_loop d n rounds tick tx).0 ≡ tx + taken_in_time d n rounds
unfolding paced_loop
paced_loop_lem d n [] tick tx = omega arith
paced_loop_lem d n (r ∷ rounds) tick tx = ground (
  arith,
  burst_lem r.takes n 0 tx,
  paced_loop_lem d n rounds (tick + 1000000) (burst r.takes n 0 tx),
)

-- The clock does not go back, and a sleep is not shorter than it was asked to be.
abbrev pub IsClock : List Round → List ℕ → Type 0
IsClock [] sleeps = Unit {0}
IsClock (r ∷ rounds) [] = Unit {0}
IsClock (r ∷ []) (sleep ∷ sleeps) = r.since ≤ r.now
IsClock (r ∷ r' ∷ rounds) (sleep ∷ sleeps) =
    (r.since ≤ r.now) × (r.now + sleep ≤ r'.since) × IsClock (r' ∷ rounds) sleeps

-- The first tick is read before the first round.
abbrev pub Begins : ℕ → List Round → Type 0
Begins tick [] = Unit {0}
Begins tick (r ∷ rounds) = tick ≤ r.since

slept : (tick now since : ℕ) → now + pause tick now ≤ since → tick ≤ since
unfolding pause
slept tick now since h = ground arith

paced_sleeps :
    (d n : ℕ) (r : Round) (rounds : List Round) (tick tx : ℕ)
    → ltb r.since d ≡ true
    → (paced_loop d n (r ∷ rounds) tick tx).1
      ≡ pause (tick + 1000000) r.now
        ∷ (paced_loop d n rounds (tick + 1000000) (burst r.takes n 0 tx)).1
unfolding paced_loop
paced_sleeps d n r rounds tick tx in_time = rw in_time refl

one_round :
    (d : ℕ) (r : Round) (rounds : List Round) (tick : ℕ)
    → ltb r.since d ≡ true
    → tick ≤ r.since
    → (rounds_in_time d rounds ≡ 0)
      ⊎ (rounds_in_time d rounds * 1000000 + (tick + 1000000) < d + 1000000)
    → rounds_in_time d (r ∷ rounds) * 1000000 + tick < d + 1000000
one_round d r rounds tick in_time b (inl none_later) = rw in_time (ground (arith, none_later))
one_round d r rounds tick in_time b (inr later) = rw in_time (ground (arith, later))

-- Of a paced loop one round begins in a millisecond.
pub rounds_bound :
    (d n : ℕ) (rounds : List Round) (tick tx : ℕ)
    → Begins tick rounds
    → IsClock rounds (paced_loop d n rounds tick tx).1
    → (rounds_in_time d rounds ≡ 0) ⊎ (rounds_in_time d rounds * 1000000 + tick < d + 1000000)
rounds_bound d n [] tick tx b c = inl refl
rounds_bound d n (r ∷ []) tick tx b c = elim (Bool-cases (ltb r.since d)) [
  | inr late ↦ inl (rw late refl)
  | inl in_time ↦ inr (ground arith)
]
rounds_bound d n (r ∷ r' ∷ rounds) tick tx b c = elim (Bool-cases (ltb r.since d)) [
  | inr late ↦ inl (rw late refl)
  | inl in_time ↦
      let c' =
        subst (IsClock (r ∷ r' ∷ rounds)) (paced_sleeps d n r (r' ∷ rounds) tick tx in_time) c in
      let later =
        rounds_bound d n (r' ∷ rounds) (tick + 1000000) (burst r.takes n 0 tx)
          (slept (tick + 1000000) r.now r'.since c'.1) c'.2 in
      inr (one_round d r (r' ∷ rounds) tick in_time b later)
]
