-- ===== src/Harness/Perf/Percentiles.antt =====
-- The latencies that `Latency` returns, and what `Percentile` picks (internal/harness/perf.go).
use vibe_switch.Base.{
  ℕ, zero, suc, ◌-◌, ◌⊎◌, ◌<◌, ◌≡◌, refl, false, some, List, [], ◌∷◌, length, get_elem?, arith,
  Bool-cases, inl, inr, Returns,
}
use vibe_switch.Base.Int.{ℤ, pos, negsuc, ltb_ℤ}
use vibe_switch.Base.Float.{Floats}
use mathlib.Core.List.Permᴰ as Permᴰ
use mathlib.Core.List.{Permᴰ}
use vibe_switch.Harness.Perf.Latency.{place_latency, sort_latencies, clamp_index, percentile}

-- Ascending.
abbrev pub IsAscending : List ℤ → Type 0
IsAscending [] = Unit {0}
IsAscending (a ∷ []) = Unit {0}
IsAscending (a ∷ b ∷ lat) = (ltb_ℤ b a ≡ false) × IsAscending (b ∷ lat)

place_latency-IsAscending :
    (a : ℤ) (lat : List ℤ) → IsAscending lat → IsAscending (place_latency a lat)
unfolding place_latency
place_latency-IsAscending a [] h = tt
place_latency-IsAscending a (b ∷ []) h = ground arith
place_latency-IsAscending a (b ∷ c ∷ lat) h =
    ground (arith, place_latency-IsAscending a (c ∷ lat) h.1)

place_latency-perm : (a : ℤ) (lat : List ℤ) → Permᴰ (place_latency a lat) (a ∷ lat)
unfolding place_latency
place_latency-perm a [] = Permᴰ.refl _
place_latency-perm a (b ∷ lat) = elim (Bool-cases (ltb_ℤ b a)) [
  | inl below ↦
      rw below (Permᴰ.trans (Permᴰ.cons refl (place_latency-perm a lat)) (Permᴰ.swap refl refl))
  | inr above ↦ rw above (Permᴰ.refl _)
]

pub sort_latencies-IsAscending :
    (lat : List ℤ) → IsAscending (sort_latencies lat) × Permᴰ (sort_latencies lat) lat
unfolding sort_latencies
sort_latencies-IsAscending [] = (tt, Permᴰ.nil)
sort_latencies-IsAscending (a ∷ lat) =
    let (ordered, same) = sort_latencies-IsAscending lat in
    (
      place_latency-IsAscending a (sort_latencies lat) ordered,
      Permᴰ.trans (place_latency-perm a (sort_latencies lat)) (Permᴰ.cons refl same),
    )

-- The element at an index that exists.
get_elem?-some : (lat : List ℤ) (i : ℕ) → i < length lat → (a : ℤ) × (get_elem? lat i ≡ some a)
get_elem?-some [] i h = absurd (omega arith)
get_elem?-some (a ∷ lat) zero h = (a, refl)
get_elem?-some (a ∷ lat) (suc i) h = get_elem?-some lat i (omega arith)

clamp_index-lt : (i : ℤ) (size : ℕ) → clamp_index i (suc size) < suc size
unfolding clamp_index
clamp_index-lt (pos i) size = ground arith
clamp_index-lt (negsuc n) size = omega arith

-- In an ascending list an element lies between the first and the last.
least :
    (a : ℤ) (lat : List ℤ) (i : ℕ) (v : ℤ)
    → IsAscending (a ∷ lat)
    → get_elem? (a ∷ lat) i ≡ some v
    → ltb_ℤ v a ≡ false
least a lat zero v h at = ground arith
least a [] (suc i) v h at = cc
least a (b ∷ lat) (suc i) v h at = ground (arith, least b lat i v h.1 at)

greatest :
    (lat : List ℤ) (i last : ℕ) (v w : ℤ)
    → IsAscending lat
    → suc last ≡ length lat
    → get_elem? lat i ≡ some v
    → get_elem? lat last ≡ some w
    → ltb_ℤ w v ≡ false
greatest [] i last v w h e at end = cc
greatest (a ∷ lat) zero last v w h e at end =
    let same : a ≡ v = ground arith in rw (← same) (least a lat last w h end)
greatest (a ∷ []) (suc i) last v w h e at end = cc
greatest (a ∷ b ∷ lat) (suc i) zero v w h e at end = absurd (omega arith)
greatest (a ∷ b ∷ lat) (suc i) (suc last) v w h e at end =
    greatest (b ∷ lat) i last v w h.1 (omega arith) at end

-- A latency of the list, neither below its first nor above its last.
pub record IsPicked (lat : List ℤ) (v : ℤ) : Type 0 where
  pub place : (i : ℕ) × (get_elem? lat i ≡ some v)
  pub low : (a : ℤ) → get_elem? lat 0 ≡ some a → ltb_ℤ v a ≡ false
  pub high : (w : ℤ) → get_elem? lat (length lat - 1) ≡ some w → ltb_ℤ w v ≡ false

-- Whatever the floating-point arithmetic gives, and for every `p`, `Percentile` of an ascending
-- slice that is not empty does not run out of range, and picks a value of the slice that lies
-- between its first and its last; of an empty slice it gives 0.
pub percentile-IsPicked :
    (fl : Floats) (lat : List ℤ) (p : fl.Float)
    → IsAscending lat
    → Returns (percentile fl lat p) (λ v. ((lat ≡ []) × (v ≡ pos 0)) ⊎ IsPicked lat v)
unfolding percentile
percentile-IsPicked fl [] p h = inl (refl, refl)
percentile-IsPicked fl (a ∷ lat) p h =
    let i =
      clamp_index
        (fl.to_int (fl.mul (fl.div p (fl.of_uint 100)) (fl.of_uint (suc (length lat) - 1))))
        (suc (length lat)) in
    let (v, at) = get_elem?-some (a ∷ lat) i (clamp_index-lt _ (length lat)) in
    rw at (
      inr (record {
        place = (i, at);
        low = λ b first. let same : a ≡ b = ground arith in rw (← same) (least a lat i v h at);
        high = λ w end. greatest (a ∷ lat) i (suc (length lat) - 1) v w h (omega arith) at end;
      }))
