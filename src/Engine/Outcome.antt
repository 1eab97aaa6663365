-- ===== src/Engine/Outcome.antt =====
-- The counters after one frame (`forward`, internal/goswitch/engine.go).
use vibe_switch.Base.{
  ℕ, ◌+◌, ◌≡◌, refl, ap, ◌∙◌, Bytes, Bool, Option, none, some, List, [], ◌==◌, map, get_elem?,
  length, ◌≤◌, true, false, Bool-cases, arith, Option-cases, inl, inr, if◌then◌else◌,
}
use mathlib.Core.Path.{subst}
use mathlib.Core.Option.{some-injective}
use vibe_switch.Frame.{Gopacket, FrameParser, FrameView, frame_view}
use vibe_switch.Vlan.{classify}
use vibe_switch.Engine.{
  Port, Engine, Write, bump, count_rx, learn_source, forward, drop_frame, flood, route,
  switch_frame, members,
}
use vibe_switch.Engine.Deliver.{tally}
use vibe_switch.Engine.Counters.{
  Happened, nothing, both, if_at, heard, Booked, bump-Booked, count_rx-Booked, tally-Booked,
  Booked-trans, flood_loop-tally, send_known-tally,
}

-- A frame, at the port where it arrived or another.
pub record IsHeard (here : Bool) (size : ℕ) (m : Happened) : Type 0 where
  pub frames : m.frames ≡ (if here then 1 else 0)
  pub bytes : m.bytes ≡ (if here then size else 0)
  pub at_most_once : m.flooded + m.dropped ≤ (if here then 1 else 0)

-- What becomes of a frame behind its reception, at the port where it arrived or another: it is
-- flooded or dropped at most once, and not both.
record IsOutcome (here : Bool) (m : Happened) : Type 0 where
  no_frame : m.frames ≡ 0
  no_bytes : m.bytes ≡ 0
  at_most_once : m.flooded + m.dropped ≤ (if here then 1 else 0)

-- Something of that kind is booked.
abbrev Ends : ℕ → Bool → List Write → Engine → Engine → Type 0
Ends i here ws e e' = (m : Happened) × IsOutcome here m × Booked i m ws e e'

-- The frame counted as flooded, and as dropped.
abbrev one_flooded : Happened
one_flooded = record nothing { flooded = 1 }

abbrev one_dropped : Happened
one_dropped = record nothing { dropped = 1 }

if_at-IsOutcome : (here : Bool) (m : Happened) → IsOutcome true m → IsOutcome here (if_at here m)
if_at-IsOutcome true m h = h
if_at-IsOutcome false m h = omega arith

nothing-IsOutcome : (here : Bool) → IsOutcome here nothing
nothing-IsOutcome true = omega arith
nothing-IsOutcome false = omega arith

both-nothing : (m : Happened) → both m nothing ≡ m
both-nothing m = ground arith

module _ (g : Gopacket) (takes : ℕ → Bytes → Bool) (i : ℕ) where
  by_tally-Booked :
      (e : Engine) (r : Engine × List Write) → r.0 ≡ tally e r.1 → Booked i nothing r.1 e r.0
  by_tally-Booked e r h = rw h (tally-Booked i e r.1)

  route-Ends :
      (o : Option ℕ) (e : Engine) (ingress : ℕ) (fv : FrameView) (vid : ℕ) (r : Engine × List Write)
      → route g takes o e ingress fv vid ≡ some r
      → Ends i (ingress == i) r.1 e r.0
  unfolding route flood
  route-Ends (some out) e ingress fv vid r h = (
    nothing,
    nothing-IsOutcome (ingress == i),
    by_tally-Booked e r (send_known-tally g takes fv vid ingress out e r h),
  )
  route-Ends none e ingress fv vid r h =
      let e' = bump ingress _ e in
      let m = if_at (ingress == i) one_flooded in
      (
        both m nothing,
        rw (both-nothing m) (if_at-IsOutcome (ingress == i) one_flooded (omega arith)),
        Booked-trans i m nothing [] r.1 e e' r.0
            (bump-Booked i ingress one_flooded _ e (λ s. omega arith))
            (by_tally-Booked e' r
              (flood_loop-tally g takes fv vid ingress (members e' vid) e' r h)),
      )

  ports-learn_source :
      (e : Engine) (ingress : ℕ) (fv : FrameView) (vid now : ℕ)
      → (learn_source e ingress fv vid now).ports ≡ e.ports
  unfolding learn_source
  ports-learn_source e ingress fv vid now = ground arith

  switch_frame-Ends :
      (e : Engine) (ingress : ℕ) (fv : FrameView) (vid now : ℕ) (r : Engine × List Write)
      → switch_frame g takes e ingress fv vid now ≡ some r
      → Ends i (ingress == i) r.1 e r.0
  unfolding switch_frame
  switch_frame-Ends e ingress fv vid now r h =
      let e' = learn_source e ingress fv vid now in
      let (m, small, b) = route-Ends _ e' ingress fv vid r h in
      (
        m,
        small,
        λ s at. b s (
            ap (λ ps. get_elem? (map (λ (p : Port). p.stats) ps) i)
              (ports-learn_source e ingress fv vid now)
            ∙ at),
      )

  drop_frame-Ends :
      (e : Engine) (ingress : ℕ) (r : Engine × List Write)
      → drop_frame e ingress ≡ some r
      → Ends i (ingress == i) r.1 e r.0
  drop_frame-Ends e ingress r h =
      let same : _ ≡ r = some-injective _ _ h in
      (
        if_at (ingress == i) one_dropped,
        if_at-IsOutcome (ingress == i) one_dropped (omega arith),
        subst (λ (q : Engine × List Write). Booked i (if_at (ingress == i) one_dropped) q.1 e q.0)
            same (bump-Booked i ingress one_dropped _ e (λ s. omega arith)),
      )

  -- What follows the reception.
  after_count :
      (e : Engine) (ingress : ℕ) (frame : Bytes) (fp : FrameParser) (r : Engine × List Write)
      → Ends i (ingress == i) r.1 (count_rx e ingress frame fp) r.0
      → (m : Happened) × IsHeard (ingress == i) (length frame) m × Booked i m r.1 e r.0
  after_count e ingress frame fp r (m, small, b) = (
    both (if_at (ingress == i) (heard frame)) m,
    elim (Bool-cases (ingress == i)) [
      | inl hit ↦ rw hit (record {
        frames = omega (arith, small.no_frame);
        bytes = omega (arith, small.no_bytes);
        at_most_once = omega (arith, rw hit at small.at_most_once);
      })
      | inr miss ↦ rw miss (record {
        frames = omega (arith, small.no_frame);
        bytes = omega (arith, small.no_bytes);
        at_most_once = omega (arith, rw miss at small.at_most_once);
      })
    ],
    Booked-trans i (if_at (ingress == i) (heard frame)) m [] r.1 e (count_rx e ingress frame fp) r.0
        (count_rx-Booked i ingress e frame fp) b,
  )

  -- Whatever becomes of a frame, if `forward` returns, then for each port, modulo 2^64: it has
  -- counted one received frame more and its bytes if it is the ingress port and nothing if it is
  -- not, one sent frame more and its bytes for each write to it that was taken, and one transmit
  -- drop more for each that was refused; and the ingress port has counted the frame at most once
  -- as flooded or dropped, and other ports not.
  pub forward-Booked :
      (e : Engine) (p : Port) (frame : Bytes) (now : ℕ) (r : Engine × List Write)
      → forward g takes e p frame now ≡ some r
      → (m : Happened) × IsHeard (p.idx == i) (length frame) m × Booked i m r.1 e r.0
  unfolding forward
  forward-Booked e p frame now r h =
      let fp = g.decode_layers frame p.parser in
      let e' = count_rx e p.idx frame fp in
      after_count e p.idx frame fp r (elim (Option-cases (frame_view fp frame)) [
        | inl miss ↦ drop_frame-Ends e' p.idx r (rw (← h, miss, forward) refl)
        | inr (fv, seen) ↦ elim (Option-cases (classify p.wiring fv.has_tag fv.tag_vid)) [
          | inl miss ↦ drop_frame-Ends e' p.idx r (rw (← h, seen, miss, forward) refl)
          | inr (vid, put) ↦
              switch_frame-Ends e' p.idx fv vid now r (rw (← h, seen, put, forward) refl)
        ]
      ])
