-- ===== src/Engine/Switching.antt =====
-- What `forward` (internal/goswitch/engine.go) does with a frame: the specification of a learning
-- VLAN switch, and its consequences for one frame.
use vibe_switch.Base.{
  ℕ, ◌≡◌, ◌≢◌, refl, ◌∙◌, Bytes, Bool, none, some, [], get_elem?, arith, Option-cases, inl, inr,
  Returns,
}
use vibe_switch.Vlan.{classify}
use vibe_switch.Vlan.Classify.{classify-carries}
use vibe_switch.Frame.{Gopacket, FrameView, frame_view}
use vibe_switch.Engine.{Port, Engine, Write, wirings, count_rx, forward, bump}
use vibe_switch.Engine.Wired.{IsWired, IsMember, wiring_at, wirings-bump}
use vibe_switch.Engine.Step.{
  Switched, classified, fdb_after, destination, deliveries_to, switch_frame-Switched,
  count_rx-IsWired, wirings-count_rx, bump-IsWired,
}

classified-parts :
    (g : Gopacket) (p : Port) (frame : Bytes) (fv : FrameView) (vid : ℕ)
    → classified g p frame ≡ some (fv, vid)
    → (frame_view (g.decode_layers frame p.parser) frame ≡ some fv)
      × (classify p.wiring fv.has_tag fv.tag_vid ≡ some vid)
classified-parts g p frame fv vid h =
    elim (Option-cases (frame_view (g.decode_layers frame p.parser) frame)) [
      | inl miss ↦ absurd (ground arith)
      | inr (fv', seen) ↦ elim (Option-cases (classify p.wiring fv'.has_tag fv'.tag_vid)) [
        | inl miss ↦ absurd (ground arith)
        | inr (vid', put) ↦ ground arith
      ]
    ]

-- The port is the engine's, at its own index.
abbrev pub Has : Engine → Port → Type 0
Has e p = get_elem? e.ports p.idx ≡ some p

pub ingress-IsMember :
    (g : Gopacket) (e : Engine) (p : Port) (frame : Bytes) (fv : FrameView) (vid : ℕ)
    → Has e p
    → classified g p frame ≡ some (fv, vid)
    → IsMember (wirings e) vid p.idx
ingress-IsMember g e p frame fv vid at h = (
  p.wiring,
  wiring_at e.ports p.idx at,
  classify-carries p.wiring fv.has_tag fv.tag_vid (classified-parts g p frame fv vid h).1,
)

module _ (g : Gopacket) (takes : ℕ → Bytes → Bool) where
  -- In a wired engine a frame at one of its ports that is classified into a VLAN does not panic,
  -- and is switched: the source address is learned at the ingress port unless it is a group
  -- address; the writes are one to the port that the table then gives for a unicast destination,
  -- none if that is the ingress port, and otherwise one to each other port that carries the VLAN,
  -- in order; the ports stay wired as they were, and the engine's invariant holds again.
  pub forward-Switched :
      (e : Engine) (p : Port) (frame : Bytes) (now : ℕ) (fv : FrameView) (vid : ℕ)
      → IsWired e
      → Has e p
      → classified g p frame ≡ some (fv, vid)
      → let fdb = fdb_after e.fdb p.idx fv vid now in
        Returns (forward g takes e p frame now) (
          Switched e fdb
            (deliveries_to g takes (destination fdb fv vid now) (wirings e) p.idx fv vid))
  unfolding forward count_rx
  forward-Switched e p frame now fv vid v at h =
      let (seen, put) = classified-parts g p frame fv vid h in
      let fp = g.decode_layers frame p.parser in
      let e' = count_rx e p.idx frame fp in
      rw (seen, put, forward)
        (switch_frame-Switched g takes e e' p.idx fv vid now (count_rx-IsWired e p.idx frame fp v)
          (wirings-count_rx e p.idx frame fp)
          (rw (wirings-count_rx e p.idx frame fp) (ingress-IsMember g e p frame fv vid at h)))

  -- In a wired engine a frame that is not classified is dropped without a panic: nothing is written
  -- or learned, the ports stay wired as they were, and the engine's invariant holds again.
  pub forward_drops :
      (e : Engine) (p : Port) (frame : Bytes) (now : ℕ)
      → IsWired e
      → classified g p frame ≡ none
      → Returns (forward g takes e p frame now) (Switched e e.fdb [])
  unfolding forward count_rx
  forward_drops e p frame now v h =
      let e' = count_rx e p.idx frame (g.decode_layers frame p.parser) in
      let dropped : Switched e e.fdb [] (bump p.idx _ e', []) = record {
        writes = refl;
        wired = bump-IsWired p.idx _ e' (count_rx-IsWired e p.idx frame _ v);
        same_ports = wirings-bump p.idx _ e' ∙ wirings-count_rx e p.idx frame _;
        table = refl;
      } in
      elim (Option-cases (frame_view (g.decode_layers frame p.parser) frame)) [
        | inl miss ↦ rw (miss, forward) dropped
        | inr (fv, seen) ↦ elim (Option-cases (classify p.wiring fv.has_tag fv.tag_vid)) [
          | inl miss ↦ rw (seen, miss, forward) dropped
          | inr (vid, put) ↦ absurd (ground arith)
        ]
      ]

-- VLAN isolation and split horizon: a write goes to a port that carries the VLAN and is not the
-- ingress port.
abbrev pub IsIsolated : Engine → Port → ℕ → Write → Type 0
IsIsolated e p vid w = IsMember (wirings e) vid w.port × (w.port ≢ p.idx)

-- The frame is in some VLAN, and the write is isolated to it.
abbrev pub IsContained : Gopacket → Engine → Port → Bytes → Write → Type 0
IsContained g e p frame w =
    (x : FrameView × ℕ) × (classified g p frame ≡ some x) × IsIsolated e p x.1 w
