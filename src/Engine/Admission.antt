-- ===== src/Engine/Admission.antt =====
-- `forward` (internal/goswitch/engine.go) on every frame: whether the port admits it
-- (`port.classify`, internal/goswitch/vlan.go), and what then becomes of it.
use vibe_switch.Base.{
  ℕ, ◌≡◌, ◌∙◌, Bool, ◌&&◌, Bytes, List, Option, none, some, [], Option-cases, inl, inr, Returns,
  arith, if◌then◌else◌,
}
use vibe_switch.Frame.{Gopacket, FrameView, frame_view}
use vibe_switch.Vlan.{Wiring, carries}
use vibe_switch.Vlan.Classify.{accepts_tag, vid_of, classify_lem}
use vibe_switch.Engine.{Port, Engine, Write, wirings, forward}
use vibe_switch.Engine.Wired.{IsWired}
use vibe_switch.Engine.Step.{Switched, classified, fdb_after, destination, deliveries_to}
use vibe_switch.Engine.Switching.{Has, forward-Switched, forward_drops}

-- The VLAN of a frame at a port whose role wants its tag state and that carries the VLAN.
abbrev pub admitted_view : Wiring → FrameView → Option (FrameView × ℕ)
admitted_view w fv =
    let vid = vid_of w.role w fv.tag_vid in
    if accepts_tag w.role fv.has_tag && carries w vid then some (fv, vid) else none

abbrev pub admitted : Gopacket → Port → Bytes → Option (FrameView × ℕ)
admitted g p frame = elim (frame_view (g.decode_layers frame p.parser) frame) [
  | none ↦ none
  | some fv ↦ admitted_view p.wiring fv
]

classified-admitted :
    (g : Gopacket) (p : Port) (frame : Bytes) → classified g p frame ≡ admitted g p frame
classified-admitted g p frame =
    elim (Option-cases (frame_view (g.decode_layers frame p.parser) frame)) [
      | inl miss ↦ ground (arith, miss)
      | inr (fv, seen) ↦ ground (arith, seen, classify_lem p.wiring fv.has_tag fv.tag_vid)
    ]

module _ (g : Gopacket) (takes : ℕ → Bytes → Bool) where
  -- The outcome for a frame that was admitted into a VLAN, or was not.
  abbrev pub Forwarded : Engine → Port → ℕ → Option (FrameView × ℕ) → Engine × List Write → Type 0
  Forwarded e p now none r = Switched e e.fdb [] r
  Forwarded e p now (some (fv, vid)) r =
      let fdb = fdb_after e.fdb p.idx fv vid now in
      Switched e fdb (deliveries_to g takes (destination fdb fv vid now) (wirings e) p.idx fv vid) r

  -- In a wired engine, of every frame at one of its ports: it is admitted if it can be read, the
  -- port's role wants its tag state and the port carries its VLAN (0 at a plain port, the port's
  -- VLAN at an access port, the tag's at a trunk). A frame that is not admitted is dropped:
  -- nothing is written or learned. One that is admitted is learned unless its source is a group
  -- address; it is then written to the port that the table gives for a unicast destination, unless
  -- that is the ingress port, and otherwise to each other port that carries the VLAN, in order.
  -- Nothing panics, the ports stay wired as they were, and the engine's invariant holds again.
  pub forward_lem :
      (e : Engine) (p : Port) (frame : Bytes) (now : ℕ)
      → IsWired e
      → Has e p
      → Returns (forward g takes e p frame now) (Forwarded e p now (admitted g p frame))
  forward_lem e p frame now v at = elim (Option-cases (admitted g p frame)) [
    | inl out ↦ rw out (forward_drops g takes e p frame now v (classified-admitted g p frame ∙ out))
    | inr ((fv, vid), into) ↦
        rw into (
          forward-Switched g takes e p frame now fv vid v at (classified-admitted g p frame ∙ into))
  ]
