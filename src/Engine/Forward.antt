-- ===== src/Engine/Forward.antt =====
-- internal/goswitch/engine.go: `emit` and `forward`, on one frame. `none` is a panic. The result
-- has the writes made, in order. `takes` says which packets the handles accept during this call;
-- no port is written twice in one call.
use vibe_switch.Base.{
  ℕ, Bytes, Bool, true, false, not, Option, none, some, List, [], ◌∷◌, ◌==◌, length, modify,
  get_elem?, if◌then◌else◌, ◌>>=◌,
}
use vibe_switch.Vlan.{PortRole, plain, access, trunk, classify}
use vibe_switch.Fdb
use vibe_switch.Fdb.{Fdb}
use vibe_switch.Frame.{
  FrameParser, FrameView, Gopacket, frame_view, is_group, copy_mac, build_tagged, build_untagged,
}
use vibe_switch.Engine.Ports.{PortStats, Port, Engine, add64, bump, members}

-- One call of `WritePacketData`, and whether it returned no error.
pub record Write : Type 0 where
  pub port : ℕ
  pub pkt : Bytes
  pub accepted : Bool

abbrev pub wants_tag : PortRole → Bool
wants_tag plain = false
wants_tag access = false
wants_tag trunk = true

abbrev pub same : Bool → Bool → Bool
same true b = b
same false b = not b

unfoldable pub count_tx : Bool → ℕ → PortStats → PortStats
count_tx false n s = record s { tx_drop = add64 s.tx_drop 1 }
count_tx true n s = record s { tx_frames = add64 s.tx_frames 1; tx_bytes = add64 s.tx_bytes n }

unfoldable pub learn_source : Engine → ℕ → FrameView → ℕ → ℕ → Engine
learn_source e ingress fv vid now =
    if is_group fv.src
    then e
    else record e { fdb = Fdb.learn e.fdb vid (copy_mac fv.src) ingress now }

known_port : Engine → FrameView → ℕ → ℕ → Option ℕ
known_port e fv vid now =
    if is_group fv.dst then none else Fdb.lookup e.fdb vid (copy_mac fv.dst) now

abbrev pub drop_frame : Engine → ℕ → Option (Engine × List Write)
drop_frame e ingress =
    some (bump ingress (λ s. record s { forward_drop = add64 s.forward_drop 1 }) e, [])

-- The counters of reception, and the decoder, which keeps its structs for the next frame.
unfoldable pub count_rx : Engine → ℕ → Bytes → FrameParser → Engine
count_rx e ingress frame fp = record e {
  ports = modify e.ports ingress λ p. record p {
    stats = record p.stats {
      rx_frames = add64 p.stats.rx_frames 1;
      rx_bytes = add64 p.stats.rx_bytes (length frame);
    };
    parser = fp;
  };
}

module _ (g : Gopacket) where
  -- The switch of `emit`.
  unfoldable pub egress_packet : PortRole → FrameView → ℕ → Bytes
  egress_packet role fv vid =
      if same (wants_tag role) fv.has_tag
      then fv.raw
      else if wants_tag role
      then build_tagged g fv.dst fv.src vid fv.inner_type fv.payload
      else build_untagged g fv.dst fv.src fv.inner_type fv.payload

module _ (g : Gopacket) (takes : ℕ → Bytes → Bool) where
  unfoldable pub emit : Engine → Port → FrameView → ℕ → Engine × Write
  emit e out fv vid =
      let pkt = egress_packet g out.role fv vid in
      let accepted = takes out.io pkt in
      (
        bump out.idx (count_tx accepted (length pkt)) e,
        record { port = out.idx; pkt = pkt; accepted = accepted },
      )

  -- `e.emit(e.ports[idx], …)`
  unfoldable pub emit_at : Engine → ℕ → FrameView → ℕ → Option (Engine × Write)
  emit_at e idx fv vid = elim (get_elem? e.ports idx) [
    | none ↦ none
    | some out ↦ some (emit e out fv vid)
  ]

  -- The flooding loop of `forward`.
  unfoldable pub flood_loop : Engine → ℕ → FrameView → ℕ → List ℕ → Option (Engine × List Write)
  flood_loop e ingress fv vid [] = some (e, [])
  flood_loop e ingress fv vid (idx ∷ rest) = elim (idx == ingress) [
    | true ↦ flood_loop e ingress fv vid rest
    | false ↦ do
      (e', w) ← emit_at e idx fv vid
      (e'', ws) ← flood_loop e' ingress fv vid rest
      some (e'', w ∷ ws)
  ]

  unfoldable pub flood : Engine → ℕ → FrameView → ℕ → Option (Engine × List Write)
  flood e ingress fv vid =
      let e' = bump ingress (λ s. record s { flooded = add64 s.flooded 1 }) e in
      flood_loop e' ingress fv vid (members e' vid)

  -- A known unicast destination.
  unfoldable pub send_known : Engine → ℕ → FrameView → ℕ → ℕ → Option (Engine × List Write)
  send_known e ingress fv vid out =
      if not (out == ingress)
      then (do (e', w) ← emit_at e out fv vid; some (e', w ∷ []))
      else some (e, [])

  -- One port for a known unicast destination, the VLAN for any other.
  unfoldable pub route : Option ℕ → Engine → ℕ → FrameView → ℕ → Option (Engine × List Write)
  route (some out) e ingress fv vid = send_known e ingress fv vid out
  route none e ingress fv vid = flood e ingress fv vid

  -- `forward` from the classified frame on.
  unfoldable pub switch_frame : Engine → ℕ → FrameView → ℕ → ℕ → Option (Engine × List Write)
  unfolding known_port
  switch_frame e ingress fv vid now =
      let e' = learn_source e ingress fv vid now in
      route (known_port e' fv vid now) e' ingress fv vid

  unfoldable pub forward : Engine → Port → Bytes → ℕ → Option (Engine × List Write)
  forward e p frame now =
      let fp = g.decode_layers frame p.parser in
      let e' = count_rx e p.idx frame fp in
      elim (frame_view fp frame) [
        | none ↦ drop_frame e' p.idx
        | some fv ↦ elim (classify p.wiring fv.has_tag fv.tag_vid) [
          | none ↦ drop_frame e' p.idx
          | some vid ↦ switch_frame e' p.idx fv vid now
        ]
      ]
