-- ===== src/Engine/Deliver.antt =====
-- The writes of one frame, as a function of the wiring alone: what `emit` and the flooding loop of
-- `forward` (internal/goswitch/engine.go) come to.
use vibe_switch.Base.{
  ℕ, suc, ◌+◌, ◌≡◌, refl, ap, ◌∙◌, Bytes, Bool, not, ◌&&◌, none, some, List, [], ◌∷◌, length,
  get_elem?, arith, ◌==◌, if◌then◌else◌,
}
use vibe_switch.Vlan.{Wiring, carries}
use vibe_switch.Frame.{Gopacket, FrameView}
use vibe_switch.Engine.{
  Engine, Write, wirings, bump, count_tx, egress_packet, emit, emit_at, flood_loop, send_known,
}
use vibe_switch.Engine.Wired.{Indexed, IsMember, carriers, wirings-bump, port_at}

-- The counters of a write, on the port that it names.
abbrev pub count_write : Engine → Write → Engine
count_write e w = bump w.port (count_tx w.accepted (length w.pkt)) e

unfoldable pub tally : Engine → List Write → Engine
tally e [] = e
tally e (w ∷ ws) = tally (count_write e w) ws

pub wirings-tally : (e : Engine) (ws : List Write) → wirings (tally e ws) ≡ wirings e
unfolding tally
wirings-tally e [] = refl
wirings-tally e (w ∷ ws) = wirings-tally (count_write e w) ws ∙ wirings-bump _ _ e

pub fdb-tally : (e : Engine) (ws : List Write) → (tally e ws).fdb ≡ e.fdb
unfolding tally
fdb-tally e [] = refl
fdb-tally e (w ∷ ws) = fdb-tally (count_write e w) ws

pub vid_members-tally : (e : Engine) (ws : List Write) → (tally e ws).vid_members ≡ e.vid_members
unfolding tally
vid_members-tally e [] = refl
vid_members-tally e (w ∷ ws) = vid_members-tally (count_write e w) ws

module _ (g : Gopacket) (takes : ℕ → Bytes → Bool) (fv : FrameView) (vid : ℕ) where
  -- The write to one port.
  abbrev pub write_to : Wiring → Write
  write_to w =
      let pkt = egress_packet g w.role fv vid in
      record { port = w.idx; pkt = pkt; accepted = takes w.io pkt }

  -- One write to each port that carries the VLAN, but the ingress port.
  unfoldable pub deliver_all : ℕ → List Wiring → List Write
  deliver_all ingress [] = []
  deliver_all ingress (w ∷ ws) =
      let rest = deliver_all ingress ws in
      if carries w vid && not (w.idx == ingress) then write_to w ∷ rest else rest

  emit_at_member :
      (e : Engine) (i : ℕ) (w : Wiring)
      → get_elem? (wirings e) i ≡ some w
      → emit_at g takes e i fv vid ≡ some (count_write e (write_to w), write_to w)
  unfolding emit_at emit
  emit_at_member e i w h = let (p, at, same) = port_at e.ports i h in ground arith

  -- The flooding loop over the carriers of a VLAN, from a position in the list of ports on.
  flood_loop_from :
      (ingress : ℕ) (e : Engine) (k : ℕ) (ws : List Wiring)
      → Indexed k ws
      → ((i : ℕ) (w : Wiring) → get_elem? ws i ≡ some w → get_elem? (wirings e) (k + i) ≡ some w)
      → flood_loop g takes e ingress fv vid (carriers vid ws)
        ≡ some (tally e (deliver_all ingress ws), deliver_all ingress ws)
  unfolding flood_loop carriers deliver_all tally
  flood_loop_from ingress e k [] x at = refl
  flood_loop_from ingress e k (w ∷ ws) x at =
      let e' = count_write e (write_to w) in
      let at' : (i : ℕ) (v : Wiring)
          → get_elem? ws i ≡ some v
          → get_elem? (wirings e) (suc k + i) ≡ some v =
        λ i v h. ap (get_elem? (wirings e)) (omega arith) ∙ at (suc i) v h in
      let at'' : (i : ℕ) (v : Wiring)
          → get_elem? ws i ≡ some v
          → get_elem? (wirings e') (suc k + i) ≡ some v =
        λ i v h. ap (λ ls. get_elem? ls (suc k + i)) (wirings-bump _ _ e) ∙ at' i v h in
      let here : get_elem? (wirings e) w.idx ≡ some w =
        ap (get_elem? (wirings e)) (omega arith) ∙ at 0 w refl in
      ground (
        arith,
        emit_at_member e w.idx w here,
        flood_loop_from ingress e (suc k) ws x.1 at',
        flood_loop_from ingress e' (suc k) ws x.1 at'',
      )

  pub flood_loop_lem :
      (ingress : ℕ) (e : Engine)
      → Indexed 0 (wirings e)
      → flood_loop g takes e ingress fv vid (carriers vid (wirings e))
        ≡ some (tally e (deliver_all ingress (wirings e)), deliver_all ingress (wirings e))
  flood_loop_lem ingress e x =
      flood_loop_from ingress e 0 (wirings e) x
        (λ i w h. ap (get_elem? (wirings e)) (omega arith) ∙ h)

  -- The write to a known port.
  unfoldable pub deliver_one : ℕ → ℕ → List Wiring → List Write
  deliver_one ingress out ws =
      if not (out == ingress)
      then elim (get_elem? ws out) [ none ↦ [] | some w ↦ write_to w ∷ [] ]
      else []

  pub send_known_lem :
      (ingress : ℕ) (e : Engine) (out : ℕ)
      → IsMember (wirings e) vid out
      → send_known g takes e ingress fv vid out
        ≡ some (tally e (deliver_one ingress out (wirings e)), deliver_one ingress out (wirings e))
  unfolding send_known deliver_one tally
  send_known_lem ingress e out (w, at, member) = ground (arith, emit_at_member e out w at)
