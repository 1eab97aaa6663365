-- ===== src/Engine/Isolation.antt =====
-- VLAN isolation, split horizon and the invariant of the engine, for `forward`
-- (internal/goswitch/engine.go) on any frame.
use vibe_switch.Base.{
  ℕ, suc, ◌+◌, ◌≡◌, ◌≢◌, refl, ap, ◌∙◌, Bytes, Bool, some, List, [], ◌∷◌, get_elem?, All, All-map,
  arith, ◌==◌, Bool-cases, Option-cases, inl, inr, Returns, Returns-map,
}
use vibe_switch.Vlan.{Wiring, carries}
use vibe_switch.Frame.{Gopacket, FrameView}
use vibe_switch.Engine.{Port, Engine, Write, wirings, forward}
use vibe_switch.Engine.Wired.{IsWired, IsMember, Indexed, Indexed-get}
use vibe_switch.Engine.Deliver.{deliver_all, deliver_one}
use vibe_switch.Engine.Step.{
  Switched, classified, fdb_after, destination, deliveries_to, destination-IsMember,
}
use vibe_switch.Engine.Switching.{Has, IsIsolated, IsContained, forward-Switched, forward_drops}

module _ (g : Gopacket) (takes : ℕ → Bytes → Bool) (fv : FrameView) (vid ingress : ℕ) where
  -- A write to a member of the VLAN that is not the ingress port.
  abbrev Leaves : List Wiring → Write → Type 0
  Leaves all w = IsMember all vid w.port × (w.port ≢ ingress)

  deliver_all_from :
      (all : List Wiring) (k : ℕ) (ws : List Wiring)
      → Indexed k ws
      → ((i : ℕ) (w : Wiring) → get_elem? ws i ≡ some w → get_elem? all (k + i) ≡ some w)
      → All (Leaves all) (deliver_all g takes fv vid ingress ws)
  unfolding deliver_all
  deliver_all_from all k [] x at = tt
  deliver_all_from all k (w ∷ ws) x at =
      let rest =
        deliver_all_from all (suc k) ws x.1
          (λ i v h. ap (get_elem? all) (omega arith) ∙ at (suc i) v h) in
      elim (Bool-cases (carries w vid)) [
        | inl member ↦ elim (Bool-cases (w.idx == ingress)) [
          | inl back ↦ rw (member, back) rest
          | inr away ↦
              rw (member, away)
                (((w, ap (get_elem? all) (omega arith) ∙ at 0 w refl, member), ground arith), rest)
        ]
        | inr other ↦ rw other rest
      ]

  pub deliver_all-Leaves :
      (ws : List Wiring) → Indexed 0 ws → All (Leaves ws) (deliver_all g takes fv vid ingress ws)
  deliver_all-Leaves ws x =
      deliver_all_from ws 0 ws x (λ i w h. ap (get_elem? ws) (omega arith) ∙ h)

  pub deliver_one-Leaves :
      (ws : List Wiring) (out : ℕ)
      → Indexed 0 ws
      → IsMember ws vid out
      → All (Leaves ws) (deliver_one g takes fv vid ingress out ws)
  unfolding deliver_one
  deliver_one-Leaves ws out x (w, at, member) =
      let here : w.idx ≡ out = omega (arith, Indexed-get 0 ws out x at) in
      elim (Bool-cases (out == ingress)) [
        | inl back ↦ rw back tt
        | inr away ↦ rw (away, at) (((w, ap (get_elem? ws) here ∙ at, member), ground arith), tt)
      ]

module _ (g : Gopacket) (takes : ℕ → Bytes → Bool) (e : Engine) (p : Port) (frame : Bytes) where
  deliveries-IsIsolated :
      (now : ℕ) (fv : FrameView) (vid : ℕ) (r : Engine × List Write)
      → IsWired e
      → let fdb = fdb_after e.fdb p.idx fv vid now in
        let ds = deliveries_to g takes (destination fdb fv vid now) (wirings e) p.idx fv vid in
        Switched e fdb ds r → All (IsIsolated e p vid) ds
  deliveries-IsIsolated now fv vid r v s =
      elim (Option-cases (destination (fdb_after e.fdb p.idx fv vid now) fv vid now)) [
        | inl flooding ↦ rw flooding (deliver_all-Leaves g takes fv vid p.idx (wirings e) v.indexed)
        | inr (out, known) ↦
            let member : IsMember (wirings e) vid out = rw s.same_ports at (
              destination-IsMember r.0 fv vid now out s.wired
                (ap (λ f. destination f fv vid now) s.table ∙ known)) in
            rw known (deliver_one-Leaves g takes fv vid p.idx (wirings e) out v.indexed member)
      ]

  -- No frame makes the engine panic, and every write that it causes goes to a port that carries
  -- the VLAN into which the frame was classified and is not the ingress port; the engine is wired
  -- afterwards, with the ports as they were.
  pub forward_isolated :
      (now : ℕ)
      → IsWired e
      → Has e p
      → Returns
          (forward g takes e p frame now)
          (λ r. All (IsContained g e p frame) r.1 × IsWired r.0 × (wirings r.0 ≡ wirings e))
  forward_isolated now v at = elim (Option-cases (classified g p frame)) [
    | inl dropped ↦
        Returns-map (Switched e e.fdb []) _ (forward g takes e p frame now)
          (λ r s. (rw s.writes tt, s.wired, s.same_ports))
          (forward_drops g takes e p frame now v dropped)
    | inr ((fv, vid), put) ↦
        Returns-map _ _ (forward g takes e p frame now)
          (λ r s. (
            rw s.writes (
                All-map (IsIsolated e p vid) (IsContained g e p frame) _
                  (λ w h. ((fv, vid), put, h)) (deliveries-IsIsolated now fv vid r v s)),
            s.wired,
            s.same_ports,
          ))
          (forward-Switched g takes e p frame now fv vid v at put)
  ]
