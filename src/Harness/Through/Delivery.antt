-- ===== src/Harness/Through/Delivery.antt =====
-- A test frame of the harness (internal/harness/probe.go) from one host through the engine
-- (`forward`, internal/goswitch/engine.go) to the captures of the others.
use vibe_switch.Base.{
  ℕ, suc, ◌+◌, ◌<◌, ◌≡◌, refl, ap, ◌∙◌, Bytes, Bool, true, not, ◌&&◌, ◌==◌, Option, none, some,
  List, ◌∷◌, [], length, map, get_elem?, All, arith, Bool-cases, Option-cases, inl, inr, Returns,
  Returns-map, if◌then◌else◌,
}
use mathlib.Core.Path.{subst}
use vibe_switch.Fdb.{Fdb, learn, lookup}
use vibe_switch.Vlan.{Wiring, classify, carries}
use vibe_switch.Frame.{Gopacket, FrameView, is_group, copy_mac}
use vibe_switch.Engine.{Port, Engine, Write, wirings, forward}
use vibe_switch.Engine.Wired.{IsWired, IsMember, Indexed, Indexed-get, carriers}
use vibe_switch.Engine.Step.{
  classified, Switched, deliveries_to, destination, destination-IsMember, fdb_after,
}
use vibe_switch.Engine.Deliver.{write_to, deliver_all, deliver_one}
use vibe_switch.Engine.Switching.{Has, forward-Switched}
use vibe_switch.Engine.Egress.{Decodes}
use vibe_switch.Harness.Probe.{Decoder, serialize, parse}
use vibe_switch.Harness.Probe.RoundTrip.{ReadsBack}
use vibe_switch.Harness.Through.Views.{view_of_test}
use vibe_switch.Harness.Through.Packets.{IsCarried, parse-egress_packet}

-- The indices but one.
abbrev pub without : ℕ → List ℕ → List ℕ
without i [] = []
without i (j ∷ js) = let rest = without i js in if j == i then rest else j ∷ rest

abbrev pub ports_of_writes : List Write → List ℕ
ports_of_writes = map (λ (w : Write). w.port)

-- The ports that get a frame whose destination was heard at a port, or is not known.
abbrev pub receivers : Option ℕ → ℕ → List ℕ → List ℕ
receivers none ingress members = without ingress members
receivers (some out) ingress members = if out == ingress then [] else out ∷ []

-- The table behind the frame's source, and where it has the frame's destination.
abbrev pub learned_from : Fdb → Bytes → ℕ → ℕ → ℕ → Fdb
learned_from f src i vid now = if is_group src then f else learn f vid (copy_mac src) i now

abbrev pub known_at : Fdb → Bytes → ℕ → ℕ → Option ℕ
known_at f dst vid now = if is_group dst then none else lookup f vid (copy_mac dst) now

-- The write goes to a port that is there, and the harness reads the frame behind it.
abbrev pub IsHeard : Decoder → List Wiring → Bytes → Bytes → ℕ → Bytes → Write → Type 0
IsHeard d ws src dst vid body x =
    (w : Wiring) × (get_elem? ws x.port ≡ some w)
    × Returns (parse d x.pkt) (IsCarried src dst w.role vid body)

module _ (g : Gopacket) (takes : ℕ → Bytes → Bool) (fv : FrameView) (vid : ℕ) where
  ports-deliver_all :
      (i : ℕ) (ws : List Wiring)
      → ports_of_writes (deliver_all g takes fv vid i ws) ≡ without i (carriers vid ws)
  unfolding deliver_all carriers
  ports-deliver_all i [] = refl
  ports-deliver_all i (w ∷ ws) = ground (arith, ports-deliver_all i ws)

  module _ (P : Write → Type 0) (all : List Wiring)
      (each : (i : ℕ) (w : Wiring)
        → get_elem? all i ≡ some w
        → w.idx ≡ i
        → P (write_to g takes fv vid w)) where
    deliver_all-All :
        (ingress k : ℕ) (ws : List Wiring)
        → Indexed k ws
        → ((i : ℕ) (w : Wiring) → get_elem? ws i ≡ some w → get_elem? all (k + i) ≡ some w)
        → All P (deliver_all g takes fv vid ingress ws)
    unfolding deliver_all
    deliver_all-All ingress k [] x at = tt
    deliver_all-All ingress k (w ∷ ws) x at =
        let rest : All P (deliver_all g takes fv vid ingress ws) =
          deliver_all-All ingress (suc k) ws x.1
            λ i v h. ap (get_elem? all) (omega arith) ∙ at (suc i) v h in
        elim (Bool-cases (carries w vid && not (w.idx == ingress))) [
          | inl sent ↦ rw sent (each k w (ap (get_elem? all) (omega arith) ∙ at 0 w refl) x.0, rest)
          | inr kept ↦ rw kept rest
        ]

    deliver_one-All :
        (ingress out : ℕ) → Indexed 0 all → All P (deliver_one g takes fv vid ingress out all)
    unfolding deliver_one
    deliver_one-All ingress out x = elim (Bool-cases (out == ingress)) [
      | inl back ↦ rw back tt
      | inr away ↦ elim (Option-cases (get_elem? all out)) [
        | inl miss ↦ rw (away, miss) tt
        | inr (w, at) ↦ rw (away, at) (each out w at (Indexed-get 0 all out x at ∙ omega arith), tt)
      ]
    ]

    deliveries_to-All :
        (o : Option ℕ) (ingress : ℕ)
        → Indexed 0 all
        → All P (deliveries_to g takes o all ingress fv vid)
    deliveries_to-All none ingress x =
        deliver_all-All ingress 0 all x (λ i w h. ap (get_elem? all) (omega arith) ∙ h)
    deliveries_to-All (some out) ingress x = deliver_one-All ingress out x

module _ (g : Gopacket) (takes : ℕ → Bytes → Bool) (fv : FrameView) (vid : ℕ) where
  ports-deliveries_to :
      (o : Option ℕ) (ingress : ℕ) (ws : List Wiring)
      → Indexed 0 ws
      → ((out : ℕ) → o ≡ some out → IsMember ws vid out)
      → ports_of_writes (deliveries_to g takes o ws ingress fv vid)
        ≡ receivers o ingress (carriers vid ws)
  unfolding deliver_one
  ports-deliveries_to none ingress ws x member = ports-deliver_all g takes fv vid ingress ws
  ports-deliveries_to (some out) ingress ws x member =
      let (w, at, carried) = member out refl in
      let idx = Indexed-get 0 ws out x at in ground (arith, at, idx)

module _ (g : Gopacket) (decodes : Decodes g) (d : Decoder) (law : ReadsBack g d)
    (takes : ℕ → Bytes → Bool) where
  -- With a codec and a decoder that read what is serialized: a test frame without padding, between
  -- six-byte addresses and with VIDs of twelve bits, that arrives at a port of a wired engine and
  -- is classified into a VLAN, its tag naming that VLAN if it has one, goes through. Each write is
  -- to a port of the engine, and behind it the harness reads a test frame with the addresses, the
  -- marker and the payload that were built, with a tag exactly if the port is a trunk, and then
  -- that of the VLAN. There is one write to the port where the table has the destination, or none
  -- if the frame came in there; and to a group address or one that the table does not have, one to
  -- each other port that carries the VLAN, in order.
  pub forward_test_frame :
      (e : Engine) (p : Port) (src dst body : Bytes) (tag vid now : ℕ)
      → IsWired e
      → Has e p
      → length src ≡ 6
      → length dst ≡ 6
      → tag < 4096
      → vid < 4096
      → classify p.wiring (not (tag == 0)) tag ≡ some vid
      → (not (tag == 0) ≡ true → tag ≡ vid)
      → Returns (forward g takes e p (serialize g src dst tag body 0) now) (λ r.
        All (IsHeard d (wirings e) src dst vid body) r.1
        × (ports_of_writes r.1
            ≡ receivers
                (known_at (learned_from e.fdb src p.idx vid now) dst vid now)
                p.idx
                (carriers vid (wirings e))))
  forward_test_frame e p src dst body tag vid now v has s t small small' put names =
      let frame = serialize g src dst tag body 0 in
      let (fv, seen, view) = view_of_test g decodes p.parser src dst body t s tag small in
      let read : classified g p frame ≡ some (fv, vid) =
        rw (seen, view.has_tag, view.tag_vid, put) refl in
      let o = destination (fdb_after e.fdb p.idx fv vid now) fv vid now in
      let same : o ≡ known_at (learned_from e.fdb src p.idx vid now) dst vid now =
        rw (view.to, view.from) refl in
      Returns-map
        (Switched e (fdb_after e.fdb p.idx fv vid now)
          (deliveries_to g takes o (wirings e) p.idx fv vid))
        _ (forward g takes e p frame now)
        (λ r h. (
          rw (h.writes) (
              deliveries_to-All g takes fv vid (IsHeard d (wirings e) src dst vid body) (wirings e)
                (λ i w at idx. (
                  w,
                  ap (get_elem? (wirings e)) idx ∙ at,
                  parse-egress_packet g d law src dst body tag vid t s w.role fv small small' names
                      view,
                ))
                o p.idx v.indexed),
          ap ports_of_writes h.writes
              ∙ ports-deliveries_to g takes fv vid o p.idx (wirings e) v.indexed (λ out hit.
                subst (λ ws. IsMember ws vid out) h.same_ports
                  (destination-IsMember r.0 fv vid now out h.wired
                    (ap (λ f. destination f fv vid now) h.table ∙ hit)))
              ∙ ap (λ o. receivers o p.idx (carriers vid (wirings e))) same,
        ))
        (forward-Switched g takes e p frame now fv vid v has read)
