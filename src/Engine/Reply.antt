-- ===== src/Engine/Reply.antt =====
-- Learning and forwarding together (`forward`, internal/goswitch/engine.go): an answer goes only
-- to the port where its addressee was heard.
use vibe_switch.Base.{
  ℕ, ◌≡◌, ◌≢◌, refl, ◌∙◌, Bytes, Bool, false, ◌&&◌, some, List, [], ◌∷◌, get_elem?, arith,
  Bool-cases, inl, inr, Returns, Returns-map, bytes_eq_iff,
}
use vibe_switch.Base.Int.{pos, ltb_ℤ}
use vibe_switch.Vlan.{Wiring}
use vibe_switch.Fdb
use vibe_switch.Fdb.{Fdb, MacKey, Entry, older, answer, key_eq}
use vibe_switch.Fdb.Laws.{lookup-learn}
use vibe_switch.Frame.{Gopacket, FrameView, is_group, copy_mac}
use vibe_switch.Engine.{Port, Engine, Write, wirings, forward}
use vibe_switch.Engine.Wired.{IsWired, wiring_at}
use vibe_switch.Engine.Deliver.{deliver_one, write_to}
use vibe_switch.Engine.Step.{Switched, classified, fdb_after, destination}
use vibe_switch.Engine.Switching.{Has, forward-Switched}

-- An entry of this age is still answered.
abbrev pub IsFresh : Fdb → ℕ → ℕ → Type 0
IsFresh f t now =
    (ltb_ℤ (pos 0) f.ageing && older f.ageing now (record { port_idx = 0; seen_at = t })) ≡ false

lookup_learned :
    (f : Fdb) (vid : ℕ) (mac : Bytes) (port t now : ℕ)
    → IsFresh f t now
    → Fdb.lookup (Fdb.learn f vid mac port t) vid mac now ≡ some port
lookup_learned f vid mac port t now fresh =
    lookup-learn f vid mac port t vid mac now ∙ ground (arith, bytes_eq_iff mac mac)

lookup_other :
    (f : Fdb) (vid : ℕ) (other mac : Bytes) (port t now : ℕ)
    → other ≢ mac
    → Fdb.lookup (Fdb.learn f vid other port t) vid mac now ≡ Fdb.lookup f vid mac now
lookup_other f vid other mac port t now differ =
    lookup-learn f vid other port t vid mac now ∙ ground (arith, bytes_eq_iff other mac)

-- The table after the address was learned, read once another source has been noted.
lookup-fdb_after :
    (f : Fdb) (vid : ℕ) (port t i : ℕ) (fv : FrameView) (now : ℕ)
    → IsFresh f t now
    → copy_mac fv.src ≢ copy_mac fv.dst
    → Fdb.lookup
        (fdb_after (Fdb.learn f vid (copy_mac fv.dst) port t) i fv vid now)
        vid
        (copy_mac fv.dst)
        now
      ≡ some port
lookup-fdb_after f vid port t i fv now fresh from = elim (Bool-cases (is_group fv.src)) [
  | inl group ↦ rw group (lookup_learned f vid (copy_mac fv.dst) port t now fresh)
  | inr single ↦ rw single (
      lookup_other (Fdb.learn f vid (copy_mac fv.dst) port t) vid (copy_mac fv.src)
        (copy_mac fv.dst) i now now from
      ∙ lookup_learned f vid (copy_mac fv.dst) port t now fresh)
]

module _ (g : Gopacket) (takes takes' : ℕ → Bytes → Bool) where
  deliver_one_away :
      (ingress out : ℕ) (fv : FrameView) (vid : ℕ) (ws : List Wiring) (w : Wiring)
      → ingress ≢ out
      → get_elem? ws out ≡ some w
      → deliver_one g takes' fv vid ingress out ws ≡ write_to g takes' fv vid w ∷ []
  unfolding deliver_one
  deliver_one_away ingress out fv vid ws w away at = rw at (ground arith)

  -- In a wired engine a frame from a unicast address was heard at a port. Then a frame to that
  -- address that comes in at another port in the same VLAN, from another source and before the
  -- entry is too old, is written once, to the port where the address was heard, and to no other
  -- port.
  pub reply_unicast :
      (e : Engine) (p q : Port) (frame frame' : Bytes) (now now' : ℕ) (fv fv' : FrameView) (vid : ℕ)
      (r : Engine × List Write)
      → IsWired e
      → Has e p
      → classified g p frame ≡ some (fv, vid)
      → is_group fv.src ≡ false
      → forward g takes e p frame now ≡ some r
      → Has r.0 q
      → q.idx ≢ p.idx
      → classified g q frame' ≡ some (fv', vid)
      → is_group fv'.dst ≡ false
      → copy_mac fv'.dst ≡ copy_mac fv.src
      → copy_mac fv'.src ≢ copy_mac fv'.dst
      → IsFresh e.fdb now now'
      → Returns
          (forward g takes' r.0 q frame' now')
          (λ r'. r'.1 ≡ write_to g takes' fv' vid p.wiring ∷ [])
  reply_unicast e p q frame frame' now now' fv fv' vid r v at put single done at' other put' single'
        to from fresh =
      let s : Switched e (fdb_after e.fdb p.idx fv vid now) _ r =
        rw done at (forward-Switched g takes e p frame now fv vid v at put) in
      let table : r.0.fdb ≡ Fdb.learn e.fdb vid (copy_mac fv'.dst) p.idx now =
        s.table ∙ rw (single, to) refl in
      let known : destination (fdb_after r.0.fdb q.idx fv' vid now') fv' vid now' ≡ some p.idx =
        rw (single', table) (lookup-fdb_after e.fdb vid p.idx now q.idx fv' now' fresh from) in
      let here : get_elem? (wirings r.0) p.idx ≡ some p.wiring =
        rw s.same_ports (wiring_at e.ports p.idx at) in
      Returns-map _ _ (forward g takes' r.0 q frame' now')
        (λ r' s'.
          s'.writes
          ∙ rw known (deliver_one_away q.idx p.idx fv' vid (wirings r.0) p.wiring other here))
        (forward-Switched g takes' r.0 q frame' now' fv' vid s.wired at' put')
