-- ===== src/Engine/Wired.antt =====
-- How the ports, the member lists and the table of an `Engine` (internal/goswitch/engine.go) hang
-- together, and that changes of counters and decoders leave it alone.
use vibe_switch.Base.{
  ℕ, zero, suc, ◌+◌, ◌≡◌, refl, ap, ◌∙◌, true, some, List, [], ◌∷◌, map, modify, get_elem?, All,
  arith, if◌then◌else◌, Bool-cases, inl, inr,
}
use vibe_switch.Base.Assoc.{Entries}
use vibe_switch.Vlan.{Wiring, carries}
use vibe_switch.Fdb.{MacKey, mac_key_eq, Entry}
use vibe_switch.Fdb.Laws.{IsMap}
use vibe_switch.Engine.{Port, PortStats, Engine, members, wirings, bump}

-- The ports stand at their own indices.
abbrev pub Indexed : ℕ → List Wiring → Type 0
Indexed k [] = Unit {0}
Indexed k (w ∷ ws) = (w.idx ≡ k) × Indexed (suc k) ws

-- The indices of the ports that carry a VLAN, in order.
unfoldable pub carriers : ℕ → List Wiring → List ℕ
carriers vid [] = []
carriers vid (w ∷ ws) = let rest = carriers vid ws in if carries w vid then w.idx ∷ rest else rest

abbrev pub IsMember : List Wiring → ℕ → ℕ → Type 0
IsMember ws vid i = (w : Wiring) × (get_elem? ws i ≡ some w) × (carries w vid ≡ true)

abbrev pub IsLearned : List Wiring → MacKey → Entry → Type 0
IsLearned ws k e = IsMember ws k.vid e.port_idx

-- The member lists hold the ports that carry each VLAN, and each table entry names a port that
-- carries the entry's VLAN.
pub record IsWired (e : Engine) : Type 0 where
  pub indexed : Indexed 0 (wirings e)
  pub member_lists : (vid : ℕ) → members e vid ≡ carriers vid (wirings e)
  pub learned : Entries (IsLearned (wirings e)) e.fdb.table
  pub is_map : IsMap e.fdb

pub wirings-modify :
    (ps : List Port) (i : ℕ) (f : Port → Port)
    → ((p : Port) → (f p).wiring ≡ p.wiring)
    → map (λ (p : Port). p.wiring) (modify ps i f) ≡ map (λ p. p.wiring) ps
wirings-modify [] i f h = refl
wirings-modify (p ∷ ps) zero f h = ap (λ w. w ∷ map (λ (q : Port). q.wiring) ps) (h p)
wirings-modify (p ∷ ps) (suc i) f h = ap (◌∷◌ p.wiring) (wirings-modify ps i f h)

pub wirings-bump :
    (i : ℕ) (f : PortStats → PortStats) (e : Engine) → wirings (bump i f e) ≡ wirings e
wirings-bump i f e = wirings-modify e.ports i _ (λ p. refl)

-- A port as its wiring is seen.
pub port_at :
    (ps : List Port) (i : ℕ) {w : Wiring}
    → get_elem? (map (λ (p : Port). p.wiring) ps) i ≡ some w
    → (p : Port) × (get_elem? ps i ≡ some p) × (p.wiring ≡ w)
port_at [] i h = cc
port_at (p ∷ ps) zero {w} h = (p, refl, ground arith)
port_at (p ∷ ps) (suc i) h = port_at ps i h

pub wiring_at :
    (ps : List Port) (i : ℕ) {p : Port}
    → get_elem? ps i ≡ some p
    → get_elem? (map (λ (p : Port). p.wiring) ps) i ≡ some p.wiring
wiring_at [] i h = cc
wiring_at (p ∷ ps) zero h = ground arith
wiring_at (p ∷ ps) (suc i) h = wiring_at ps i h

pub Indexed-get :
    (k : ℕ) (ws : List Wiring) (i : ℕ) {w : Wiring}
    → Indexed k ws
    → get_elem? ws i ≡ some w
    → w.idx ≡ k + i
Indexed-get k [] i x h = cc
Indexed-get k (v ∷ ws) zero x h = ground arith
Indexed-get k (v ∷ ws) (suc i) x h = omega (arith, Indexed-get (suc k) ws i x.1 h)

-- The ports that carry a VLAN are members, at the indices where they stand.
carriers_from :
    (all : List Wiring) (vid k : ℕ) (ws : List Wiring)
    → Indexed k ws
    → ((i : ℕ) (w : Wiring) → get_elem? ws i ≡ some w → get_elem? all (k + i) ≡ some w)
    → All (IsMember all vid) (carriers vid ws)
unfolding carriers
carriers_from all vid k [] x at = tt
carriers_from all vid k (w ∷ ws) x at =
    let rest : All (IsMember all vid) (carriers vid ws) =
      carriers_from all vid (suc k) ws x.1
        λ i v h. ap (get_elem? all) (omega arith) ∙ at (suc i) v h in
    elim (Bool-cases (carries w vid)) [
      | inl member ↦ rw member ((w, ap (get_elem? all) (omega arith) ∙ at 0 w refl, member), rest)
      | inr other ↦ rw other rest
    ]

pub carriers-IsMember :
    (vid : ℕ) (ws : List Wiring) → Indexed 0 ws → All (IsMember ws vid) (carriers vid ws)
carriers-IsMember vid ws x =
    carriers_from ws vid 0 ws x (λ i w h. ap (get_elem? ws) (omega arith) ∙ h)
