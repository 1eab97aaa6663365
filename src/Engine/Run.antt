-- ===== src/Engine/Run.antt =====
-- Histories of an engine: frames that arrive (the body of `rxLoop`, internal/goswitch/afpacket.go),
-- sweeps (the body of `gcLoop`) and `SetAgeing` (internal/goswitch/engine.go), in any order. A
-- call of `forward` is one step here.
use vibe_switch.Base.{
  ℕ, ◌≡◌, ◌≢◌, refl, ap, ◌∙◌, Bytes, Bool, Option, none, some, List, [], ◌∷◌, ◌++◌, map, get_elem?,
  All, All-append, arith, ◌>>=◌, Returns, Returns-bind,
}
use vibe_switch.Base.Int.{ℤ}
use vibe_switch.Vlan.{Wiring}
use vibe_switch.Fdb
use vibe_switch.Fdb.{MacKey, mac_key_eq, Entry, older}
use vibe_switch.Fdb.Laws.{reap-IsMap, reap-Entries}
use vibe_switch.Frame.{Gopacket}
use vibe_switch.Engine.{
  Port, Engine, PortConfig, Write, wirings, members, forward, set_ageing, new_engine, ok,
}
use vibe_switch.Engine.Wired.{IsWired, IsMember, IsLearned, Indexed-get, port_at, wiring_at}
use vibe_switch.Engine.Construct.{new_engine-IsWired}
use vibe_switch.Engine.Switching.{Has, IsContained, ingress-IsMember}
use vibe_switch.Engine.Isolation.{forward_isolated}

-- A frame at a port, with its time and the packets that the handles take; a tick of `gcLoop`;
-- a call of `SetAgeing`.
pub data Event : Type 0 where
  arrives : ℕ → Bytes → ℕ → (ℕ → Bytes → Bool) → Event
  sweeps : ℕ → Event
  sets_ageing : ℤ → Event

-- A write, with the port where the frame that caused it came in.
pub record Sent : Type 0 where
  pub ingress : ℕ
  pub write : Write

-- One tick of `gcLoop`.
unfoldable pub sweep : Engine → ℕ → Engine
sweep e now = record e { fdb = Fdb.reap e.fdb now }

module _ (g : Gopacket) where
  -- One round of `rxLoop` that reads a frame.
  unfoldable pub receive : Engine → ℕ → Bytes → ℕ → (ℕ → Bytes → Bool) → Option (Engine × List Sent)
  receive e i frame now takes = elim (get_elem? e.ports i) [
    | none ↦ none
    | some p ↦ do
      (e', ws) ← forward g takes e p frame now
      some (e', map (λ w. record { ingress = p.idx; write = w }) ws)
  ]

  unfoldable pub apply : Engine → Event → Option (Engine × List Sent)
  unfolding sweep
  apply e (arrives i frame now takes) = receive e i frame now takes
  apply e (sweeps now) = some (sweep e now, [])
  apply e (sets_ageing d) = some (set_ageing e d, [])

  unfoldable pub run : Engine → List Event → Option (Engine × List Sent)
  run e [] = some (e, [])
  run e (ev ∷ evs) = do (e', sent) ← apply e ev; (e'', more) ← run e' evs; some (e'', sent ++ more)

-- Some VLAN is carried by both ports, and they are two.
abbrev pub IsShared : List Wiring → Sent → Type 0
IsShared ws s =
    (vid : ℕ) × IsMember ws vid s.ingress
    × IsMember ws vid s.write.port
    × (s.write.port ≢ s.ingress)

-- The ports that frames arrive at exist.
abbrev pub IsPlaced : List Wiring → Event → Type 0
IsPlaced ws (arrives i frame now takes) = (w : Wiring) × (get_elem? ws i ≡ some w)
IsPlaced ws (sweeps now) = Unit {0}
IsPlaced ws (sets_ageing d) = Unit {0}

-- What every step keeps.
abbrev pub Keeps : List Wiring → Engine × List Sent → Type 0
Keeps ws r = IsWired r.0 × (wirings r.0 ≡ ws) × All (IsShared ws) r.1

pub sweep-IsWired : (e : Engine) (now : ℕ) → IsWired e → IsWired (sweep e now)
unfolding sweep members
sweep-IsWired e now v = record {
  indexed = v.indexed;
  member_lists = v.member_lists;
  learned = reap-Entries (IsLearned (wirings e)) e.fdb now v.learned;
  is_map = reap-IsMap e.fdb now v.is_map;
}

set_ageing-IsWired : (e : Engine) (d : ℤ) → IsWired e → IsWired (set_ageing e d)
unfolding set_ageing members
set_ageing-IsWired e d v = record {
  indexed = v.indexed;
  member_lists = v.member_lists;
  learned = v.learned;
  is_map = v.is_map;
}

module _ (g : Gopacket) (ws : List Wiring) where
  sent-IsShared :
      (e : Engine) (p : Port) (frame : Bytes)
      → Has e p
      → wirings e ≡ ws
      → (l : List Write) → All (IsContained g e p frame) l
      → All (IsShared ws) (map (λ w. record { ingress = p.idx; write = w }) l)
  sent-IsShared e p frame at same [] h = tt
  sent-IsShared e p frame at same (w ∷ l) (((fv, vid), put, to), h) = (
    (vid, rw same at (ingress-IsMember g e p frame fv vid at put), rw same at to.0, to.1),
    sent-IsShared e p frame at same l h,
  )

  receive-Keeps :
      (e : Engine) (i : ℕ) (frame : Bytes) (now : ℕ) (takes : ℕ → Bytes → Bool) (w : Wiring)
      → IsWired e
      → wirings e ≡ ws
      → get_elem? ws i ≡ some w
      → Returns (receive g e i frame now takes) (Keeps ws)
  unfolding receive
  receive-Keeps e i frame now takes w v same at =
      let (p, here, eq) = port_at e.ports i {w = w} (rw same at) in
      let idx : p.idx ≡ i =
        omega (arith, Indexed-get 0 (wirings e) i v.indexed (wiring_at e.ports i here)) in
      let has : Has e p = ap (get_elem? e.ports) idx ∙ here in
      rw (here, receive)
        (Returns-bind
          (λ r. All (IsContained g e p frame) r.1 × IsWired r.0 × (wirings r.0 ≡ wirings e))
          (Keeps ws) (forward g takes e p frame now) _
          (λ r h. (h.1, h.2 ∙ same, sent-IsShared e p frame has same r.1 h.0))
          (forward_isolated g takes e p frame now v has))

  pub apply-Keeps :
      (e : Engine) (ev : Event)
      → IsWired e
      → wirings e ≡ ws
      → IsPlaced ws ev
      → Returns (apply g e ev) (Keeps ws)
  unfolding apply set_ageing
  apply-Keeps e (arrives i frame now takes) v same (w, at) =
      receive-Keeps e i frame now takes w v same at
  apply-Keeps e (sweeps now) v same at = (sweep-IsWired e now v, same, tt)
  apply-Keeps e (sets_ageing d) v same at = (set_ageing-IsWired e d v, same, tt)

  run-Keeps :
      (e : Engine) (evs : List Event)
      → IsWired e
      → wirings e ≡ ws
      → All (IsPlaced ws) evs
      → Returns (run g e evs) (Keeps ws)
  unfolding run
  run-Keeps e [] v same at = (v, same, tt)
  run-Keeps e (ev ∷ evs) v same (here, at) =
      Returns-bind (Keeps ws) (Keeps ws) (apply g e ev) _
        (λ r h.
          Returns-bind (Keeps ws) (Keeps ws) (run g r.0 evs) _
            (λ q k. (k.0, k.1, All-append (IsShared ws) r.1 q.1 h.2 k.2))
            (run-Keeps r.0 evs h.0 h.1 at))
        (apply-Keeps e ev v same here)

-- From an engine that `NewEngine` returns, no history of frames at its ports, sweeps and changes
-- of the ageing time panics; whatever it sends, it sends out of a port that shares a VLAN with the
-- port where the frame came in, and that is another port; the ports stay wired as configured.
pub run_isolated :
    (g : Gopacket) (cfg : List PortConfig) (ios : List ℕ) (e : Engine) (evs : List Event)
    → new_engine cfg ios ≡ ok e
    → All (IsPlaced (wirings e)) evs
    → Returns (run g e evs) (Keeps (wirings e))
run_isolated g cfg ios e evs built at =
    run-Keeps g (wirings e) e evs (new_engine-IsWired cfg ios built).0 refl at
