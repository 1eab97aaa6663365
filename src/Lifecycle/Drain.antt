-- ===== src/Lifecycle/Drain.antt =====
-- `Stop` (internal/goswitch/engine.go) can always finish: the loops drain once `done` is closed.
use vibe_switch.Base.{
  ℕ, zero, suc, ◌+◌, ◌≤◌, ◌<◌, ◌≡◌, ◌≢◌, ◌⊎◌, inl, inr, refl, ap, sym, ◌∙◌, Bytes, Bool, true, some,
  List, [], ◌∷◌, ◌++◌, map, get_elem?, length, All, arith, Option-cases,
}
use mathlib.Core.Path.{subst}
use mathlib.Core.Option.{some-injective}
use vibe_switch.Vlan.{Wiring}
use vibe_switch.Frame.{Gopacket}
use vibe_switch.Engine.{Port, Engine, PortConfig, ok, wirings, new_engine, forward}
use vibe_switch.Engine.Wired.{Indexed-get, wiring_at}
use vibe_switch.Engine.Isolation.{forward_isolated}
use vibe_switch.Lifecycle.Steps.{
  RxState, checking, reading, forwarding, exited, GcState, ticking, finished, StopPhase, not_called,
  waiting, closing, returned, System, IsExited, handles, put, start, Step, sees_done, goes_on,
  times_out, fails, reads, forwards, ticks, gc_sees_done, stop_called, group_done, closes,
  stop_returns, Reach, here, next,
}
use vibe_switch.Lifecycle.Shutdown.{Inv, Step-Inv, reached-Inv}

-- The steps that a loop may still make once `done` is closed and no frame comes in.
abbrev pub cost : RxState → ℕ
cost exited = 0
cost checking = 1
cost reading = 2
cost (forwarding f) = 2

abbrev pub activity : List RxState → ℕ
activity [] = 0
activity (r ∷ rx) = cost r + activity rx

activity-put :
    (rx : List RxState) (i : ℕ) (r r' : RxState)
    → get_elem? rx i ≡ some r
    → activity (put rx i r') + cost r ≡ activity rx + cost r'
activity-put [] i r r' h = cc
activity-put (x ∷ rx) zero r r' h = omega (arith, ap cost (some-injective x r h))
activity-put (x ∷ rx) (suc i) r r' h = omega (arith, activity-put rx i r r' h)

-- A list of ports has one at each index of a list as long.
port_there :
    (ps : List Port) (rx : List RxState) (i : ℕ) {r : RxState}
    → length rx ≡ length (map (λ (p : Port). p.wiring) ps)
    → get_elem? rx i ≡ some r
    → (p : Port) × (get_elem? ps i ≡ some p)
port_there ps [] i h at = cc
port_there [] (x ∷ rx) i h at = absurd (omega arith)
port_there (p ∷ ps) (x ∷ rx) zero h at = (p, refl)
port_there (p ∷ ps) (x ∷ rx) (suc i) h at = port_there ps rx i (omega arith) at

-- Some loop has not returned, or all have.
alive_or_exited :
    (rx : List RxState)
    → All IsExited rx ⊎ ((i : ℕ) × (r : RxState) × (get_elem? rx i ≡ some r) × (r ≢ exited))
alive_or_exited [] = inl tt
alive_or_exited (exited ∷ rx) = elim (alive_or_exited rx) [
  | inl all ↦ inl (refl, all)
  | inr (i, r, at, alive) ↦ inr (suc i, r, at, alive)
]
alive_or_exited (checking ∷ rx) = inr (0, checking, refl, λ e. cc)
alive_or_exited (reading ∷ rx) = inr (0, reading, refl, λ e. cc)
alive_or_exited (forwarding f ∷ rx) = inr (0, forwarding f, refl, λ e. cc)

gc_cases : (x : GcState) → (x ≡ ticking) ⊎ (x ≡ finished)
gc_cases ticking = inl refl
gc_cases finished = inr refl

module _ (g : Gopacket) (ws : List Wiring) where
  -- A step of a loop after which less is left to do.
  abbrev IsDraining : System → System → Type 0
  IsDraining s t =
      Step g s t × (t.done ≡ s.done) × (t.stop ≡ s.stop) × (activity t.rx < activity s.rx)

  forward_step :
      (s : System) (i : ℕ) (frame : Bytes)
      → Inv ws s
      → get_elem? s.rx i ≡ some (forwarding frame)
      → (t : System) × IsDraining s t
  forward_step s i frame v at =
      let (p, port) =
        port_there s.engine.ports s.rx i (v.sized ∙ ap length (sym v.same_ports)) at in
      let idx : p.idx ≡ i = omega (
        arith,
        Indexed-get 0 (wirings s.engine) i v.wired.indexed (wiring_at s.engine.ports i port),
      ) in
      let takes = λ (io : ℕ) (b : Bytes). true in
      let kept =
        forward_isolated g takes s.engine p frame 0 v.wired
          (ap (get_elem? s.engine.ports) idx ∙ port) in
      elim (Option-cases (forward g takes s.engine p frame 0)) [
        | inl panic ↦ elim (rw panic at kept) [ ]
        | inr ((e, l), done) ↦ (
          record s { engine = e; rx = put s.rx i checking },
          (
            forwards i frame p 0 takes e l at port done refl,
            refl,
            refl,
            omega (arith, activity-put s.rx i (forwarding frame) checking at),
          ),
        )
      ]

  drain_step :
      (s : System) (i : ℕ) (r : RxState)
      → Inv ws s
      → s.done ≡ true
      → get_elem? s.rx i ≡ some r
      → r ≢ exited
      → (t : System) × IsDraining s t
  drain_step s i exited v d at alive = absurd (alive refl)
  drain_step s i checking v d at alive = (
    record s { rx = put s.rx i exited },
    (sees_done i at d refl, refl, refl, omega (arith, activity-put s.rx i checking exited at)),
  )
  drain_step s i reading v d at alive = (
    record s { rx = put s.rx i checking },
    (times_out i at refl, refl, refl, omega (arith, activity-put s.rx i reading checking at)),
  )
  drain_step s i (forwarding f) v d at alive = forward_step s i f v at

  drains :
      (n : ℕ) (s₀ s : System)
      → activity s.rx ≤ n
      → Reach g s₀ s
      → Inv ws s
      → s.done ≡ true
      → (t : System) × Reach g s₀ t × All IsExited t.rx × (t.done ≡ true) × (t.stop ≡ s.stop)
  drains zero s₀ s le r v d = elim (alive_or_exited s.rx) [
    | inl all ↦ (s, r, all, d, refl)
    | inr (i, x, at, alive) ↦
        let (t, st) = drain_step s i x v d at alive in absurd (omega (arith, st.3))
  ]
  drains (suc n) s₀ s le r v d = elim (alive_or_exited s.rx) [
    | inl all ↦ (s, r, all, d, refl)
    | inr (i, x, at, alive) ↦
        let (t, st) = drain_step s i x v d at alive in
        let (u, reach, all, du, same) =
          drains n s₀ t (omega (arith, st.3)) (next r st.0) (Step-Inv g ws st.0 v) (st.1 ∙ d) in
        (u, reach, all, du, same ∙ st.2)
  ]

  -- The sweeper returns too.
  sweeper_returns :
      (s₀ s : System)
      → Reach g s₀ s
      → All IsExited s.rx
      → s.done ≡ true
      → (t : System) × Reach g s₀ t × All IsExited t.rx × (t.gc ≡ finished) × (t.stop ≡ s.stop)
  sweeper_returns s₀ s r all d = elim (gc_cases s.gc) [
    | inl running ↦
        (record s { gc = finished }, next r (gc_sees_done running d refl), all, refl, refl)
    | inr gone ↦ (s, r, all, gone, refl)
  ]

  -- The rest of the handles are closed.
  closes_rest :
      (rest : List ℕ) (s₀ s : System)
      → Reach g s₀ s
      → s.stop ≡ closing rest
      → (t : System) × Reach g s₀ t × (t.stop ≡ returned)
  closes_rest [] s₀ s r at = (record s { stop = returned }, next r (stop_returns at refl), refl)
  closes_rest (io ∷ rest) s₀ s r at =
      closes_rest rest s₀ (record s { stop = closing rest; closed = s.closed ++ io ∷ [] })
        (next r (closes io rest at refl)) refl

-- A `Stop` that has been called has closed `done`.
abbrev IsMarked : StopPhase → Bool → Type 0
IsMarked not_called done = Unit
IsMarked waiting done = done ≡ true
IsMarked (closing ios) done = done ≡ true
IsMarked returned done = done ≡ true

abbrev Marked : System → Type 0
Marked s = IsMarked s.stop s.done

module _ (g : Gopacket) where
  Step-Marked : {s t : System} → Step g s t → Marked s → Marked t
  Step-Marked (sees_done i at d e) m = subst Marked (sym e) m
  Step-Marked (goes_on i at d e) m = subst Marked (sym e) m
  Step-Marked (times_out i at e) m = subst Marked (sym e) m
  Step-Marked (fails i at e) m = subst Marked (sym e) m
  Step-Marked (reads i f at e) m = subst Marked (sym e) m
  Step-Marked (forwards i f p now takes en l at port done e) m = subst Marked (sym e) m
  Step-Marked (ticks now at e) m = subst Marked (sym e) m
  Step-Marked (gc_sees_done at d e) m = subst Marked (sym e) m
  Step-Marked (stop_called at e) m = subst Marked (sym e) refl
  Step-Marked {s} (group_done at gone end e) m =
      subst Marked (sym e) (subst (λ p. IsMarked p s.done) at m)
  Step-Marked {s} (closes io rest at e) m =
      subst Marked (sym e) (subst (λ p. IsMarked p s.done) at m)
  Step-Marked {s} (stop_returns at e) m = subst Marked (sym e) (subst (λ p. IsMarked p s.done) at m)

  Reach-Marked : {s t : System} → Reach g s t → Marked s → Marked t
  Reach-Marked here m = m
  Reach-Marked (next r st) m = Step-Marked st (Reach-Marked r m)

  start-Marked : (e : Engine) → Marked (start e)
  unfolding start
  start-Marked e = tt

pub stop_can_return :
    (g : Gopacket) (cfg : List PortConfig) (ios : List ℕ) (e : Engine) {s : System}
    → new_engine cfg ios ≡ ok e
    → Reach g (start e) s
    → s.stop ≡ waiting
    → (t : System) × Reach g (start e) t × (t.stop ≡ returned)
stop_can_return g cfg ios e {s} built r at =
    let d : s.done ≡ true =
      subst (λ p. IsMarked p s.done) at (Reach-Marked g r (start-Marked g e)) in
    let (t, rt, all, dt, same) =
      drains g (wirings e) (activity s.rx) (start e) s (omega arith) r
        (reached-Inv g cfg ios e built r) d in
    let (u, ru, all', gone, same') = sweeper_returns g (wirings e) (start e) t rt all dt in
    closes_rest g (wirings e) (handles u.engine) (start e)
      (record u { stop = closing (handles u.engine) })
      (next ru (group_done (same' ∙ same ∙ at) all' gone refl)) refl
