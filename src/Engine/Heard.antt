-- ===== src/Engine/Heard.antt =====
-- What the forwarding database has been told over a history of an engine (`forward`, `gcLoop`,
-- internal/goswitch/engine.go).
use mathlib.Core.Path.{subst}
use vibe_switch.Base.{
  ℕ, ◌≤◌, ◌≡◌, ap, sym, ◌∙◌, Bytes, Bool, Option, none, some, List, [], ◌∷◌, ◌++◌, get_elem?, All,
  Option-cases, Bool-cases, inl, inr, Returns, arith, if◌then◌else◌,
}
use vibe_switch.Base.Int.{ℤ}
use vibe_switch.Vlan.{Wiring}
use vibe_switch.Fdb.History
use vibe_switch.Fdb.History.{Call, learns, reaps, empty, last_learned, SweptBy, lookup-run}
use vibe_switch.Frame.{Gopacket, FrameView, is_group, copy_mac}
use vibe_switch.Engine.{Port, Engine, Write, wirings, forward}
use vibe_switch.Engine.Wired.{IsWired, Indexed-get, port_at, wiring_at}
use vibe_switch.Engine.Switching.{Has}
use vibe_switch.Engine.Admission.{admitted, Forwarded, forward_lem}
use vibe_switch.Engine.Run.{
  Event, arrives, sweeps, sets_ageing, Sent, receive, apply, run, sweep, IsPlaced, Keeps,
  apply-Keeps,
}

-- What the table is told of a frame.
abbrev pub noted : ℕ → ℕ → Option (FrameView × ℕ) → List Call
noted i now none = []
noted i now (some (fv, vid)) =
    if is_group fv.src then [] else learns vid (copy_mac fv.src) i now ∷ []

Returns-at {ℓ κ} :
    {A : Type ℓ} (P : A → Type κ) (o : Option A) {a : A} → Returns o P → o ≡ some a → P a
Returns-at P o r e = subst (λ q. Returns q P) e r

pub noted-SweptBy :
    (t i now : ℕ) (o : Option (FrameView × ℕ)) (past : List Call)
    → SweptBy t past
    → SweptBy t (noted i now o ++ past)
noted-SweptBy t i now none past swept = swept
noted-SweptBy t i now (some (fv, vid)) past swept = elim (Bool-cases (is_group fv.src)) [
  | inl group ↦
      subst (λ b. SweptBy t ((if b then [] else learns vid (copy_mac fv.src) i now ∷ []) ++ past))
        (sym group) swept
  | inr single ↦
      subst (λ b. SweptBy t ((if b then [] else learns vid (copy_mac fv.src) i now ∷ []) ++ past))
        (sym single) swept
]

-- A frame or a sweep, and no sweep later than the time.
abbrev pub IsBefore : ℕ → Event → Type 0
IsBefore t (arrives i frame now takes) = Unit {0}
IsBefore t (sweeps now) = now ≤ t
IsBefore t (sets_ageing d) = ⊥

abbrev pub Told : ℤ → List Call → Engine → Type 0
Told age calls e = e.fdb ≡ History.run (empty age) calls

module _ (g : Gopacket) where
  abbrev pub heard : Engine → Event → List Call
  heard e (arrives i frame now takes) = elim (get_elem? e.ports i) [
    | none ↦ []
    | some p ↦ noted p.idx now (admitted g p frame)
  ]
  heard e (sweeps now) = reaps now ∷ []
  heard e (sets_ageing d) = []

  -- The calls of the table over a history, the newest first, behind those of the past.
  abbrev pub calls_from : Engine → List Event → List Call → List Call
  calls_from e [] past = past
  calls_from e (ev ∷ evs) past = elim (apply g e ev) [
    | none ↦ past
    | some r ↦ calls_from r.0 evs (heard e ev ++ past)
  ]

  pub noted-fdb :
      (age : ℤ) (past : List Call) (e : Engine) (p : Port) (now : ℕ) (takes : ℕ → Bytes → Bool)
      (o : Option (FrameView × ℕ)) (r : Engine × List Write)
      → Told age past e
      → Forwarded g takes e p now o r
      → Told age (noted p.idx now o ++ past) r.0
  unfolding History.run History.apply
  noted-fdb age past e p now takes none r told done = done.table ∙ told
  noted-fdb age past e p now takes (some (fv, vid)) r told done =
      elim (Bool-cases (is_group fv.src)) [
        | inl group ↦ rw group (ground (arith, done.table, told, group))
        | inr single ↦ rw single (ground (arith, done.table, told, single))
      ]

  apply-Told :
      (age : ℤ) (past : List Call) (t : ℕ) (ws : List Wiring) (e : Engine) {r : Engine × List Sent}
      (ev : Event)
      → IsWired e
      → wirings e ≡ ws
      → IsPlaced ws ev
      → IsBefore t ev
      → Told age past e
      → apply g e ev ≡ some r
      → Told age (heard e ev ++ past) r.0
  unfolding apply receive sweep History.run History.apply
  apply-Told age past t ws e {r} (arrives i frame now takes) v same (w, at) before told done =
      let (p, here, eq) = port_at e.ports i {w = w} (rw same at) in
      let idx : p.idx ≡ i =
        omega (arith, Indexed-get 0 (wirings e) i v.indexed (wiring_at e.ports i here)) in
      let has : Has e p = ap (get_elem? e.ports) idx ∙ here in
      elim (Option-cases (forward g takes e p frame now)) [
        | inl panics ↦ absurd (ground (arith, here, panics))
        | inr (q, gone) ↦
            let all =
              Returns-at (Forwarded g takes e p now (admitted g p frame)) _
                (forward_lem g takes e p frame now v has) gone in
            let kept = noted-fdb age past e p now takes (admitted g p frame) q told all in
            let told_by : heard e (arrives i frame now takes)
                ≡ noted p.idx now (admitted g p frame) =
              ground (arith, here) in
            let after : r.0 ≡ q.0 = ground (arith, here, gone, done) in
            ap (λ (x : Engine). x.fdb) after
            ∙ kept
            ∙ ap (λ c. History.run (empty age) (c ++ past)) (sym told_by)
      ]
  apply-Told age past t ws e (sweeps now) v same at before told done = ground (arith, told)
  apply-Told age past t ws e (sets_ageing d) v same at before told done = elim before [ ]

  pub run_from-Told :
      (age : ℤ) (past : List Call) (t : ℕ) (ws : List Wiring) (e : Engine) {r : Engine × List Sent}
      (evs : List Event)
      → IsWired e
      → wirings e ≡ ws
      → All (IsPlaced ws) evs
      → All (IsBefore t) evs
      → Told age past e
      → run g e evs ≡ some r
      → IsWired r.0 × (wirings r.0 ≡ ws) × Told age (calls_from e evs past) r.0
  unfolding run
  run_from-Told age past t ws e {r} [] v same at before told done =
      let after : r.0 ≡ e = ground (arith, done) in rw after (v, same, told)
  run_from-Told age past t ws e {r} (ev ∷ evs) v same (here, at) (by, before) told done =
      elim (Option-cases (apply g e ev)) [
        | inl panics ↦ absurd (ground (arith, panics))
        | inr (q, stepped) ↦ elim (Option-cases (run g q.0 evs)) [
          | inl panics ↦ absurd (ground (arith, stepped, panics))
          | inr (u, rest) ↦
              let kept = Returns-at (Keeps ws) _ (apply-Keeps g ws e ev v same here) stepped in
              let ih =
                run_from-Told age (heard e ev ++ past) t ws q.0 evs kept.0 kept.1 at before
                  (apply-Told age past t ws e ev v same here by told stepped) rest in
              let after : r.0 ≡ u.0 = ground (arith, stepped, rest, done) in
              let behind : calls_from e (ev ∷ evs) past ≡ calls_from q.0 evs (heard e ev ++ past) =
                ground (arith, stepped) in
              rw (after, behind) ih
        ]
      ]

  heard-SweptBy :
      (t : ℕ) (e : Engine) (ev : Event) (past : List Call)
      → IsBefore t ev
      → SweptBy t past
      → SweptBy t (heard e ev ++ past)
  heard-SweptBy t e (arrives i frame now takes) past by swept =
      elim (Option-cases (get_elem? e.ports i)) [
        | inl miss ↦ rw (miss, ◌++◌) swept
        | inr (p, here) ↦
            rw (here, ◌++◌) (noted-SweptBy t p.idx now (admitted g p frame) past swept)
      ]
  heard-SweptBy t e (sweeps now) past by swept = (by, swept)
  heard-SweptBy t e (sets_ageing d) past by swept = swept

  pub calls_from-SweptBy :
      (t : ℕ) (past : List Call) (e : Engine) (evs : List Event)
      → All (IsBefore t) evs
      → SweptBy t past
      → SweptBy t (calls_from e evs past)
  calls_from-SweptBy t past e [] before swept = swept
  calls_from-SweptBy t past e (ev ∷ evs) (by, before) swept = elim (Option-cases (apply g e ev)) [
    | inl panics ↦
        let behind : calls_from e (ev ∷ evs) past ≡ past = ground (arith, panics) in
        subst (SweptBy t) (sym behind) swept
    | inr (r, stepped) ↦
        let behind : calls_from e (ev ∷ evs) past ≡ calls_from r.0 evs (heard e ev ++ past) =
          ground (arith, stepped) in
        subst (SweptBy t) (sym behind) (
          calls_from-SweptBy t (heard e ev ++ past) r.0 evs before
            (heard-SweptBy t e ev past by swept))
  ]
