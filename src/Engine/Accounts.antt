-- ===== src/Engine/Accounts.antt =====
-- The counters after a history (`forward`, internal/goswitch/engine.go, and the loops that call it).
use vibe_switch.Base.{
  ℕ, ◌+◌, ◌≡◌, refl, ap, ◌∙◌, Bytes, Bool, Option, none, some, List, [], ◌∷◌, ◌++◌, ◌==◌, map,
  get_elem?, All, length, ◌≤◌, arith, Option-cases, inl, inr, if◌then◌else◌, Returns, Returns-bind,
}
use mathlib.Core.Path.{subst}
use mathlib.Core.Option.{some-injective}
use vibe_switch.Frame.{Gopacket}
use vibe_switch.Vlan.{Wiring}
use vibe_switch.Engine.{PortConfig, Engine, Write, wirings, forward, new_engine, ok, set_ageing}
use vibe_switch.Engine.Counters.{Happened, nothing, both, IsBooked-nothing, Booked, Booked-trans}
use vibe_switch.Engine.Run.{
  Event, arrives, sweeps, sets_ageing, Sent, receive, apply, run, sweep, IsPlaced, Keeps,
  apply-Keeps,
}
use vibe_switch.Engine.Wired.{IsWired, Indexed-get, wiring_at}
use vibe_switch.Engine.Construct.{new_engine-IsWired}
use vibe_switch.Engine.Outcome.{forward-Booked}

-- The frames that arrive at a port, and their bytes.
abbrev pub arrivals : ℕ → List Event → ℕ
arrivals i [] = 0
arrivals i (arrives j frame now takes ∷ evs) = (if j == i then 1 else 0) + arrivals i evs
arrivals i (sweeps now ∷ evs) = arrivals i evs
arrivals i (sets_ageing d ∷ evs) = arrivals i evs

abbrev pub arrived_bytes : ℕ → List Event → ℕ
arrived_bytes i [] = 0
arrived_bytes i (arrives j frame now takes ∷ evs) =
    (if j == i then length frame else 0) + arrived_bytes i evs
arrived_bytes i (sweeps now ∷ evs) = arrived_bytes i evs
arrived_bytes i (sets_ageing d ∷ evs) = arrived_bytes i evs

-- What happened to a port during a history: no frame was flooded and dropped, or twice.
pub record IsHistory (i : ℕ) (evs : List Event) (m : Happened) : Type 0 where
  pub frames : m.frames ≡ arrivals i evs
  pub bytes : m.bytes ≡ arrived_bytes i evs
  pub at_most_once : m.flooded + m.dropped ≤ m.frames

abbrev pub writes_of : List Sent → List Write
writes_of = map (λ (s : Sent). s.write)

writes_of-append : (xs ys : List Sent) → writes_of (xs ++ ys) ≡ writes_of xs ++ writes_of ys
writes_of-append [] ys = refl
writes_of-append (x ∷ xs) ys = ap (◌∷◌ x.write) (writes_of-append xs ys)

writes_of_frame :
    (ingress : ℕ) (ws : List Write)
    → writes_of (map (λ w. record { ingress = ingress; write = w }) ws) ≡ ws
writes_of_frame ingress [] = refl
writes_of_frame ingress (w ∷ ws) = ap (◌∷◌ w) (writes_of_frame ingress ws)

Returns-both {ℓ κ μ} :
    {A : Type ℓ} (P : A → Type κ) (Q : A → Type μ) (o : Option A)
    → Returns o P
    → ((a : A) → o ≡ some a → Q a)
    → Returns o (λ a. P a × Q a)
Returns-both P Q none h k = elim h [ ]
Returns-both P Q (some a) h k = (h, k a refl)

-- What happened during a history, and the counters that tell of it.
abbrev pub Books : ℕ → List Event → Engine → Engine × List Sent → Type 0
Books i evs e r = (m : Happened) × IsHistory i evs m × Booked i m (writes_of r.1) e r.0

IsHistory-nothing : (i : ℕ) → IsHistory i [] nothing
IsHistory-nothing i = omega arith

IsHistory-both :
    (i : ℕ) (ev : Event) (evs : List Event) (m n : Happened)
    → IsHistory i (ev ∷ []) m
    → IsHistory i evs n
    → IsHistory i (ev ∷ evs) (both m n)
IsHistory-both i (arrives j frame now takes) evs m n h k = omega arith
IsHistory-both i (sweeps now) evs m n h k = omega arith
IsHistory-both i (sets_ageing d) evs m n h k = omega arith

module _ (g : Gopacket) (i : ℕ) where
  receive-Books :
      (e : Engine) (j : ℕ) (frame : Bytes) (now : ℕ) (takes : ℕ → Bytes → Bool)
      (r : Engine × List Sent)
      → IsWired e
      → receive g e j frame now takes ≡ some r
      → Books i (arrives j frame now takes ∷ []) e r
  unfolding receive
  receive-Books e j frame now takes r v h = elim (Option-cases (get_elem? e.ports j)) [
    | inl miss ↦ absurd (ground arith)
    | inr (p, at) ↦ elim (Option-cases (forward g takes e p frame now)) [
      | inl miss ↦ absurd (ground arith)
      | inr ((e', ws), done) ↦
          let idx : p.idx ≡ j =
            Indexed-get 0 (wirings e) j v.indexed (wiring_at e.ports j at) ∙ omega arith in
          let (m, heard_once, b) = forward-Booked g takes i e p frame now (e', ws) done in
          let same : (e', map (λ w. record { ingress = p.idx; write = w }) ws) ≡ r =
            some-injective _ _ (rw (← h, at, done, receive) refl) in
          subst (Books i (arrives j frame now takes ∷ []) e) same (
            m,
            rw (← idx) (record {
              frames = omega (arith, heard_once.frames);
              bytes = omega (arith, heard_once.bytes);
              at_most_once = omega (arith, heard_once.at_most_once, heard_once.frames);
            }),
            rw (writes_of_frame p.idx ws) b,
          )
    ]
  ]

  nothing-Booked : (e : Engine) → Booked i nothing [] e e
  nothing-Booked e s at = (s, at, IsBooked-nothing i s)

  apply-Books :
      (e : Engine) (ev : Event) (r : Engine × List Sent)
      → IsWired e
      → apply g e ev ≡ some r
      → Books i (ev ∷ []) e r
  unfolding apply sweep set_ageing
  apply-Books e (arrives j frame now takes) r v h = receive-Books e j frame now takes r v h
  apply-Books e (sweeps now) r v h =
      subst (Books i (sweeps now ∷ []) e) (some-injective _ _ h)
        (nothing, omega arith, nothing-Booked e)
  apply-Books e (sets_ageing d) r v h =
      subst (Books i (sets_ageing d ∷ []) e) (some-injective _ _ h)
        (nothing, omega arith, nothing-Booked e)

  Books-append :
      (e : Engine) (ev : Event) (evs : List Event) (r q : Engine × List Sent)
      → Books i (ev ∷ []) e r
      → Books i evs r.0 q
      → Books i (ev ∷ evs) e (q.0, r.1 ++ q.1)
  Books-append e ev evs r q (m, h, b) (n, k, c) = (
    both m n,
    IsHistory-both i ev evs m n h k,
    rw (writes_of-append r.1 q.1)
        (Booked-trans i m n (writes_of r.1) (writes_of q.1) e r.0 q.0 b c),
  )

  run_from-Books :
      (ws : List Wiring) (e : Engine) (evs : List Event)
      → IsWired e
      → wirings e ≡ ws
      → All (IsPlaced ws) evs
      → Returns (run g e evs) (Books i evs e)
  unfolding run
  run_from-Books ws e [] v same at = (nothing, IsHistory-nothing i, nothing-Booked e)
  run_from-Books ws e (ev ∷ evs) v same (here, at) =
      Returns-bind (λ r. Keeps ws r × Books i (ev ∷ []) e r) _ (apply g e ev) _
        (λ r h.
          Returns-bind (Books i evs r.0) _ (run g r.0 evs) _
            (λ q k. Books-append e ev evs r q h.1 k) (run_from-Books ws r.0 evs h.0.0 h.0.1 at))
        (Returns-both (Keeps ws) _ (apply g e ev) (apply-Keeps g ws e ev v same here)
          (λ r. apply-Books e ev r v))

-- From an engine that `NewEngine` returns, over any history of frames at its ports, sweeps and
-- changes of the ageing time, all counters of every port tell, modulo 2^64, what happened: the
-- received frames and bytes went up by the frames that arrived there, the sent frames and bytes by
-- the writes to it that were taken, and the transmit drops by the writes to it that were refused;
-- the frames counted as flooded and those counted as dropped are together no more than arrived.
pub run-Booked :
    (g : Gopacket) (cfg : List PortConfig) (ios : List ℕ) (e : Engine) (evs : List Event) (i : ℕ)
    → new_engine cfg ios ≡ ok e
    → All (IsPlaced (wirings e)) evs
    → Returns (run g e evs) (Books i evs e)
run-Booked g cfg ios e evs i built at =
    run_from-Books g i (wirings e) e evs (new_engine-IsWired cfg ios built).0 refl at
