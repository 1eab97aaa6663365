-- ===== src/Lifecycle/Shutdown.antt =====
-- The order of `Stop` (internal/goswitch/engine.go): no handle is closed while a goroutine may
-- still use one, and each handle is closed once.
use vibe_switch.Base.{
  ℕ, zero, suc, ◌≡◌, ◌≢◌, ◌⊎◌, inl, inr, refl, ap, sym, ◌∙◌, Bytes, Bool, some, List, [], ◌∷◌, ◌++◌,
  append_assoc, append-nil, map, modify, get_elem?, length, All, All-get, arith,
}
use vibe_switch.Vlan.{Wiring}
use vibe_switch.Frame.{Gopacket}
use vibe_switch.Engine.{Port, Engine, Write, PortConfig, ok, wirings, new_engine, forward}
use vibe_switch.Engine.Wired.{IsWired, Indexed-get, wiring_at}
use vibe_switch.Engine.Run.{sweep, sweep-IsWired}
use vibe_switch.Engine.Construct.{new_engine-IsWired}
use vibe_switch.Engine.Isolation.{forward_isolated}
use mathlib.Core.Path.{subst}
use vibe_switch.Lifecycle.Steps.{
  RxState, checking, reading, forwarding, exited, StopPhase, not_called, waiting, closing, returned,
  System, IsExited, handles, put, start, Step, sees_done, goes_on, times_out, fails, reads,
  forwards, ticks, gc_sees_done, stop_called, group_done, closes, stop_returns, Reach, here, next,
}

-- Once handles are being closed every loop has returned, and the handles closed so far and those
-- to come are the ports' in order; before that none is closed.
abbrev pub IsOrdered : StopPhase → List RxState → List ℕ → List ℕ → Type 0
IsOrdered not_called rx closed all = closed ≡ []
IsOrdered waiting rx closed all = closed ≡ []
IsOrdered (closing rest) rx closed all = All IsExited rx × (all ≡ closed ++ rest)
IsOrdered returned rx closed all = All IsExited rx × (all ≡ closed)

pub record Inv (ws : List Wiring) (s : System) : Type 0 where
  pub wired : IsWired s.engine
  pub same_ports : wirings s.engine ≡ ws
  pub sized : length s.rx ≡ length ws
  pub order : IsOrdered s.stop s.rx s.closed (map (λ (w : Wiring). w.io) ws)

-- A loop that is still running may move.
moved :
    (phase : StopPhase) (rx rx' : List RxState) (closed all : List ℕ) (i : ℕ) (r : RxState)
    → get_elem? rx i ≡ some r
    → r ≢ exited
    → IsOrdered phase rx closed all
    → IsOrdered phase rx' closed all
moved not_called rx rx' closed all i r at alive h = h
moved waiting rx rx' closed all i r at alive h = h
moved (closing rest) rx rx' closed all i r at alive h =
    absurd (alive (All-get IsExited rx i h.0 at))
moved returned rx rx' closed all i r at alive h = absurd (alive (All-get IsExited rx i h.0 at))

length-modify {ℓ} :
    {A : Type ℓ} (xs : List A) (i : ℕ) (f : A → A) → length (modify xs i f) ≡ length xs
length-modify [] i f = refl
length-modify (x ∷ xs) zero f = refl
length-modify (x ∷ xs) (suc i) f = ap suc (length-modify xs i f)

length-map_const {ℓ κ μ} :
    {A : Type ℓ} {B : Type κ} {C : Type μ} (f : A → B) (h : A → C) (xs : List A)
    → length (map f xs) ≡ length (map h xs)
length-map_const f h [] = refl
length-map_const f h (x ∷ xs) = ap suc (length-map_const f h xs)

module _ (g : Gopacket) (ws : List Wiring) where
  rx-Inv :
      (s : System) (i : ℕ) (r r' : RxState)
      → get_elem? s.rx i ≡ some r
      → r ≢ exited
      → Inv ws s
      → Inv ws (record s { rx = put s.rx i r' })
  rx-Inv s i r r' at alive v = record {
    wired = v.wired;
    same_ports = v.same_ports;
    sized = length-modify s.rx i _ ∙ v.sized;
    order = moved s.stop s.rx (put s.rx i r') s.closed _ i r at alive v.order;
  }

  forward-Inv :
      (s : System) (i : ℕ) (frame : Bytes) (p : Port) (now : ℕ) (takes : ℕ → Bytes → Bool)
      (e : Engine) (l : List Write)
      → get_elem? s.rx i ≡ some (forwarding frame)
      → get_elem? s.engine.ports i ≡ some p
      → forward g takes s.engine p frame now ≡ some (e, l)
      → Inv ws s
      → Inv ws (record s { engine = e; rx = put s.rx i checking })
  forward-Inv s i frame p now takes e l at port done v =
      let idx : p.idx ≡ i = omega (
        arith,
        Indexed-get 0 (wirings s.engine) i v.wired.indexed (wiring_at s.engine.ports i port),
      ) in
      let kept = rw done at (
        forward_isolated g takes s.engine p frame now v.wired
          (ap (get_elem? s.engine.ports) idx ∙ port)) in
      record {
        wired = kept.1;
        same_ports = kept.2 ∙ v.same_ports;
        sized = length-modify s.rx i _ ∙ v.sized;
        order =
            moved s.stop s.rx (put s.rx i checking) s.closed _ i (forwarding frame) at (λ x. cc)
              v.order;
      }

  pub Step-Inv : {s t : System} → Step g s t → Inv ws s → Inv ws t
  unfolding sweep
  Step-Inv {s} (sees_done i at d e) v =
      subst (Inv ws) (sym e) (rx-Inv s i checking exited at (λ x. cc) v)
  Step-Inv {s} (goes_on i at d e) v =
      subst (Inv ws) (sym e) (rx-Inv s i checking reading at (λ x. cc) v)
  Step-Inv {s} (times_out i at e) v =
      subst (Inv ws) (sym e) (rx-Inv s i reading checking at (λ x. cc) v)
  Step-Inv {s} (fails i at e) v = subst (Inv ws) (sym e) (rx-Inv s i reading exited at (λ x. cc) v)
  Step-Inv {s} (reads i f at e) v =
      subst (Inv ws) (sym e) (rx-Inv s i reading (forwarding f) at (λ x. cc) v)
  Step-Inv {s} (forwards i f p now takes en l at port done e) v =
      subst (Inv ws) (sym e) (forward-Inv s i f p now takes en l at port done v)
  Step-Inv {s} (ticks now at e) v = subst (Inv ws) (sym e) (record {
    wired = sweep-IsWired s.engine now v.wired;
    same_ports = v.same_ports;
    sized = v.sized;
    order = v.order;
  })
  Step-Inv {s} (gc_sees_done at d e) v =
      subst (Inv ws) (sym e)
        (record { wired = v.wired; same_ports = v.same_ports; sized = v.sized; order = v.order })
  Step-Inv {s} (stop_called at e) v = subst (Inv ws) (sym e) (record {
    wired = v.wired;
    same_ports = v.same_ports;
    sized = v.sized;
    order = subst (λ ph. IsOrdered ph s.rx s.closed (map (λ (w : Wiring). w.io) ws)) at v.order;
  })
  Step-Inv {s} (group_done at all gone e) v =
      let none_closed =
        subst (λ ph. IsOrdered ph s.rx s.closed (map (λ (w : Wiring). w.io) ws)) at v.order in
      subst (Inv ws) (sym e) (record {
        wired = v.wired;
        same_ports = v.same_ports;
        sized = v.sized;
        order = (
          all,
          ap (map (λ (w : Wiring). w.io)) (sym v.same_ports)
              ∙ sym (ap (λ c. c ++ handles s.engine) none_closed),
        );
      })
  Step-Inv {s} (closes io rest at e) v =
      let o = subst (λ ph. IsOrdered ph s.rx s.closed (map (λ (w : Wiring). w.io) ws)) at v.order in
      subst (Inv ws) (sym e) (record {
        wired = v.wired;
        same_ports = v.same_ports;
        sized = v.sized;
        order = (o.0, o.1 ∙ sym (append_assoc s.closed (io ∷ []) rest));
      })
  Step-Inv {s} (stop_returns at e) v =
      let o = subst (λ ph. IsOrdered ph s.rx s.closed (map (λ (w : Wiring). w.io) ws)) at v.order in
      subst (Inv ws) (sym e) (record {
        wired = v.wired;
        same_ports = v.same_ports;
        sized = v.sized;
        order = (o.0, o.1 ∙ append-nil s.closed);
      })

  pub Reach-Inv : {s t : System} → Reach g s t → Inv ws s → Inv ws t
  Reach-Inv here v = v
  Reach-Inv (next r st) v = Step-Inv st (Reach-Inv r v)

start-Inv : (e : Engine) → IsWired e → Inv (wirings e) (start e)
unfolding start
start-Inv e v = record {
  wired = v;
  same_ports = refl;
  sized = length-map_const _ _ e.ports;
  order = refl;
}

pub reached-Inv :
    (g : Gopacket) (cfg : List PortConfig) (ios : List ℕ) (e : Engine) {t : System}
    → new_engine cfg ios ≡ ok e
    → Reach g (start e) t
    → Inv (wirings e) t
reached-Inv g cfg ios e built r =
    Reach-Inv g (wirings e) r (start-Inv e (new_engine-IsWired cfg ios built).0)

closed_order :
    (phase : StopPhase) (rx : List RxState) (closed all : List ℕ)
    → IsOrdered phase rx closed all
    → (closed ≡ []) ⊎ All IsExited rx
closed_order not_called rx closed all h = inl h
closed_order waiting rx closed all h = inl h
closed_order (closing rest) rx closed all h = inr h.0
closed_order returned rx closed all h = inr h.0

-- From the start of an engine that `NewEngine` returned, in every interleaving of the loops, the
-- sweeper and `Stop`, as long as one `rxLoop` has not returned no handle has been closed.
pub close_waits :
    (g : Gopacket) (cfg : List PortConfig) (ios : List ℕ) (e : Engine) {t : System}
    → new_engine cfg ios ≡ ok e
    → Reach g (start e) t
    → (t.closed ≡ []) ⊎ All IsExited t.rx
close_waits g cfg ios e {t} built r =
    closed_order t.stop t.rx t.closed _ (reached-Inv g cfg ios e built r).order

-- From the start of an engine that `NewEngine` returned, when `Stop` has returned, the handles of
-- all ports have been closed, each once and in order.
pub stop_closes_all :
    (g : Gopacket) (cfg : List PortConfig) (ios : List ℕ) (e : Engine) {t : System}
    → new_engine cfg ios ≡ ok e
    → Reach g (start e) t
    → t.stop ≡ returned
    → t.closed ≡ handles e
stop_closes_all g cfg ios e {t} built r end =
    let all = map (λ (w : Wiring). w.io) (wirings e) in
    sym (subst (λ ph. IsOrdered ph t.rx t.closed all) end (reached-Inv g cfg ios e built r).order).1
