-- ===== src/Lifecycle/Bound.antt =====
-- How many steps the goroutines of an engine (internal/goswitch/engine.go,
-- internal/goswitch/afpacket.go) can take once `Stop` has closed `done`.
use mathlib.Core.Path.{subst}
use mathlib.Core.Option.{some-injective}
use vibe_switch.Base.{
  ℕ, zero, suc, ◌+◌, ◌*◌, ◌≤◌, ◌≡◌, refl, ap, sym, true, some, List, [], ◌∷◌, map, get_elem?,
  length, length-append, arith,
}
use vibe_switch.Vlan.{Wiring}
use vibe_switch.Frame.{Gopacket}
use vibe_switch.Engine.{Engine, PortConfig, ok, wirings, new_engine}
use vibe_switch.Lifecycle.Steps.{
  RxState, checking, reading, forwarding, exited, GcState, ticking, finished, StopPhase, not_called,
  waiting, closing, returned, System, put, start, Step, sees_done, goes_on, times_out, fails, reads,
  forwards, ticks, gc_sees_done, stop_called, group_done, closes, stop_returns, Reach, here, next,
}
use vibe_switch.Lifecycle.Shutdown.{IsOrdered, Inv, Step-Inv, reached-Inv}

-- The steps that are left to a loop, to the sweeper besides its sweeps, and to `Stop`.
abbrev rx_left : RxState → ℕ
rx_left exited = 0
rx_left checking = 1
rx_left (forwarding f) = 2
rx_left reading = 3

abbrev loops_left : List RxState → ℕ
loops_left [] = 0
loops_left (r ∷ rx) = rx_left r + loops_left rx

abbrev gc_left : GcState → ℕ
gc_left ticking = 1
gc_left finished = 0

abbrev stop_left : ℕ → StopPhase → ℕ
stop_left n not_called = n + 3
stop_left n waiting = n + 2
stop_left n (closing ios) = length ios + 1
stop_left n returned = 0

abbrev left : ℕ → System → ℕ
left n s = loops_left s.rx + gc_left s.gc + stop_left n s.stop

-- A sweep is not counted.
abbrev pub counted : {g : Gopacket} {s t : System} → Step g s t → ℕ
counted (ticks now at e) = 0
counted (sees_done i at d e) = 1
counted (goes_on i at d e) = 1
counted (times_out i at e) = 1
counted (fails i at e) = 1
counted (reads i f at e) = 1
counted (forwards i f p now takes en l at port done e) = 1
counted (gc_sees_done at d e) = 1
counted (stop_called at e) = 1
counted (group_done at gone end e) = 1
counted (closes io rest at e) = 1
counted (stop_returns at e) = 1

abbrev pub moves : {g : Gopacket} {s t : System} → Reach g s t → ℕ
moves here = 0
moves (next r st) = moves r + counted st

loops_left-put :
    (rx : List RxState) (i : ℕ) (r r' : RxState)
    → get_elem? rx i ≡ some r
    → loops_left (put rx i r') + rx_left r ≡ loops_left rx + rx_left r'
loops_left-put [] i r r' h = cc
loops_left-put (x ∷ rx) zero r r' h = omega (arith, ap rx_left (some-injective x r h))
loops_left-put (x ∷ rx) (suc i) r r' h = omega (arith, loops_left-put rx i r r' h)

loops_left-le : (rx : List RxState) → loops_left rx ≤ 3 * length rx
loops_left-le [] = omega arith
loops_left-le (exited ∷ rx) = omega (arith, loops_left-le rx)
loops_left-le (checking ∷ rx) = omega (arith, loops_left-le rx)
loops_left-le (forwarding f ∷ rx) = omega (arith, loops_left-le rx)
loops_left-le (reading ∷ rx) = omega (arith, loops_left-le rx)

length-map {ℓ κ} :
    {A : Type ℓ} {B : Type κ} (f : A → B) (xs : List A) → length (map f xs) ≡ length xs
length-map f [] = refl
length-map f (x ∷ xs) = ap suc (length-map f xs)

gc_left-le : (gc : GcState) → gc_left gc ≤ 1
gc_left-le ticking = omega arith
gc_left-le finished = omega arith

stop_left-le :
    (n : ℕ) (phase : StopPhase) (rx : List RxState) (closed all : List ℕ)
    → IsOrdered phase rx closed all
    → length all ≡ n
    → stop_left n phase ≤ n + 3
stop_left-le n not_called rx closed all h k = omega arith
stop_left-le n waiting rx closed all h k = omega arith
stop_left-le n (closing ios) rx closed all h k =
    omega (arith, length-append closed ios, ap length h.1)
stop_left-le n returned rx closed all h k = omega arith

-- A step from `s` to `t` with a cost uses up what was left.
abbrev Spends : ℕ → ℕ → System → System → Type 0
Spends n spent s t = (t.done ≡ true) × (left n t + spent ≤ left n s)

module _ (g : Gopacket) (ws : List Wiring) where
  abbrev n : ℕ
  n = length ws

  Step-Spends :
      {s t : System} (st : Step g s t) → Inv ws s → s.done ≡ true → Spends n (counted st) s t
  Step-Spends {s} (sees_done i at d e) v h =
      subst (Spends n 1 s) (sym e) (h, omega (arith, loops_left-put s.rx i checking exited at))
  Step-Spends {s} (goes_on i at d e) v h = absurd cc
  Step-Spends {s} (times_out i at e) v h =
      subst (Spends n 1 s) (sym e) (h, omega (arith, loops_left-put s.rx i reading checking at))
  Step-Spends {s} (fails i at e) v h =
      subst (Spends n 1 s) (sym e) (h, omega (arith, loops_left-put s.rx i reading exited at))
  Step-Spends {s} (reads i f at e) v h =
      subst (Spends n 1 s) (sym e)
        (h, omega (arith, loops_left-put s.rx i reading (forwarding f) at))
  Step-Spends {s} (forwards i f p now takes en l at port done e) v h =
      subst (Spends n 1 s) (sym e)
        (h, omega (arith, loops_left-put s.rx i (forwarding f) checking at))
  Step-Spends {s} (ticks now at e) v h = subst (Spends n 0 s) (sym e) (h, omega arith)
  Step-Spends {s} (gc_sees_done at d e) v h =
      subst (Spends n 1 s) (sym e) (h, omega (arith, ap gc_left at))
  Step-Spends {s} (stop_called at e) v h =
      subst (Spends n 1 s) (sym e) (refl, omega (arith, ap (stop_left n) at))
  Step-Spends {s} (group_done at gone end e) v h = subst (Spends n 1 s) (sym e) (
    h,
    omega (
      arith,
      ap (stop_left n) at,
      length-map (λ (w : Wiring). w.io) (wirings s.engine),
      ap length v.same_ports,
    ),
  )
  Step-Spends {s} (closes io rest at e) v h =
      subst (Spends n 1 s) (sym e) (h, omega (arith, ap (stop_left n) at))
  Step-Spends {s} (stop_returns at e) v h =
      subst (Spends n 1 s) (sym e) (h, omega (arith, ap (stop_left n) at))

  Reach-Spends :
      {s t : System} (r : Reach g s t)
      → Inv ws s
      → s.done ≡ true
      → Inv ws t × Spends n (moves r) s t
  Reach-Spends here v h = (v, (h, omega arith))
  Reach-Spends (next r st) v h =
      let (v', spent) = Reach-Spends r v h in
      let more = Step-Spends st v' spent.0 in
      (Step-Inv g ws st v', (more.0, omega (arith, spent.1, more.1)))

  left-le : (s : System) → Inv ws s → left n s ≤ 4 * n + 4
  left-le s v = omega (
    arith,
    loops_left-le s.rx,
    gc_left-le s.gc,
    stop_left-le n s.stop s.rx s.closed (map (λ (w : Wiring). w.io) ws) v.order
        (length-map (λ (w : Wiring). w.io) ws),
    v.sized,
  )

-- From the start of an engine that `NewEngine` returned: once `done` is closed, every run, in
-- whatever order the goroutines move and whatever their reads return, has at most four steps for
-- each port and four more, sweeps not counted.
pub stop_terminates :
    (g : Gopacket) (cfg : List PortConfig) (ios : List ℕ) (e : Engine) {s t : System}
    → new_engine cfg ios ≡ ok e
    → Reach g (start e) s
    → s.done ≡ true
    → (r : Reach g s t) → moves r ≤ 4 * length (wirings e) + 4
stop_terminates g cfg ios e {s} built before closed r =
    let v = reached-Inv g cfg ios e built before in
    omega (arith, (Reach-Spends g (wirings e) r v closed).1.1, left-le g (wirings e) s v)
