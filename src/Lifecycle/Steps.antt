-- ===== src/Lifecycle/Steps.antt =====
-- internal/goswitch/engine.go and internal/goswitch/afpacket.go: what each goroutine of the engine
-- is at, and its steps. A call of `forward` and a sweep are one step each; a read returns when
-- the surroundings say, with a frame, a timeout or an error.
use vibe_switch.Base.{
  ℕ, ◌≡◌, Bytes, Bool, true, false, some, List, [], ◌∷◌, ◌++◌, map, modify, get_elem?, All,
}
use vibe_switch.Vlan.{Wiring}
use vibe_switch.Frame.{Gopacket}
use vibe_switch.Engine.{Port, Engine, Write, wirings, forward}
use vibe_switch.Engine.Run.{sweep}

-- Where an `rxLoop` stands: before its look at `done`, in `ReadPacketData`, with a frame to
-- forward, or returned.
pub data RxState : Type 0 where
  checking : RxState
  reading : RxState
  forwarding : Bytes → RxState
  exited : RxState

pub data GcState : Type 0 where
  ticking finished : GcState

-- Where the first call of `Stop` stands; `closing` has the handles still to close. Later calls
-- wait for the first and do nothing.
pub data StopPhase : Type 0 where
  not_called : StopPhase
  waiting : StopPhase
  closing : List ℕ → StopPhase
  returned : StopPhase

pub record System : Type 0 where
  pub engine : Engine
  pub rx : List RxState
  pub gc : GcState
  pub done : Bool
  pub stop : StopPhase
  pub closed : List ℕ

abbrev pub IsExited : RxState → Type 0
IsExited r = r ≡ exited

-- The handles of the ports.
abbrev pub handles : Engine → List ℕ
handles e = map (λ (w : Wiring). w.io) (wirings e)

abbrev pub put : List RxState → ℕ → RxState → List RxState
put rx i r = modify rx i (λ _. r)

-- `Start`: a loop for each port, before its first look, and the sweeper.
unfoldable pub start : Engine → System
start e = record {
  engine = e;
  rx = map (λ (p : Port). checking) e.ports;
  gc = ticking;
  done = false;
  stop = not_called;
  closed = [];
}

pub data Step (g : Gopacket) (s t : System) : Type 0 where
  sees_done :
      (i : ℕ)
      → get_elem? s.rx i ≡ some checking
      → s.done ≡ true
      → t ≡ record s { rx = put s.rx i exited }
      → Step g s t
  goes_on :
      (i : ℕ)
      → get_elem? s.rx i ≡ some checking
      → s.done ≡ false
      → t ≡ record s { rx = put s.rx i reading }
      → Step g s t
  times_out :
      (i : ℕ)
      → get_elem? s.rx i ≡ some reading
      → t ≡ record s { rx = put s.rx i checking }
      → Step g s t
  fails :
      (i : ℕ)
      → get_elem? s.rx i ≡ some reading
      → t ≡ record s { rx = put s.rx i exited }
      → Step g s t
  reads :
      (i : ℕ) (frame : Bytes)
      → get_elem? s.rx i ≡ some reading
      → t ≡ record s { rx = put s.rx i (forwarding frame) }
      → Step g s t
  forwards :
      (i : ℕ) (frame : Bytes) (p : Port) (now : ℕ) (takes : ℕ → Bytes → Bool) (e : Engine)
      (ws : List Write)
      → get_elem? s.rx i ≡ some (forwarding frame)
      → get_elem? s.engine.ports i ≡ some p
      → forward g takes s.engine p frame now ≡ some (e, ws)
      → t ≡ record s { engine = e; rx = put s.rx i checking }
      → Step g s t
  ticks : (now : ℕ) → s.gc ≡ ticking → t ≡ record s { engine = sweep s.engine now } → Step g s t
  gc_sees_done : s.gc ≡ ticking → s.done ≡ true → t ≡ record s { gc = finished } → Step g s t
  stop_called : s.stop ≡ not_called → t ≡ record s { done = true; stop = waiting } → Step g s t
  group_done :
      s.stop ≡ waiting
      → All IsExited s.rx
      → s.gc ≡ finished
      → t ≡ record s { stop = closing (handles s.engine) }
      → Step g s t
  closes :
      (io : ℕ) (rest : List ℕ)
      → s.stop ≡ closing (io ∷ rest)
      → t ≡ record s { stop = closing rest; closed = s.closed ++ io ∷ [] }
      → Step g s t
  stop_returns : s.stop ≡ closing [] → t ≡ record s { stop = returned } → Step g s t

pub data Reach (g : Gopacket) (s : System) : System → Type 0 where
  here : Reach g s s
  next : {t u : System} → Reach g s t → Step g t u → Reach g s u
