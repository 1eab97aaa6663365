-- ===== src/Command/Start.antt =====
-- cmd/vibe-switch/main.go: `runSwitch` behind the flags. The handles, the control socket and the
-- wait for a signal are the surroundings'; what the program asks of them is a list of actions.
use vibe_switch.Base.{
  ℕ, suc, ◌-◌, ◌*◌, Bytes, Bool, Option, none, some, List, [], ◌∷◌, ◌++◌, map, if◌then◌else◌,
}
use vibe_switch.Base.Int.{ℤ, pos, negsuc, wrap64}
use vibe_switch.Engine.{PortConfig, Engine, ConfigError, new_engine, set_ageing}
use vibe_switch.Engine

pub data Action : Type 0 where
  opens : Bytes → ℕ → Action  -- `OpenInterface` returned a handle
  closes : ℕ → Action  -- `Close` of a handle
  starts serves waits : Action  -- `Start`, `control.Serve`, and the wait for a signal
  closes_server : Action

-- How `runSwitch` ends.
pub data Outcome : Type 0 where
  no_ports_given : Outcome
  open_failed : Bytes → Outcome
  engine_refused : ConfigError → Outcome
  serve_failed : Outcome
  stopped : Engine → Outcome

-- What the surroundings do: open an interface, giving a handle, and serve the control socket.
pub record Host : Type 0 where
  pub open_interface : Bytes → Option ℕ
  pub serves_control : Bool

-- `time.Duration(n) * time.Second`, in `int64`.
abbrev pub seconds : ℤ → ℤ
seconds (pos n) = wrap64 (pos (n * 1000000000))
seconds (negsuc n) = wrap64 (negsuc (suc n * 1000000000 - 1))

abbrev pub close_all : List ℕ → List Action
close_all = map closes

-- The loop over the configs that opens the handles: those opened, or the name that failed.
unfoldable pub open_all : Host → List PortConfig → List ℕ → (List Action × List ℕ × Option Bytes)
open_all h [] ios = ([], ios, none)
open_all h (c ∷ cs) ios = elim (h.open_interface c.name) [
  | none ↦ (close_all ios, ios, some c.name)
  | some io ↦
      let (acts, all, failed) = open_all h cs (ios ++ io ∷ []) in
      (opens c.name io ∷ acts, all, failed)
]

-- `eng.Stop` with the goroutines done: every port's handle is closed.
abbrev pub stop_engine : Engine → List Action
stop_engine e = map (λ (p : Engine.Port). closes p.io) e.ports

-- From the started engine on.
unfoldable pub serve_until_signal : Host → Engine → List Action × Outcome
serve_until_signal h e =
    if h.serves_control
    then (starts ∷ serves ∷ waits ∷ closes_server ∷ stop_engine e, stopped e)
    else (starts ∷ stop_engine e, serve_failed)

unfoldable pub with_handles : Host → List PortConfig → List ℕ → ℤ → List Action × Outcome
with_handles h cfgs ios ageing = elim (new_engine cfgs ios) [
  | Engine.err x ↦ (close_all ios, engine_refused x)
  | Engine.ok e ↦ serve_until_signal h (set_ageing e (seconds ageing))
]

unfoldable pub run_switch : Host → List PortConfig → ℤ → List Action × Outcome
run_switch h [] ageing = ([], no_ports_given)
run_switch h (c ∷ cs) ageing =
    let (acts, ios, failed) = open_all h (c ∷ cs) [] in
    elim failed [
      | some name ↦ (acts, open_failed name)
      | none ↦ let (rest, outcome) = with_handles h (c ∷ cs) ios ageing in (acts ++ rest, outcome)
    ]
