-- ===== src/Engine/Handles.antt =====
-- The handles of a built engine (`NewEngine`, internal/goswitch/engine.go) are those it was given.
use vibe_switch.Base.{ℕ, suc, ◌≡◌, refl, ap, List, [], ◌∷◌, length, map, arith}
use vibe_switch.Vlan.{role_of}
use vibe_switch.Engine.{Port, PortConfig, Engine, make_port, new_engine, ok}
use vibe_switch.Engine.Construct.{ports_of, new_engine-IsWired}
use vibe_switch.Engine.Config.{is_ok, valid_config, is_ok-new_engine}

io-make_port : (i : ℕ) (c : PortConfig) (io : ℕ) → (make_port i c io).io ≡ io
unfolding make_port role_of
io-make_port i c io = ground arith

pub io-ports_of :
    (i : ℕ) (cs : List PortConfig) (ios : List ℕ)
    → length ios ≡ length cs
    → map (λ (p : Port). p.io) (ports_of i cs ios) ≡ ios
unfolding ports_of
io-ports_of i [] [] h = refl
io-ports_of i [] (io ∷ ios) h = absurd (omega arith)
io-ports_of i (c ∷ cs) [] h = absurd (omega arith)
io-ports_of i (c ∷ cs) (io ∷ ios) h =
    rw (io-ports_of (suc i) cs ios (omega arith), io-make_port i c io)

pub handles-new_engine :
    (cfg : List PortConfig) (ios : List ℕ) {e : Engine}
    → new_engine cfg ios ≡ ok e
    → map (λ (p : Port). p.io) e.ports ≡ ios
unfolding valid_config
handles-new_engine cfg ios {e} built =
    rw (new_engine-IsWired cfg ios built).1
      (io-ports_of 0 cfg ios (ground (arith, is_ok-new_engine cfg ios, ap is_ok built)))
