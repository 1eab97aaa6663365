-- ===== src/Tests/Histories.antt =====
-- A frame behind the sample history.
use vibe_switch.Base.{ℕ, ◌≡◌, refl, some, [], ◌∷◌, List, get_elem?, Returns, arith, ◌++◌}
use vibe_switch.Base.Int.{pos}
use vibe_switch.Vlan.{carries}
use vibe_switch.Frame.{FrameView}
use vibe_switch.Engine.{Port, Engine, wirings, forward, set_ageing}
use vibe_switch.Engine.Step.{deliveries_to}
use vibe_switch.Engine.Admission.{admitted}
use vibe_switch.Engine.Run.{Sent, run}
use vibe_switch.Engine.Heard.{noted, calls_from}
use vibe_switch.Engine.LastHeard.{heard_at, forward-run}
use vibe_switch.Samples.{codec, config, frame_ab, all_taken}
use vibe_switch.Tests.Switch.{program, built, history}

after : (r : Engine × List Sent) × (run codec (set_ageing built.0 (pos 100)) history ≡ some r)
unfolding program built set_ageing
after = (_, refl)

port : (p : Port) × (get_elem? after.0.0.ports 0 ≡ some p)
unfolding program built set_ageing after
port = (_, refl)

view : (r : FrameView × ℕ) × (admitted codec port.0 frame_ab ≡ some r)
unfolding program built set_ageing after port carries
view = (_, refl)

forward-run_example :
    let calls =
      noted 0 12 (some view.0) ++ calls_from codec (set_ageing built.0 (pos 100)) history [] in
    Returns (forward codec all_taken after.0.0 port.0 frame_ab 12) (λ q.
      q.1
      ≡ deliveries_to codec all_taken
          (heard_at (pos 100) 12 view.0.0 view.0.1 calls)
          (wirings built.0)
          0
          view.0.0
          view.0.1)
unfolding program built set_ageing after port view
forward-run_example =
    forward-run codec config (7 ∷ 8 ∷ 9 ∷ []) built.0 (pos 100) history after.0 port.0 frame_ab 12
      all_taken view.0.0 view.0.1 built.1 refl ((_, refl), (tt, ((_, refl), tt)))
      (tt, (omega arith, (tt, tt))) after.1 port.1 view.1
