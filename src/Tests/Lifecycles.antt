-- ===== src/Tests/Lifecycles.antt =====
-- Start and stop of the sample switch.
use vibe_switch.Base.{◌+◌, ◌*◌, ◌≤◌, length, ◌≡◌, ◌⊎◌, refl, All, [], ◌∷◌}
use vibe_switch.Lifecycle.{
  System, IsExited, Reach, here, next, stop_called, sees_done, gc_sees_done, returned, start,
  handles,
}
use vibe_switch.Lifecycle.Shutdown.{close_waits, stop_closes_all}
use vibe_switch.Engine.{wirings}
use vibe_switch.Lifecycle.Bound.{moves, stop_terminates}
use vibe_switch.Lifecycle.Drain.{stop_can_return}
use vibe_switch.Samples.{codec, config}
use vibe_switch.Tests.Switch.{built, program}

stopping : (s : System) × Reach codec (start built.0) s
unfolding start
stopping = (_, next here (stop_called refl refl))

close_waits_example : (stopping.0.closed ≡ []) ⊎ All IsExited stopping.0.rx
close_waits_example = close_waits codec config (7 ∷ 8 ∷ 9 ∷ []) built.0 built.1 stopping.1

stopped : (t : System) × Reach codec (start built.0) t × (t.stop ≡ returned)
unfolding start stopping
stopped = stop_can_return codec config (7 ∷ 8 ∷ 9 ∷ []) built.0 built.1 stopping.1 refl

stop_closes_all_example : stopped.0.closed ≡ handles built.0
stop_closes_all_example =
    stop_closes_all codec config (7 ∷ 8 ∷ 9 ∷ []) built.0 built.1 stopped.1 stopped.2

-- A loop returns, and then the sweeper.
after_stop : (t : System) × Reach codec stopping.0 t
unfolding start stopping built program
after_stop = (_, next (next here (sees_done 0 refl refl refl)) (gc_sees_done refl refl refl))

stop_terminates_example : moves after_stop.1 ≤ 4 * length (wirings built.0) + 4
unfolding start stopping
stop_terminates_example =
    stop_terminates codec config (7 ∷ 8 ∷ 9 ∷ []) built.0 built.1 stopping.1 refl after_stop.1
