-- ===== src/Tests/Frames.antt =====
-- The engine's theorems at the frames of the sample switch.
use vibe_switch.Base.{ℕ, ◌≡◌, refl, some, [], ◌∷◌, List, get_elem?, Returns, arith}
use vibe_switch.Frame.{FrameView}
use vibe_switch.Engine.{Port, Engine, Write, new_engine, forward}
use vibe_switch.Engine.Wired.{IsWired}
use vibe_switch.Engine.Admission.{Forwarded, admitted, forward_lem}
use vibe_switch.Engine.Construct.{new_engine-IsWired, ports_of}
use vibe_switch.Engine.Step.{classified}
use vibe_switch.Engine.Deliver.{write_to}
use vibe_switch.Engine.Reply.{reply_unicast}
use vibe_switch.Engine.Config.{is_ok, valid_config, is_ok-new_engine}
use vibe_switch.Samples.{codec, config, frame_ab, frame_ba, all_taken}
use vibe_switch.Tests.Switch.{program, built, history}
use vibe_switch.Engine.Run.{run}
use vibe_switch.Engine.Accounts.{Books, run-Booked}

new_engine-IsWired_example :
    IsWired built.0
    × (built.0.ports ≡ ports_of 0 config (7 ∷ 8 ∷ 9 ∷ []))
    × (built.0.fdb.table ≡ [])
new_engine-IsWired_example = new_engine-IsWired config (7 ∷ 8 ∷ 9 ∷ []) built.1

is_ok-new_engine_example : is_ok (new_engine config (7 ∷ 8 ∷ [])) ≡ valid_config config (7 ∷ 8 ∷ [])
is_ok-new_engine_example = is_ok-new_engine config (7 ∷ 8 ∷ [])

first : (p : Port) × (get_elem? built.0.ports 0 ≡ some p)
unfolding program built
first = (_, refl)

seen : (r : FrameView × ℕ) × (classified codec first.0 frame_ab ≡ some r)
unfolding program built first
seen = (_, refl)

forward_lem_example :
    Returns
      (forward codec all_taken built.0 first.0 frame_ab 5)
      (Forwarded codec all_taken built.0 first.0 5 (admitted codec first.0 frame_ab))
unfolding first
forward_lem_example =
    forward_lem codec all_taken built.0 first.0 frame_ab 5 new_engine-IsWired_example.0 first.1

after : (r : Engine × List Write) × (forward codec all_taken built.0 first.0 frame_ab 5 ≡ some r)
unfolding program built first
after = (_, refl)

second : (p : Port) × (get_elem? after.0.0.ports 1 ≡ some p)
unfolding program built first after
second = (_, refl)

answered : (r : FrameView × ℕ) × (classified codec second.0 frame_ba ≡ some r)
unfolding program built first after second
answered = (_, refl)

reply_unicast_example :
    Returns
      (forward codec all_taken after.0.0 second.0 frame_ba 9)
      (λ r. r.1 ≡ write_to codec all_taken answered.0.0 seen.0.1 first.0.wiring ∷ [])
unfolding program built first after second seen answered
reply_unicast_example =
    reply_unicast codec all_taken all_taken built.0 first.0 second.0 frame_ab frame_ba 5 9 seen.0.0
      answered.0.0 seen.0.1 after.0 new_engine-IsWired_example.0 first.1 seen.1 refl after.1
      second.1 (omega arith) answered.1 refl refl (ground arith) refl

run-Booked_example : Returns (run codec built.0 history) (Books 1 history built.0)
unfolding program built
run-Booked_example =
    run-Booked codec config (7 ∷ 8 ∷ 9 ∷ []) built.0 history 1 built.1
      ((_, refl), (tt, ((_, refl), tt)))
