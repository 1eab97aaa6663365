-- ===== src/Tests/Through.antt =====
-- A broadcast of the harness through the sample switch.
use vibe_switch.Base.{◌≡◌, refl, codes, some, [], ◌∷◌, get_elem?, All, arith, Returns}
use vibe_switch.Engine.{Port, wirings, forward}
use vibe_switch.Engine.Wired.{carriers}
use vibe_switch.Engine.Construct.{new_engine-IsWired}
use vibe_switch.Harness.Probe.{serialize}
use vibe_switch.Harness.Topology.{broadcast}
use vibe_switch.Harness.Through.Delivery.{
  IsHeard, receivers, known_at, learned_from, ports_of_writes, forward_test_frame,
}
use vibe_switch.Samples.{codec, config, mac_a, all_taken}
use vibe_switch.Tests.Switch.{program, built}
use vibe_switch.Tests.Codec.{codec-Decodes}
use vibe_switch.Tests.Probes.{decoder, decoder-ReadsBack}

unfoldable access_port : (p : Port) × (get_elem? built.0.ports 0 ≡ some p)
unfolding program built
access_port = (_, refl)

forward_test_frame_example :
    Returns
      (forward codec all_taken built.0 access_port.0
        (serialize codec mac_a broadcast 0 (codes "hi") 0)
        5)
      (λ r.
        All (IsHeard decoder (wirings built.0) mac_a broadcast 10 (codes "hi")) r.1
        × (ports_of_writes r.1
            ≡ receivers
                (known_at (learned_from built.0.fdb mac_a 0 10 5) broadcast 10 5)
                0
                (carriers 10 (wirings built.0))))
unfolding access_port built program
forward_test_frame_example =
    forward_test_frame codec codec-Decodes decoder decoder-ReadsBack all_taken built.0 access_port.0
      mac_a broadcast (codes "hi") 0 10 5 (new_engine-IsWired config (7 ∷ 8 ∷ 9 ∷ []) built.1).0
      refl refl refl (omega arith) (omega arith) refl (λ h. cc)
