-- ===== src/Tests/Switch.antt =====
-- The engine on the sample switch.
use vibe_switch.Base.{ℕ, ◌≡◌, refl, Bytes, Option, none, some, List, [], ◌∷◌, Returns}
use vibe_switch.Base.Assoc.{lookup as map_lookup, insert as map_insert, delete_if}
use vibe_switch.Vlan.{role_of, add_all, classify}
use vibe_switch.Fdb.{new_fdb, learn, lookup, reap}
use vibe_switch.Frame.{new_frame_parser, frame_view, build_tagged, build_untagged}
use vibe_switch.Engine.{
  Engine, new_engine, ok, wirings, members, make_port, add_ports, append_member, append_trunk,
  add_member, vid_members_of, finish, egress_packet, count_tx, emit, emit_at, flood_loop, flood,
  send_known, learn_source, route, switch_frame, count_rx, forward,
}
use vibe_switch.Engine.Run.{Event, arrives, sweeps, run, receive, apply, Sent, run_isolated, Keeps}
use vibe_switch.Samples.{codec, config, frame_ab, frame_ba, all_taken}

unfoldable pub program : Unit {0}
unfolding role_of add_all classify new_fdb learn lookup reap new_frame_parser frame_view
    build_tagged build_untagged new_engine members make_port add_ports append_member append_trunk
    add_member vid_members_of finish egress_packet count_tx emit emit_at flood_loop flood send_known
    learn_source route switch_frame count_rx forward run receive apply map_lookup map_insert
    delete_if
program = tt

unfoldable pub built : (e : Engine) × (new_engine config (7 ∷ 8 ∷ 9 ∷ []) ≡ ok e)
unfolding program
built = (_, refl)

abbrev pkts : Option (Engine × List Sent) → List (ℕ × ℕ × Bytes)
pkts none = []
pkts (some (e, [])) = []
pkts (some (e, s ∷ ss)) = (s.ingress, s.write.port, s.write.pkt) ∷ pkts (some (e, ss))

abbrev pub history : List Event
history = arrives 0 frame_ab 5 all_taken ∷ sweeps 6 ∷ arrives 1 frame_ba 9 all_taken ∷ []

two_frames :
    pkts (run codec built.0 history)
    ≡ (0, 1, frame_ab)
      ∷ (
        0,
        2,
        2 ∷ 0 ∷ 0 ∷ 0 ∷ 0 ∷ 2 ∷ 2 ∷ 0 ∷ 0 ∷ 0 ∷ 0 ∷ 1 ∷ 0x81 ∷ 0 ∷ 0 ∷ 10 ∷ 0x88 ∷ 0xb5 ∷ 1 ∷ 2
            ∷ [],
      )
      ∷ (1, 0, frame_ba)
      ∷ []
unfolding program built
two_frames = refl

run_isolated_example : Returns (run codec built.0 history) (Keeps (wirings built.0))
unfolding built program
run_isolated_example =
    run_isolated codec config (7 ∷ 8 ∷ 9 ∷ []) built.0 history built.1
      ((_, refl), (tt, ((_, refl), tt)))
