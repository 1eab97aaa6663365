-- ===== src/Tests/Harnesses.antt =====
-- The switches and the topology of the harness at concrete ports and hosts.
use vibe_switch.Base.{
  ◌≡◌, refl, Bytes, Bool, codes, bytes_eq, get_elem?, true, false, not, some, none, List, [], ◌∷◌,
  map, arith, if◌then◌else◌,
}
use vibe_switch.Vlan.{Wiring, carries}
use vibe_switch.Engine.{Engine, new_engine, ok, wirings, wants_tag}
use vibe_switch.Transport.Opening.{status, unopened}
use vibe_switch.Harness.Adapter.{Port, Namespace, config_of, start_commands}
use vibe_switch.Harness.Adapter.SameVlans.{assigned, assigned-start_commands}
use vibe_switch.Harness.Topology.{
  HostSpec, Host, Topology, new_topology, host, find_host, hosts_from, host_of,
}
use vibe_switch.Harness.Topology.Names.{IsOwn, host-IsOwn}
use vibe_switch.Harness.Fixture.{set_up, tear_down, remains, tear_down-set_up}
use vibe_switch.Tests.Switch.{program}

-- The second socket is not opened.
abbrev namespace : Namespace
namespace = record {
  open_in_netns = λ name opts. if bytes_eq name (codes "a") then some 3 else none;
  set_bpf = λ tp. true;
}

abbrev ports : List Port
ports =
    record { sw_if = codes "a"; access_vid = 10; trunk = [] }
    ∷ record { sw_if = codes "b"; access_vid = 0; trunk = 10 ∷ 20 ∷ [] }
    ∷ []

unfoldable ports_built : (e : Engine) × (new_engine (map config_of ports) (3 ∷ 4 ∷ []) ≡ ok e)
unfolding program
ports_built = (_, refl)

second_port : (w : Wiring) × (get_elem? (wirings ports_built.0) 1 ≡ some w)
unfolding ports_built program
second_port = (_, refl)

assigned-start_commands_example :
    assigned (codes "b") 20 (start_commands ports)
    ≡ (if carries second_port.0 20 then some (not (wants_tag second_port.0.role)) else none)
assigned-start_commands_example =
    assigned-start_commands ports (3 ∷ 4 ∷ []) 1 _ second_port.0 20 ports_built.1 refl second_port.1
      (omega arith)

abbrev specs : List HostSpec
specs =
    record { ip = codes "10.0.0.1"; access_vid = 10; trunk = [] }
    ∷ record { ip = []; access_vid = 0; trunk = 10 ∷ 20 ∷ [] }
    ∷ []

abbrev pub topology : Topology
topology = new_topology 1234 1 specs

unfoldable pub first : (h : Host) × (host topology 1 ≡ some h)
unfolding new_topology host find_host hosts_from host_of
first = (_, refl)

unfoldable pub second : (h : Host) × (host topology 2 ≡ some h)
unfolding new_topology host find_host hosts_from host_of
second = (_, refl)

host-IsOwn_example : IsOwn topology 1 2 first.0 second.0
host-IsOwn_example = host-IsOwn 1234 1 specs 1 2 first.0 second.0 first.1 second.1

-- The namespace of the second host cannot be deleted.
abbrev deletable : Bytes → Bool
deletable name = not (bytes_eq name (codes "vs234x1h2"))

-- Every command succeeds, and no socket can be had at the ports.
tear_down-set_up_example :
    let x = tear_down topology (set_up (λ c. true) namespace topology) in
    (remains deletable (codes "vs234x1h1") false x.commands ≡ false)
    × (status 3 unopened x.calls ≡ unopened)
tear_down-set_up_example =
    tear_down-set_up (λ c. true) namespace topology 3 deletable (codes "vs234x1h1") refl
