-- ===== src/Harness/Topology/Commands.antt =====
-- `Setup`, `Teardown` and `Ping` (internal/harness/topology.go), as commands.
use vibe_switch.Base.{Bytes, codes, Bool, List, [], ◌∷◌, ◌++◌, map}
use vibe_switch.Stats.{mac_string}
use vibe_switch.Harness.Running.{run_until_error}
use vibe_switch.Harness.Adapter.{Port}
use vibe_switch.Harness.Topology.Hosts.{Host, Topology, name_of}

pub data Command : Type 0 where
  add_netns : Bytes → Command
  delete_netns : Bytes → Command
  add_veth : Bytes → Bytes → Command  -- an interface and its peer
  move_to_netns : Bytes → Bytes → Command  -- an interface, and where
  in_netns : Bytes → List Bytes → Command  -- a namespace, and what runs there

-- The arguments, `ip` first.
unfoldable pub words : Command → List Bytes
words (add_netns ns) = codes "ip" ∷ codes "netns" ∷ codes "add" ∷ ns ∷ []
words (delete_netns ns) = codes "ip" ∷ codes "netns" ∷ codes "del" ∷ ns ∷ []
words (add_veth a b) =
    codes "ip"
    ∷ codes "link"
    ∷ codes "add"
    ∷ a
    ∷ codes "type"
    ∷ codes "veth"
    ∷ codes "peer"
    ∷ codes "name"
    ∷ b
    ∷ []
words (move_to_netns a ns) = codes "ip" ∷ codes "link" ∷ codes "set" ∷ a ∷ codes "netns" ∷ ns ∷ []
words (in_netns ns args) = codes "ip" ∷ codes "netns" ∷ codes "exec" ∷ ns ∷ args

abbrev link_set : Bytes → List Bytes → List Bytes
link_set a args = codes "ip" ∷ codes "link" ∷ codes "set" ∷ a ∷ args

-- Silences IPv6 on an interface.
abbrev no_ipv6 : Bytes → List Bytes
no_ipv6 a =
    codes "sysctl"
    ∷ codes "-q"
    ∷ codes "-w"
    ∷ (codes "net.ipv6.conf." ++ a ++ codes ".disable_ipv6=1")
    ∷ []

abbrev pub address_if : Bytes → Bytes → Bytes → List Command
address_if ns a [] = []
address_if ns a (c ∷ ip) =
    in_netns ns
      (codes "ip" ∷ codes "addr" ∷ codes "add" ∷ ((c ∷ ip) ++ codes "/24") ∷ codes "dev" ∷ a ∷ [])
    ∷ []

-- One host of `Setup`.
unfoldable pub host_commands : Topology → Host → List Command
host_commands top h =
    let tmp = name_of top.prefix b'p' h.idx in
    (add_netns h.ns
      ∷ add_veth h.sw_if tmp
      ∷ move_to_netns h.sw_if top.sw_ns
      ∷ move_to_netns tmp h.ns
      ∷ in_netns h.ns (link_set tmp (codes "name" ∷ h.if_name ∷ []))
      ∷ in_netns h.ns (link_set h.if_name (codes "address" ∷ mac_string h.mac ∷ []))
      ∷ in_netns h.ns (no_ipv6 h.if_name)
      ∷ address_if h.ns h.if_name h.ip)
    ++ in_netns h.ns (link_set h.if_name (codes "up" ∷ []))
      ∷ in_netns h.ns (link_set h.if_name (codes "promisc" ∷ codes "on" ∷ []))
      ∷ in_netns top.sw_ns (no_ipv6 h.sw_if)
      ∷ in_netns top.sw_ns (link_set h.sw_if (codes "up" ∷ []))
      ∷ []

unfoldable pub hosts_commands : Topology → List Host → List Command
hosts_commands top [] = []
hosts_commands top (h ∷ hs) = host_commands top h ++ hosts_commands top hs

unfoldable pub setup_commands : Topology → List Command
setup_commands top = add_netns top.sw_ns ∷ hosts_commands top top.hosts

-- The ports that are handed to the switch under test.
unfoldable pub ports_of_hosts : List Host → List Port
ports_of_hosts = map (λ h. record { sw_if = h.sw_if; access_vid = h.access_vid; trunk = h.trunk })

-- `Setup` up to the start of the switch: what is run, and whether the switch is started.
unfoldable pub setup : (Command → Bool) → Topology → List Command × Bool
setup ok top = run_until_error ok (setup_commands top)

-- `Teardown` behind the stop of the switch: every command is run, whether it succeeds or not.
unfoldable pub teardown : Topology → List Command
teardown top = map (λ (h : Host). delete_netns h.ns) top.hosts ++ delete_netns top.sw_ns ∷ []

-- `Ping`
unfoldable pub ping : Host → Bytes → Command
ping h to_ip =
    in_netns h.ns (codes "ping" ∷ codes "-c" ∷ codes "1" ∷ codes "-W" ∷ codes "1" ∷ to_ip ∷ [])
