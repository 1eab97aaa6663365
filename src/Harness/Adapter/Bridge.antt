-- ===== src/Harness/Adapter/Bridge.antt =====
-- `BridgeSwitch` (internal/harness/switch.go): the commands that configure the kernel bridge. They
-- run in order until one fails; running one is the surroundings'.
use vibe_switch.Base.{
  ℕ, ◌/◌, Bytes, codes, Bool, true, false, not, ◌||◌, List, [], ◌∷◌, ◌++◌, map, ◌==◌, ltb,
  if◌then◌else◌,
}
use vibe_switch.Base.Decimal.{itoa}
use vibe_switch.Base.Int.{ℤ, pos, negsuc}
use vibe_switch.Engine.{has_trunk}
use vibe_switch.Harness.Running.{run_until_error}
use vibe_switch.Harness.Adapter.GoSwitch.{Port, vlan_aware}

pub data BridgeCommand : Type 0 where
  add_bridge : Bool → BridgeCommand  -- with VLAN filtering or without
  bridge_up : BridgeCommand
  enslave : Bytes → BridgeCommand
  port_up : Bytes → BridgeCommand
  add_vlan : Bytes → ℕ → Bool → BridgeCommand  -- a VLAN of a port, as its untagged PVID or tagged
  set_ageing_time : ℕ → BridgeCommand
  delete_bridge : BridgeCommand

abbrev pub br0 : Bytes
br0 = codes "br0"

-- The arguments of a command, its program first.
unfoldable pub words : BridgeCommand → List Bytes
words (add_bridge true) =
    codes "ip"
    ∷ codes "link"
    ∷ codes "add"
    ∷ br0
    ∷ codes "type"
    ∷ codes "bridge"
    ∷ codes "vlan_filtering"
    ∷ codes "1"
    ∷ codes "vlan_default_pvid"
    ∷ codes "0"
    ∷ []
words (add_bridge false) =
    codes "ip" ∷ codes "link" ∷ codes "add" ∷ br0 ∷ codes "type" ∷ codes "bridge" ∷ []
words bridge_up = codes "ip" ∷ codes "link" ∷ codes "set" ∷ br0 ∷ codes "up" ∷ []
words (enslave p) = codes "ip" ∷ codes "link" ∷ codes "set" ∷ p ∷ codes "master" ∷ br0 ∷ []
words (port_up p) = codes "ip" ∷ codes "link" ∷ codes "set" ∷ p ∷ codes "up" ∷ []
words (add_vlan p vid true) =
    codes "bridge"
    ∷ codes "vlan"
    ∷ codes "add"
    ∷ codes "dev"
    ∷ p
    ∷ codes "vid"
    ∷ itoa vid
    ∷ codes "pvid"
    ∷ codes "untagged"
    ∷ []
words (add_vlan p vid false) =
    codes "bridge" ∷ codes "vlan" ∷ codes "add" ∷ codes "dev" ∷ p ∷ codes "vid" ∷ itoa vid ∷ []
words (set_ageing_time n) =
    codes "ip"
    ∷ codes "link"
    ∷ codes "set"
    ∷ br0
    ∷ codes "type"
    ∷ codes "bridge"
    ∷ codes "ageing_time"
    ∷ itoa n
    ∷ []
words delete_bridge = codes "ip" ∷ codes "link" ∷ codes "del" ∷ br0 ∷ []

-- `BridgeSwitch.ns`: the command line that runs in the namespace.
unfoldable pub in_netns : Bytes → BridgeCommand → List Bytes
in_netns ns c = codes "ip" ∷ codes "netns" ∷ codes "exec" ∷ ns ∷ words c

-- The VLANs of a port. A trunk is the first case.
unfoldable pub port_vlans : Port → List BridgeCommand
port_vlans p =
    if has_trunk p.trunk
    then map (λ vid. add_vlan p.sw_if vid false) p.trunk
    else if not (p.access_vid == 0)
    then add_vlan p.sw_if p.access_vid true ∷ []
    else []

unfoldable pub any_aware : List Port → Bool
any_aware [] = false
any_aware (p ∷ ps) = vlan_aware p || any_aware ps

abbrev pub vlans_if : Bool → Port → List BridgeCommand
vlans_if true p = port_vlans p
vlans_if false p = []

-- The loop over the ports.
unfoldable pub port_commands : Bool → List Port → List BridgeCommand
port_commands aware [] = []
port_commands aware (p ∷ ps) =
    (enslave p.sw_if ∷ port_up p.sw_if ∷ vlans_if aware p) ++ port_commands aware ps

-- The commands of `Start`, if none fails.
unfoldable pub start_commands : List Port → List BridgeCommand
start_commands ps = add_bridge (any_aware ps) ∷ bridge_up ∷ port_commands (any_aware ps) ps

-- `BridgeSwitch.Start`
unfoldable pub start_bridge : (BridgeCommand → Bool) → List Port → List BridgeCommand × Bool
start_bridge ok ps = run_until_error ok (start_commands ps)

-- `BridgeSwitch.Stop`, on whether it has been started; an error is ignored.
unfoldable pub stop_bridge : Bool → List BridgeCommand
stop_bridge false = []
stop_bridge true = delete_bridge ∷ []

-- `d / (10 * time.Millisecond)`, towards zero, and at least 1.
unfoldable pub centiseconds : ℤ → ℕ
centiseconds (pos d) = if ltb (d / 10000000) 1 then 1 else d / 10000000
centiseconds (negsuc d) = 1

-- `BridgeSwitch.SetAgeing`
unfoldable pub bridge_ageing : ℤ → BridgeCommand
bridge_ageing d = set_ageing_time (centiseconds d)
