-- ===== src/Harness/Adapter/GoSwitch.antt =====
-- `Port`, `NewSwitchUnderTest` and `GoSwitch` (internal/harness/switch.go). The calls of the socket
-- are a list, as in Transport.
use vibe_switch.Base.{
  ℕ, Bytes, codes, bytes_eq, Bool, true, false, not, ◌||◌, Option, none, some, List, [], ◌∷◌, ◌++◌,
  ◌==◌, map, if◌then◌else◌,
}
use vibe_switch.Base.Int.{ℤ}
use vibe_switch.Engine.{Engine, PortConfig, ConfigError, new_engine, set_ageing, has_trunk}
use vibe_switch.Engine
use vibe_switch.Transport.{
  Call, SocketOption, rx_opts, opens, fails_to_open, sets_filter, closes, inbound_bpf,
}

pub record Port : Type 0 where
  pub sw_if : Bytes
  pub access_vid : ℕ
  pub trunk : List ℕ

-- `Port.vlanAware`
unfoldable pub vlan_aware : Port → Bool
vlan_aware p = not (p.access_vid == 0) || has_trunk p.trunk

-- `NewSwitchUnderTest`, on the value of the environment variable; `none` is its panic.
pub data Kind : Type 0 where
  bridge go_switch : Kind

unfoldable pub new_switch_under_test : Bytes → Option Kind
new_switch_under_test s =
    if bytes_eq s [] || bytes_eq s (codes "bridge")
    then some bridge
    else if bytes_eq s (codes "goswitch")
    then some go_switch
    else none

-- The sockets of a network namespace: one that opens or not, and takes a filter or not.
pub record Namespace : Type 0 where
  pub open_in_netns : Bytes → List SocketOption → Option ℕ
  pub set_bpf : ℕ → Bool

-- How `Start` ends.
pub data StartEnd : Type 0 where
  started : StartEnd
  open_failed filter_failed : Bytes → StartEnd
  engine_refused : ConfigError → StartEnd

-- `cleanup`
unfoldable pub cleanup : List ℕ → List Call
cleanup = map closes

abbrev pub config_of : Port → PortConfig
config_of p = record { name = p.sw_if; access_vid = p.access_vid; trunk_vids = p.trunk }

-- What opening the ports comes to: an error, or the handles.
pub data Opened : Type 0 where
  failed : StartEnd → Opened
  handles : List ℕ → Opened

-- One port with an open socket: the rest of the loop, if the filter is taken.
abbrev pub filtered : Bool → Bytes → List ℕ → ℕ → (List Call × Opened) → List Call × Opened
filtered true name ios tp rest = (sets_filter tp inbound_bpf ∷ rest.0, rest.1)
filtered false name ios tp rest =
    (sets_filter tp inbound_bpf ∷ closes tp ∷ cleanup ios, failed (filter_failed name))

-- The loop over the ports.
unfoldable pub open_ports : Namespace → List Port → List ℕ → List Call × Opened
open_ports ns [] ios = ([], handles ios)
open_ports ns (p ∷ ps) ios = elim (ns.open_in_netns p.sw_if (rx_opts p.sw_if)) [
  | none ↦ (fails_to_open (rx_opts p.sw_if) ∷ cleanup ios, failed (open_failed p.sw_if))
  | some tp ↦
      let rest = open_ports ns ps (ios ++ tp ∷ []) in
      let (calls, o) = filtered (ns.set_bpf tp) p.sw_if ios tp rest in
      (opens (rx_opts p.sw_if) tp ∷ calls, o)
]

-- `GoSwitch`: its engine, `none` before `Start`.
abbrev pub GoSwitch : Type 0
GoSwitch = Option Engine

abbrev pub with_engine : GoSwitch → List ℕ → Engine.Result Engine → List Call × GoSwitch × StartEnd
with_engine g ios (Engine.ok e) = ([], some e, started)
with_engine g ios (Engine.err x) = (cleanup ios, g, engine_refused x)

abbrev pub from_handles : GoSwitch → List Port → Opened → List Call × GoSwitch × StartEnd
from_handles g ps (failed x) = ([], g, x)
from_handles g ps (handles ios) = with_engine g ios (new_engine (map config_of ps) ios)

-- `GoSwitch.Start`
unfoldable pub start : Namespace → GoSwitch → List Port → List Call × GoSwitch × StartEnd
start ns g ps =
    let (calls, o) = open_ports ns ps [] in
    let (more, g', end) = from_handles g ps o in (calls ++ more, g', end)

-- `GoSwitch.Stop`, with the goroutines done.
unfoldable pub stop : GoSwitch → List Call
stop none = []
stop (some e) = map (λ (p : Engine.Port). closes p.io) e.ports

-- `GoSwitch.SetAgeing`; `none` is its error.
unfoldable pub set_ageing_of : GoSwitch → ℤ → Option GoSwitch
set_ageing_of none d = none
set_ageing_of (some e) d = some (some (set_ageing e d))
