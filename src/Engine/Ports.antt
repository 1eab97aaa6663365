-- ===== src/Engine/Ports.antt =====
-- internal/goswitch/engine.go: `port`, `Engine` and `SetAgeing`; the counters of
-- internal/goswitch/stats.go. A pointer to a port is its index in the engine's list.
use vibe_switch.Base.{ℕ, ◌+◌, ◌%◌, ◌^◌, Bool, Option, none, some, List, map, modify, nat_eq}
use vibe_switch.Base.Int.{ℤ}
use vibe_switch.Base.Assoc.{lookup as map_lookup}
use vibe_switch.Vlan.{Wiring}
use vibe_switch.Fdb.{Fdb}
use vibe_switch.Frame.{FrameParser}

-- `atomic.AddUint64`
abbrev pub add64 : ℕ → ℕ → ℕ
add64 a b = (a + b) % 2 ^ 64

pub record PortStats : Type 0 where
  pub rx_frames : ℕ
  pub rx_bytes : ℕ
  pub tx_frames : ℕ
  pub tx_bytes : ℕ
  pub flooded : ℕ
  pub forward_drop : ℕ
  pub tx_drop : ℕ

abbrev pub zero_stats : PortStats
zero_stats = record {
  rx_frames = 0;
  rx_bytes = 0;
  tx_frames = 0;
  tx_bytes = 0;
  flooded = 0;
  forward_drop = 0;
  tx_drop = 0;
}

pub record Port : Type 0 where
  pub wiring : Wiring
  pub open wiring use *
  pub stats : PortStats
  pub parser : FrameParser

pub record Engine : Type 0 where
  pub ports : List Port
  pub fdb : Fdb
  pub vid_members : List (ℕ × List ℕ)
  pub vlan_aware : Bool

-- A change of the counters of a port.
abbrev pub bump : ℕ → (PortStats → PortStats) → Engine → Engine
bump i f e = record e { ports = modify e.ports i (λ p. record p { stats = f p.stats }) }

abbrev pub or_nil : Option (List ℕ) → List ℕ
or_nil none = List.[]
or_nil (some l) = l

-- `e.vidMembers[vid]`: a missing key reads as the empty slice.
unfoldable pub members : Engine → ℕ → List ℕ
members e vid = or_nil (map_lookup vid e.vid_members)

-- `SetAgeing` never fails.
unfoldable pub set_ageing : Engine → ℤ → Engine
set_ageing e d = record e { fdb = record e.fdb { ageing = d } }

-- What no frame changes.
abbrev pub wirings : Engine → List Wiring
wirings e = map (λ p. p.wiring) e.ports
