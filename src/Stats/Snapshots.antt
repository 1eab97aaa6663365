-- ===== src/Stats/Snapshots.antt =====
-- internal/goswitch/stats.go: `FDBSnapshot`, `PortsSnapshot`, `StatsSnapshot`, `ConfigSnapshot` and
-- their rows. A `float64` is of a type that is a parameter.
use vibe_switch.Base.{
  ℕ, ◌+◌, ◌-◌, ◌/◌, ◌%◌, Bytes, Bool, true, Option, some, List, [], ◌∷◌, ◌++◌, map, length,
  get_elem?, ltb, if◌then◌else◌, ◌>>=◌,
}
use vibe_switch.Base.Int.{sub_ℕ}
use vibe_switch.Base.Float.{Floats}
use vibe_switch.Vlan.{role_string}
use vibe_switch.Fdb.{MacKey, Entry}
use vibe_switch.Engine.{Port, Engine}

-- A digit of `net.HardwareAddr.String`, in lower-case hexadecimal.
abbrev pub hex_digit : ℕ → ℕ
hex_digit n = if ltb n 10 then b'0' + n else b'a' + n - 10

abbrev pub hex_byte : ℕ → Bytes
hex_byte n = hex_digit (n / 16) ∷ hex_digit (n % 16) ∷ []

abbrev pub colon_hex : Bytes → Bytes
colon_hex [] = []
colon_hex (b ∷ bs) = b':' ∷ (hex_byte b ++ colon_hex bs)

-- `net.HardwareAddr.String`
unfoldable pub mac_string : Bytes → Bytes
mac_string [] = []
mac_string (b ∷ bs) = hex_byte b ++ colon_hex bs

pub record PortInfo : Type 0 where
  pub name : Bytes
  pub role : Bytes
  pub pvid : ℕ
  pub trunk : List ℕ
  pub up : Bool

pub record PortCounters : Type 0 where
  pub name : Bytes
  pub rx_frames : ℕ
  pub rx_bytes : ℕ
  pub tx_frames : ℕ
  pub tx_bytes : ℕ
  pub flooded : ℕ
  pub forward_drop : ℕ
  pub tx_drop : ℕ

abbrev pub port_info : Port → PortInfo
port_info p = record {
  name = p.name;
  role = role_string p.role;
  pvid = p.pvid;
  trunk = p.trunk_vids;
  up = true;
}

-- `PortsSnapshot`
unfoldable pub ports_snapshot : Engine → List PortInfo
ports_snapshot e = map port_info e.ports

abbrev pub port_counters : Port → PortCounters
port_counters p = record {
  name = p.name;
  rx_frames = p.stats.rx_frames;
  rx_bytes = p.stats.rx_bytes;
  tx_frames = p.stats.tx_frames;
  tx_bytes = p.stats.tx_bytes;
  flooded = p.stats.flooded;
  forward_drop = p.stats.forward_drop;
  tx_drop = p.stats.tx_drop;
}

-- `StatsSnapshot`
unfoldable pub stats_snapshot : Engine → List PortCounters
stats_snapshot e = map port_counters e.ports

module _ (fl : Floats) where
  open fl use {Float, of_int, of_uint, div}

  pub record FdbEntry : Type 0 where
    pub vid : ℕ
    pub mac : Bytes
    pub port : Bytes
    pub age_seconds : Float

  pub record EngineConfig : Type 0 where
    pub ageing_seconds : Float
    pub num_ports : ℕ
    pub vlan_aware : Bool

  -- The loop over the table, in the order in which the map is read; `none` is an index out of
  -- range.
  unfoldable pub fdb_rows : List Port → ℕ → List (MacKey × Entry) → Option (List FdbEntry)
  fdb_rows ps now [] = some []
  fdb_rows ps now ((k, en) ∷ m) = do
    p ← get_elem? ps en.port_idx
    rows ← fdb_rows ps now m
    some (
        record {
          vid = k.vid;
          mac = mac_string k.mac;
          port = p.name;
          age_seconds = div (of_int (sub_ℕ now en.seen_at)) (of_uint 1000000000);
        }
        ∷ rows)

  -- `FDBSnapshot`
  unfoldable pub fdb_snapshot : Engine → ℕ → Option (List FdbEntry)
  fdb_snapshot e now = fdb_rows e.ports now e.fdb.table

  -- `ConfigSnapshot`
  unfoldable pub config_snapshot : Engine → EngineConfig
  config_snapshot e = record {
    ageing_seconds = div (of_int e.fdb.ageing) (of_uint 1000000000);
    num_ports = length e.ports;
    vlan_aware = e.vlan_aware;
  }
