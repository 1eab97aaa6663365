-- ===== src/Harness/Topology/Hosts.antt =====
-- `HostSpec`, `Host`, `NewTopology` and `Topology.Host` (internal/harness/topology.go).
use vibe_switch.Base.{
  ℕ, ◌+◌, ◌%◌, Bytes, codes, Option, none, some, List, [], ◌∷◌, ◌++◌, ◌==◌, if◌then◌else◌,
}
use vibe_switch.Base.Decimal.{itoa}

pub record HostSpec : Type 0 where
  pub ip : Bytes
  pub access_vid : ℕ
  pub trunk : List ℕ

pub record Host : Type 0 where
  pub idx : ℕ
  pub ns : Bytes
  pub if_name : Bytes
  pub mac : Bytes
  pub ip : Bytes
  pub sw_if : Bytes
  pub access_vid : ℕ
  pub trunk : List ℕ

pub record Topology : Type 0 where
  pub prefix : Bytes
  pub sw_ns : Bytes
  pub hosts : List Host

-- `Broadcast`
abbrev pub broadcast : Bytes
broadcast = 0xff ∷ 0xff ∷ 0xff ∷ 0xff ∷ 0xff ∷ 0xff ∷ []

-- `fmt.Sprintf("vs%dx%d", …)`, of the process and the count of topologies.
unfoldable pub prefix_of : ℕ → ℕ → Bytes
prefix_of pid seq = codes "vs" ++ itoa (pid % 1000) ++ b'x' ∷ itoa seq

-- A prefix, a letter and an index.
unfoldable pub name_of : Bytes → ℕ → ℕ → Bytes
name_of prefix letter idx = prefix ++ letter ∷ itoa idx

unfoldable pub mac_of : ℕ → Bytes
mac_of idx = 0x02 ∷ 0 ∷ 0 ∷ 0 ∷ 0 ∷ (idx % 256) ∷ []

unfoldable pub host_of : Bytes → ℕ → HostSpec → Host
host_of prefix idx s = record {
  idx = idx;
  ns = name_of prefix b'h' idx;
  if_name = codes "eth0";
  mac = mac_of idx;
  ip = s.ip;
  sw_if = name_of prefix b's' idx;
  access_vid = s.access_vid;
  trunk = s.trunk;
}

-- The loop over the specs; the first host has index 1.
unfoldable pub hosts_from : Bytes → ℕ → List HostSpec → List Host
hosts_from prefix i [] = []
hosts_from prefix i (s ∷ specs) = host_of prefix (i + 1) s ∷ hosts_from prefix (i + 1) specs

-- `NewTopology`
unfoldable pub new_topology : ℕ → ℕ → List HostSpec → Topology
new_topology pid seq specs = record {
  prefix = prefix_of pid seq;
  sw_ns = prefix_of pid seq ++ codes "sw";
  hosts = hosts_from (prefix_of pid seq) 0 specs;
}

unfoldable pub find_host : List Host → ℕ → Option Host
find_host [] idx = none
find_host (h ∷ hs) idx = let rest = find_host hs idx in if h.idx == idx then some h else rest

-- `Topology.Host`; `none` is its fatal error.
unfoldable pub host : Topology → ℕ → Option Host
host top idx = find_host top.hosts idx
