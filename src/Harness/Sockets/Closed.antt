-- ===== src/Harness/Sockets/Closed.antt =====
-- The sockets that the functions of the harness (internal/harness/probe.go,
-- internal/harness/perf.go) leave open.
use vibe_switch.Base.{ℕ, ◌≡◌, Bytes, true, some, List, nat_eq}
use vibe_switch.Base.Assoc.{insert as map_insert}
use vibe_switch.Transport.{SocketOption}
use vibe_switch.Harness.Topology.{Host, Topology, host}
use vibe_switch.Harness.Sockets.Captures.{Sockets, SocketCall, End, capture_opts}
use vibe_switch.Harness.Sockets.Meters.{sender_opts, new_sender, open_receiver, send_and_close}

module _ (k : Sockets) (top : Topology) where
  -- A socket with its filter can be had at the host.
  abbrev pub CanCapture : ℕ → Type 0
  CanCapture i =
      (at : Host) × (tp : ℕ) × (host top i ≡ some at)
      × (k.open_in_netns at.ns (capture_opts at.if_name) ≡ some tp)
      × (k.set_bpf tp ≡ true)

  -- What `Throughput` and `Latency` have in common.
  abbrev measure_between :
      ℕ → ℕ → (Bytes → List SocketOption) → List Bytes → List SocketCall × End (Unit {0})
  measure_between src dst opts sent =
      new_sender k top src λ s. open_receiver k opts top dst λ c. send_and_close s c sent

  -- A sender can be had at one host and a receiver with its filter at another.
  abbrev pub CanMeasure : ℕ → ℕ → (Bytes → List SocketOption) → Type 0
  CanMeasure src dst opts =
      (from : Host) × (to : Host) × (s : ℕ) × (c : ℕ) × (host top src ≡ some from)
      × (host top dst ≡ some to)
      × (k.open_in_netns from.ns (sender_opts from.if_name) ≡ some s)
      × (k.open_in_netns to.ns (opts to.if_name) ≡ some c)
      × (k.set_bpf c ≡ true)
