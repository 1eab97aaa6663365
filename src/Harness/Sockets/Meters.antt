-- ===== src/Harness/Sockets/Meters.antt =====
-- The sockets of `Throughput` and `Latency` (internal/harness/perf.go): `newSender`, `newCounter`,
-- `counter.stop` and `sender.close`. What is sent and received in between is in Harness/Perf.
use vibe_switch.Base.{ℕ, ◌*◌, Bytes, Option, none, some, List, [], ◌∷◌, ◌++◌, map}
use vibe_switch.Transport.{
  SocketOption, interface, frame_size, block_size, num_blocks, block_timeout, poll_timeout,
  packet_version, millisecond, perf_bpf,
}
use vibe_switch.Harness.Topology.{Host, Topology, host}
use vibe_switch.Harness.Sockets.Captures.{
  Sockets, SocketCall, writes, closes, End, returns, fatal, open_at, filter_at,
}

unfoldable pub sender_opts : Bytes → List SocketOption
sender_opts ifname =
    interface ifname
    ∷ frame_size 2048
    ∷ block_size 4096
    ∷ num_blocks 4
    ∷ block_timeout (10 * millisecond)
    ∷ poll_timeout (10 * millisecond)
    ∷ []

unfoldable pub counter_opts : Bytes → List SocketOption
counter_opts ifname = interface ifname ∷ poll_timeout (20 * millisecond) ∷ []

unfoldable pub receiver_opts : Bytes → List SocketOption
receiver_opts ifname =
    interface ifname
    ∷ packet_version 2
    ∷ frame_size 2048
    ∷ block_size 4096
    ∷ num_blocks 64
    ∷ block_timeout (1 * millisecond)
    ∷ poll_timeout (2 * millisecond)
    ∷ []

-- The frames are sent, whether or not a write succeeds; then both sockets are closed, the
-- receiver's first.
abbrev pub send_and_close : ℕ → ℕ → List Bytes → List SocketCall × End (Unit {0})
send_and_close s c sent = (map (writes s) sent ++ closes c ∷ closes s ∷ [], returns tt)

module _ (k : Sockets) where
  -- A socket at a host.
  abbrev pub open_host :
      {A : Type 0}
      → Option Host
      → (Bytes → List SocketOption)
      → (ℕ → List SocketCall × End A)
      → List SocketCall × End A
  open_host none opts use_socket = ([], fatal)
  open_host (some h) opts use_socket = open_at k h.ns (opts h.if_name) use_socket

  -- `newSender`
  abbrev pub new_sender :
      {A : Type 0} → Topology → ℕ → (ℕ → List SocketCall × End A) → List SocketCall × End A
  new_sender top src use_socket = open_host (host top src) sender_opts use_socket

  -- A receiver with the filter of the measurements.
  abbrev pub open_receiver :
      {A : Type 0}
      → (Bytes → List SocketOption)
      → Topology
      → ℕ
      → (ℕ → List SocketCall × End A)
      → List SocketCall × End A
  open_receiver opts top dst use_socket =
      open_host (host top dst) opts λ c. filter_at k c perf_bpf (use_socket c)

  -- `newCounter`
  abbrev pub new_counter :
      {A : Type 0} → Topology → ℕ → (ℕ → List SocketCall × End A) → List SocketCall × End A
  new_counter top dst use_socket = open_receiver counter_opts top dst use_socket

  -- `Throughput`, over the frames that it sends
  unfoldable pub throughput_sockets :
      Topology → ℕ → ℕ → List Bytes → List SocketCall × End (Unit {0})
  throughput_sockets top src dst sent =
      new_sender top src λ s. new_counter top dst λ c. send_and_close s c sent

  -- `Latency`, over the frames that it sends
  unfoldable pub latency_sockets : Topology → ℕ → ℕ → List Bytes → List SocketCall × End (Unit {0})
  latency_sockets top src dst sent =
      new_sender top src λ s. open_receiver receiver_opts top dst λ c. send_and_close s c sent
