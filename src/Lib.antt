-- ===== src/Lib.antt =====
-- vibe-switch: a VLAN-aware Ethernet switch in user space. Frames come in on the AF_PACKET handle of
-- a port, are put in a VLAN, teach the forwarding database where their source address is, and are
-- written to the port of their destination, or to all other ports of the VLAN. A control socket
-- serves snapshots of the running switch; the command line builds the switch from port flags. A
-- test harness runs it, or a kernel bridge, between hosts in network namespaces.
--
-- The parts, and the files that model them:
--   internal/goswitch/vlan.go     Vlan (roles, `port.classify`), Frame/View (`buildTagged`,
--                                 `buildUntagged`)
--   internal/goswitch/fdb.go      Fdb/Table: `Learn` is learn, `Lookup` is lookup, `reap` is reap;
--                                 Fdb/Shared/Steps: the same, access by access
--   internal/goswitch/engine.go   Engine/Ports (the engine and its ports), Engine/Build
--                                 (`NewEngine`), Engine/Forward (`forward`, `emit`), Engine/Run (the
--                                 calls that change an engine, and histories of them);
--                                 Lifecycle/Steps (`Start`, `Stop`, `gcLoop`)
--   internal/goswitch/afpacket.go Transport/Bpf (`InboundBPF`), Transport/Open (`RxOpts`,
--                                 `OpenInterface`); the rx loop in Engine/Run and Lifecycle/Steps
--   internal/goswitch/stats.go    Stats/Snapshots
--   internal/control/service.go   Control/Client (the four methods of the service),
--                                 Control/Server/Steps (`Serve`, `acceptLoop`, `Close`)
--   internal/control/client.go    Control/Client (`query`, `showRate`, `Shell`), Control/Cells (the
--                                 renderers)
--   cmd/vibe-switch/main.go       Command/Flags (the port flags), Command/Start (`runSwitch`),
--                                 Command/Text (what it uses of `strings` and `strconv`),
--                                 Program (`main`, the flags, `runCtl`, and the dials of `Show` and
--                                 `Shell`), which puts Command and Control together
--   internal/harness/probe.go     Harness/Probe/Frames (test frames and captures),
--                                 Harness/Sockets/Namespaces (`openInNetns`),
--                                 Harness/Sockets/Captures (`Inject`, `Capture`, `Close`)
--   internal/harness/perf.go      Harness/Perf/Latency (`Latency`, `Percentile`),
--                                 Harness/Perf/Throughput (`Throughput`), Harness/Perf/Stamps;
--                                 Harness/Sockets/Meters (the sockets of both)
--   internal/harness/switch.go    Harness/Adapter/GoSwitch, Harness/Adapter/Bridge
--   internal/harness/topology.go  Harness/Topology/Hosts (`NewTopology`), Harness/Topology/Commands
--                                 (`Setup`, `Teardown`, `Ping`), Harness/Running (`mustIP`),
--                                 Harness/Fixture (`Setup` and `Teardown` with the switch)
--                                 The BPF programs of the harness are in Transport/Bpf.
-- Base has the helpers that all share, Samples and Tests a sample switch, runs of it and the
-- theorems at concrete inputs. Harness/Through puts the harness and the engine together.
--
-- How state is represented. An engine is a record: its ports with their counters and decoders, the
-- member lists of the VLANs, and the forwarding database. Operations take the engine and return the
-- next one; `none` stands for a panic, an index out of range. What goes out is the list of the
-- calls of `WritePacketData`, in order, with whether each succeeded, which a function of handle and
-- packet decides. Go's maps are association lists with one entry for each key.
--
-- Bounds. Counters wrap at 2^64. Times are `UnixNano` values, natural numbers below 2^63, so
-- `now - seenAt` stays in `int64`; the ageing time is any `int64`, negative ones included. All
-- loops are structural recursion; only the digits of a decimal number take fuel, one round for each
-- digit, of which Base/Decimal gives more than there are.
--
-- Parameters. gopacket's decoder and serializer are fields of Frame/Layers.Gopacket; only
-- Engine/Egress and Harness/Through rely on a law of them, that a serialized frame decodes to what it
-- was made from, for VIDs of twelve bits and types that are EtherTypes, not those of a tag or of nested
-- Ethernet. A float64 is of the type of Base/Float.
-- Interfaces that open or not, and the control socket, are Command/Start.Host; the flag package, and
-- the sockets that `ctl` dials, are Program.FlagPackage and Program.Terminal. The machine that runs
-- BPF programs is Transport/Bpf.Machine, with the documented meaning of four instructions as the
-- laws that Transport/Filters relies on; the socket calls are Transport/Open.Kernel and
-- Harness/Adapter/GoSwitch.Namespace, and in the harness Harness/Sockets/Namespaces.Netns and
-- Harness/Sockets/Captures.Sockets. The harness reads frames with Harness/Probe/Frames.Decoder,
-- which is assumed to read a frame that was serialized, with zeros behind it. Commands of `ip` and
-- `bridge` are lists of arguments; whether one succeeds is a function that a theorem quantifies
-- over.
--
-- Concurrency. In Lifecycle/Steps a call of `forward`, `reap` or `SetAgeing` is one step, and the
-- steps of all goroutines interleave. Fdb/Shared/Steps goes into the calls of the table: entries
-- stand on a heap, the accesses of `Learn` and `Lookup` behind their locks and those of the loop of
-- `reap` are steps of their own, and calls interleave in any order that the locks allow.
-- In Control/Server/Steps the calls of the system are steps that may fail, and `Accept` too; the
-- return of `Accept` and the start of the goroutine that serves the connection are two steps.
--
-- Not modelled: the socket calls and those of netns themselves, `nowNanos`, and the sleeps but for
-- those that pace `Throughput`, which are lengths beside readings of the clock; net/rpc and
-- the alignment of tabwriter, whose lines are lists of cells; the flag package's own parsing; the
-- lines that `runSwitch` prints, and the texts of errors.
pub mod Base
pub mod Vlan
pub mod Fdb
pub mod Frame
pub mod Engine
pub mod Stats
pub mod Control
pub mod Transport
pub mod Lifecycle
pub mod Command
pub mod Program
pub mod Harness
pub mod Samples
mod Tests
