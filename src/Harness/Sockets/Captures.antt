-- ===== src/Harness/Sockets/Captures.antt =====
-- `captureOpts`, `Inject`, `Capture` and `Captures.Close` (internal/harness/probe.go). A fatal error
-- of the test ends the goroutine, after its deferred calls. `openInNetns` is Namespaces'; here it
-- returns a socket or not.
use vibe_switch.Base.{
  ℕ, ◌*◌, Bytes, Bool, true, Option, none, some, List, [], ◌∷◌, map, nat_eq, if◌then◌else◌,
}
use vibe_switch.Base.Assoc.{insert as map_insert}
use vibe_switch.Transport.{
  Instruction, SocketOption, interface, frame_size, block_size, num_blocks, block_timeout,
  poll_timeout, add_vlan_header, millisecond, inbound_filter,
}
use vibe_switch.Harness.Topology.{Host, Topology, host}

pub record Sockets : Type 0 where
  pub open_in_netns : Bytes → List SocketOption → Option ℕ
  pub set_bpf : ℕ → Bool
  pub write : ℕ → Bytes → Bool

pub data SocketCall : Type 0 where
  opens : Bytes → List SocketOption → ℕ → SocketCall  -- in a namespace
  fails_to_open : Bytes → List SocketOption → SocketCall
  sets_filter : ℕ → List Instruction → SocketCall
  writes : ℕ → Bytes → SocketCall
  closes : ℕ → SocketCall

-- A function of the harness returns, or ends the test.
pub data End (A : Type 0) : Type 0 where
  returns : A → End A
  fatal : End A

unfoldable pub capture_opts : Bytes → List SocketOption
capture_opts ifname =
    interface ifname
    ∷ frame_size 4096
    ∷ block_size (4096 * 8)
    ∷ num_blocks 8
    ∷ block_timeout (10 * millisecond)
    ∷ poll_timeout (10 * millisecond)
    ∷ add_vlan_header true
    ∷ []

module _ (k : Sockets) where
  -- `openInNetns` in the namespace of a host, and what follows an open socket.
  abbrev pub open_at :
      {A : Type 0}
      → Bytes
      → List SocketOption
      → (ℕ → List SocketCall × End A)
      → List SocketCall × End A
  open_at ns opts use_socket = elim (k.open_in_netns ns opts) [
    | none ↦ (fails_to_open ns opts ∷ [], fatal)
    | some tp ↦ let (calls, end) = use_socket tp in (opens ns opts tp ∷ calls, end)
  ]

  -- `SetBPF`, which ends the test if it fails.
  abbrev pub filter_at :
      {A : Type 0} → ℕ → List Instruction → List SocketCall × End A → List SocketCall × End A
  filter_at tp program rest = (
    sets_filter tp program ∷ (if k.set_bpf tp then rest.0 else []),
    if k.set_bpf tp then rest.1 else fatal,
  )

  -- `Inject`
  abbrev inject_at : Option Host → Bytes → List SocketCall × End (Unit {0})
  inject_at none frame = ([], fatal)
  inject_at (some h) frame =
      open_at h.ns (interface h.if_name ∷ [])
        λ tp. (writes tp frame ∷ closes tp ∷ [], if k.write tp frame then returns tt else fatal)

  unfoldable pub inject : Topology → ℕ → Bytes → List SocketCall × End (Unit {0})
  inject top idx frame = inject_at (host top idx) frame

  -- The loop of `Capture`, over the indices left, with the captures so far.
  unfoldable pub capture_hosts :
      Topology → List ℕ → List (ℕ × ℕ) → List SocketCall × End (List (ℕ × ℕ))
  capture_hosts top [] caps = ([], returns caps)
  capture_hosts top (idx ∷ idxs) caps = elim (host top idx) [
    | none ↦ ([], fatal)
    | some h ↦
        open_at h.ns (capture_opts h.if_name)
          λ tp. filter_at tp inbound_filter (capture_hosts top idxs (map_insert idx tp caps))
  ]

  unfoldable pub capture : Topology → List ℕ → List SocketCall × End (List (ℕ × ℕ))
  capture top idxs = capture_hosts top idxs []

-- `Captures.Close`, with the loops done. Go leaves the order open.
unfoldable pub close_captures : List (ℕ × ℕ) → List SocketCall
close_captures = map (λ (c : ℕ × ℕ). closes c.1)
