-- ===== src/Transport/Open.antt =====
-- `RxOpts`, `disableOffloads` and `OpenInterface` (internal/goswitch/afpacket.go). The calls of
-- ethtool and of the socket are the surroundings'; what is asked of them is a list of calls.
use vibe_switch.Base.{
  ℕ, ◌*◌, Bytes, codes, Bool, true, false, Option, none, some, List, [], ◌∷◌, ◌++◌, if◌then◌else◌,
}
use vibe_switch.Transport.Bpf.{Instruction, inbound_bpf}

-- An option of `afpacket.NewTPacket`; times are nanoseconds.
pub data SocketOption : Type 0 where
  interface : Bytes → SocketOption
  frame_size block_size num_blocks : ℕ → SocketOption
  block_timeout poll_timeout : ℕ → SocketOption
  add_vlan_header : Bool → SocketOption
  packet_version : ℕ → SocketOption

abbrev pub millisecond : ℕ
millisecond = 1000000

unfoldable pub rx_opts : Bytes → List SocketOption
rx_opts ifname =
    interface ifname
    ∷ frame_size 4096
    ∷ block_size (4096 * 32)
    ∷ num_blocks 16
    ∷ block_timeout (1 * millisecond)
    ∷ poll_timeout (1 * millisecond)
    ∷ add_vlan_header true
    ∷ []

pub data Call : Type 0 where
  runs : List Bytes → Call  -- a command with its arguments
  warns : Bytes → Call  -- the lines on standard error that name an interface
  opens : List SocketOption → ℕ → Call  -- `NewTPacket`, which returned a handle
  fails_to_open : List SocketOption → Call
  sets_promiscuous : ℕ → Call
  sets_filter : ℕ → List Instruction → Call
  closes : ℕ → Call

-- What the kernel answers.
pub record Kernel : Type 0 where
  pub ethtool : Bytes → Bool
  pub new_socket : List SocketOption → Option ℕ
  pub set_promiscuous : ℕ → Bool
  pub set_filter : ℕ → Bool

unfoldable pub disable_offloads : Bytes → List Bytes
disable_offloads ifname =
    codes "ethtool"
    ∷ codes "-K"
    ∷ ifname
    ∷ codes "gro"
    ∷ codes "off"
    ∷ codes "gso"
    ∷ codes "off"
    ∷ codes "tso"
    ∷ codes "off"
    ∷ codes "lro"
    ∷ codes "off"
    ∷ []

-- From the open socket on.
unfoldable pub prepare : Kernel → ℕ → List Call × Option ℕ
prepare k tp =
    if k.set_promiscuous tp
    then (if k.set_filter tp
        then (sets_promiscuous tp ∷ sets_filter tp inbound_bpf ∷ [], some tp)
        else (sets_promiscuous tp ∷ sets_filter tp inbound_bpf ∷ closes tp ∷ [], none))
    else (sets_promiscuous tp ∷ closes tp ∷ [], none)

unfoldable pub open_socket : Kernel → List SocketOption → Option ℕ → List Call × Option ℕ
open_socket k opts none = (fails_to_open opts ∷ [], none)
open_socket k opts (some tp) = let (calls, handle) = prepare k tp in (opens opts tp ∷ calls, handle)

-- The warning, if ethtool failed.
abbrev pub warning : Bool → Bytes → List Call
warning true ifname = []
warning false ifname = warns ifname ∷ []

-- `OpenInterface`
unfoldable pub open_interface : Kernel → Bytes → List Call × Option ℕ
unfolding disable_offloads
open_interface k ifname =
    let (calls, handle) = open_socket k (rx_opts ifname) (k.new_socket (rx_opts ifname)) in
    (runs (disable_offloads ifname) ∷ (warning (k.ethtool ifname) ifname ++ calls), handle)
