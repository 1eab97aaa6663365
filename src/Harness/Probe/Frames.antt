-- ===== src/Harness/Probe/Frames.antt =====
-- internal/harness/probe.go: building and reading test frames, and the captures. gopacket's
-- serializer and packet decoder are parameters.
use vibe_switch.Base.{
  ℕ, ◌-◌, Bytes, Bool, true, false, not, ◌&&◌, Option, none, some, List, [], ◌∷◌, ◌++◌, ◌==◌, ltb,
  leb, length, take, replicate, bytes_eq, if◌then◌else◌,
}
use vibe_switch.Frame.{
  Gopacket, Ethernet, Dot1q, Layer, eth_layer, tag_layer, payload_layer, zero_eth, zero_tag,
  ethernet_type_dot1q,
}
use vibe_switch.Transport.{test_ethernet_type}

abbrev pub magic : Bytes
magic = 0xde ∷ 0xad ∷ 0xbe ∷ 0xef ∷ []

-- The layers that `gopacket.NewPacket` finds: none that is Ethernet, or that and perhaps a tag.
abbrev pub Decoder : Type 0
Decoder = Bytes → Option (Ethernet × Option Dot1q)

-- `append(frame, make([]byte, padTo-len(frame))...)`
abbrev pub pad_to : ℕ → Bytes → Bytes
pad_to n frame = if ltb (length frame) n then frame ++ replicate (n - length frame) 0 else frame

module _ (g : Gopacket) where
  -- The layers of a test frame.
  unfoldable pub test_layers : Bytes → Bytes → ℕ → Bytes → List Layer
  test_layers src dst vid body =
      let eth : Ethernet = record zero_eth {
        src_mac = src;
        dst_mac = dst;
        ethernet_type = test_ethernet_type;
      } in
      if not (vid == 0)
      then eth_layer (record eth { ethernet_type = ethernet_type_dot1q })
        ∷ tag_layer (record zero_tag { vlan_identifier = vid; inner_type = test_ethernet_type })
        ∷ payload_layer body
        ∷ []
      else eth_layer eth ∷ payload_layer body ∷ []

  unfoldable pub serialize : Bytes → Bytes → ℕ → Bytes → ℕ → Bytes
  serialize src dst vid payload n =
      pad_to n (g.serialize_layers (test_layers src dst vid (magic ++ payload)))

  unfoldable pub build_frame : Bytes → Bytes → Bytes → ℕ → Bytes
  build_frame src dst payload n = serialize src dst 0 payload n

  unfoldable pub build_vlan_frame : Bytes → Bytes → ℕ → Bytes → ℕ → Bytes
  build_vlan_frame src dst vid payload n = serialize src dst vid payload n

pub record FrameInfo : Type 0 where
  pub src : Bytes
  pub dst : Bytes
  pub has_vlan : Bool
  pub vlan_id : ℕ
  pub eth_type : ℕ
  pub payload : Bytes

-- `isTest`
unfoldable pub is_test : FrameInfo → Bool
is_test fi =
    (fi.eth_type == test_ethernet_type)
    && leb 4 (length fi.payload)
    && bytes_eq (take 4 fi.payload) magic

unfoldable pub info_of : Ethernet → Option Dot1q → FrameInfo
info_of e none = record {
  src = e.src_mac;
  dst = e.dst_mac;
  has_vlan = false;
  vlan_id = 0;
  eth_type = e.ethernet_type;
  payload = e.payload;
}
info_of e (some dq) = record {
  src = e.src_mac;
  dst = e.dst_mac;
  has_vlan = true;
  vlan_id = dq.vlan_identifier;
  eth_type = dq.inner_type;
  payload = dq.payload;
}

-- `Parse`
unfoldable pub parse : Decoder → Bytes → Option FrameInfo
parse d b = elim (d b) [ none ↦ none | some (e, tag) ↦ some (info_of e tag) ]

-- What a read of a capture returns.
pub data Read : Type 0 where
  timed_out failed : Read
  got : Bytes → Read

-- `capture.loop`: the frames kept, over what the reads return while `done` is open. The loop ends
-- at an error or when `done` is closed, which is the end of the list.
unfoldable pub capture_loop : List Read → List Bytes → List Bytes
capture_loop [] frames = frames
capture_loop (timed_out ∷ reads) frames = capture_loop reads frames
capture_loop (failed ∷ reads) frames = frames
capture_loop (got b ∷ reads) frames = capture_loop reads (frames ++ b ∷ [])

-- A frame is kept if it decodes and is a test frame.
abbrev pub keep_test : Option FrameInfo → List FrameInfo → List FrameInfo
keep_test none out = out
keep_test (some fi) out = if is_test fi then fi ∷ out else out

-- `Received`, on the frames of a capture.
unfoldable pub received : Decoder → List Bytes → List FrameInfo
received d [] = []
received d (b ∷ raw) = keep_test (parse d b) (received d raw)

-- `Count`
unfoldable pub count : Decoder → List Bytes → ℕ
count d raw = length (received d raw)
