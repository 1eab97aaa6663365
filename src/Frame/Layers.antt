-- ===== src/Frame/Layers.antt =====
-- The part of gopacket that internal/goswitch uses: the layer structs, the reusable decoder and
-- the serializer. The decoder and the serializer are fields of a record that the engine takes.
use vibe_switch.Base.{ℕ, Bytes, Bool, List}

-- `layers.Ethernet`, its `Payload` included.
pub record Ethernet : Type 0 where
  pub dst_mac : Bytes
  pub src_mac : Bytes
  pub ethernet_type : ℕ
  pub payload : Bytes

-- `layers.Dot1Q`, its `Payload` included.
pub record Dot1q : Type 0 where
  pub priority : ℕ
  pub drop_eligible : Bool
  pub vlan_identifier : ℕ
  pub inner_type : ℕ
  pub payload : Bytes

pub data LayerType : Type 0 where
  ethernet dot1q other : LayerType

-- A layer handed to `gopacket.SerializeLayers`; the payload field of a struct is not written.
pub data Layer : Type 0 where
  eth_layer : Ethernet → Layer
  tag_layer : Dot1q → Layer
  payload_layer : Bytes → Layer

-- `frameParser`: the structs that are decoded into, and the layer types of the last frame.
pub record FrameParser : Type 0 where
  pub eth : Ethernet
  pub tag : Dot1q
  pub dec : List LayerType

pub record Gopacket : Type 0 where
  -- `DecodeLayers(frame, &fp.dec)`, on a parser that may hold the structs of an earlier frame
  pub decode_layers : Bytes → FrameParser → FrameParser
  -- `SerializeLayers` with FixLengths into a fresh buffer, then `buf.Bytes()`
  pub serialize_layers : List Layer → Bytes

-- `layers.EthernetTypeDot1Q`
abbrev pub ethernet_type_dot1q : ℕ
ethernet_type_dot1q = 0x8100
