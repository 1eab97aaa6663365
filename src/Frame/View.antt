-- ===== src/Frame/View.antt =====
-- `frameParser`, `frameView` and the decoding part of `forward` (internal/goswitch/engine.go);
-- `buildTagged` and `buildUntagged` (internal/goswitch/vlan.go).
use vibe_switch.Base.{
  ℕ, Bytes, Bool, true, false, not, ◌||◌, Option, none, some, List, [], ◌∷◌, ◌==◌, length,
  if◌then◌else◌, get_or, ◌%◌, ◌++◌, take, replicate,
}
use vibe_switch.Frame.Layers.{
  Ethernet, Dot1q, LayerType, ethernet, dot1q, other, eth_layer, tag_layer, payload_layer,
  FrameParser, Gopacket, ethernet_type_dot1q,
}

abbrev pub zero_eth : Ethernet
zero_eth = record { dst_mac = []; src_mac = []; ethernet_type = 0; payload = [] }

abbrev pub zero_tag : Dot1q
zero_tag = record {
  priority = 0;
  drop_eligible = false;
  vlan_identifier = 0;
  inner_type = 0;
  payload = [];
}

-- `newFrameParser`
unfoldable pub new_frame_parser : FrameParser
new_frame_parser = record { eth = zero_eth; tag = zero_tag; dec = [] }

pub record FrameView : Type 0 where
  pub dst : Bytes
  pub src : Bytes
  pub has_tag : Bool
  pub tag_vid : ℕ
  pub inner_type : ℕ
  pub payload : Bytes
  pub raw : Bytes

-- The loop over `fp.dec`.
abbrev pub has_ethernet : List LayerType → Bool
has_ethernet [] = false
has_ethernet (ethernet ∷ ls) = true
has_ethernet (dot1q ∷ ls) = has_ethernet ls
has_ethernet (other ∷ ls) = has_ethernet ls

abbrev pub has_dot1q : List LayerType → Bool
has_dot1q [] = false
has_dot1q (dot1q ∷ ls) = true
has_dot1q (ethernet ∷ ls) = has_dot1q ls
has_dot1q (other ∷ ls) = has_dot1q ls

view_of : FrameParser → Bytes → Bool → FrameView
view_of fp frame true = record {
  dst = fp.eth.dst_mac;
  src = fp.eth.src_mac;
  has_tag = true;
  tag_vid = fp.tag.vlan_identifier;
  inner_type = fp.tag.inner_type;
  payload = fp.tag.payload;
  raw = frame;
}
view_of fp frame false = record {
  dst = fp.eth.dst_mac;
  src = fp.eth.src_mac;
  has_tag = false;
  tag_vid = 0;
  inner_type = fp.eth.ethernet_type;
  payload = fp.eth.payload;
  raw = frame;
}

-- The view of a decoded frame; `none` where `forward` counts a drop and returns.
unfoldable pub frame_view : FrameParser → Bytes → Option FrameView
unfolding view_of
frame_view fp frame =
    if not (has_ethernet fp.dec)
      || not (length fp.eth.dst_mac == 6)
      || not (length fp.eth.src_mac == 6)
    then none
    else some (view_of fp frame (has_dot1q fp.dec))

-- `mac[0]&0x01`, the group bit; a MAC address here has six bytes.
abbrev pub is_group : Bytes → Bool
is_group mac = get_or mac 0 0 % 2 == 1

-- `copy` into a zeroed `[6]byte`.
abbrev pub copy_mac : Bytes → Bytes
copy_mac mac = take 6 (mac ++ replicate 6 0)

module _ (g : Gopacket) where
  unfoldable pub build_tagged : Bytes → Bytes → ℕ → ℕ → Bytes → Bytes
  build_tagged dst src vid inner payload = g.serialize_layers (
      eth_layer
        (record zero_eth { src_mac = src; dst_mac = dst; ethernet_type = ethernet_type_dot1q })
      ∷ tag_layer (record zero_tag { vlan_identifier = vid; inner_type = inner })
      ∷ payload_layer payload
      ∷ [])

  unfoldable pub build_untagged : Bytes → Bytes → ℕ → Bytes → Bytes
  build_untagged dst src inner payload = g.serialize_layers (
      eth_layer (record zero_eth { src_mac = src; dst_mac = dst; ethernet_type = inner })
      ∷ payload_layer payload
      ∷ [])
