-- ===== src/Samples.antt =====
-- Test data: a decoder and a serializer for Ethernet frames with at most one tag, as concrete
-- functions for the parameter that stands for gopacket, and a switch with two access ports and a
-- trunk.
use vibe_switch.Base.{
  ℕ, ◌+◌, ◌*◌, ◌/◌, ◌%◌, Bytes, codes, Bool, true, false, List, [], ◌∷◌, ◌++◌, ◌==◌, if◌then◌else◌,
}
use vibe_switch.Frame.{
  Layer, ethernet, dot1q, eth_layer, tag_layer, payload_layer, FrameParser, Gopacket,
}
use vibe_switch.Engine.{PortConfig, Engine, Result, ok, err}

abbrev two_bytes : ℕ → Bytes
two_bytes n = (n / 256) ∷ (n % 256) ∷ []

-- What stands behind the addresses and the type 0x8100, if it is long enough.
abbrev decode_tag : Bytes → FrameParser → FrameParser
decode_tag (v ∷ v' ∷ t ∷ t' ∷ payload) fp = record fp {
  tag = record {
    priority = (v * 256 + v') / 0x2000;
    drop_eligible = false;
    vlan_identifier = (v * 256 + v') % 0x1000;
    inner_type = t * 256 + t';
    payload = payload;
  };
  dec = ethernet ∷ dot1q ∷ [];
}
decode_tag b fp = fp

abbrev decode : Bytes → FrameParser → FrameParser
decode (a ∷ b ∷ c ∷ d ∷ e ∷ f ∷ a' ∷ b' ∷ c' ∷ d' ∷ e' ∷ f' ∷ t ∷ t' ∷ payload) fp =
    let eth : FrameParser = record fp {
      eth = record {
        dst_mac = a ∷ b ∷ c ∷ d ∷ e ∷ f ∷ [];
        src_mac = a' ∷ b' ∷ c' ∷ d' ∷ e' ∷ f' ∷ [];
        ethernet_type = t * 256 + t';
        payload = payload;
      };
      dec = ethernet ∷ [];
    } in
    if t * 256 + t' == 0x8100 then decode_tag payload eth else eth
decode b fp = record fp { dec = [] }

abbrev serialize : List Layer → Bytes
serialize [] = []
serialize (eth_layer e ∷ ls) = e.dst_mac ++ e.src_mac ++ two_bytes e.ethernet_type ++ serialize ls
serialize (tag_layer t ∷ ls) = two_bytes t.vlan_identifier ++ two_bytes t.inner_type ++ serialize ls
serialize (payload_layer b ∷ ls) = b ++ serialize ls

abbrev pub codec : Gopacket
codec = record { decode_layers = decode; serialize_layers = serialize }

abbrev pub config : List PortConfig
config =
    record { name = codes "eth0"; access_vid = 10; trunk_vids = [] }
    ∷ record { name = codes "eth1"; access_vid = 10; trunk_vids = [] }
    ∷ record { name = codes "eth2"; access_vid = 0; trunk_vids = 10 ∷ 20 ∷ 10 ∷ [] }
    ∷ []

abbrev pub mac_a : Bytes
mac_a = 2 ∷ 0 ∷ 0 ∷ 0 ∷ 0 ∷ 1 ∷ []

abbrev pub mac_b : Bytes
mac_b = 2 ∷ 0 ∷ 0 ∷ 0 ∷ 0 ∷ 2 ∷ []

abbrev pub frame_ab : Bytes
frame_ab = mac_b ++ mac_a ++ 0x88 ∷ 0xb5 ∷ 1 ∷ 2 ∷ []

abbrev pub frame_ba : Bytes
frame_ba = mac_a ++ mac_b ++ 0x88 ∷ 0xb5 ∷ 3 ∷ []

abbrev pub all_taken : ℕ → Bytes → Bool
all_taken io pkt = true

abbrev or_else : Engine → Result Engine → Engine
or_else e (ok x) = x
or_else e (err x) = e
