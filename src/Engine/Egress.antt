-- ===== src/Engine/Egress.antt =====
-- The tag of egress frames: `emit` (internal/goswitch/engine.go) with `buildTagged` and
-- `buildUntagged` (internal/goswitch/vlan.go), read back by the decoder.
use vibe_switch.Base.{
  ℕ, ◌<◌, ◌≤◌, ◌≡◌, ◌≢◌, refl, ap, sym, append-nil, ◌∙◌, Bytes, true, false, some, [], ◌∷◌, ◌++◌,
  length, replicate, arith, Bool-cases, inl, inr,
}
use vibe_switch.Vlan.{PortRole, plain, access, trunk}
use vibe_switch.Frame.{
  Gopacket, FrameParser, FrameView, ethernet, dot1q, frame_view, has_dot1q, build_tagged,
  build_untagged, ethernet_type_dot1q,
}
use vibe_switch.Engine.{egress_packet, wants_tag, same}

-- An EtherType, not a length, and neither that of a tag nor that of an Ethernet frame in the frame
-- (transparent Ethernet bridging), which the decoder would read into the same struct.
abbrev pub IsOpaque : ℕ → Type 0
IsOpaque t = (1536 ≤ t) × (t < 65536) × (t ≢ ethernet_type_dot1q) × (t ≢ 0x88a8) × (t ≢ 0x6558)

-- What gopacket documents of a frame that it serialized and decodes again: the addresses, the tag
-- and the type come back, and so does the payload, behind which there may be padding. It holds for
-- six-byte addresses, a VID of twelve bits, and a type that is an EtherType (not a length) and
-- neither a tag's nor that of a nested Ethernet frame.
pub record Decodes (g : Gopacket) : Type 0 where
  pub tagged :
      (fp : FrameParser) (dst src : Bytes) (vid inner : ℕ) (payload : Bytes)
      → length dst ≡ 6
      → length src ≡ 6
      → vid < 4096
      → IsOpaque inner
      → let fp' = g.decode_layers (build_tagged g dst src vid inner payload) fp in
        (fp'.dec ≡ ethernet ∷ dot1q ∷ [])
        × (fp'.eth.dst_mac ≡ dst)
        × (fp'.eth.src_mac ≡ src)
        × (fp'.tag.vlan_identifier ≡ vid)
        × (fp'.tag.inner_type ≡ inner)
        × ((pad : ℕ) × (fp'.tag.payload ≡ payload ++ replicate pad 0))
  pub untagged :
      (fp : FrameParser) (dst src : Bytes) (inner : ℕ) (payload : Bytes)
      → length dst ≡ 6
      → length src ≡ 6
      → IsOpaque inner
      → let fp' = g.decode_layers (build_untagged g dst src inner payload) fp in
        (fp'.dec ≡ ethernet ∷ [])
        × (fp'.eth.dst_mac ≡ dst)
        × (fp'.eth.src_mac ≡ src)
        × (fp'.eth.ethernet_type ≡ inner)
        × ((pad : ℕ) × (fp'.eth.payload ≡ payload ++ replicate pad 0))

view_parts :
    (fp : FrameParser) (frame : Bytes) (fv : FrameView)
    → frame_view fp frame ≡ some fv
    → (length fv.dst ≡ 6) × (length fv.src ≡ 6) × (fv.raw ≡ frame)
unfolding frame_view
view_parts fp frame fv h = elim (Bool-cases (has_dot1q fp.dec)) [
  | inl t ↦ ground arith
  | inr u ↦ ground arith
]

-- How the receiver of an egress frame sees it: the frame that came in, with the tag that the
-- egress role asks for, and perhaps padding behind the payload.
pub record IsSeenAs (role : PortRole) (vid : ℕ) (fv seen : FrameView) : Type 0 where
  pub addressed : (seen.dst ≡ fv.dst) × (seen.src ≡ fv.src)
  pub tag_state : seen.has_tag ≡ wants_tag role
  pub tag : wants_tag role ≡ true → seen.tag_vid ≡ vid
  pub inner : seen.inner_type ≡ fv.inner_type
  pub padded : (pad : ℕ) × (seen.payload ≡ fv.payload ++ replicate pad 0)

unfoldable pub seen_tagged : FrameParser → Bytes → FrameView
seen_tagged fp pkt = record {
  dst = fp.eth.dst_mac;
  src = fp.eth.src_mac;
  has_tag = true;
  tag_vid = fp.tag.vlan_identifier;
  inner_type = fp.tag.inner_type;
  payload = fp.tag.payload;
  raw = pkt;
}

unfoldable pub seen_untagged : FrameParser → Bytes → FrameView
seen_untagged fp pkt = record {
  dst = fp.eth.dst_mac;
  src = fp.eth.src_mac;
  has_tag = false;
  tag_vid = 0;
  inner_type = fp.eth.ethernet_type;
  payload = fp.eth.payload;
  raw = pkt;
}

pub frame_view_tagged :
    (fp : FrameParser) (pkt : Bytes)
    → fp.dec ≡ ethernet ∷ dot1q ∷ []
    → length fp.eth.dst_mac ≡ 6
    → length fp.eth.src_mac ≡ 6
    → frame_view fp pkt ≡ some (seen_tagged fp pkt)
unfolding frame_view seen_tagged
frame_view_tagged fp pkt dec d s = ground arith

pub frame_view_untagged :
    (fp : FrameParser) (pkt : Bytes)
    → fp.dec ≡ ethernet ∷ []
    → length fp.eth.dst_mac ≡ 6
    → length fp.eth.src_mac ≡ 6
    → frame_view fp pkt ≡ some (seen_untagged fp pkt)
unfolding frame_view seen_untagged
frame_view_untagged fp pkt dec d s = ground arith

module _ (g : Gopacket) (law : Decodes g) (fp : FrameParser) (vid : ℕ) (fv : FrameView) where
  abbrev pub IsSent : PortRole → Bytes → Type 0
  IsSent role pkt =
      (seen : FrameView) × (frame_view (g.decode_layers pkt fp) pkt ≡ some seen)
      × IsSeenAs role vid fv seen

  build_tagged-IsSent :
      length fv.dst ≡ 6
      → length fv.src ≡ 6
      → vid < 4096
      → IsOpaque fv.inner_type
      → IsSent trunk (build_tagged g fv.dst fv.src vid fv.inner_type fv.payload)
  unfolding seen_tagged
  build_tagged-IsSent d s v o =
      let (dec, dst, src, tag, inner, pad) =
        law.tagged fp fv.dst fv.src vid fv.inner_type fv.payload d s v o in
      let pkt = build_tagged g fv.dst fv.src vid fv.inner_type fv.payload in
      let fp' = g.decode_layers pkt fp in
      (
        seen_tagged fp' pkt,
        frame_view_tagged fp' pkt dec (ap length dst ∙ d) (ap length src ∙ s),
        record {
          addressed = (dst, src);
          tag_state = refl;
          tag = λ _. tag;
          inner = inner;
          padded = pad;
        },
      )

  build_untagged-IsSent :
      (role : PortRole)
      → wants_tag role ≡ false
      → length fv.dst ≡ 6
      → length fv.src ≡ 6
      → IsOpaque fv.inner_type
      → IsSent role (build_untagged g fv.dst fv.src fv.inner_type fv.payload)
  unfolding seen_untagged
  build_untagged-IsSent role plain_out d s o =
      let (dec, dst, src, inner, pad) =
        law.untagged fp fv.dst fv.src fv.inner_type fv.payload d s o in
      let pkt = build_untagged g fv.dst fv.src fv.inner_type fv.payload in
      let fp' = g.decode_layers pkt fp in
      (
        seen_untagged fp' pkt,
        frame_view_untagged fp' pkt dec (ap length dst ∙ d) (ap length src ∙ s),
        record {
          addressed = (dst, src);
          tag_state = sym plain_out;
          tag = λ h. absurd (ground arith);
          inner = inner;
          padded = pad;
        },
      )

  kept :
      (role : PortRole)
      → same (wants_tag role) fv.has_tag ≡ true
      → egress_packet g role fv vid ≡ fv.raw
  unfolding egress_packet
  kept role h = ground arith

  added :
      fv.has_tag ≡ false
      → egress_packet g trunk fv vid ≡ build_tagged g fv.dst fv.src vid fv.inner_type fv.payload
  unfolding egress_packet
  added h = ground arith

  stripped :
      (role : PortRole)
      → wants_tag role ≡ false
      → fv.has_tag ≡ true
      → egress_packet g role fv vid ≡ build_untagged g fv.dst fv.src fv.inner_type fv.payload
  unfolding egress_packet
  stripped role w h = ground arith

  raw-IsSent :
      (role : PortRole) (frame : Bytes)
      → frame_view (g.decode_layers frame fp) frame ≡ some fv
      → fv.raw ≡ frame
      → (fv.has_tag ≡ true → fv.tag_vid ≡ vid)
      → same (wants_tag role) fv.has_tag ≡ true
      → IsSent role (egress_packet g role fv vid)
  raw-IsSent role frame h raw tagged state =
      rw (kept role state, raw)
        (
          fv,
          h,
          record {
            addressed = (refl, refl);
            tag_state = ground arith;
            tag = λ w. tagged (ground arith);
            inner = refl;
            padded = (0, sym (append-nil fv.payload));
          },
        )

  changed-IsSent :
      (role : PortRole)
      → same (wants_tag role) fv.has_tag ≡ false
      → length fv.dst ≡ 6
      → length fv.src ≡ 6
      → vid < 4096
      → IsOpaque fv.inner_type
      → IsSent role (egress_packet g role fv vid)
  changed-IsSent trunk change d s v o = rw (added change) (build_tagged-IsSent d s v o)
  changed-IsSent access change d s v o =
      rw (stripped access refl (ground arith)) (build_untagged-IsSent access refl d s o)
  changed-IsSent plain change d s v o =
      rw (stripped plain refl (ground arith)) (build_untagged-IsSent plain refl d s o)

  -- With a codec that decodes what it serializes, for a frame of a VLAN below 4096 whose type is an
  -- EtherType, at least 1536, and not that of a tag or of nested Ethernet, and whose tag, if it came
  -- with one, names the VLAN: when it
  -- leaves a port, a receiver that decodes as the switch does reads the addresses, the type and
  -- the payload that came in, up to padding behind the payload. The frame carries a tag exactly
  -- when the egress port is a trunk, and then the tag names the VLAN.
  pub egress_packet-IsSent :
      (role : PortRole) (frame : Bytes)
      → frame_view (g.decode_layers frame fp) frame ≡ some fv
      → (fv.has_tag ≡ true → fv.tag_vid ≡ vid)
      → vid < 4096
      → IsOpaque fv.inner_type
      → IsSent role (egress_packet g role fv vid)
  egress_packet-IsSent role frame h tagged v o =
      let (d, s, raw) = view_parts (g.decode_layers frame fp) frame fv h in
      elim (Bool-cases (same (wants_tag role) fv.has_tag)) [
        | inl state ↦ raw-IsSent role frame h raw tagged state
        | inr change ↦ changed-IsSent role change d s v o
      ]
