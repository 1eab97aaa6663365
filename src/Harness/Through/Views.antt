-- ===== src/Harness/Through/Views.antt =====
-- How the engine reads a test frame (`forward`, internal/goswitch/engine.go; `serialize`,
-- internal/harness/probe.go).
use vibe_switch.Base.{
  ℕ, zero, suc, ◌<◌, ◌≡◌, refl, ap, ◌∙◌, Bytes, false, not, ◌==◌, some, ◌++◌, length, replicate,
  arith,
}
use vibe_switch.Frame.{Gopacket, FrameParser, FrameView, frame_view, build_tagged, build_untagged}
use vibe_switch.Engine.Egress.{
  Decodes, seen_tagged, seen_untagged, frame_view_tagged, frame_view_untagged,
}
use vibe_switch.Transport.{test_ethernet_type}
use vibe_switch.Harness.Probe.{magic, pad_to, serialize, test_layers}
use vibe_switch.Harness.Probe.RoundTrip.{test_type-IsOpaque}

-- The view of a test frame with a tag of the VID, or without one for 0.
pub record IsView (dst src : Bytes) (tag : ℕ) (body frame : Bytes) (fv : FrameView) : Type 0 where
  pub to : fv.dst ≡ dst
  pub from : fv.src ≡ src
  pub has_tag : fv.has_tag ≡ not (tag == 0)
  pub tag_vid : fv.tag_vid ≡ tag
  pub inner_type : fv.inner_type ≡ test_ethernet_type
  pub payload : (pad : ℕ) × (fv.payload ≡ magic ++ body ++ replicate pad 0)
  pub raw : fv.raw ≡ frame

unpadded : (frame : Bytes) → pad_to 0 frame ≡ frame
unpadded frame = ground arith

-- A frame that is not padded is what the engine itself would build.
pub serialize_untagged :
    (g : Gopacket) (src dst body : Bytes)
    → serialize g src dst 0 body 0 ≡ build_untagged g dst src test_ethernet_type (magic ++ body)
unfolding serialize test_layers build_untagged
serialize_untagged g src dst body = unpadded _

pub serialize_tagged :
    (g : Gopacket) (src dst : Bytes) (vid : ℕ) (body : Bytes)
    → (vid == 0) ≡ false
    → serialize g src dst vid body 0 ≡ build_tagged g dst src vid test_ethernet_type (magic ++ body)
unfolding serialize test_layers build_tagged
serialize_tagged g src dst vid body tag = rw tag (unpadded _)

abbrev Views : Gopacket → FrameParser → Bytes → Bytes → ℕ → Bytes → Bytes → Type 0
Views g fp dst src tag body frame =
    (fv : FrameView) × (frame_view (g.decode_layers frame fp) frame ≡ some fv)
    × IsView dst src tag body frame fv

module _ (g : Gopacket) (law : Decodes g) (fp : FrameParser) (src dst body : Bytes)
    (d : length dst ≡ 6) (s : length src ≡ 6) where
  view_untagged :
      Views g fp dst src 0 body (build_untagged g dst src test_ethernet_type (magic ++ body))
  unfolding seen_untagged
  view_untagged =
      let pkt = build_untagged g dst src test_ethernet_type (magic ++ body) in
      let (dec, to, from, inner, payload) =
        law.untagged fp dst src test_ethernet_type (magic ++ body) d s test_type-IsOpaque in
      let fp' = g.decode_layers pkt fp in
      (
        seen_untagged fp' pkt,
        frame_view_untagged fp' pkt dec (ap length to ∙ d) (ap length from ∙ s),
        record {
          to = to;
          from = from;
          has_tag = refl;
          tag_vid = refl;
          inner_type = inner;
          payload = payload;
          raw = refl;
        },
      )

  view_tagged :
      (vid : ℕ)
      → vid < 4096
      → (vid == 0) ≡ false
      → Views g fp dst src vid body (build_tagged g dst src vid test_ethernet_type (magic ++ body))
  unfolding seen_tagged
  view_tagged vid small tag =
      let pkt = build_tagged g dst src vid test_ethernet_type (magic ++ body) in
      let (dec, to, from, id, inner, payload) =
        law.tagged fp dst src vid test_ethernet_type (magic ++ body) d s small test_type-IsOpaque in
      let fp' = g.decode_layers pkt fp in
      (
        seen_tagged fp' pkt,
        frame_view_tagged fp' pkt dec (ap length to ∙ d) (ap length from ∙ s),
        record {
          to = to;
          from = from;
          has_tag = rw tag refl;
          tag_vid = id;
          inner_type = inner;
          payload = payload;
          raw = refl;
        },
      )

  -- Whatever the decoder holds from the frame before, a test frame is read as it was built.
  pub view_of_test :
      (vid : ℕ) → vid < 4096 → Views g fp dst src vid body (serialize g src dst vid body 0)
  view_of_test zero small = rw serialize_untagged view_untagged
  view_of_test (suc vid) small =
      let tag : (suc vid == 0) ≡ false = ground arith in
      rw (serialize_tagged g src dst (suc vid) body tag) (view_tagged (suc vid) small tag)
