-- ===== src/Tests/Codec.antt =====
-- The sample codec decodes what it serializes.
use vibe_switch.Base.{
  ℕ, ◌+◌, ◌*◌, ◌/◌, ◌%◌, ◌<◌, ◌≡◌, ◌≢◌, ◌==◌, refl, Bytes, false, some, [], ◌∷◌, ◌++◌, length,
  arith, replicate,
}
use vibe_switch.Frame.{
  FrameParser, FrameView, new_frame_parser, ethernet, dot1q, build_tagged, build_untagged,
  frame_view,
}
use vibe_switch.Engine.Egress.{Decodes, IsSent, egress_packet-IsSent, IsOpaque}
use vibe_switch.Samples.{codec, frame_ab}
use vibe_switch.Vlan.{trunk}
use vibe_switch.Engine.{egress_packet}

pub data IsSix : Bytes → Type 0 where
  six : (a b c d e f : ℕ) → IsSix (a ∷ b ∷ c ∷ d ∷ e ∷ f ∷ [])

pub length-IsSix : (s : Bytes) → length s ≡ 6 → IsSix s
length-IsSix (a ∷ b ∷ c ∷ d ∷ e ∷ f ∷ []) h = six a b c d e f
length-IsSix [] h = absurd (omega arith)
length-IsSix (a ∷ []) h = absurd (omega arith)
length-IsSix (a ∷ b ∷ []) h = absurd (omega arith)
length-IsSix (a ∷ b ∷ c ∷ []) h = absurd (omega arith)
length-IsSix (a ∷ b ∷ c ∷ d ∷ []) h = absurd (omega arith)
length-IsSix (a ∷ b ∷ c ∷ d ∷ e ∷ []) h = absurd (omega arith)
length-IsSix (a ∷ b ∷ c ∷ d ∷ e ∷ f ∷ g ∷ s) h = absurd (omega arith)

pub word_bytes : (n : ℕ) → n < 65536 → n / 256 * 256 + n % 256 ≡ n
word_bytes n h = omega arith

pub differ : (a b : ℕ) → a ≢ b → (a == b) ≡ false
differ a b h = ground arith

decode_tagged :
    (fp : FrameParser) (dst src : Bytes) (vid inner : ℕ) (payload : Bytes)
    → IsSix dst
    → IsSix src
    → vid < 4096
    → IsOpaque inner
    → let fp' = codec.decode_layers (build_tagged codec dst src vid inner payload) fp in
      (fp'.dec ≡ ethernet ∷ dot1q ∷ [])
      × (fp'.eth.dst_mac ≡ dst)
      × (fp'.eth.src_mac ≡ src)
      × (fp'.tag.vlan_identifier ≡ vid)
      × (fp'.tag.inner_type ≡ inner)
      × ((pad : ℕ) × (fp'.tag.payload ≡ payload ++ replicate pad 0))
unfolding build_tagged
decode_tagged fp dst src vid inner payload (six a b c d e f) (six a' b' c' d' e' f') v
      (low, high, plain, outer, nested) =
    (refl, refl, refl, omega arith, word_bytes inner high, (0, refl))

decode_untagged :
    (fp : FrameParser) (dst src : Bytes) (inner : ℕ) (payload : Bytes)
    → IsSix dst
    → IsSix src
    → IsOpaque inner
    → let fp' = codec.decode_layers (build_untagged codec dst src inner payload) fp in
      (fp'.dec ≡ ethernet ∷ [])
      × (fp'.eth.dst_mac ≡ dst)
      × (fp'.eth.src_mac ≡ src)
      × (fp'.eth.ethernet_type ≡ inner)
      × ((pad : ℕ) × (fp'.eth.payload ≡ payload ++ replicate pad 0))
unfolding build_untagged
decode_untagged fp dst src inner payload (six a b c d e f) (six a' b' c' d' e' f')
      (low, high, plain, outer, nested) =
    rw (word_bytes inner high, differ inner 0x8100 plain) (refl, refl, refl, refl, (0, refl))

pub codec-Decodes : Decodes codec
codec-Decodes = record {
  tagged = λ fp dst src vid inner payload d s v o.
      decode_tagged fp dst src vid inner payload (length-IsSix dst d) (length-IsSix src s) v o;
  untagged = λ fp dst src inner payload d s o.
      decode_untagged fp dst src inner payload (length-IsSix dst d) (length-IsSix src s) o;
}

sample_view :
    (fv : FrameView) × (frame_view (codec.decode_layers frame_ab new_frame_parser) frame_ab
      ≡ some fv)
unfolding frame_view new_frame_parser
sample_view = (_, refl)

egress_packet-IsSent_example :
    IsSent codec codec-Decodes new_frame_parser 10 sample_view.0 trunk
      (egress_packet codec trunk sample_view.0 10)
unfolding sample_view frame_view
egress_packet-IsSent_example =
    egress_packet-IsSent codec codec-Decodes new_frame_parser 10 sample_view.0 trunk frame_ab
      sample_view.1 (λ h. absurd (ground arith)) (omega arith)
      (
        omega arith,
        omega arith,
        (λ h. absurd (omega arith)),
        (λ h. absurd (omega arith)),
        (λ h. absurd (omega arith)),
      )
