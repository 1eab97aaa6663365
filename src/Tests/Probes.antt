-- ===== src/Tests/Probes.antt =====
-- A decoder that reads what the sample codec serializes, and the theorems on test frames there.
use vibe_switch.Base.{
  ℕ, ◌≡◌, ◌≢◌, refl, ap, ◌<◌, append-nil, Bytes, codes, Option, none, some, List, [], ◌∷◌, ◌++◌,
  map, replicate, arith, Returns, inl,
}
use vibe_switch.Frame.{
  eth_layer, tag_layer, payload_layer, zero_eth, zero_tag, ethernet_type_dot1q, Ethernet, Dot1q,
  FrameParser, new_frame_parser,
}
use vibe_switch.Engine.Egress.{IsOpaque}
use vibe_switch.Harness.Probe.{Decoder, serialize, parse, info_of, capture_loop, received}
use vibe_switch.Harness.Probe.RoundTrip.{ReadsBack, IsRead, parse-serialize}
use vibe_switch.Harness.Probe.Captured.{
  Arrival, test, foreign, idle, read_of, tests_of, AreRead, received-capture_loop,
}
use vibe_switch.Samples.{codec, mac_a, mac_b}
use vibe_switch.Tests.Codec.{length-IsSix, word_bytes, IsSix, six, differ}

abbrev layers_of : FrameParser → Option (Ethernet × Option Dot1q)
layers_of fp = elim fp.dec [
  | [] ↦ none
  | k ∷ [] ↦ some (fp.eth, none)
  | k ∷ l ∷ ks ↦ some (fp.eth, some fp.tag)
]

abbrev pub decoder : Decoder
decoder b = layers_of (codec.decode_layers b new_frame_parser)

-- What stands behind a body is zeros.
padded : (body : Bytes) (zeros : ℕ) → (body ++ []) ++ replicate zeros 0 ≡ body ++ replicate zeros 0
padded body zeros = ap (λ b. b ++ replicate zeros 0) (append-nil body)

reads_tagged :
    (dst src : Bytes) (vid inner : ℕ) (body : Bytes) (zeros : ℕ)
    → IsSix dst
    → IsSix src
    → vid < 4096
    → IsOpaque inner
    → (e : Ethernet) × (t : Dot1q) × (pad : ℕ) × (decoder (
          codec.serialize_layers (
            eth_layer (record zero_eth {
              src_mac = src;
              dst_mac = dst;
              ethernet_type = ethernet_type_dot1q;
            })
            ∷ tag_layer (record zero_tag { vlan_identifier = vid; inner_type = inner })
            ∷ payload_layer body
            ∷ [])
          ++ replicate zeros 0)
        ≡ some (e, some t))
      × (e.dst_mac ≡ dst)
      × (e.src_mac ≡ src)
      × (t.vlan_identifier ≡ vid)
      × (t.inner_type ≡ inner)
      × (t.payload ≡ body ++ replicate pad 0)
unfolding new_frame_parser
reads_tagged dst src vid inner body zeros (six a b c d e f) (six a' b' c' d' e' f') v
      (low, high, plain, outer, nested) =
    (_, _, zeros, refl, refl, refl, omega arith, word_bytes inner high, padded body zeros)

reads_untagged :
    (dst src : Bytes) (inner : ℕ) (body : Bytes) (zeros : ℕ)
    → IsSix dst
    → IsSix src
    → IsOpaque inner
    → (e : Ethernet) × (pad : ℕ) × (decoder (
          codec.serialize_layers (
            eth_layer (record zero_eth { src_mac = src; dst_mac = dst; ethernet_type = inner })
            ∷ payload_layer body
            ∷ [])
          ++ replicate zeros 0)
        ≡ some (e, none))
      × (e.dst_mac ≡ dst)
      × (e.src_mac ≡ src)
      × (e.ethernet_type ≡ inner)
      × (e.payload ≡ body ++ replicate pad 0)
unfolding new_frame_parser
reads_untagged dst src inner body zeros (six a b c d e f) (six a' b' c' d' e' f')
      (low, high, plain, outer, nested) =
    rw (word_bytes inner high, differ inner 0x8100 plain)
      (_, zeros, refl, refl, refl, refl, padded body zeros)

pub decoder-ReadsBack : ReadsBack codec decoder
unfolding new_frame_parser
decoder-ReadsBack = record {
  tagged = λ dst src vid inner body zeros d s v o.
      reads_tagged dst src vid inner body zeros (length-IsSix dst d) (length-IsSix src s) v o;
  untagged = λ dst src inner body zeros d s o.
      reads_untagged dst src inner body zeros (length-IsSix dst d) (length-IsSix src s) o;
}

abbrev body : Bytes
body = codes "hi"

parse-serialize_example :
    Returns (parse decoder (serialize codec mac_a mac_b 20 body 60)) (IsRead mac_a mac_b 20 body)
parse-serialize_example =
    parse-serialize codec decoder decoder-ReadsBack mac_a mac_b 20 body 60 refl refl (omega arith)

-- A frame of another type.
abbrev other_type : Bytes
other_type = mac_b ++ mac_a ++ 8 ∷ 0 ∷ 0xde ∷ 0xad ∷ 0xbe ∷ 0xef ∷ []

differs_from_tests : ◌≢◌ {A = ℕ} 2048 0x88b5
differs_from_tests h = absurd (omega arith)

-- Two test frames, an idle cycle, a frame that is too short to be read, and one of another type.
abbrev arrivals : List Arrival
arrivals =
    test (record { src = mac_a; dst = mac_b; vid = 10; body = body; pad = 0 })
    ∷ idle
    ∷ foreign (1 ∷ 2 ∷ [])
    ∷ foreign other_type
    ∷ test (record { src = mac_b; dst = mac_a; vid = 0; body = []; pad = 60 })
    ∷ []

received-capture_loop_example :
    AreRead (tests_of arrivals) (received decoder (capture_loop (map (read_of codec) arrivals) []))
unfolding parse new_frame_parser info_of
received-capture_loop_example = received-capture_loop codec decoder decoder-ReadsBack arrivals (
  (refl, refl, omega arith),
  (tt, (tt, (inl differs_from_tests, ((refl, refl, omega arith), tt)))),
)
