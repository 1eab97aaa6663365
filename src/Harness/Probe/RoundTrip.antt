-- ===== src/Harness/Probe/RoundTrip.antt =====
-- Test frames (internal/harness/probe.go) are read as they were built, with a decoder that reads
-- what the serializer writes.
use vibe_switch.Base.{
  ℕ, zero, suc, ◌-◌, ◌<◌, ◌≡◌, refl, sym, append-nil, Bytes, true, false, not, none, some, [], ◌∷◌,
  ◌++◌, ◌==◌, ltb, length, replicate, arith, Bool-cases, inl, inr, Returns,
}
use vibe_switch.Frame.{
  Gopacket, Ethernet, Dot1q, eth_layer, tag_layer, payload_layer, zero_eth, zero_tag,
  ethernet_type_dot1q,
}
use vibe_switch.Engine.Egress.{IsOpaque}
use vibe_switch.Transport.{test_ethernet_type}
use vibe_switch.Harness.Probe.{
  magic, Decoder, pad_to, test_layers, serialize, FrameInfo, is_test, info_of, parse,
}

-- What gopacket documents of a frame that it serialized, with zeros behind it, and decodes: the
-- addresses, the tag, the type and the payload come back, and behind the payload stand the zeros.
-- It holds for six-byte addresses, a VID of twelve bits, and a type that is an EtherType and
-- neither a tag's nor that of a nested Ethernet frame.
pub record ReadsBack (g : Gopacket) (d : Decoder) : Type 0 where
  pub tagged :
      (dst src : Bytes) (vid inner : ℕ) (body : Bytes) (zeros : ℕ)
      → length dst ≡ 6
      → length src ≡ 6
      → vid < 4096
      → IsOpaque inner
      → (e : Ethernet) × (t : Dot1q) × (pad : ℕ) × (d (
            g.serialize_layers (
              eth_layer (record zero_eth {
                src_mac = src;
                dst_mac = dst;
                ethernet_type = ethernet_type_dot1q;
              })
              ∷ tag_layer (record zero_tag { vlan_identifier = vid; inner_type = inner })
              ∷ payload_layer body
              ∷ [])
            ++ replicate zeros 0)
          ≡ some (e, some t))
        × (e.dst_mac ≡ dst)
        × (e.src_mac ≡ src)
        × (t.vlan_identifier ≡ vid)
        × (t.inner_type ≡ inner)
        × (t.payload ≡ body ++ replicate pad 0)
  pub untagged :
      (dst src : Bytes) (inner : ℕ) (body : Bytes) (zeros : ℕ)
      → length dst ≡ 6
      → length src ≡ 6
      → IsOpaque inner
      → (e : Ethernet) × (pad : ℕ) × (d (
            g.serialize_layers (
              eth_layer (record zero_eth { src_mac = src; dst_mac = dst; ethernet_type = inner })
              ∷ payload_layer body
              ∷ [])
            ++ replicate zeros 0)
          ≡ some (e, none))
        × (e.dst_mac ≡ dst)
        × (e.src_mac ≡ src)
        × (e.ethernet_type ≡ inner)
        × (e.payload ≡ body ++ replicate pad 0)

-- What is read of a test frame.
pub record IsRead (from to : Bytes) (vid : ℕ) (body : Bytes) (fi : FrameInfo) : Type 0 where
  pub source : fi.src ≡ from
  pub destination : fi.dst ≡ to
  pub tag : (fi.has_vlan ≡ not (vid == 0)) × (fi.vlan_id ≡ vid)
  pub marked : (pad : ℕ) × (fi.payload ≡ magic ++ body ++ replicate pad 0)
  pub test : is_test fi ≡ true

-- Padding is a run of zeros, perhaps an empty one.
padding : (n : ℕ) (frame : Bytes) → (zeros : ℕ) × (pad_to n frame ≡ frame ++ replicate zeros 0)
padding n frame = elim (Bool-cases (ltb (length frame) n)) [
  | inl short ↦ (n - length frame, rw short refl)
  | inr long ↦ (0, rw long (sym (append-nil frame)))
]

-- A frame of the test type that starts with the marker is a test frame.
pub marked-is_test :
    (fi : FrameInfo) (body : Bytes)
    → fi.eth_type ≡ test_ethernet_type
    → fi.payload ≡ magic ++ body
    → is_test fi ≡ true
unfolding is_test
marked-is_test fi body t p = rw (t, p) (ground arith)

pub test_type-IsOpaque : IsOpaque test_ethernet_type
test_type-IsOpaque = (
  omega arith,
  omega arith,
  (λ h. absurd (omega arith)),
  (λ h. absurd (omega arith)),
  (λ h. absurd (omega arith)),
)

module _ (g : Gopacket) (d : Decoder) (law : ReadsBack g d) where
  -- Whatever the padding, if the layers are read as a frame, so is the padded frame.
  parse_padded :
      (P : FrameInfo → Type 0) (n : ℕ) (frame : Bytes)
      → ((zeros : ℕ) → Returns (parse d (frame ++ replicate zeros 0)) P)
      → Returns (parse d (pad_to n frame)) P
  parse_padded P n frame h = let (zeros, padded) = padding n frame in rw padded (h zeros)

  IsRead-untagged :
      (src dst payload : Bytes) (n : ℕ)
      → length src ≡ 6
      → length dst ≡ 6
      → Returns (parse d (serialize g src dst 0 payload n)) (IsRead src dst 0 payload)
  unfolding parse serialize test_layers info_of
  IsRead-untagged src dst payload n s t = parse_padded _ n _ λ zeros.
      let (e, pad, reads, to, from, type, body) =
        law.untagged dst src test_ethernet_type (magic ++ payload) zeros t s test_type-IsOpaque in
      rw (reads, parse)
        (record {
          source = from;
          destination = to;
          tag = (refl, refl);
          marked = (pad, body);
          test = marked-is_test _ (payload ++ replicate pad 0) type body;
        })

  IsRead-tagged :
      (src dst : Bytes) (vid : ℕ) (payload : Bytes) (n : ℕ)
      → length src ≡ 6
      → length dst ≡ 6
      → vid < 4096
      → (vid == 0) ≡ false
      → Returns (parse d (serialize g src dst vid payload n)) (IsRead src dst vid payload)
  unfolding parse serialize test_layers info_of
  IsRead-tagged src dst vid payload n s t v tag = rw tag (
      parse_padded _ n _ λ zeros.
        let (e, q, pad, reads, to, from, id, type, body) =
          law.tagged dst src vid test_ethernet_type (magic ++ payload) zeros t s v
            test_type-IsOpaque in
        rw (reads, parse)
          (record {
            source = from;
            destination = to;
            tag = (rw tag refl, id);
            marked = (pad, body);
            test = marked-is_test _ (payload ++ replicate pad 0) type body;
          }))

  -- With a decoder that reads what the serializer writes: a test frame between six-byte addresses
  -- with a VID below 4096, padded to any length, is read with its addresses, with a tag exactly if
  -- the VID is not 0 and then with that VID, with the marker and its payload in front of zeros,
  -- and is taken for a test frame.
  pub parse-serialize :
      (src dst : Bytes) (vid : ℕ) (payload : Bytes) (n : ℕ)
      → length src ≡ 6
      → length dst ≡ 6
      → vid < 4096
      → Returns (parse d (serialize g src dst vid payload n)) (IsRead src dst vid payload)
  parse-serialize src dst zero payload n s t v = IsRead-untagged src dst payload n s t
  parse-serialize src dst (suc vid) payload n s t v =
      IsRead-tagged src dst (suc vid) payload n s t v (ground arith)
