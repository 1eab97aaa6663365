-- ===== src/Harness/Through/Packets.antt =====
-- How the harness reads what the engine sends of a test frame (`emit`,
-- internal/goswitch/engine.go; `Parse`, internal/harness/probe.go).
use vibe_switch.Base.{
  ℕ, zero, suc, ◌+◌, ◌<◌, ◌≡◌, refl, ap, sym, ◌∙◌, append_assoc, append-nil, Bytes, true, false,
  not, ◌==◌, ◌∷◌, ◌++◌, length, replicate, arith, Bool-cases, inl, inr, Returns, Returns-map,
  if◌then◌else◌,
}
use vibe_switch.Vlan.{PortRole, plain, access, trunk}
use vibe_switch.Frame.{Gopacket, FrameView, build_tagged, build_untagged}
use vibe_switch.Engine.{egress_packet, wants_tag, same}
use vibe_switch.Transport.{test_ethernet_type}
use vibe_switch.Harness.Probe.{magic, Decoder, serialize, FrameInfo, is_test, info_of, parse}
use vibe_switch.Harness.Probe.RoundTrip.{
  ReadsBack, IsRead, parse-serialize, test_type-IsOpaque, marked-is_test,
}
use vibe_switch.Harness.Through.Views.{IsView}

-- What is read of a test frame that has left a port: a tag exactly if the port is a trunk, and then
-- that of the VLAN.
pub record IsCarried (from to : Bytes) (role : PortRole) (vid : ℕ) (body : Bytes) (fi : FrameInfo)
    : Type 0 where
  pub source : fi.src ≡ from
  pub destination : fi.dst ≡ to
  pub tag : fi.has_vlan ≡ wants_tag role
  pub tag_vid : wants_tag role ≡ true → fi.vlan_id ≡ vid
  pub marked : (pad : ℕ) × (fi.payload ≡ magic ++ body ++ replicate pad 0)
  pub test : is_test fi ≡ true

zeros : ℕ → Bytes
zeros n = replicate n 0

zeros-append : (m n : ℕ) → zeros m ++ zeros n ≡ zeros (m + n)
unfolding zeros
zeros-append zero n = ap zeros (omega arith)
zeros-append (suc m) n =
    ap (◌∷◌ 0) (zeros-append m n) ∙ ap zeros (let e : suc (m + n) ≡ suc m + n = omega arith in e)

-- Padding behind padding.
padded_twice :
    (body inner outer : Bytes) (m n : ℕ)
    → inner ≡ magic ++ body ++ replicate m 0
    → outer ≡ inner ++ replicate n 0
    → outer ≡ magic ++ body ++ replicate (m + n) 0
unfolding zeros
padded_twice body inner outer m n h k =
    k
    ∙ ap (λ b. b ++ replicate n 0) h
    ∙ append_assoc (magic ++ body) (replicate m 0) (replicate n 0)
    ∙ ap (λ b. magic ++ body ++ b) (zeros-append m n)

module _ (g : Gopacket) (d : Decoder) (law : ReadsBack g d) (src dst body : Bytes) (tag vid : ℕ)
    (t : length dst ≡ 6) (s : length src ≡ 6) where
  sent_as_raw :
      (role : PortRole)
      → tag < 4096
      → (wants_tag role ≡ true → tag ≡ vid)
      → not (tag == 0) ≡ wants_tag role
      → Returns (parse d (serialize g src dst tag body 0)) (IsCarried src dst role vid body)
  sent_as_raw role small names state =
      Returns-map (IsRead src dst tag body) (IsCarried src dst role vid body)
        (parse d (serialize g src dst tag body 0))
        (λ fi h. record {
          source = h.source;
          destination = h.destination;
          tag = h.tag.0 ∙ state;
          tag_vid = λ w. h.tag.1 ∙ names w;
          marked = h.marked;
          test = h.test;
        })
        (parse-serialize g d law src dst tag body 0 s t small)

  sent_tagged :
      (fv : FrameView) (frame : Bytes)
      → vid < 4096
      → IsView dst src tag body frame fv
      → Returns
          (parse d (build_tagged g fv.dst fv.src vid fv.inner_type fv.payload))
          (IsCarried src dst trunk vid body)
  unfolding parse info_of build_tagged
  sent_tagged fv frame small v =
      let (e, q, pad, reads, to, from, id, type, payload) =
        law.tagged dst src vid test_ethernet_type fv.payload 0 t s small test_type-IsOpaque in
      let (pad', behind) = v.payload in
      let body' = padded_twice body fv.payload q.payload pad' pad behind payload in
      rw (v.to, v.from, v.inner_type)
        (rw (sym (ap d (append-nil _)) ∙ reads, parse)
          (record {
            source = from;
            destination = to;
            tag = refl;
            tag_vid = λ w. id;
            marked = (pad' + pad, body');
            test = marked-is_test _ (body ++ replicate (pad' + pad) 0) type body';
          }))

  sent_untagged :
      (role : PortRole) (fv : FrameView) (frame : Bytes)
      → wants_tag role ≡ false
      → IsView dst src tag body frame fv
      → Returns
          (parse d (build_untagged g fv.dst fv.src fv.inner_type fv.payload))
          (IsCarried src dst role vid body)
  unfolding parse info_of build_untagged
  sent_untagged role fv frame untagged v =
      let (e, pad, reads, to, from, type, payload) =
        law.untagged dst src test_ethernet_type fv.payload 0 t s test_type-IsOpaque in
      let (pad', behind) = v.payload in
      let body' = padded_twice body fv.payload e.payload pad' pad behind payload in
      rw (v.to, v.from, v.inner_type)
        (rw (sym (ap d (append-nil _)) ∙ reads, parse)
          (record {
            source = from;
            destination = to;
            tag = sym untagged;
            tag_vid = λ w. absurd (ground arith);
            marked = (pad' + pad, body');
            test = marked-is_test _ (body ++ replicate (pad' + pad) 0) type body';
          }))

  sent_changed :
      (role : PortRole) (fv : FrameView) (frame : Bytes)
      → vid < 4096
      → IsView dst src tag body frame fv
      → Returns
          (parse d (
            if wants_tag role
            then build_tagged g fv.dst fv.src vid fv.inner_type fv.payload
            else build_untagged g fv.dst fv.src fv.inner_type fv.payload))
          (IsCarried src dst role vid body)
  sent_changed trunk fv frame small v = sent_tagged fv frame small v
  sent_changed access fv frame small v = sent_untagged access fv frame refl v
  sent_changed plain fv frame small v = sent_untagged plain fv frame refl v

  -- Out of whatever port a test frame leaves, the harness reads it as built, with a tag exactly if
  -- the port is a trunk.
  pub parse-egress_packet :
      (role : PortRole) (fv : FrameView)
      → tag < 4096
      → vid < 4096
      → (not (tag == 0) ≡ true → tag ≡ vid)
      → IsView dst src tag body (serialize g src dst tag body 0) fv
      → Returns (parse d (egress_packet g role fv vid)) (IsCarried src dst role vid body)
  unfolding egress_packet
  parse-egress_packet role fv small small' names v =
      elim (Bool-cases (same (wants_tag role) fv.has_tag)) [
        | inl kept ↦
            rw (kept, v.raw)
              (sent_as_raw role small (λ w. names (ground (arith, v.has_tag)))
                (ground (arith, v.has_tag)))
        | inr changed ↦ rw changed (sent_changed role fv _ small' v)
      ]
