-- ===== src/Transport/Filters.antt =====
-- What the BPF programs of internal/goswitch/afpacket.go and internal/harness let through.
use vibe_switch.Base.{
  ℕ, ◌≡◌, refl, Bytes, not, ◌&&◌, List, ◌==◌, leb, length, arith, Bool-cases, inl, inr,
  if◌then◌else◌,
}
use vibe_switch.Transport.Bpf.{
  Instruction, Machine, IsDocumented, inbound_bpf, inbound_filter, perf_bpf, packet_outgoing,
  test_ethernet_type, word_at,
}

-- The bytes that a program keeps of a frame; the accumulator starts at 0.
abbrev pub kept_by : Machine → List Instruction → ℕ → Bytes → ℕ
kept_by m program pkt_type frame = m.kept program pkt_type frame 0

module _ (m : Machine) (d : IsDocumented m) where
  open d use {load_type_lem, load_absolute_lem, jump_equal_lem, ret_lem}

  inbound_bpf_lem :
      (pkt_type : ℕ) (frame : Bytes)
      → kept_by m inbound_bpf pkt_type frame ≡ (if pkt_type == 4 then 0 else 0x40000)
  unfolding inbound_bpf
  inbound_bpf_lem pkt_type frame = elim (Bool-cases (pkt_type == 4)) [
    | inl out ↦ rw (load_type_lem, jump_equal_lem, out, ret_lem) refl
    | inr other ↦ rw (load_type_lem, jump_equal_lem, other, ret_lem) refl
  ]

  inbound_filter_lem :
      (pkt_type : ℕ) (frame : Bytes)
      → kept_by m inbound_filter pkt_type frame ≡ kept_by m inbound_bpf pkt_type frame
  unfolding inbound_filter inbound_bpf
  inbound_filter_lem pkt_type frame = refl

  perf_bpf_lem :
      (pkt_type : ℕ) (frame : Bytes)
      → kept_by m perf_bpf pkt_type frame ≡ (
          if not (pkt_type == packet_outgoing)
            && leb 14 (length frame)
            && (word_at frame 12 == test_ethernet_type)
          then 0x40000
          else 0)
  unfolding perf_bpf
  perf_bpf_lem pkt_type frame = elim (Bool-cases (pkt_type == 4)) [
    | inl out ↦ rw (load_type_lem, jump_equal_lem, out, ret_lem) refl
    | inr other ↦ elim (Bool-cases (leb 14 (length frame))) [
      | inr short ↦ rw (load_type_lem, jump_equal_lem, other, load_absolute_lem, short) refl
      | inl long ↦ elim (Bool-cases (word_at frame 12 == 0x88b5)) [
        | inl test ↦
            rw
              (
                load_type_lem, jump_equal_lem, other, load_absolute_lem, long, jump_equal_lem, test,
                ret_lem,
              )
              refl
        | inr foreign ↦
            rw
              (
                load_type_lem, jump_equal_lem, other, load_absolute_lem, long, jump_equal_lem,
                foreign, ret_lem,
              )
              refl
      ]
    ]
  ]

  -- On a machine that does what the documentation says: the filters of the switch's ports and of
  -- the captures keep every frame but the outgoing ones, and the filter of the measurements keeps
  -- of these the frames that are long enough to have a type and have that of the test frames.
  pub filters_lem :
      (pkt_type : ℕ) (frame : Bytes)
      → (kept_by m inbound_bpf pkt_type frame
          ≡ (if pkt_type == packet_outgoing then 0 else 0x40000))
        × (kept_by m inbound_filter pkt_type frame ≡ kept_by m inbound_bpf pkt_type frame)
        × (kept_by m perf_bpf pkt_type frame ≡ (
            if leb 14 (length frame) && (word_at frame 12 == test_ethernet_type)
            then kept_by m inbound_bpf pkt_type frame
            else 0))
  filters_lem pkt_type frame = (
    inbound_bpf_lem pkt_type frame,
    inbound_filter_lem pkt_type frame,
    ground (arith, inbound_bpf_lem pkt_type frame, perf_bpf_lem pkt_type frame),
  )
