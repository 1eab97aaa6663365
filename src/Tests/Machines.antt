-- ===== src/Tests/Machines.antt =====
-- A machine for the BPF programs and a kernel that opens sockets, and the theorems of Transport
-- there.
use vibe_switch.Base.{
  ℕ, zero, suc, ◌+◌, ◌≡◌, refl, Bytes, true, false, some, List, [], ◌∷◌, ◌==◌, ◌&&◌, leb, length,
  if◌then◌else◌,
}
use vibe_switch.Transport.{
  Instruction, Machine, IsDocumented, load_type, load_absolute, jump_equal, ret, skip, word_at,
  inbound_bpf, inbound_filter, perf_bpf, packet_outgoing, test_ethernet_type, Kernel,
}
use vibe_switch.Transport.Filters.{kept_by, filters_lem}
use vibe_switch.Samples.{frame_ab}

-- The rest of a program, with instructions still to be skipped.
execute : List Instruction → ℕ → ℕ → Bytes → ℕ → ℕ
execute [] n pkt_type frame a = 0
execute (i ∷ program) (suc n) pkt_type frame a = execute program n pkt_type frame a
execute (load_type ∷ program) zero pkt_type frame a = execute program 0 pkt_type frame pkt_type
execute (load_absolute offset width ∷ program) zero pkt_type frame a =
    let rest = execute program 0 pkt_type frame (word_at frame offset) in
    if leb (offset + 2) (length frame) then rest else 0
execute (jump_equal value skip_true skip_false ∷ program) zero pkt_type frame a =
    execute program (if a == value then skip_true else skip_false) pkt_type frame a
execute (ret value ∷ program) zero pkt_type frame a = value

execute-skip :
    (n : ℕ) (program : List Instruction) (pkt_type : ℕ) (frame : Bytes) (a : ℕ)
    → execute program n pkt_type frame a ≡ execute (skip n program) 0 pkt_type frame a
unfolding execute
execute-skip zero program pkt_type frame a = refl
execute-skip (suc n) [] pkt_type frame a = refl
execute-skip (suc n) (i ∷ program) pkt_type frame a = execute-skip n program pkt_type frame a

abbrev machine : Machine
machine = record { kept = λ program pkt_type frame a. execute program 0 pkt_type frame a }

machine-IsDocumented : IsDocumented machine
unfolding execute
machine-IsDocumented = record {
  load_type_lem = λ program pkt_type frame a. refl;
  load_absolute_lem = λ offset program pkt_type frame a. refl;
  jump_equal_lem = λ value yes_skip no_skip program pkt_type frame a.
      execute-skip (if a == value then yes_skip else no_skip) program pkt_type frame a;
  ret_lem = λ value program pkt_type frame a. refl;
}

filters_lem_example :
    (kept_by machine inbound_bpf 0 frame_ab ≡ (if 0 == packet_outgoing then 0 else 0x40000))
    × (kept_by machine inbound_filter 0 frame_ab ≡ kept_by machine inbound_bpf 0 frame_ab)
    × (kept_by machine perf_bpf 0 frame_ab ≡ (
        if leb 14 (length frame_ab) && (word_at frame_ab 12 == test_ethernet_type)
        then kept_by machine inbound_bpf 0 frame_ab
        else 0))
filters_lem_example = filters_lem machine machine-IsDocumented 0 frame_ab

-- A kernel without ethtool, on which the filter is refused.
abbrev kernel : Kernel
kernel = record {
  ethtool = λ name. false;
  new_socket = λ opts. some 7;
  set_promiscuous = λ tp. true;
  set_filter = λ tp. false;
}
