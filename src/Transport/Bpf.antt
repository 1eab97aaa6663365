-- ===== src/Transport/Bpf.antt =====
-- The BPF programs: `InboundBPF` (internal/goswitch/afpacket.go), `inboundFilter`
-- (internal/harness/probe.go) and `perfBPF` (internal/harness/perf.go). The kernel runs them; what
-- an instruction does is documented, and enters as the laws of a record.
use vibe_switch.Base.{
  ℕ, zero, suc, ◌+◌, ◌*◌, ◌≡◌, Bytes, List, [], ◌∷◌, ◌==◌, leb, length, get_or, if◌then◌else◌,
}

-- `bpf.Instruction`, as far as the programs use it: a jump compares for equality.
pub data Instruction : Type 0 where
  load_type : Instruction
  load_absolute : ℕ → ℕ → Instruction
  jump_equal : ℕ → ℕ → ℕ → Instruction
  ret : ℕ → Instruction

-- What is left of a program once some instructions are skipped.
abbrev pub skip : ℕ → List Instruction → List Instruction
skip zero program = program
skip (suc n) [] = []
skip (suc n) (i ∷ program) = skip n program

-- Two bytes of a frame, in network order.
abbrev pub word_at : Bytes → ℕ → ℕ
word_at frame i = get_or frame i 0 * 256 + get_or frame (i + 1) 0

-- The kernel's machine: the number of bytes kept of a frame with its packet type, for the rest of
-- a program and the accumulator.
pub record Machine : Type 0 where
  pub kept : List Instruction → ℕ → Bytes → ℕ → ℕ

-- What the documentation says of the instructions. A load behind the end of the frame drops it.
pub record IsDocumented (m : Machine) : Type 0 where
  pub load_type_lem :
      (program : List Instruction) (pkt_type : ℕ) (frame : Bytes) (a : ℕ)
      → m.kept (load_type ∷ program) pkt_type frame a ≡ m.kept program pkt_type frame pkt_type
  pub load_absolute_lem :
      (offset : ℕ) (program : List Instruction) (pkt_type : ℕ) (frame : Bytes) (a : ℕ)
      → m.kept (load_absolute offset 2 ∷ program) pkt_type frame a ≡ (
          if leb (offset + 2) (length frame)
          then m.kept program pkt_type frame (word_at frame offset)
          else 0)
  pub jump_equal_lem :
      (value skip_true skip_false : ℕ) (program : List Instruction) (pkt_type : ℕ) (frame : Bytes)
      (a : ℕ)
      → m.kept (jump_equal value skip_true skip_false ∷ program) pkt_type frame a
        ≡ m.kept (skip (if a == value then skip_true else skip_false) program) pkt_type frame a
  pub ret_lem :
      (value : ℕ) (program : List Instruction) (pkt_type : ℕ) (frame : Bytes) (a : ℕ)
      → m.kept (ret value ∷ program) pkt_type frame a ≡ value

abbrev pub packet_outgoing : ℕ
packet_outgoing = 4

-- `TestEtherType`
abbrev pub test_ethernet_type : ℕ
test_ethernet_type = 0x88b5

unfoldable pub inbound_bpf : List Instruction
inbound_bpf = load_type ∷ jump_equal 4 1 0 ∷ ret 0x40000 ∷ ret 0 ∷ []

unfoldable pub inbound_filter : List Instruction
inbound_filter = load_type ∷ jump_equal 4 1 0 ∷ ret 0x40000 ∷ ret 0 ∷ []

unfoldable pub perf_bpf : List Instruction
perf_bpf =
    load_type
    ∷ jump_equal 4 4 0
    ∷ load_absolute 12 2
    ∷ jump_equal test_ethernet_type 1 0
    ∷ ret 0
    ∷ ret 0x40000
    ∷ ret 0
    ∷ []
