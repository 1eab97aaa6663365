-- ===== src/Program/Status.antt =====
-- When the program exits with status 0 (cmd/vibe-switch/main.go).
use vibe_switch.Base.{
  ℕ, ◌≡◌, refl, ap, sym, ◌∙◌, Bytes, codes, Bool, true, false, not, ◌&&◌, ◌||◌, ◌==◌, Option, none,
  some, List, [], ◌∷◌, ◌++◌, length, bytes_eq, arith, Option-cases, Bool-cases, inl, inr,
  if◌then◌else◌,
}
use vibe_switch.Base.Int.{ℤ, pos}
use vibe_switch.Base.Float.{Floats}
use vibe_switch.Engine.{PortConfig, new_engine}
use vibe_switch.Engine.Construct.{Result-cases}
use vibe_switch.Engine.Config.{is_ok, names_ok, some_vlan, some_plain}
use vibe_switch.Command.{set_flags, ok, err}
use vibe_switch.Command.Ports.{is_ok-set_flags, set_flags-IsFlagConfig, Result-cases as flags_cases}
use vibe_switch.Command.Start.{Host, open_all, serve_until_signal, with_handles, run_switch}
use vibe_switch.Command.Handles.{opened, closed, closed-run_switch, open_all-IsOpening}
use vibe_switch.Control.{Connection, run_ctl}
use vibe_switch.Control.Queries.{IsServed, is_query_name, query_names, query_lem}
use vibe_switch.Program.{
  FlagPackage, or_default, default_sock, ran, switch_status, run_switch_args, quits, Terminal,
  show_at, shell_at, run_command, run_ctl_args, main,
}

-- Every interface can be opened.
abbrev pub can_open : Host → List PortConfig → Bool
can_open h [] = true
can_open h (c ∷ cs) =
    let later = can_open h cs in elim (h.open_interface c.name) [ none ↦ false | some io ↦ later ]

abbrev is_none : Option Bytes → Bool
is_none none = true
is_none (some name) = false

open_all-can_open :
    (h : Host) (cs : List PortConfig) (ios : List ℕ) → is_none (open_all h cs ios).2 ≡ can_open h cs
unfolding open_all
open_all-can_open h [] ios = refl
open_all-can_open h (c ∷ cs) ios = elim (Option-cases (h.open_interface c.name)) [
  | inl failed ↦ ground (arith, failed)
  | inr (io, good) ↦ ground (arith, good, open_all-can_open h cs (ios ++ io ∷ []))
]

with_handles-status :
    (h : Host) (cfgs : List PortConfig) (ios : List ℕ) (ageing : ℤ)
    → switch_status (ran (with_handles h cfgs ios ageing).1)
      ≡ (if is_ok (new_engine cfgs ios) && h.serves_control then 0 else 1)
unfolding with_handles serve_until_signal
with_handles-status h cfgs ios ageing = elim (Result-cases (new_engine cfgs ios)) [
  | inl (e, built) ↦ ground (arith, built)
  | inr (x, refused) ↦ ground (arith, refused)
]

run_switch-status :
    (h : Host) (cfgs : List PortConfig) (ageing : ℤ) (valid : Bool)
    → ((ios : List ℕ) → length ios ≡ length cfgs → is_ok (new_engine cfgs ios) ≡ valid)
    → switch_status (ran (run_switch h cfgs ageing).1)
      ≡ (if valid && can_open h cfgs && h.serves_control then 0 else 1)
unfolding run_switch new_engine
run_switch-status h [] ageing valid decided = ground (arith, decided [] refl)
run_switch-status h (c ∷ cs) ageing valid decided =
    let o = open_all-IsOpening h (c ∷ cs) [] in
    let ios = (open_all h (c ∷ cs) []).1 in
    elim (Option-cases (open_all h (c ∷ cs) []).2) [
      | inr (name, failed) ↦
          let shut : can_open h (c ∷ cs) ≡ false =
            sym (open_all-can_open h (c ∷ cs) []) ∙ ap is_none failed in
          rw (failed, run_switch) (ground (arith, shut))
      | inl good ↦
          let opens_all : can_open h (c ∷ cs) ≡ true =
            sym (open_all-can_open h (c ∷ cs) []) ∙ ap is_none good in
          let valid_here = decided ios (omega (arith, o.counted good)) in
          rw (good, run_switch, with_handles-status, valid_here, opens_all) (ground arith)
    ]

-- The arguments of a switch that comes up: flags that can be read, at least one port, port flags
-- that are well formed, names that are not empty and differ, no plain port beside a VLAN port,
-- interfaces that can be opened and a control socket that can be served.
abbrev pub comes_up : FlagPackage → Host → List Bytes → Bool
comes_up f h args = elim (f.parse_switch args) [
  | none ↦ false
  | some flags ↦ elim (set_flags flags.ports []) [
    | err x ↦ false
    | ok cfgs ↦
        (not (length flags.ports == 0) && names_ok cfgs && not (some_vlan cfgs && some_plain cfgs))
        && can_open h cfgs
        && h.serves_control
  ]
]

run_switch_args-status :
    (f : FlagPackage) (h : Host) (args : List Bytes)
    → switch_status (run_switch_args f h args).1 ≡ (if comes_up f h args then 0 else 1)
unfolding run_switch_args
run_switch_args-status f h args = elim (Option-cases (f.parse_switch args)) [
  | inl refused ↦ ground (arith, refused)
  | inr (flags, parsed) ↦ elim (flags_cases (set_flags flags.ports [])) [
    | inr (x, bad) ↦ ground (arith, parsed, bad)
    | inl (cfgs, good) ↦
        let valid = λ (ios : List ℕ) (same : length ios ≡ length cfgs).
          let counted = (set_flags-IsFlagConfig flags.ports [] cfgs good tt).1 in
          (is_ok-set_flags flags.ports cfgs ios good (omega (arith, same, counted))).2 in
        ground (
          arith,
          parsed,
          good,
          run_switch-status h cfgs (or_default (pos 300) flags.ageing)
              (not (length flags.ports == 0)
                && names_ok cfgs
                && not (some_vlan cfgs && some_plain cfgs))
              valid,
        )
  ]
]

run_switch_args-closed :
    (f : FlagPackage) (h : Host) (args : List Bytes)
    → closed (run_switch_args f h args).0 ≡ opened (run_switch_args f h args).0
unfolding run_switch_args closed opened
run_switch_args-closed f h args = elim (Option-cases (f.parse_switch args)) [
  | inl refused ↦ rw (refused, run_switch_args) refl
  | inr (flags, parsed) ↦ elim (flags_cases (set_flags flags.ports [])) [
    | inr (x, bad) ↦ rw (parsed, bad, run_switch_args) refl
    | inl (cfgs, good) ↦ rw (parsed, good, run_switch_args) (closed-run_switch h cfgs _)
  ]
]

module _ (fl : Floats) where
  abbrev is_dialled : Option (Connection fl) → Bool
  is_dialled none = false
  is_dialled (some conn) = true

  -- The arguments, behind its flags, of a control client that succeeds: none, on an input that says
  -- quit or can be read to its end, or a query of one of the targets that the help
  -- lists.
  abbrev pub can_answer : Terminal fl → List Bytes → Bool
  can_answer o [] = quits o.lines || o.read_all
  can_answer o (a ∷ []) = false
  can_answer o (a ∷ what ∷ rest) = bytes_eq a (codes "show") && is_query_name what query_names

  abbrev pub is_answered : FlagPackage → Terminal fl → List Bytes → Bool
  is_answered f o args = elim (f.parse_ctl args) [
    | none ↦ false
    | some (sock, rest) ↦ can_answer o rest && is_dialled (o.dial (or_default default_sock sock))
  ]

  -- Behind every socket that can be dialled is a switch whose engine is wired at every call.
  abbrev pub IsServing : Terminal fl → Type 0
  IsServing o = (sock : Bytes) (conn : Connection fl) → o.dial sock ≡ some conn → IsServed fl conn

  run_command-failed :
      (o : Terminal fl) (sock : Bytes) (rest : List Bytes)
      → IsServing o
      → (run_command fl o sock (run_ctl rest)).failed
        ≡ not (can_answer o rest && is_dialled (o.dial sock))
  unfolding run_command run_ctl shell_at show_at
  run_command-failed o sock [] serving = elim (Option-cases (o.dial sock)) [
    | inl gone ↦ ground (arith, gone)
    | inr (conn, there) ↦ ground (arith, there)
  ]
  run_command-failed o sock (a ∷ []) serving = refl
  run_command-failed o sock (a ∷ what ∷ rest) serving = elim (Option-cases (o.dial sock)) [
    | inl gone ↦ ground (arith, gone)
    | inr (conn, there) ↦ ground (arith, there, query_lem fl conn 0 what (serving sock conn there))
  ]

  abbrev pub succeeds : FlagPackage → Host → Terminal fl → List Bytes → Bool
  succeeds f h o [] = comes_up f h []
  succeeds f h o (a ∷ args) =
      if bytes_eq a (codes "ctl") then is_answered f o args else comes_up f h (a ∷ args)

  -- With wired switches behind the control sockets, the program exits with status 0 exactly if it is
  -- a switch that comes up (and later stops on a signal), or a control client that succeeds, and with
  -- status 1 otherwise. However it ends, it has closed exactly the interfaces that it opened,
  -- each as often and in the same order.
  pub status-main :
      (f : FlagPackage) (h : Host) (o : Terminal fl) (args : List Bytes)
      → IsServing o
      → ((main fl f h o args).status ≡ (if succeeds f h o args then 0 else 1))
        × (closed (main fl f h o args).actions ≡ opened (main fl f h o args).actions)
  unfolding main run_ctl_args closed opened
  status-main f h o [] serving = (run_switch_args-status f h [], run_switch_args-closed f h [])
  status-main f h o (a ∷ args) serving = elim (Bool-cases (bytes_eq a (codes "ctl"))) [
    | inr other ↦
        rw (other, main)
          (run_switch_args-status f h (a ∷ args), run_switch_args-closed f h (a ∷ args))
    | inl ctl ↦ elim (Option-cases (f.parse_ctl args)) [
      | inl refused ↦ (ground (arith, ctl, refused), rw (ctl, main) refl)
      | inr ((sock, rest), parsed) ↦ (
        ground
            (arith, ctl, parsed, run_command-failed o (or_default default_sock sock) rest serving),
        rw (ctl, main) refl,
      )
    ]
  ]
