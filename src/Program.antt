-- ===== src/Program.antt =====
-- cmd/vibe-switch/main.go, `main`, with `runSwitch` and `runCtl` from their arguments on, and
-- `Show` and `Shell` from the socket's path on (internal/control/client.go). The flag package, the
-- dial and the standard input are the surroundings'.
use vibe_switch.Base.{
  ℕ, Bytes, codes, Bool, true, false, Option, none, some, List, [], ◌∷◌, bytes_eq, if◌then◌else◌,
}
use vibe_switch.Base.Int.{ℤ, pos}
use vibe_switch.Base.Float.{Floats}
use vibe_switch.Command.{PortFlag, FlagError, set_flags, ok, err}
use vibe_switch.Command.Start.{Host, Action, Outcome, stopped, run_switch}
use vibe_switch.Control.{
  CtlCommand, interactive, usage, one_query, run_ctl, Connection, Queried, QueryEnd, done, Line,
  quit, line_of, query, shell,
}
pub mod Status

-- What `fs.Parse` makes of the arguments of a switch: the port flags in their order, and the other
-- flags where they are given.
pub record SwitchFlags : Type 0 where
  pub ports : List (PortFlag × Bytes)
  pub ageing : Option ℤ
  pub ctl_sock : Option Bytes

-- The flag package on the two flag sets; `none` is an error, or a call for help. A control client's
-- flags are the path of its socket, where it is given, and the arguments that are left.
pub record FlagPackage : Type 0 where
  pub parse_switch : List Bytes → Option SwitchFlags
  pub parse_ctl : List Bytes → Option (Option Bytes × List Bytes)

abbrev pub or_default {ℓ} : {A : Type ℓ} → A → Option A → A
or_default a none = a
or_default a (some b) = b

unfoldable pub default_sock : Bytes
default_sock = codes "/run/vibe-switch.sock"

-- How `runSwitch` ends.
pub data SwitchEnd : Type 0 where
  flags_refused : SwitchEnd
  port_refused : FlagError → SwitchEnd
  ran : Outcome → SwitchEnd

-- `runSwitch`. `fs.Parse` stops at the first flag that it or `Set` refuses.
unfoldable pub run_switch_args : FlagPackage → Host → List Bytes → List Action × SwitchEnd
run_switch_args f h args = elim (f.parse_switch args) [
  | none ↦ ([], flags_refused)
  | some flags ↦ elim (set_flags flags.ports []) [
    | err x ↦ ([], port_refused x)
    | ok cfgs ↦
        let (acts, outcome) = run_switch h cfgs (or_default (pos 300) flags.ageing) in
        (acts, ran outcome)
  ]
]

-- The status that `main` exits with.
abbrev pub switch_status : SwitchEnd → ℕ
switch_status (ran (stopped e)) = 0
switch_status x = 1

-- Whether `query` returns an error.
abbrev pub is_error : QueryEnd → Bool
is_error done = false
is_error x = true

abbrev pub is_quit : Line → Bool
is_quit quit = true
is_quit x = false

-- Some line ends the loop of `Shell`.
unfoldable pub quits : List Bytes → Bool
quits [] = false
quits (s ∷ ss) = let later = quits ss in if is_quit (line_of s) then true else later

module _ (fl : Floats) where
  -- The control sockets, and the lines of the standard input with whether it could be read to its
  -- end.
  pub record Terminal : Type 0 where
    pub dial : Bytes → Option (Connection fl)
    pub lines : List Bytes
    pub read_all : Bool

  -- The queries that were made, and whether an error was returned.
  pub record CtlEnd : Type 0 where
    pub queries : List (Queried fl)
    pub failed : Bool

  -- `Show`
  unfoldable pub show_at : Terminal → Bytes → Bytes → CtlEnd
  show_at o sock what = elim (o.dial sock) [
    | none ↦ record { queries = []; failed = true }
    | some conn ↦
        let q = query fl conn 0 what in record { queries = q ∷ []; failed = is_error q.ended }
  ]

  -- `Shell`. The scanner's error is returned if no line ended the loop before.
  unfoldable pub shell_at : Terminal → Bytes → CtlEnd
  shell_at o sock = elim (o.dial sock) [
    | none ↦ record { queries = []; failed = true }
    | some conn ↦ record {
      queries = shell fl conn 0 o.lines;
      failed = if quits o.lines then false else if o.read_all then false else true;
    }
  ]

  -- What is left of `runCtl` when the flags are parsed.
  unfoldable pub run_command : Terminal → Bytes → CtlCommand → CtlEnd
  run_command o sock interactive = shell_at o sock
  run_command o sock usage = record { queries = []; failed = true }
  run_command o sock (one_query what) = show_at o sock what

  -- `runCtl`
  unfoldable pub run_ctl_args : FlagPackage → Terminal → List Bytes → CtlEnd
  run_ctl_args f o args = elim (f.parse_ctl args) [
    | none ↦ record { queries = []; failed = true }
    | some (sock, rest) ↦ run_command o (or_default default_sock sock) (run_ctl rest)
  ]

  -- A run of the program: what it does with the interfaces, its queries, and its exit status.
  pub record Exit : Type 0 where
    pub actions : List Action
    pub queries : List (Queried fl)
    pub status : ℕ

  ctl_exit : CtlEnd → Exit
  ctl_exit c = record { actions = []; queries = c.queries; status = if c.failed then 1 else 0 }

  switch_exit : List Action × SwitchEnd → Exit
  switch_exit (acts, end) = record { actions = acts; queries = []; status = switch_status end }

  -- `main`, with the arguments behind the program's name.
  unfoldable pub main : FlagPackage → Host → Terminal → List Bytes → Exit
  unfolding ctl_exit switch_exit
  main f h o [] = switch_exit (run_switch_args f h [])
  main f h o (a ∷ args) =
      if bytes_eq a (codes "ctl")
      then ctl_exit (run_ctl_args f o args)
      else switch_exit (run_switch_args f h (a ∷ args))
