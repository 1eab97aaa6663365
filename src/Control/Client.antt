-- ===== src/Control/Client.antt =====
-- internal/control: the service's methods (service.go), `query`, `Show` and `Shell` (client.go),
-- and `runCtl` (cmd/vibe-switch/main.go). Each call on a connection has its own answer, so the
-- switch runs on between two calls.
use vibe_switch.Base.{
  ℕ, suc, Bytes, codes, bytes_eq, ◌||◌, Option, none, some, List, [], ◌∷◌, ◌++◌, if◌then◌else◌,
}
use vibe_switch.Base.Float.{Floats}
use vibe_switch.Engine.{Engine}
use vibe_switch.Stats.{
  PortInfo, PortCounters, FdbEntry, EngineConfig, fdb_snapshot, ports_snapshot, stats_snapshot,
  config_snapshot,
}
use vibe_switch.Control.Cells.{
  text, Output, line, render_fdb, render_ports, render_stats, render_rate, render_config,
}
use vibe_switch.Command.{trim_space}

-- The argument of `query`, and what its `switch` takes it for.
pub data Target : Type 0 where
  fdb ports stats rate config all unknown : Target

unfoldable pub target_of : Bytes → Target
target_of what =
    if bytes_eq what (codes "fdb")
    then fdb
    else if bytes_eq what (codes "ports")
    then ports
    else if bytes_eq what (codes "stats")
    then stats
    else if bytes_eq what (codes "rate")
    then rate
    else if bytes_eq what (codes "config")
    then config
    else if bytes_eq what (codes "all")
    then all
    else unknown

-- How a query ends: without an error, with that of a call, or with that of the `default` case.
pub data QueryEnd : Type 0 where
  done call_failed unknown_target : QueryEnd

-- What `Shell` takes a line for.
pub data Line : Type 0 where
  blank quit help other : Line
  show : Bytes → Line

unfoldable pub after_prefix : Bytes → Bytes → Option Bytes
after_prefix [] s = some s
after_prefix (p ∷ ps) [] = none
after_prefix (p ∷ ps) (c ∷ s) =
    let rest = after_prefix ps s in if bytes_eq (p ∷ []) (c ∷ []) then rest else none

unfoldable pub show_or_other : Option Bytes → Line
show_or_other none = other
show_or_other (some rest) = show (trim_space rest)

unfoldable pub line_of : Bytes → Line
line_of s =
    let t = trim_space s in
    if bytes_eq t []
    then blank
    else if bytes_eq t (codes "quit") || bytes_eq t (codes "exit")
    then quit
    else if bytes_eq t (codes "help")
    then help
    else show_or_other (after_prefix (codes "show ") t)

-- What `runCtl` does with the arguments behind the flags.
pub data CtlCommand : Type 0 where
  interactive usage : CtlCommand
  one_query : Bytes → CtlCommand

unfoldable pub run_ctl : List Bytes → CtlCommand
run_ctl [] = interactive
run_ctl (a ∷ []) = usage
run_ctl (a ∷ what ∷ rest) = if bytes_eq a (codes "show") then one_query what else usage

module _ (fl : Floats) where
  open fl use {Float}

  -- What the methods of `Control` reply at one moment; `none` is an error of the call.
  pub record Answers : Type 0 where
    pub fdb_reply : Option (List (FdbEntry fl))
    pub ports_reply : Option (List PortInfo)
    pub stats_reply : Option (List PortCounters)
    pub config_reply : Option (EngineConfig fl)

  -- `Control.FDB`, `Ports`, `Stats` and `Config` on an engine, at a time.
  unfoldable pub replies : Engine → ℕ → Answers
  replies e now = record {
    fdb_reply = fdb_snapshot fl e now;
    ports_reply = some (ports_snapshot e);
    stats_reply = some (stats_snapshot e);
    config_reply = some (config_snapshot fl e);
  }

  -- A connection: what the n-th call on it finds, and how long the wait of `showRate` that
  -- began with the n-th call took.
  pub record Connection : Type 0 where
    pub call : ℕ → Answers
    pub elapsed : ℕ → Float

  -- A query's outcome: the number of the next call, what was printed, and the end.
  pub record Queried : Type 0 where
    pub next_call : ℕ
    pub printed : List (Output fl)
    pub ended : QueryEnd

  -- One call, and what is printed of its answer.
  unfoldable pub answered : {A : Type 0} → ℕ → Option A → (A → List (Output fl)) → Queried
  answered n none render = record { next_call = suc n; printed = []; ended = call_failed }
  answered n (some a) render = record { next_call = suc n; printed = render a; ended = done }

  -- `showRate`
  unfoldable pub show_rate : Connection → ℕ → Queried
  show_rate conn n = elim (conn.call n).stats_reply [
    | none ↦ record { next_call = suc n; printed = []; ended = call_failed }
    | some first ↦
        answered (suc n) (conn.call (suc n)).stats_reply
          λ second. render_rate fl first second (conn.elapsed n)
  ]

  -- The cases of `query` that do not call it again.
  unfoldable pub query_one : Connection → ℕ → Target → Queried
  query_one conn n fdb = answered n (conn.call n).fdb_reply (render_fdb fl)
  query_one conn n ports = answered n (conn.call n).ports_reply (render_ports fl)
  query_one conn n stats = answered n (conn.call n).stats_reply (render_stats fl)
  query_one conn n rate = show_rate conn n
  query_one conn n config = answered n (conn.call n).config_reply (render_config fl)
  query_one conn n all = record { next_call = n; printed = []; ended = done }
  query_one conn n unknown = record { next_call = n; printed = []; ended = unknown_target }

  -- The loop of the case `all`: it stops at the first error.
  unfoldable pub query_each : Connection → ℕ → List Bytes → Queried
  query_each conn n [] = record { next_call = n; printed = []; ended = done }
  query_each conn n (sub ∷ subs) =
      let q = query_one conn n (target_of sub) in
      let title = line (text (codes "== ") ∷ text sub ∷ text (codes " ==") ∷ []) in
      let rest = query_each conn q.next_call subs in
      elim q.ended [
        | done ↦ record rest { printed = title ∷ (q.printed ++ rest.printed) }
        | call_failed ↦ record q { printed = title ∷ q.printed }
        | unknown_target ↦ record q { printed = title ∷ q.printed }
      ]

  -- The cases of `query`.
  unfoldable pub query_target : Connection → ℕ → Target → Queried
  query_target conn n all =
      query_each conn n (codes "config" ∷ codes "ports" ∷ codes "fdb" ∷ codes "stats" ∷ [])
  query_target conn n fdb = query_one conn n fdb
  query_target conn n ports = query_one conn n ports
  query_target conn n stats = query_one conn n stats
  query_target conn n rate = query_one conn n rate
  query_target conn n config = query_one conn n config
  query_target conn n unknown = query_one conn n unknown

  -- `query`
  unfoldable pub query : Connection → ℕ → Bytes → Queried
  query conn n what = query_target conn n (target_of what)

  -- The loop of `Shell`: the queries of the lines until one quits; an error is reported and the
  -- loop goes on.
  unfoldable pub shell : Connection → ℕ → List Bytes → List Queried
  shell conn n [] = []
  shell conn n (s ∷ ss) = elim (line_of s) [
    | quit ↦ []
    | blank ↦ shell conn n ss
    | help ↦ shell conn n ss
    | other ↦ shell conn n ss
    | show what ↦ let q = query conn n what in q ∷ shell conn q.next_call ss
  ]
