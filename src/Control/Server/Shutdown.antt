-- ===== src/Control/Server/Shutdown.antt =====
-- How the control server ends (internal/control/service.go).
use mathlib.Core.Path.{subst}
use vibe_switch.Base.{ℕ, suc, ◌≡◌, ◌≢◌, ◌∙◌, refl, sym, ap, Bool, true, false}
use vibe_switch.Control.Server.Steps.{
  Loop, not_started, accepting, handing, finished, Life, not_served, unlinked, bound, failed,
  serving, closing, waiting, waited, stopped, Server, server, Step, removes_stale, listens, refuses,
  registers, fails_to_register, accepts, serves, sees_closed, fails_fatally, calls_close,
  closes_listener, waits, removes_file, Reach, here, next,
}
use vibe_switch.Control.Server.Invariant.{IsKept, Inv, Step-Inv, Reach-Inv}

-- `Serve` has returned an error, or `Close` has returned.
abbrev pub IsOver : Life → Type 0
IsOver failed = Unit
IsOver (stopped ok) = Unit
IsOver not_served = ⊥
IsOver unlinked = ⊥
IsOver bound = ⊥
IsOver serving = ⊥
IsOver closing = ⊥
IsOver (waiting ok) = ⊥
IsOver (waited ok) = ⊥

IsOver-lem :
    (life : Life) (loop : Loop) (listener file unremoved : Bool)
    → IsOver life
    → IsKept life loop listener file unremoved
    → (listener ≡ false) × (loop ≢ accepting) × (loop ≢ handing) × (file ≡ true → unremoved ≡ true)
IsOver-lem failed loop listener file unremoved o h = (h.1, (λ run. cc), (λ run. cc), h.2)
IsOver-lem (stopped ok) loop listener file unremoved o h = (h.1, (λ run. cc), (λ run. cc), h.2)
IsOver-lem not_served loop listener file unremoved o h = absurd o
IsOver-lem unlinked loop listener file unremoved o h = absurd o
IsOver-lem bound loop listener file unremoved o h = absurd o
IsOver-lem serving loop listener file unremoved o h = absurd o
IsOver-lem closing loop listener file unremoved o h = absurd o
IsOver-lem (waiting ok) loop listener file unremoved o h = absurd o
IsOver-lem (waited ok) loop listener file unremoved o h = absurd o

-- Whatever fails on the way and with or without a stale socket file: once `Serve` has returned an
-- error or `Close` has returned, the listener is closed, no accept loop runs, and a socket file is
-- left only if the system has refused to remove it.
pub server_leaves_nothing :
    {stale : Bool} {t : Server}
    → Reach (server stale) t
    → IsOver t.life
    → (t.listener ≡ false)
      × (t.loop ≢ accepting)
      × (t.loop ≢ handing)
      × (t.file ≡ true → t.unremoved ≡ true)
server_leaves_nothing {t} r o =
    IsOver-lem t.life t.loop t.listener t.file t.unremoved o (Reach-Inv r)

-- The listener has been closed, or never was opened and will not be.
abbrev pub IsShut : Life → Type 0
IsShut failed = Unit
IsShut (waiting ok) = Unit
IsShut (waited ok) = Unit
IsShut (stopped ok) = Unit
IsShut not_served = ⊥
IsShut unlinked = ⊥
IsShut bound = ⊥
IsShut serving = ⊥
IsShut closing = ⊥

IsShut-listener :
    (life : Life) (loop : Loop) (listener file unremoved : Bool)
    → IsShut life
    → IsKept life loop listener file unremoved
    → listener ≡ false
IsShut-listener failed loop listener file unremoved o h = h.1
IsShut-listener (waiting ok) loop listener file unremoved o h = h.1
IsShut-listener (waited ok) loop listener file unremoved o h = h.1
IsShut-listener (stopped ok) loop listener file unremoved o h = h.1
IsShut-listener not_served loop listener file unremoved o h = absurd o
IsShut-listener unlinked loop listener file unremoved o h = absurd o
IsShut-listener bound loop listener file unremoved o h = absurd o
IsShut-listener serving loop listener file unremoved o h = absurd o
IsShut-listener closing loop listener file unremoved o h = absurd o

-- The connections that have been accepted: those with a goroutine, and perhaps one in the loop.
abbrev pub accepted : Server → ℕ
accepted s = elim s.loop [
  | not_started ↦ s.connections
  | accepting ↦ s.connections
  | handing ↦ suc s.connections
  | finished ↦ s.connections
]

abbrev IsQuiet : ℕ → Server → Type 0
IsQuiet n t = IsShut t.life × (accepted t ≡ n)

IsShut-life : (s : Server) {l : Life} → s.life ≡ l → IsShut s.life → IsShut l
IsShut-life s at o = subst IsShut at o

-- What the accepted connections of a loop come to.
accepted_at : (s : Server) {l : Loop} → s.loop ≡ l → accepted s ≡ accepted (record s { loop = l })
accepted_at s {l} at = ap (λ k. accepted (record s { loop = k })) at

Step-IsQuiet : {s t : Server} {n : ℕ} → Step s t → Inv s → IsQuiet n s → IsQuiet n t
Step-IsQuiet {s} {n} (removes_stale ok at e) h (o, c) = absurd (IsShut-life s at o)
Step-IsQuiet {s} {n} (listens at free e) h (o, c) = absurd (IsShut-life s at o)
Step-IsQuiet {s} {n} (refuses at e) h (o, c) = absurd (IsShut-life s at o)
Step-IsQuiet {s} {n} (registers at e) h (o, c) = absurd (IsShut-life s at o)
Step-IsQuiet {s} {n} (fails_to_register ok at e) h (o, c) = absurd (IsShut-life s at o)
Step-IsQuiet {s} {n} (accepts running opened e) h (o, c) =
    let shut : s.listener ≡ false =
      IsShut-listener s.life s.loop s.listener s.file s.unremoved o h in
    absurd cc
Step-IsQuiet {s} {n} (serves run e) h (o, c) =
    subst (IsQuiet n) (sym e) (o, sym (accepted_at s run) ∙ c)
Step-IsQuiet {s} {n} (sees_closed run shut e) h (o, c) =
    subst (IsQuiet n) (sym e) (o, sym (accepted_at s run) ∙ c)
Step-IsQuiet {s} {n} (fails_fatally run e) h (o, c) =
    subst (IsQuiet n) (sym e) (o, sym (accepted_at s run) ∙ c)
Step-IsQuiet {s} {n} (calls_close at e) h (o, c) = absurd (IsShut-life s at o)
Step-IsQuiet {s} {n} (closes_listener ok unlinks at e) h (o, c) = absurd (IsShut-life s at o)
Step-IsQuiet {s} {n} (waits ok at over e) h (o, c) = subst (IsQuiet n) (sym e) (tt, c)
Step-IsQuiet {s} {n} (removes_file ok removed at e) h (o, c) = subst (IsQuiet n) (sym e) (tt, c)

Reach-IsQuiet : {s t : Server} {n : ℕ} → Inv s → IsQuiet n s → Reach s t → Inv t × IsQuiet n t
Reach-IsQuiet h q here = (h, q)
Reach-IsQuiet h q (next r st) =
    let (h', q') = Reach-IsQuiet h q r in (Step-Inv st h', Step-IsQuiet st h' q')

-- From the moment that `Close` has closed the listener, or `Serve` has returned an error, no
-- further connection is accepted, whatever steps follow: those that are served then are those that
-- were served before, and the one that the loop had accepted and not yet handed on, if it had one.
pub no_accept_after_close :
    {stale : Bool} {s t : Server}
    → Reach (server stale) s
    → IsShut s.life
    → Reach s t
    → accepted t ≡ accepted s
no_accept_after_close r o later = (Reach-IsQuiet (Reach-Inv r) (o, refl) later).1.1

-- A call of `Close` is under way.
abbrev pub IsClosing : Life → Type 0
IsClosing closing = Unit
IsClosing (waiting ok) = Unit
IsClosing (waited ok) = Unit
IsClosing not_served = ⊥
IsClosing unlinked = ⊥
IsClosing bound = ⊥
IsClosing failed = ⊥
IsClosing serving = ⊥
IsClosing (stopped ok) = ⊥

-- A step that is not a failure of `Accept` of itself.
abbrev pub IsOrderly : {s t : Server} → Step s t → Type 0
IsOrderly (fails_fatally run e) = ⊥
IsOrderly (removes_stale ok at e) = Unit
IsOrderly (listens at free e) = Unit
IsOrderly (refuses at e) = Unit
IsOrderly (registers at e) = Unit
IsOrderly (fails_to_register ok at e) = Unit
IsOrderly (accepts run opened e) = Unit
IsOrderly (serves run e) = Unit
IsOrderly (sees_closed run shut e) = Unit
IsOrderly (calls_close at e) = Unit
IsOrderly (closes_listener ok unlinks at e) = Unit
IsOrderly (waits ok at over e) = Unit
IsOrderly (removes_file ok removed at e) = Unit

-- A way to a state in which `Close` has returned, on which `Accept` does not fail of itself: the
-- loop hands on what it has accepted and ends because the listener is closed.
pub data CanStop : Server → Type 0 where
  has_stopped : {s : Server} (ok : Bool) → s.life ≡ stopped ok → CanStop s
  goes_on : {s t : Server} (st : Step s t) → IsOrderly st → CanStop t → CanStop s

waited_stops : (s : Server) (ok : Bool) → s.life ≡ waited ok → CanStop s
waited_stops s ok at = goes_on (removes_file ok true at refl) tt (has_stopped ok refl)

accepting_stops :
    (s : Server) (ok : Bool)
    → s.loop ≡ accepting
    → s.listener ≡ false
    → s.life ≡ waiting ok
    → CanStop s
accepting_stops s ok at shut life =
    goes_on (sees_closed at shut refl) tt
      (goes_on (waits ok life refl refl) tt (waited_stops _ ok refl))

waiting_stops :
    (s : Server) (ok : Bool) (loop : Loop)
    → s.loop ≡ loop
    → loop ≢ not_started
    → s.listener ≡ false
    → s.life ≡ waiting ok
    → CanStop s
waiting_stops s ok not_started at started shut life = absurd (started refl)
waiting_stops s ok finished at started shut life =
    goes_on (waits ok life at refl) tt (waited_stops _ ok refl)
waiting_stops s ok accepting at started shut life = accepting_stops s ok at shut life
waiting_stops s ok handing at started shut life =
    goes_on (serves at refl) tt (accepting_stops _ ok refl shut life)

closing_stops : (s : Server) → s.life ≡ closing → s.loop ≢ not_started → CanStop s
closing_stops s at started =
    goes_on (closes_listener true false at refl) tt
      (waiting_stops _ true s.loop refl started refl refl)

stops_from :
    (s : Server) (l : Life)
    → s.life ≡ l
    → IsClosing l
    → IsKept l s.loop s.listener s.file s.unremoved
    → CanStop s
stops_from s closing at o h = closing_stops s at h
stops_from s (waiting ok) at o h = waiting_stops s ok s.loop refl h.0 h.1 at
stops_from s (waited ok) at o h = waited_stops s ok at
stops_from s not_served at o h = absurd o
stops_from s unlinked at o h = absurd o
stops_from s bound at o h = absurd o
stops_from s failed at o h = absurd o
stops_from s serving at o h = absurd o
stops_from s (stopped ok) at o h = absurd o

-- From every state in which a call of `Close` is under way there are steps to its return, none of
-- which is a failure of `Accept` other than on the closed listener: its wait for the accept loop is
-- not a deadlock.
pub close_can_return :
    {stale : Bool} {s : Server} → Reach (server stale) s → IsClosing s.life → CanStop s
close_can_return {s} r o = stops_from s s.life refl o (Reach-Inv r)
