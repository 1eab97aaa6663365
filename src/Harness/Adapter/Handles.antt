-- ===== src/Harness/Adapter/Handles.antt =====
-- The sockets of `GoSwitch` (internal/harness/switch.go): after a failed `Start` none is open, after
-- one that succeeds those of the engine are, and after `Stop` none is.
use vibe_switch.Base.{
  ℕ, ◌≡◌, refl, ap, sym, ◌∙◌, Bool, true, false, ◌||◌, none, some, List, [], ◌∷◌, ◌++◌, ◌==◌, map,
  arith, Option-cases, Bool-cases, inl, inr, if◌then◌else◌,
}
use vibe_switch.Engine.{Engine, new_engine}
use vibe_switch.Engine
use vibe_switch.Engine.Construct.{Result-cases}
use vibe_switch.Engine.Handles.{handles-new_engine}
use vibe_switch.Transport.{Call, opens, sets_filter, closes, inbound_bpf, rx_opts}
use vibe_switch.Transport.Opening.{Status, unopened, after_call, status}
use vibe_switch.Harness.Adapter.GoSwitch.{
  Port, Namespace, StartEnd, started, open_failed, filter_failed, engine_refused, cleanup,
  config_of, Opened, failed, handles, open_ports, GoSwitch, with_engine, from_handles, start, stop,
}

abbrev pub is_in : ℕ → List ℕ → Bool
is_in h [] = false
is_in h (io ∷ ios) = (io == h) || is_in h ios

-- A socket that is ready for the engine, if it is one of these handles.
abbrev pub ready : ℕ → List ℕ → Status
ready h ios =
    if is_in h ios
    then record { is_open = true; promiscuous = false; filter = inbound_bpf }
    else unopened

status-append :
    (h : ℕ) (s : Status) (xs ys : List Call) → status h s (xs ++ ys) ≡ status h (status h s xs) ys
unfolding status
status-append h s [] ys = refl
status-append h s (c ∷ xs) ys = status-append h (after_call h s c) xs ys

is_in-append : (h : ℕ) (xs ys : List ℕ) → is_in h (xs ++ ys) ≡ (is_in h xs || is_in h ys)
is_in-append h [] ys = refl
is_in-append h (x ∷ xs) ys = ground (arith, is_in-append h xs ys)

-- What is closed in any order ends unopened, if it is among the handles; and if it is not, it
-- stays as it was.
status-cleanup :
    (h : ℕ) (s : Status) (ios : List ℕ)
    → status h s (cleanup ios) ≡ (if is_in h ios then unopened else s)
unfolding status cleanup
status-cleanup h s [] = refl
status-cleanup h s (io ∷ ios) =
    ground (arith, status-cleanup h s ios, status-cleanup h unopened ios)

-- Handles that are ready, and only these, are all closed.
status-cleanup-ready : (h : ℕ) (ios : List ℕ) → status h (ready h ios) (cleanup ios) ≡ unopened
status-cleanup-ready h ios = ground (arith, status-cleanup h (ready h ios) ios)

ready-append :
    (h tp : ℕ) (ios : List ℕ)
    → after_call h (after_call h (ready h ios) (opens [] tp)) (sets_filter tp inbound_bpf)
      ≡ ready h (ios ++ tp ∷ [])
ready-append h tp ios = ground (arith, is_in-append h ios (tp ∷ []))

-- What a handle is after the ports have been opened.
abbrev pub status_of : ℕ → Opened → Status
status_of h (failed x) = unopened
status_of h (handles ios) = ready h ios

status-open_ports :
    (ns : Namespace) (ps : List Port) (ios : List ℕ) (h : ℕ)
    → let r = open_ports ns ps ios in status h (ready h ios) r.0 ≡ status_of h r.1
unfolding open_ports status
status-open_ports ns [] ios h = refl
status-open_ports ns (p ∷ ps) ios h =
    elim (Option-cases (ns.open_in_netns p.sw_if (rx_opts p.sw_if))) [
      | inl refused ↦ rw (refused, open_ports) (status-cleanup-ready h ios)
      | inr (tp, opened) ↦ elim (Bool-cases (ns.set_bpf tp)) [
        | inl taken ↦
            ground (arith, ready-append h tp ios, status-open_ports ns ps (ios ++ tp ∷ []) h)
        | inr refused ↦ ground (arith, status-cleanup h unopened ios, status-cleanup-ready h ios)
      ]
    ]

-- The handles of a switch, none before `Start`.
abbrev pub handles_of : GoSwitch → List ℕ
handles_of none = []
handles_of (some e) = map (λ (p : Engine.Port). p.io) e.ports

stop-cleanup : (g : GoSwitch) → stop g ≡ cleanup (handles_of g)
unfolding stop cleanup
stop-cleanup none = refl
stop-cleanup (some e) = go e.ports
  where
    go :
        (ps : List Engine.Port)
        → map (λ (p : Engine.Port). closes p.io) ps
          ≡ map closes (map (λ (p : Engine.Port). p.io) ps)
    go [] = refl
    go (p ∷ ps) = ap (◌∷◌ (closes p.io)) (go ps)

-- A switch that has an engine exactly if `Start` reported none of its errors.
abbrev pub Agrees : GoSwitch → StartEnd → Type 0
Agrees none started = ⊥
Agrees none (open_failed name) = Unit {0}
Agrees none (filter_failed name) = Unit {0}
Agrees none (engine_refused x) = Unit {0}
Agrees (some e) started = Unit {0}
Agrees (some e) (open_failed name) = ⊥
Agrees (some e) (filter_failed name) = ⊥
Agrees (some e) (engine_refused x) = ⊥

abbrev Fails : Opened → Type 0
Fails (failed x) = Agrees none x
Fails (handles ios) = Unit {0}

open_ports-Fails : (ns : Namespace) (ps : List Port) (ios : List ℕ) → Fails (open_ports ns ps ios).1
unfolding open_ports
open_ports-Fails ns [] ios = tt
open_ports-Fails ns (p ∷ ps) ios =
    elim (Option-cases (ns.open_in_netns p.sw_if (rx_opts p.sw_if))) [
      | inl refused ↦ rw (refused, open_ports) tt
      | inr (tp, opened) ↦ elim (Bool-cases (ns.set_bpf tp)) [
        | inl taken ↦ rw (opened, taken, open_ports) (open_ports-Fails ns ps (ios ++ tp ∷ []))
        | inr refused ↦ rw (opened, refused, open_ports) tt
      ]
    ]

-- What is known once the ports have been opened, and the engine made.
abbrev IsStarted : ℕ → Status → List Call × GoSwitch × StartEnd → Type 0
IsStarted h s r = Agrees r.1 r.2 × (status h s r.0 ≡ ready h (handles_of r.1))

with_engine-IsStarted :
    (h : ℕ) (ps : List Port) (ios : List ℕ)
    → IsStarted h (ready h ios) (with_engine none ios (new_engine (map config_of ps) ios))
unfolding status
with_engine-IsStarted h ps ios = elim (Result-cases (new_engine (map config_of ps) ios)) [
  | inl (e, built) ↦
      rw built (tt, ap (ready h) (sym (handles-new_engine (map config_of ps) ios built)))
  | inr (x, refused) ↦ rw refused (tt, status-cleanup-ready h ios)
]

from_handles-IsStarted :
    (h : ℕ) (ps : List Port) (o : Opened)
    → Fails o
    → IsStarted h (status_of h o) (from_handles none ps o)
unfolding status
from_handles-IsStarted h ps (failed x) fails = (fails, refl)
from_handles-IsStarted h ps (handles ios) fails = with_engine-IsStarted h ps ios

pub status-start :
    (ns : Namespace) (ps : List Port) (h : ℕ)
    → let r = start ns none ps in
      Agrees r.1 r.2
      × (status h unopened r.0 ≡ ready h (handles_of r.1))
      × (status h unopened (r.0 ++ stop r.1) ≡ unopened)
unfolding start
status-start ns ps h =
    let o = open_ports ns ps [] in
    let r = from_handles none ps o.1 in
    let (agrees, after) = from_handles-IsStarted h ps o.1 (open_ports-Fails ns ps []) in
    let opened : status h unopened o.0 ≡ status_of h o.1 = status-open_ports ns ps [] h in
    let all : status h unopened (o.0 ++ r.0) ≡ ready h (handles_of r.1) =
      status-append h unopened o.0 r.0 ∙ ap (λ s. status h s r.0) opened ∙ after in
    (
      agrees,
      all,
      status-append h unopened (o.0 ++ r.0) (stop r.1)
          ∙ rw (all, stop-cleanup r.1) (status-cleanup-ready h (handles_of r.1)),
    )
