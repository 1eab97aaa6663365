-- ===== src/Control/Server/Invariant.antt =====
-- What holds of the control server wherever `Serve` and `Close` stand
-- (internal/control/service.go).
use mathlib.Core.Path.{subst}
use vibe_switch.Base.{◌≡◌, ◌≢◌, ◌∙◌, refl, sym, Bool, true, false, ◌||◌, arith}
use vibe_switch.Control.Server.Steps.{
  Loop, not_started, accepting, handing, finished, Life, not_served, unlinked, bound, failed,
  serving, closing, waiting, waited, stopped, Server, server, remove, refused, Step, removes_stale,
  listens, refuses, registers, fails_to_register, accepts, serves, sees_closed, fails_fatally,
  calls_close, closes_listener, waits, removes_file, Reach, here, next,
}

-- What is known of the listener, the loop and the file where `Serve` or `Close` stands.
abbrev pub IsKept : Life → Loop → Bool → Bool → Bool → Type 0
IsKept not_served loop listener file unremoved = (loop ≡ not_started) × (listener ≡ false)
IsKept unlinked loop listener file unremoved =
    (loop ≡ not_started) × (listener ≡ false) × (file ≡ true → unremoved ≡ true)
IsKept bound loop listener file unremoved = loop ≡ not_started
IsKept failed loop listener file unremoved =
    (loop ≡ not_started) × (listener ≡ false) × (file ≡ true → unremoved ≡ true)
IsKept serving loop listener file unremoved = loop ≢ not_started
IsKept closing loop listener file unremoved = loop ≢ not_started
IsKept (waiting ok) loop listener file unremoved = (loop ≢ not_started) × (listener ≡ false)
IsKept (waited ok) loop listener file unremoved = (loop ≡ finished) × (listener ≡ false)
IsKept (stopped ok) loop listener file unremoved =
    (loop ≡ finished) × (listener ≡ false) × (file ≡ true → unremoved ≡ true)

abbrev pub Inv : Server → Type 0
Inv s = IsKept s.life s.loop s.listener s.file s.unremoved

-- A loop that has started, and has not ended, may go on or end wherever the server stands.
loop_moves :
    (life : Life) (loop loop' : Loop) (listener file unremoved : Bool)
    → loop ≢ not_started
    → loop ≢ finished
    → loop' ≢ not_started
    → IsKept life loop listener file unremoved
    → IsKept life loop' listener file unremoved
loop_moves not_served loop loop' listener file unremoved on off on' h = absurd (on h.0)
loop_moves unlinked loop loop' listener file unremoved on off on' h = absurd (on h.0)
loop_moves bound loop loop' listener file unremoved on off on' h = absurd (on h)
loop_moves failed loop loop' listener file unremoved on off on' h = absurd (on h.0)
loop_moves serving loop loop' listener file unremoved on off on' h = on'
loop_moves closing loop loop' listener file unremoved on off on' h = on'
loop_moves (waiting ok) loop loop' listener file unremoved on off on' h = (on', h.1)
loop_moves (waited ok) loop loop' listener file unremoved on off on' h = absurd (off h.0)
loop_moves (stopped ok) loop loop' listener file unremoved on off on' h = absurd (off h.0)

-- The step of a loop that stands at `l`.
moves :
    (s : Server) (l l' : Loop)
    → s.loop ≡ l
    → l ≢ not_started
    → l ≢ finished
    → l' ≢ not_started
    → Inv s
    → IsKept s.life l' s.listener s.file s.unremoved
moves s l l' at on off on' h =
    loop_moves s.life s.loop l' s.listener s.file s.unremoved (λ e. on (sym at ∙ e))
      (λ e. off (sym at ∙ e)) on' h

known : (s : Server) {l : Life} → s.life ≡ l → Inv s → IsKept l s.loop s.listener s.file s.unremoved
known s at h = subst (λ l. IsKept l s.loop s.listener s.file s.unremoved) at h

-- Behind a removal a file is there only if a removal has failed.
after_remove :
    (ok file unremoved : Bool) → remove ok file ≡ true → (unremoved || refused ok file) ≡ true
after_remove true file unremoved h = cc
after_remove false file true h = refl
after_remove false file false h = ground arith

pub Step-Inv : {s t : Server} → Step s t → Inv s → Inv t
Step-Inv {s} (removes_stale ok at e) h =
    let (loop, listener) = known s at h in
    subst Inv (sym e) (loop, listener, after_remove ok s.file s.unremoved)
Step-Inv {s} (listens at free e) h = subst Inv (sym e) (known s at h).0
Step-Inv {s} (refuses at e) h = subst Inv (sym e) (known s at h)
Step-Inv (registers at e) h = subst Inv (sym e) (λ f. cc)
Step-Inv {s} (fails_to_register ok at e) h =
    subst Inv (sym e) (known s at h, refl, after_remove ok s.file s.unremoved)
Step-Inv {s} (accepts run opened e) h =
    subst Inv (sym e) (moves s accepting handing run (λ f. cc) (λ f. cc) (λ f. cc) h)
Step-Inv {s} (serves run e) h =
    subst Inv (sym e) (moves s handing accepting run (λ f. cc) (λ f. cc) (λ f. cc) h)
Step-Inv {s} (sees_closed run shut e) h =
    subst Inv (sym e) (moves s accepting finished run (λ f. cc) (λ f. cc) (λ f. cc) h)
Step-Inv {s} (fails_fatally run e) h =
    subst Inv (sym e) (moves s accepting finished run (λ f. cc) (λ f. cc) (λ f. cc) h)
Step-Inv {s} (calls_close at e) h = subst Inv (sym e) (known s at h)
Step-Inv {s} (closes_listener ok unlinks at e) h = subst Inv (sym e) (known s at h, refl)
Step-Inv {s} (waits ok at over e) h = subst Inv (sym e) (over, (known s at h).1)
Step-Inv {s} (removes_file ok removed at e) h =
    let (loop, listener) = known s at h in
    subst Inv (sym e) (loop, listener, after_remove removed s.file s.unremoved)

pub Reach-Inv : {stale : Bool} {t : Server} → Reach (server stale) t → Inv t
Reach-Inv here = (refl, refl)
Reach-Inv (next r st) = Step-Inv st (Reach-Inv r)
