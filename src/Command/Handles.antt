-- ===== src/Command/Handles.antt =====
-- The handles of `runSwitch` (cmd/vibe-switch/main.go): whatever happens, none is left open and
-- none is closed twice.
use vibe_switch.Base.{
  ℕ, ◌+◌, ◌≡◌, refl, ap, sym, ◌∙◌, Bytes, Option, none, some, List, [], ◌∷◌, ◌++◌, append_assoc,
  append-nil, map, length, length-append, arith, Option-cases, Bool-cases, inl, inr,
}
use vibe_switch.Base.Int.{ℤ}
use vibe_switch.Engine.{Engine, Port, PortConfig, new_engine, set_ageing}
use vibe_switch.Engine.Construct.{new_engine-IsWired, Result-cases}
use vibe_switch.Engine.Handles.{io-ports_of}
use vibe_switch.Command.Start.{
  Action, opens, closes, starts, serves, waits, closes_server, Host, close_all, open_all,
  serve_until_signal, with_handles, run_switch, seconds,
}

-- The handles that a run opens, in order.
unfoldable pub opened : List Action → List ℕ
opened [] = []
opened (opens n io ∷ rest) = io ∷ opened rest
opened (closes io ∷ rest) = opened rest
opened (starts ∷ rest) = opened rest
opened (serves ∷ rest) = opened rest
opened (waits ∷ rest) = opened rest
opened (closes_server ∷ rest) = opened rest

-- The handles that a run closes, in order.
unfoldable pub closed : List Action → List ℕ
closed [] = []
closed (closes io ∷ rest) = io ∷ closed rest
closed (opens n io ∷ rest) = closed rest
closed (starts ∷ rest) = closed rest
closed (serves ∷ rest) = closed rest
closed (waits ∷ rest) = closed rest
closed (closes_server ∷ rest) = closed rest

opened-append : (rest bs : List Action) → opened (rest ++ bs) ≡ opened rest ++ opened bs
unfolding opened
opened-append [] bs = refl
opened-append (opens n io ∷ rest) bs = ap (◌∷◌ io) (opened-append rest bs)
opened-append (closes io ∷ rest) bs = opened-append rest bs
opened-append (starts ∷ rest) bs = opened-append rest bs
opened-append (serves ∷ rest) bs = opened-append rest bs
opened-append (waits ∷ rest) bs = opened-append rest bs
opened-append (closes_server ∷ rest) bs = opened-append rest bs

closed-append : (rest bs : List Action) → closed (rest ++ bs) ≡ closed rest ++ closed bs
unfolding closed
closed-append [] bs = refl
closed-append (opens n io ∷ rest) bs = closed-append rest bs
closed-append (closes io ∷ rest) bs = ap (◌∷◌ io) (closed-append rest bs)
closed-append (starts ∷ rest) bs = closed-append rest bs
closed-append (serves ∷ rest) bs = closed-append rest bs
closed-append (waits ∷ rest) bs = closed-append rest bs
closed-append (closes_server ∷ rest) bs = closed-append rest bs

close_all_lem : (ios : List ℕ) → (closed (close_all ios) ≡ ios) × (opened (close_all ios) ≡ [])
unfolding closed opened
close_all_lem [] = (refl, refl)
close_all_lem (io ∷ ios) = (ap (◌∷◌ io) (close_all_lem ios).0, (close_all_lem ios).1)

-- What the loop closes: nothing if it succeeds, every handle if it fails.
abbrev pub owed : Option Bytes → List ℕ → List ℕ
owed none ios = []
owed (some name) ios = ios

-- What the loop has done.
pub record IsOpening (ios : List ℕ) (cs : List PortConfig) (r : List Action × List ℕ × Option Bytes)
    : Type 0 where
  pub all : r.1 ≡ ios ++ opened r.0
  pub owes : closed r.0 ≡ owed r.2 r.1
  pub counted : r.2 ≡ none → length r.1 ≡ length ios + length cs

pub open_all-IsOpening :
    (h : Host) (cs : List PortConfig) (ios : List ℕ) → IsOpening ios cs (open_all h cs ios)
unfolding open_all opened closed
open_all-IsOpening h [] ios = record {
  all = sym (append-nil ios);
  owes = refl;
  counted = λ _. omega arith;
}
open_all-IsOpening h (c ∷ cs) ios = elim (Option-cases (h.open_interface c.name)) [
  | inl failed ↦
      rw (failed, open_all)
        (record {
          all = rw (close_all_lem ios).1 (sym (append-nil ios));
          owes = (close_all_lem ios).0;
          counted = λ e. absurd (ground arith);
        })
  | inr (io, good) ↦
      let ih = open_all-IsOpening h cs (ios ++ io ∷ []) in
      rw (good, open_all)
        (record {
          all = ih.all ∙ append_assoc ios (io ∷ []) _;
          owes = ih.owes;
          counted = λ e. omega (arith, ih.counted e, length-append ios (io ∷ []));
        })
]

stop_engine_lem :
    (ps : List Port)
    → (closed (map (λ (p : Port). closes p.io) ps) ≡ map (λ (p : Port). p.io) ps)
      × (opened (map (λ (p : Port). closes p.io) ps) ≡ [])
unfolding closed opened
stop_engine_lem [] = (refl, refl)
stop_engine_lem (p ∷ ps) = (ap (◌∷◌ p.io) (stop_engine_lem ps).0, (stop_engine_lem ps).1)

serve_lem :
    (h : Host) (e : Engine)
    → let acts = (serve_until_signal h e).0 in
      (closed acts ≡ map (λ (p : Port). p.io) e.ports) × (opened acts ≡ [])
unfolding serve_until_signal closed opened
serve_lem h e = elim (Bool-cases h.serves_control) [
  | inl up ↦ rw up (stop_engine_lem e.ports)
  | inr down ↦ rw down (stop_engine_lem e.ports)
]

with_handles_lem :
    (h : Host) (cs : List PortConfig) (ios : List ℕ) (ageing : ℤ)
    → length ios ≡ length cs
    → let acts = (with_handles h cs ios ageing).0 in (closed acts ≡ ios) × (opened acts ≡ [])
unfolding with_handles set_ageing
with_handles_lem h cs ios ageing same = elim (Result-cases (new_engine cs ios)) [
  | inl (e, built) ↦
      let served = serve_lem h (set_ageing e (seconds ageing)) in
      let ports = (new_engine-IsWired cs ios built).1 in
      rw (built, with_handles)
        (served.0 ∙ ap (map (λ (p : Port). p.io)) ports ∙ io-ports_of 0 cs ios same, served.1)
  | inr (x, refused) ↦ rw (refused, with_handles) (close_all_lem ios)
]

run_switch-from :
    (h : Host) (c : PortConfig) (cs : List PortConfig) (ageing : ℤ)
    → let acts = (run_switch h (c ∷ cs) ageing).0 in closed acts ≡ opened acts
unfolding run_switch
run_switch-from h c cs ageing =
    let o = open_all-IsOpening h (c ∷ cs) [] in
    elim (Option-cases (open_all h (c ∷ cs) []).2) [
      | inr (name, failed) ↦
          rw (failed, run_switch)
            (o.owes ∙ ap (λ f. owed f (open_all h (c ∷ cs) []).1) failed ∙ o.all)
      | inl good ↦
          let ios = (open_all h (c ∷ cs) []).1 in
          let (gone, none_new) =
            with_handles_lem h (c ∷ cs) ios ageing (omega (arith, o.counted good)) in
          rw (good, run_switch, closed-append, opened-append, gone, none_new, o.owes, good)
            (o.all ∙ sym (append-nil _))
    ]

-- However `runSwitch` ends, with no ports, an interface that cannot be opened, a refused config, a
-- control socket that cannot be served or a signal, it has closed exactly the handles that it
-- opened, each as often and in the same order.
pub closed-run_switch :
    (h : Host) (cfgs : List PortConfig) (ageing : ℤ)
    → closed (run_switch h cfgs ageing).0 ≡ opened (run_switch h cfgs ageing).0
closed-run_switch h [] ageing = unfold run_switch closed opened in refl
closed-run_switch h (c ∷ cs) ageing = run_switch-from h c cs ageing
