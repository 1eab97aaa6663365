-- ===== src/Engine/LastHeard.antt =====
-- `forward` (internal/goswitch/engine.go) after a history: where a frame goes, by what has been heard
-- before.
use mathlib.Core.Path.{subst}
use vibe_switch.Base.{
  ℕ, ◌≡◌, refl, ap, sym, ◌∙◌, Bytes, Bool, false, Option, none, some, List, [], ◌++◌, All, Returns,
  Returns-map, arith, if◌then◌else◌,
}
use vibe_switch.Base.Int.{ℤ, pos, ltb_ℤ}
use vibe_switch.Fdb.{Fdb, MacKey, Entry, answer, new_fdb}
use vibe_switch.Fdb.History
use vibe_switch.Fdb.History.{Call, learns, reaps, empty, last_learned, SweptBy, lookup-run}
use vibe_switch.Frame.{Gopacket, FrameView, is_group, copy_mac}
use vibe_switch.Engine.{Port, PortConfig, Engine, wirings, forward, set_ageing, new_engine, ok}
use vibe_switch.Engine.Wired.{IsWired}
use vibe_switch.Engine.Construct.{new_engine-IsWired}
use vibe_switch.Engine.Step.{fdb_after, destination, deliveries_to}
use vibe_switch.Engine.Switching.{Has}
use vibe_switch.Engine.Admission.{admitted, Forwarded, forward_lem}
use vibe_switch.Engine.Heard.{
  noted, noted-SweptBy, IsBefore, Told, calls_from, calls_from-SweptBy, noted-fdb, run_from-Told,
}
use vibe_switch.Engine.Run.{Event, sets_ageing, Sent, apply, run, IsPlaced, apply-Keeps}

-- Where the last `Learn` of a frame's destination puts it.
abbrev pub heard_at : ℤ → ℕ → FrameView → ℕ → List Call → Option ℕ
heard_at age now fv vid calls =
    if is_group fv.dst
    then none
    else answer age now (last_learned (record { vid = vid; mac = copy_mac fv.dst }) calls)

destination-heard_at :
    (age : ℤ) (now : ℕ) (fv : FrameView) (vid : ℕ) (f : Fdb) (calls : List Call)
    → ltb_ℤ age (pos 0) ≡ false
    → SweptBy now calls
    → f ≡ History.run (empty age) calls
    → destination f fv vid now ≡ heard_at age now fv vid calls
destination-heard_at age now fv vid f calls h swept told =
    ground (arith, told, lookup-run age calls vid (copy_mac fv.dst) now h swept)

module _ (g : Gopacket) where
  set_ageing-start :
      (cfg : List PortConfig) (ios : List ℕ) (e : Engine) (age : ℤ)
      → new_engine cfg ios ≡ ok e
      → IsWired (set_ageing e age) × Told age [] (set_ageing e age)
  unfolding set_ageing apply History.run empty new_fdb
  set_ageing-start cfg ios e age built =
      let (v, ports, fresh) = new_engine-IsWired cfg ios built in
      let fdb_of : List (MacKey × Entry) → Fdb = λ m. record { table = m; ageing = age } in
      ((apply-Keeps g (wirings e) e (sets_ageing age) v refl tt).0, ap fdb_of fresh)

  -- After any history of frames at its ports and sweeps of an engine that `NewEngine` returned and
  -- whose ageing time was set to one that is not negative, none of the sweeps later than now: a
  -- frame that a port admits into a VLAN is written to the port where its destination was heard
  -- last in that VLAN, the frame itself included, unless that is the port where it came in; and to
  -- each other port that carries the VLAN, if the destination is a group address, was never heard
  -- there, or was heard longer ago than a nonzero ageing time. Sweeps make no difference.
  pub forward-run :
      (cfg : List PortConfig) (ios : List ℕ) (e : Engine) (age : ℤ) (evs : List Event)
      (r : Engine × List Sent) (p : Port) (frame : Bytes) (now : ℕ) (takes : ℕ → Bytes → Bool)
      (fv : FrameView) (vid : ℕ)
      → new_engine cfg ios ≡ ok e
      → ltb_ℤ age (pos 0) ≡ false
      → All (IsPlaced (wirings e)) evs
      → All (IsBefore now) evs
      → run g (set_ageing e age) evs ≡ some r
      → Has r.0 p
      → admitted g p frame ≡ some (fv, vid)
      → let calls = noted p.idx now (some (fv, vid)) ++ calls_from g (set_ageing e age) evs [] in
        Returns (forward g takes r.0 p frame now) (λ q.
          q.1 ≡ deliveries_to g takes (heard_at age now fv vid calls) (wirings e) p.idx fv vid)
  unfolding set_ageing History.run History.apply
  forward-run cfg ios e age evs r p frame now takes fv vid built h placed before ran has into =
      let past = calls_from g (set_ageing e age) evs [] in
      let calls = noted p.idx now (some (fv, vid)) ++ past in
      let start = set_ageing-start cfg ios e age built in
      let (v, same, told) =
        run_from-Told g age [] now (wirings e) (set_ageing e age) evs start.0 refl placed before
          start.1 ran in
      let swept : SweptBy now calls =
        noted-SweptBy now p.idx now (some (fv, vid)) past
          (calls_from-SweptBy g now [] (set_ageing e age) evs before tt) in
      Returns-map (Forwarded g takes r.0 p now (admitted g p frame)) _
        (forward g takes r.0 p frame now)
        (λ q all.
          let sent : Forwarded g takes r.0 p now (some (fv, vid)) q =
            subst (λ o. Forwarded g takes r.0 p now o q) into all in
          let table = noted-fdb g age past r.0 p now takes (some (fv, vid)) q told sent in
          sent.writes
          ∙ ap (λ o. deliveries_to g takes o (wirings r.0) p.idx fv vid)
              (destination-heard_at age now fv vid (fdb_after r.0.fdb p.idx fv vid now) calls h
                swept (sym sent.table ∙ table))
          ∙ ap (λ ws. deliveries_to g takes (heard_at age now fv vid calls) ws p.idx fv vid) same)
        (forward_lem g takes r.0 p frame now v has)
