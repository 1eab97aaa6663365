-- ===== src/Control/Rates.antt =====
-- `renderRate` (internal/control/client.go) against two snapshots of one switch: each port is
-- compared with itself.
use vibe_switch.Base.{
  ℕ, suc, ◌≡◌, refl, ap, sym, ◌∙◌, Bytes, string_eq, true, false, some, List, [], ◌∷◌, map, All,
  arith,
}
use vibe_switch.Base.Float.{Floats}
use vibe_switch.Base.Assoc.{
  lookup as map_lookup, insert as map_insert, lookup-insert, lookup-insert_self,
}
use vibe_switch.Vlan.{Wiring, role_of}
use vibe_switch.Engine.{Engine, Port, PortConfig, wirings, new_engine, ok, seen_name, make_port}
use vibe_switch.Engine.Config.{names_ok, is_ok, valid_config, is_ok-new_engine}
use vibe_switch.Engine.Construct.{ports_of, new_engine-IsWired}
use vibe_switch.Stats.{PortCounters, port_counters, stats_snapshot}
use vibe_switch.Control.{Cell, by_name, counters_of, rate_cells, rate_rows}

-- No two ports have the same name.
abbrev pub NamesDiffer : List Bytes → Type 0
NamesDiffer [] = Unit {0}
NamesDiffer (n ∷ ns) = (seen_name ns n ≡ false) × NamesDiffer ns

abbrev names : List PortCounters → List Bytes
names = map (λ s. s.name)

lookup-by_name :
    (ss : List PortCounters) (m : List (Bytes × PortCounters)) (n : Bytes)
    → seen_name (names ss) n ≡ false
    → map_lookup n (by_name ss m) ≡ map_lookup n m
unfolding by_name
lookup-by_name [] m n h = refl
lookup-by_name (s ∷ ss) m n h =
    ground (arith, lookup-by_name ss (map_insert s.name s m) n, lookup-insert s.name n s m)

-- Each port's counters are found under its name.
found_by_name :
    (ss : List PortCounters) (m : List (Bytes × PortCounters))
    → NamesDiffer (names ss)
    → All (λ s. map_lookup s.name (by_name ss m) ≡ some s) ss
unfolding by_name
found_by_name [] m h = tt
found_by_name (s ∷ ss) m (new, h) = (
  lookup-by_name ss (map_insert s.name s m) s.name new ∙ lookup-insert_self s.name s m,
  found_by_name ss (map_insert s.name s m) h,
)

module _ (fl : Floats) where
  open fl use {Float}

  -- The rows for a list of ports, each with its own counters before and after.
  pub own_rows : Float → List PortCounters → List PortCounters → List (List (Cell fl))
  own_rows w [] second = []
  own_rows w (p ∷ ps) [] = []
  own_rows w (p ∷ ps) (s ∷ ss) = rate_cells fl w s p ∷ own_rows w ps ss

  rate_rows_found :
      (w : Float) (prev : List (Bytes × PortCounters)) (first second : List PortCounters)
      → names second ≡ names first
      → All (λ s. map_lookup s.name prev ≡ some s) first
      → rate_rows fl w prev second ≡ own_rows w first second
  unfolding rate_rows own_rows counters_of
  rate_rows_found w prev [] [] same h = refl
  rate_rows_found w prev [] (s ∷ ss) same h = cc
  rate_rows_found w prev (p ∷ ps) [] same h = cc
  rate_rows_found w prev (p ∷ ps) (s ∷ ss) same h = ground (arith, rate_rows_found w prev ps ss)

counters_at : List Port → List PortCounters
counters_at = map port_counters

-- The names of a switch's counters are those of its wiring.
names-counters_at :
    (ps : List Port)
    → names (counters_at ps) ≡ map (λ (w : Wiring). w.name) (map (λ (p : Port). p.wiring) ps)
unfolding counters_at
names-counters_at [] = refl
names-counters_at (p ∷ ps) = ground (arith, names-counters_at ps)

not_seen :
    (n : Bytes) (i : ℕ) (cs : List PortConfig) (ios : List ℕ)
    → seen_name (map (λ (c : PortConfig). c.name) cs) n ≡ false
    → seen_name (names (counters_at (ports_of i cs ios))) n ≡ false
unfolding ports_of counters_at make_port
not_seen n i [] ios h = refl
not_seen n i (c ∷ cs) [] h = refl
not_seen n i (c ∷ cs) (io ∷ ios) h = ground (arith, not_seen n (suc i) cs ios)

name-make_port : (i : ℕ) (c : PortConfig) (io : ℕ) → (make_port i c io).name ≡ c.name
unfolding make_port role_of
name-make_port i c io = ground arith

ports_of-NamesDiffer :
    (i : ℕ) (cs : List PortConfig) (ios : List ℕ)
    → names_ok cs ≡ true
    → NamesDiffer (names (counters_at (ports_of i cs ios)))
unfolding ports_of counters_at
ports_of-NamesDiffer i [] ios h = tt
ports_of-NamesDiffer i (c ∷ cs) [] h = tt
ports_of-NamesDiffer i (c ∷ cs) (io ∷ ios) h = (
  ap (seen_name (names (counters_at (ports_of (suc i) cs ios)))) (name-make_port i c io)
      ∙ not_seen c.name (suc i) cs ios (ground arith),
  ports_of-NamesDiffer (suc i) cs ios (ground arith),
)

new_engine-NamesDiffer :
    (cfg : List PortConfig) (ios : List ℕ) {e : Engine}
    → new_engine cfg ios ≡ ok e
    → NamesDiffer (names (counters_at e.ports))
unfolding valid_config
new_engine-NamesDiffer cfg ios {e} built =
    rw (new_engine-IsWired cfg ios built).1
      (ports_of-NamesDiffer 0 cfg ios (ground (arith, is_ok-new_engine cfg ios, ap is_ok built)))

-- Between two snapshots of a switch that `NewEngine` built, with its ports wired as built, each row
-- of the rates compares the counters of a port with the earlier counters of that same port.
pub rate_rows-own_rows :
    (fl : Floats) (w : fl.Float) (cfg : List PortConfig) (ios : List ℕ) {e : Engine}
    (before after : Engine)
    → new_engine cfg ios ≡ ok e
    → wirings before ≡ wirings e
    → wirings after ≡ wirings e
    → rate_rows fl w (by_name (stats_snapshot before) []) (stats_snapshot after)
      ≡ own_rows fl w (stats_snapshot before) (stats_snapshot after)
unfolding stats_snapshot counters_at
rate_rows-own_rows fl w cfg ios {e} before after built same same' =
    let named = λ (a b : Engine) (eq : wirings a ≡ wirings b).
      names-counters_at a.ports
      ∙ ap (map (λ (v : Wiring). v.name)) eq
      ∙ sym (names-counters_at b.ports) in
    let differ : NamesDiffer (names (stats_snapshot before)) =
      rw (named before e same) (new_engine-NamesDiffer cfg ios built) in
    rate_rows_found fl w (by_name (stats_snapshot before) []) (stats_snapshot before)
      (stats_snapshot after) (named after before (same' ∙ sym same))
      (found_by_name (stats_snapshot before) [] differ)
