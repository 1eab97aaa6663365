-- ===== src/Control/Cells.antt =====
-- internal/control/client.go: what is printed of an answer (`renderFDB`, `renderPorts`,
-- `renderStats`, `renderRate`, `renderConfig`).
use vibe_switch.Base.{
  ℕ, ◌-◌, Bytes, string_eq, codes, Bool, true, false, ◌&&◌, ◌||◌, Option, none, some, List, [], ◌∷◌,
  map, ◌==◌, ltb, if◌then◌else◌,
}
use vibe_switch.Base.Float.{Floats}
use vibe_switch.Base.Assoc.{lookup as map_lookup, insert as map_insert}
use vibe_switch.Stats.{PortInfo, PortCounters, FdbEntry, EngineConfig}

-- Go's `<` on strings.
unfoldable pub text_ltb : Bytes → Bytes → Bool
text_ltb s [] = false
text_ltb [] (d ∷ t) = true
text_ltb (c ∷ s) (d ∷ t) = ltb c d || ((c == d) && text_ltb s t)

unfoldable pub is_empty_list {ℓ} : {A : Type ℓ} → List A → Bool
is_empty_list [] = true
is_empty_list (x ∷ xs) = false

abbrev pub no_counters : PortCounters
no_counters = record {
  name = [];
  rx_frames = 0;
  rx_bytes = 0;
  tx_frames = 0;
  tx_bytes = 0;
  flooded = 0;
  forward_drop = 0;
  tx_drop = 0;
}

-- `prev`: a later port of the same name replaces an earlier one.
unfoldable pub by_name :
    List PortCounters → List (Bytes × PortCounters) → List (Bytes × PortCounters)
by_name [] m = m
by_name (s ∷ ss) m = by_name ss (map_insert s.name s m)

-- `prev[s.Name]`, the zero value for a missing key.
unfoldable pub counters_of : Option PortCounters → PortCounters
counters_of none = no_counters
counters_of (some s) = s

module _ (fl : Floats) where
  open fl use {Float, of_uint, div, mul, le}

  -- What one verb prints: a text, a number, numbers joined by commas, a truth value, a float with
  -- some decimals, and a float with its unit behind it.
  pub data Cell : Type 0 where
    text : Bytes → Cell
    number : ℕ → Cell
    joined : List ℕ → Cell
    truth : Bool → Cell
    fixed : ℕ → Float → Cell
    with_unit : ℕ → Float → Bytes → Cell

  -- A flushed tabwriter, or a line printed by itself.
  pub data Output : Type 0 where
    table : List (List Cell) → Output
    line : List Cell → Output

  heading : List Bytes → List Cell
  heading = map text

  -- The order that `renderFDB` sorts by.
  unfoldable pub less : FdbEntry fl → FdbEntry fl → Bool
  less a b = if a.vid == b.vid then text_ltb a.mac b.mac else ltb a.vid b.vid

  unfoldable pub place : FdbEntry fl → List (FdbEntry fl) → List (FdbEntry fl)
  place a [] = a ∷ []
  place a (b ∷ bs) = let rest = place a bs in if less b a then b ∷ rest else a ∷ b ∷ bs

  -- `sort.Slice`, as an insertion sort.
  unfoldable pub sort_rows : List (FdbEntry fl) → List (FdbEntry fl)
  sort_rows [] = []
  sort_rows (a ∷ rest) = place a (sort_rows rest)

  fdb_cells : FdbEntry fl → List Cell
  fdb_cells e = number e.vid ∷ text e.mac ∷ text e.port ∷ fixed 1 e.age_seconds ∷ []

  unfoldable pub render_fdb : List (FdbEntry fl) → List Output
  unfolding fdb_cells heading
  render_fdb entries =
      table (
        heading (codes "VLAN" ∷ codes "MAC" ∷ codes "PORT" ∷ codes "AGE(s)" ∷ [])
        ∷ map fdb_cells (sort_rows entries))
      ∷ (if is_empty_list entries then line (text (codes "(empty)") ∷ []) ∷ [] else [])

  port_cells : PortInfo → List Cell
  port_cells p =
      text p.name
      ∷ text p.role
      ∷ (if p.pvid == 0 then text (codes "-") else number p.pvid)
      ∷ (if is_empty_list p.trunk then text (codes "-") else joined p.trunk)
      ∷ truth p.up
      ∷ []

  unfoldable pub render_ports : List PortInfo → List Output
  unfolding port_cells heading
  render_ports ports =
      table (
        heading (codes "PORT" ∷ codes "ROLE" ∷ codes "PVID" ∷ codes "TRUNK" ∷ codes "UP" ∷ [])
        ∷ map port_cells ports)
      ∷ []

  stats_cells : PortCounters → List Cell
  stats_cells s =
      text s.name
      ∷ number s.rx_frames
      ∷ number s.rx_bytes
      ∷ number s.tx_frames
      ∷ number s.tx_bytes
      ∷ number s.flooded
      ∷ number s.forward_drop
      ∷ number s.tx_drop
      ∷ []

  unfoldable pub render_stats : List PortCounters → List Output
  unfolding stats_cells heading
  render_stats stats =
      table (
        heading (
          codes "PORT"
          ∷ codes "RX_FRAMES"
          ∷ codes "RX_BYTES"
          ∷ codes "TX_FRAMES"
          ∷ codes "TX_BYTES"
          ∷ codes "FLOODED"
          ∷ codes "FWD_DROP"
          ∷ codes "TX_DROP"
          ∷ [])
        ∷ map stats_cells stats)
      ∷ []

  -- `perSec`
  unfoldable pub per_sec : ℕ → ℕ → Float → Float
  per_sec now prev elapsed = if ltb now prev then of_uint 0 else div (of_uint (now - prev)) elapsed

  -- `humanRate`
  unfoldable pub human_rate : Float → Cell
  human_rate bytes_per_sec =
      let bps = mul bytes_per_sec (of_uint 8) in
      if le (of_uint 1000000000) bps
      then with_unit 2 (div bps (of_uint 1000000000)) (codes " Gbit/s")
      else if le (of_uint 1000000) bps
      then with_unit 2 (div bps (of_uint 1000000)) (codes " Mbit/s")
      else if le (of_uint 1000) bps
      then with_unit 2 (div bps (of_uint 1000)) (codes " Kbit/s")
      else with_unit 0 bps (codes " bit/s")

  -- A row of `renderRate`: a port's counters, and what they were.
  unfoldable pub rate_cells : Float → PortCounters → PortCounters → List Cell
  rate_cells elapsed s p =
      text s.name
      ∷ fixed 1 (per_sec s.rx_frames p.rx_frames elapsed)
      ∷ human_rate (per_sec s.rx_bytes p.rx_bytes elapsed)
      ∷ fixed 1 (per_sec s.tx_frames p.tx_frames elapsed)
      ∷ human_rate (per_sec s.tx_bytes p.tx_bytes elapsed)
      ∷ fixed 1 (per_sec s.forward_drop p.forward_drop elapsed)
      ∷ fixed 1 (per_sec s.tx_drop p.tx_drop elapsed)
      ∷ []

  unfoldable pub rate_rows :
      Float → List (Bytes × PortCounters) → List PortCounters → List (List Cell)
  rate_rows elapsed prev [] = []
  rate_rows elapsed prev (s ∷ ss) =
      rate_cells elapsed s (counters_of (map_lookup s.name prev)) ∷ rate_rows elapsed prev ss

  -- `renderRate`
  unfoldable pub render_rate : List PortCounters → List PortCounters → Float → List Output
  unfolding heading
  render_rate first second elapsed =
      let window = if le elapsed (of_uint 0) then of_uint 1 else elapsed in
      table (
        heading (
          codes "PORT"
          ∷ codes "RX_PPS"
          ∷ codes "RX_RATE"
          ∷ codes "TX_PPS"
          ∷ codes "TX_RATE"
          ∷ codes "FWD_DROP_PS"
          ∷ codes "TX_DROP_PS"
          ∷ [])
        ∷ rate_rows window (by_name first []) second)
      ∷ []

  -- `renderConfig`
  unfoldable pub render_config : EngineConfig fl → List Output
  render_config c =
      table (
        (text (codes "ports") ∷ number c.num_ports ∷ [])
        ∷ (text (codes "vlan-aware") ∷ truth c.vlan_aware ∷ [])
        ∷ (text (codes "ageing(s)") ∷ fixed 0 c.ageing_seconds ∷ [])
        ∷ [])
      ∷ []
