-- ===== src/Tests/Tables.antt =====
-- The forwarding database and its snapshot at sample calls.
use vibe_switch.Base.{ℕ, ◌≡◌, refl, Bytes, true, some, [], ◌∷◌, Returns, arith}
use vibe_switch.Base.Int.{ℤ, pos, negsuc}
use vibe_switch.Base.Float.{Floats}
use vibe_switch.Base.Assoc.{lookup as map_lookup}
use vibe_switch.Fdb.{Fdb, Entry, mac_key_eq, lookup, reap}
use vibe_switch.Fdb.Ageing.{reap_negative}
use vibe_switch.Vlan.{carries}
use vibe_switch.Engine.{Engine, wirings}
use vibe_switch.Engine.Wired.{IsWired}
use vibe_switch.Engine.Construct.{new_engine-IsWired}
use vibe_switch.Stats.{fdb_snapshot}
use vibe_switch.Stats.Rows.{AreRowsOf, fdb_snapshot-AreRowsOf}
use vibe_switch.Samples.{config, mac_a}
use vibe_switch.Tests.Switch.{built, program}

abbrev learned_once : Fdb
learned_once = record {
  ageing = negsuc 4;
  table = (record { vid = 10; mac = mac_a }, record { port_idx = 0; seen_at = 5 }) ∷ [];
}

reap_negative_example :
    ((vid : ℕ) (mac : Bytes) (later : ℕ) (en : Entry)
      → map_lookup (record { vid = vid; mac = mac }) learned_once.table ≡ some en
      → lookup learned_once vid mac later ≡ some en.port_idx)
    × ((reap learned_once 6).table ≡ [])
reap_negative_example = reap_negative learned_once 6 refl ((omega arith), tt)

abbrev pub whole_numbers : Floats
whole_numbers = record {
  Float = ℤ;
  of_uint = pos;
  of_int = λ z. z;
  div = λ a b. a;
  mul = λ a b. a;
  le = λ a b. true;
  to_int = λ z. z;
}

-- The sample switch, which has learned an address at its first port.
abbrev heard : Engine
heard = record built.0 { fdb = learned_once }

heard-IsWired : IsWired heard
unfolding built program carries map_lookup
heard-IsWired =
    let wired = (new_engine-IsWired config (7 ∷ 8 ∷ 9 ∷ []) built.1).0 in
    record {
      indexed = wired.indexed;
      member_lists = wired.member_lists;
      learned = ((_, refl, refl), tt);
      is_map = (refl, tt);
    }

fdb_snapshot-AreRowsOf_example :
    Returns
      (fdb_snapshot whole_numbers heard 9)
      (AreRowsOf whole_numbers (wirings heard) 9 heard.fdb.table)
fdb_snapshot-AreRowsOf_example = fdb_snapshot-AreRowsOf whole_numbers heard 9 heard-IsWired (
  (omega arith, (omega arith, (omega arith, (omega arith, (omega arith, (omega arith, tt)))))),
  tt,
)
