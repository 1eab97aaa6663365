-- ===== src/Tests/Sharing.antt =====
-- A learn and a lookup on the shared forwarding database.
use mathlib.Core.List.Permᴰ.{refl as perm_refl}
use vibe_switch.Base.{◌≡◌, refl, true, some, none, [], ◌∷◌}
use vibe_switch.Base.Int.{pos}
use vibe_switch.Base.Assoc.{lookup as map_lookup, insert as map_insert}
use vibe_switch.Fdb.{MacKey, Fdb, lookup}
use vibe_switch.Fdb.Shared.{
  Shared, shared, idle, answered, Reach, here, next, calls_learn, reads_table, misses, inserts,
  calls_lookup, looks_up, is_fresh, reads_port,
}
use vibe_switch.Fdb.Shared.Invariant.{was_learned}
use vibe_switch.Fdb.Shared.Answers.{lookup_of_learned}
use vibe_switch.Samples.{mac_a}

abbrev key : MacKey
key = record { vid = 10; mac = mac_a }

-- The lookup begins while the learn holds no lock yet, and reads the table behind it.
abbrev answer_state : Shared
answer_state = record {
  heap = record { port_idx = 2; seen_at = 5 } ∷ [];
  table = (key, 0) ∷ [];
  ageing = pos 100;
  calls = idle ∷ answered key (some 2) ∷ [];
  loaded = none;
  sweep = none;
  learned = (key, 2) ∷ [];
}

answer_reached : Reach (shared (pos 100) (idle ∷ idle ∷ [])) answer_state
unfolding map_lookup map_insert
answer_reached =
    next
      (next
        (next
          (next
            (next
              (next
                (next (next here (calls_learn 0 key 2 5 refl refl))
                  (calls_lookup 1 key 7 refl refl))
                (reads_table 0 key 2 5 refl refl refl))
              (misses 0 key 2 5 refl refl))
            (inserts 0 key 2 5 refl refl refl refl))
          (looks_up 1 key 7 0 refl refl refl refl))
        (is_fresh 1 key 0 7 (record { port_idx = 2; seen_at = 5 }) refl refl refl refl))
      (reads_port 1 key 0 (record { port_idx = 2; seen_at = 5 }) refl refl refl)

lookup_of_learned_example : was_learned answer_state.learned key 2 ≡ true
lookup_of_learned_example =
    lookup_of_learned (pos 100) (idle ∷ idle ∷ []) 1 key 2 (refl, (refl, tt)) answer_reached refl

abbrev database : Fdb
database = record { table = (key, record { port_idx = 2; seen_at = 5 }) ∷ []; ageing = pos 100 }
