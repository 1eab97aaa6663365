-- ===== src/Fdb/Shared/Sweeping.antt =====
-- A sweep of `reap` with nothing in between (internal/goswitch/fdb.go): it comes to the one step of
-- Fdb/Table.
use vibe_switch.Base.{ℕ, ◌≡◌, true, false, none, some, List}
use vibe_switch.Base.Int.{pos, eqb_ℤ}
use vibe_switch.Base.Assoc.{lookup as map_lookup}
use vibe_switch.Fdb.Table.{MacKey, mac_key_eq, Fdb}
use vibe_switch.Fdb.Shared.Steps.{Shared, Reach}
use vibe_switch.Fdb.Shared.Reaping.{sweeping}

-- The state in which a `reap` has loaded the ageing time and its loop has begun on these entries.
abbrev pub begun : Shared → List (MacKey × ℕ) → ℕ → Shared
begun s order now = record s { loaded = none; sweep = some (sweeping order s.ageing now) }

-- The run of a `reap` whose loop takes the entries in this order: none with an ageing time of 0.
pub data SweepsBy (order : List (MacKey × ℕ)) (now : ℕ) (s t : Shared) : Type 0 where
  never : eqb_ℤ s.ageing (pos 0) ≡ true → t ≡ s → SweepsBy order now s t
  sweeps_all :
      eqb_ℤ s.ageing (pos 0) ≡ false
      → Reach s (begun s order now)
      → Reach (begun s order now) t
      → SweepsBy order now s t
