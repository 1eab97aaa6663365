-- ===== src/Fdb/Shared/Alone.antt =====
-- Calls with nothing in between (internal/goswitch/fdb.go): their accesses come to the one step of
-- Fdb/Table.
use vibe_switch.Base.{ℕ, Option}
use vibe_switch.Base.Assoc.{lookup as map_lookup}
use vibe_switch.Fdb.Table.{lookup, MacKey, mac_key_eq, Fdb}
use vibe_switch.Fdb.Shared.Steps.{answered, Shared}
use vibe_switch.Fdb.Shared.Paused.{Paused}

-- A way to a state in which the call has its answer, and nothing else done.
abbrev pub AnswersWith : ℕ → MacKey → Shared → Option ℕ → Type 0
AnswersWith i k s o = (t : Shared) × Paused i (answered k o) s t
