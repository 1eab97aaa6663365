-- ===== src/Fdb/Shared/Keys.antt =====
-- The keys of the shared forwarding database (internal/goswitch/fdb.go): a Go map has a key once.
use mathlib.Core.Path.{subst}
use vibe_switch.Base.{sym, length}
use vibe_switch.Base.Assoc.{Distinct, insert-Distinct, delete_if-Distinct}
use vibe_switch.Fdb.Table.{mac_key_eq}
use vibe_switch.Fdb.Shared.Steps.{
  Shared, is_key, Step, Reach, here, next, inserts, deletes, calls_learn, reads_table,
  sees_same_port, sees_other_port, misses, refreshes, updates, calls_lookup, looks_up,
  finds_nothing, expires, is_fresh, reads_port, returns, loads_ageing, begins_sweep, spares,
  ends_sweep, sets_ageing,
}

abbrev pub HasKeysOnce : Shared → Type 0
HasKeysOnce s = Distinct s.table

Step-HasKeysOnce : {s t : Shared} → Step s t → HasKeysOnce s → HasKeysOnce t
Step-HasKeysOnce {s} (inserts i k port now at free miss e) d =
    subst HasKeysOnce (sym e) (insert-Distinct k (length s.heap) s.table d)
Step-HasKeysOnce {s} (deletes k p w rest c sweeping first cell old e) d =
    subst HasKeysOnce (sym e) (delete_if-Distinct (is_key k) s.table d)
Step-HasKeysOnce (calls_learn i k port now at e) d = subst HasKeysOnce (sym e) d
Step-HasKeysOnce (reads_table i k port now at free e) d = subst HasKeysOnce (sym e) d
Step-HasKeysOnce (sees_same_port i k port now p c at cell same e) d = subst HasKeysOnce (sym e) d
Step-HasKeysOnce (sees_other_port i k port now p c at cell other e) d = subst HasKeysOnce (sym e) d
Step-HasKeysOnce (misses i k port now at e) d = subst HasKeysOnce (sym e) d
Step-HasKeysOnce (refreshes i k p now at e) d = subst HasKeysOnce (sym e) d
Step-HasKeysOnce (updates i k port now p at free hit e) d = subst HasKeysOnce (sym e) d
Step-HasKeysOnce (calls_lookup i k now at e) d = subst HasKeysOnce (sym e) d
Step-HasKeysOnce (looks_up i k now p at free hit e) d = subst HasKeysOnce (sym e) d
Step-HasKeysOnce (finds_nothing i k now at free miss e) d = subst HasKeysOnce (sym e) d
Step-HasKeysOnce (expires i k p now c at cell old e) d = subst HasKeysOnce (sym e) d
Step-HasKeysOnce (is_fresh i k p now c at cell young e) d = subst HasKeysOnce (sym e) d
Step-HasKeysOnce (reads_port i k p c at cell e) d = subst HasKeysOnce (sym e) d
Step-HasKeysOnce (returns i k o at e) d = subst HasKeysOnce (sym e) d
Step-HasKeysOnce (loads_ageing now free idle_sweep nonzero e) d = subst HasKeysOnce (sym e) d
Step-HasKeysOnce (begins_sweep age now rest loaded order e) d = subst HasKeysOnce (sym e) d
Step-HasKeysOnce (spares k p w rest c sweeping first cell young e) d = subst HasKeysOnce (sym e) d
Step-HasKeysOnce (ends_sweep w sweeping done e) d = subst HasKeysOnce (sym e) d
Step-HasKeysOnce (sets_ageing a e) d = subst HasKeysOnce (sym e) d

pub Reach-HasKeysOnce : {s t : Shared} → Reach s t → HasKeysOnce s → HasKeysOnce t
Reach-HasKeysOnce here d = d
Reach-HasKeysOnce (next r st) d = Step-HasKeysOnce st (Reach-HasKeysOnce r d)
