-- ===== src/Fdb/Shared/Steps.antt =====
-- The steps of `Learn`, `Lookup` and `reap` (internal/goswitch/fdb.go). What stands between a lock
-- and its unlock is one step for `Learn` and `Lookup`; the loop of `reap` holds the write lock over
-- many, between which the accesses that need no lock go on. `reap` has one caller, `gcLoop`.
use vibe_switch.Base.{
  ℕ, ◌≡◌, Bool, true, false, ◌&&◌, Option, none, some, List, [], ◌∷◌, ◌++◌, ◌==◌, length, modify,
  get_elem?,
}
use mathlib.Core.List.{Permᴰ}
use vibe_switch.Base.Int.{ℤ, pos, ltb_ℤ, eqb_ℤ}
use vibe_switch.Base.Assoc.{lookup as map_lookup, insert as map_insert, delete_if}
use vibe_switch.Fdb.Table.{MacKey, key_eq, mac_key_eq, Entry, older}

-- Where a call stands. A pointer is an index of the heap.
pub data Call : Type 0 where
  idle : Call
  learning : MacKey → ℕ → ℕ → Call  -- before the read lock
  learn_read : MacKey → ℕ → ℕ → Option ℕ → Call  -- with what the table gave
  refreshing : MacKey → ℕ → ℕ → Call  -- about to store the time
  locking : MacKey → ℕ → ℕ → Call  -- before the write lock
  looking : MacKey → ℕ → Call  -- before the read lock
  found : MacKey → ℕ → ℕ → Call  -- with an entry, before its age is looked at
  fresh : MacKey → ℕ → Call  -- about to read the port
  answered : MacKey → Option ℕ → Call

-- A loop of `reap`: the entries that it has not reached, the ageing time that it loaded, and its
-- time. Go leaves the order of the entries open.
pub record Sweep : Type 0 where
  pub rest : List (MacKey × ℕ)
  pub age : ℤ
  pub now : ℕ

-- `learned` is not part of the program: it lists the keys and ports of the calls of `Learn`.
pub record Shared : Type 0 where
  pub heap : List Entry
  pub table : List (MacKey × ℕ)
  pub ageing : ℤ
  pub calls : List Call
  pub loaded : Option (ℤ × ℕ)  -- the ageing time of a `reap` before its lock, and its time
  pub sweep : Option Sweep
  pub learned : List (MacKey × ℕ)

abbrev pub put : List Call → ℕ → Call → List Call
put calls i c = modify calls i (λ _. c)

abbrev pub store_time : List Entry → ℕ → ℕ → List Entry
store_time heap p now = modify heap p (λ e. record e { seen_at = now })

abbrev pub store_entry : List Entry → ℕ → ℕ → ℕ → List Entry
store_entry heap p port now = modify heap p (λ e. record e { port_idx = port; seen_at = now })

abbrev pub is_key : MacKey → MacKey → ℕ → Bool
is_key k j p = key_eq j k

-- An empty table, and callers that have not called.
abbrev pub shared : ℤ → List Call → Shared
shared age calls = record {
  heap = [];
  table = [];
  ageing = age;
  calls = calls;
  loaded = none;
  sweep = none;
  learned = [];
}

pub data Step (s t : Shared) : Type 0 where
  calls_learn :
      (i : ℕ) (k : MacKey) (port now : ℕ)
      → get_elem? s.calls i ≡ some idle
      → t
        ≡ record s { calls = put s.calls i (learning k port now); learned = (k, port) ∷ s.learned }
      → Step s t
  reads_table :
      (i : ℕ) (k : MacKey) (port now : ℕ)
      → get_elem? s.calls i ≡ some (learning k port now)
      → s.sweep ≡ none
      → t ≡ record s { calls = put s.calls i (learn_read k port now (map_lookup k s.table)) }
      → Step s t
  sees_same_port :
      (i : ℕ) (k : MacKey) (port now p : ℕ) (e : Entry)
      → get_elem? s.calls i ≡ some (learn_read k port now (some p))
      → get_elem? s.heap p ≡ some e
      → e.port_idx ≡ port
      → t ≡ record s { calls = put s.calls i (refreshing k p now) }
      → Step s t
  sees_other_port :
      (i : ℕ) (k : MacKey) (port now p : ℕ) (e : Entry)
      → get_elem? s.calls i ≡ some (learn_read k port now (some p))
      → get_elem? s.heap p ≡ some e
      → (e.port_idx == port) ≡ false
      → t ≡ record s { calls = put s.calls i (locking k port now) }
      → Step s t
  misses :
      (i : ℕ) (k : MacKey) (port now : ℕ)
      → get_elem? s.calls i ≡ some (learn_read k port now none)
      → t ≡ record s { calls = put s.calls i (locking k port now) }
      → Step s t
  refreshes :
      (i : ℕ) (k : MacKey) (p now : ℕ)
      → get_elem? s.calls i ≡ some (refreshing k p now)
      → t ≡ record s { heap = store_time s.heap p now; calls = put s.calls i idle }
      → Step s t
  updates :
      (i : ℕ) (k : MacKey) (port now p : ℕ)
      → get_elem? s.calls i ≡ some (locking k port now)
      → s.sweep ≡ none
      → map_lookup k s.table ≡ some p
      → t ≡ record s { heap = store_entry s.heap p port now; calls = put s.calls i idle }
      → Step s t
  inserts :
      (i : ℕ) (k : MacKey) (port now : ℕ)
      → get_elem? s.calls i ≡ some (locking k port now)
      → s.sweep ≡ none
      → map_lookup k s.table ≡ none
      → t ≡ record s {
        heap = s.heap ++ record { port_idx = port; seen_at = now } ∷ [];
        table = map_insert k (length s.heap) s.table;
        calls = put s.calls i idle;
      }
      → Step s t
  calls_lookup :
      (i : ℕ) (k : MacKey) (now : ℕ)
      → get_elem? s.calls i ≡ some idle
      → t ≡ record s { calls = put s.calls i (looking k now) }
      → Step s t
  looks_up :
      (i : ℕ) (k : MacKey) (now p : ℕ)
      → get_elem? s.calls i ≡ some (looking k now)
      → s.sweep ≡ none
      → map_lookup k s.table ≡ some p
      → t ≡ record s { calls = put s.calls i (found k p now) }
      → Step s t
  finds_nothing :
      (i : ℕ) (k : MacKey) (now : ℕ)
      → get_elem? s.calls i ≡ some (looking k now)
      → s.sweep ≡ none
      → map_lookup k s.table ≡ none
      → t ≡ record s { calls = put s.calls i (answered k none) }
      → Step s t
  expires :
      (i : ℕ) (k : MacKey) (p now : ℕ) (e : Entry)
      → get_elem? s.calls i ≡ some (found k p now)
      → get_elem? s.heap p ≡ some e
      → (ltb_ℤ (pos 0) s.ageing && older s.ageing now e) ≡ true
      → t ≡ record s { calls = put s.calls i (answered k none) }
      → Step s t
  is_fresh :
      (i : ℕ) (k : MacKey) (p now : ℕ) (e : Entry)
      → get_elem? s.calls i ≡ some (found k p now)
      → get_elem? s.heap p ≡ some e
      → (ltb_ℤ (pos 0) s.ageing && older s.ageing now e) ≡ false
      → t ≡ record s { calls = put s.calls i (fresh k p) }
      → Step s t
  reads_port :
      (i : ℕ) (k : MacKey) (p : ℕ) (e : Entry)
      → get_elem? s.calls i ≡ some (fresh k p)
      → get_elem? s.heap p ≡ some e
      → t ≡ record s { calls = put s.calls i (answered k (some e.port_idx)) }
      → Step s t
  returns :
      (i : ℕ) (k : MacKey) (o : Option ℕ)
      → get_elem? s.calls i ≡ some (answered k o)
      → t ≡ record s { calls = put s.calls i idle }
      → Step s t
  loads_ageing :
      (now : ℕ)
      → s.loaded ≡ none
      → s.sweep ≡ none
      → eqb_ℤ s.ageing (pos 0) ≡ false
      → t ≡ record s { loaded = some (s.ageing, now) }
      → Step s t
  begins_sweep :
      (age : ℤ) (now : ℕ) (rest : List (MacKey × ℕ))
      → s.loaded ≡ some (age, now)
      → Permᴰ rest s.table
      → t ≡ record s { loaded = none; sweep = some (record { rest = rest; age = age; now = now }) }
      → Step s t
  deletes :
      (k : MacKey) (p : ℕ) (w : Sweep) (rest : List (MacKey × ℕ)) (e : Entry)
      → s.sweep ≡ some w
      → w.rest ≡ (k, p) ∷ rest
      → get_elem? s.heap p ≡ some e
      → older w.age w.now e ≡ true
      → t
        ≡ record s { table = delete_if (is_key k) s.table; sweep = some (record w { rest = rest }) }
      → Step s t
  spares :
      (k : MacKey) (p : ℕ) (w : Sweep) (rest : List (MacKey × ℕ)) (e : Entry)
      → s.sweep ≡ some w
      → w.rest ≡ (k, p) ∷ rest
      → get_elem? s.heap p ≡ some e
      → older w.age w.now e ≡ false
      → t ≡ record s { sweep = some (record w { rest = rest }) }
      → Step s t
  ends_sweep :
      (w : Sweep) → s.sweep ≡ some w → w.rest ≡ [] → t ≡ record s { sweep = none } → Step s t
  sets_ageing : (d : ℤ) → t ≡ record s { ageing = d } → Step s t

pub data Reach (s : Shared) : Shared → Type 0 where
  here : Reach s s
  next : {t u : Shared} → Reach s t → Step t u → Reach s u
