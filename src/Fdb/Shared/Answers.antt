-- ===== src/Fdb/Shared/Answers.antt =====
-- What `Lookup` can answer (internal/goswitch/fdb.go) while other goroutines learn and delete.
use mathlib.Core.Path.{subst}
use vibe_switch.Base.{
  ℕ, ◌≡◌, refl, sym, true, Option, none, some, List, [], ◌∷◌, ◌++◌, length, get_elem?, All, All-map,
  All-get, All-modify,
}
use vibe_switch.Base.Int.{ℤ}
use vibe_switch.Base.Assoc.{Entries, insert-Entries, delete_if-Entries, lookup-Entries}
use vibe_switch.Fdb.Table.{MacKey, mac_key_eq}
use vibe_switch.Fdb.Shared.Steps.{
  Call, idle, learn_read, answered, Shared, shared, put, is_key, Step, calls_learn, reads_table,
  sees_same_port, sees_other_port, misses, refreshes, updates, inserts, calls_lookup, looks_up,
  finds_nothing, expires, is_fresh, reads_port, returns, loads_ageing, begins_sweep, deletes,
  spares, ends_sweep, sets_ageing, Reach, here, next,
}
use vibe_switch.Fdb.Shared.Invariant.{
  was_learned, IsOf, CallOk, Inv, was_learned_head, Cells-log, CallOk-log, IsOf-append, IsOf-last,
  CallOk-append, Cells-append, Cells-get, Cells-refresh, Cells-update,
}

-- A call moves on, and nothing else changes.
moves :
    (owners : List MacKey) (log : List (MacKey × ℕ)) (calls : List Call) (i : ℕ) (c : Call)
    {b : Call}
    → All (CallOk owners log) calls
    → get_elem? calls i ≡ some b
    → CallOk owners log c
    → All (CallOk owners log) (put calls i c)
moves owners log calls i c h at ok = All-modify (CallOk owners log) calls i _ h at ok

table_grows :
    (owners : List MacKey) (j : MacKey) (m : List (MacKey × ℕ))
    → Entries (IsOf owners) m
    → Entries (IsOf (owners ++ j ∷ [])) m
table_grows owners j [] h = tt
table_grows owners j ((k, p) ∷ m) h = (IsOf-append owners j k p h.0, table_grows owners j m h.1)

-- What the table gives a `Learn` is none, or an entry of the key.
read_ok :
    (owners : List MacKey) (log : List (MacKey × ℕ)) (k : MacKey) (port now : ℕ) (o : Option ℕ)
    → was_learned log k port ≡ true
    → ((p : ℕ) → o ≡ some p → IsOf owners k p)
    → CallOk owners log (learn_read k port now o)
read_ok owners log k port now none w of = w
read_ok owners log k port now (some p) w of = (w, of p refl)

-- Every step keeps the invariant.
Step-Inv : {s t : Shared} → Step s t → Inv s → Inv t
Step-Inv {s} (calls_learn i k port now at e) (owners, m, c, a) = subst Inv (sym e) (
  owners,
  m,
  Cells-log s.learned (k, port) owners s.heap c,
  moves owners _ s.calls i _
      (All-map (CallOk owners s.learned) _ s.calls (CallOk-log owners s.learned (k, port)) a) at
      (was_learned_head s.learned k port),
)
Step-Inv {s} (reads_table i k port now at free e) (owners, m, c, a) = subst Inv (sym e) (
  owners,
  m,
  c,
  moves owners s.learned s.calls i _ a at (
      read_ok owners s.learned k port now _ (All-get (CallOk owners s.learned) s.calls i a at)
        (λ p. lookup-Entries (IsOf owners) k s.table m)),
)
Step-Inv {s} (sees_same_port i k port now p d at cell same e) (owners, m, c, a) =
    subst Inv (sym e) (owners, m, c, moves owners s.learned s.calls i _ a at tt)
Step-Inv {s} (sees_other_port i k port now p d at cell other e) (owners, m, c, a) =
    subst Inv (sym e) (
      owners,
      m,
      c,
      moves owners s.learned s.calls i _ a at (All-get (CallOk owners s.learned) s.calls i a at).0,
    )
Step-Inv {s} (misses i k port now at e) (owners, m, c, a) = subst Inv (sym e) (
  owners,
  m,
  c,
  moves owners s.learned s.calls i _ a at (All-get (CallOk owners s.learned) s.calls i a at),
)
Step-Inv {s} (refreshes i k p now at e) (owners, m, c, a) = subst Inv (sym e) (
  owners,
  m,
  Cells-refresh s.learned owners s.heap p now c,
  moves owners s.learned s.calls i _ a at tt,
)
Step-Inv {s} (updates i k port now p at free hit e) (owners, m, c, a) = subst Inv (sym e) (
  owners,
  m,
  Cells-update s.learned owners s.heap p port now k c (lookup-Entries (IsOf owners) k s.table m hit)
      (All-get (CallOk owners s.learned) s.calls i a at),
  moves owners s.learned s.calls i _ a at tt,
)
Step-Inv {s} (inserts i k port now at free miss e) (owners, m, c, a) = subst Inv (sym e) (
  owners ++ k ∷ [],
  insert-Entries (IsOf (owners ++ k ∷ [])) k (length s.heap) s.table
      (IsOf-last s.learned owners s.heap k c) (table_grows owners k s.table m),
  Cells-append s.learned owners s.heap k _ c (All-get (CallOk owners s.learned) s.calls i a at),
  moves (owners ++ k ∷ []) s.learned s.calls i _
      (All-map (CallOk owners s.learned) _ s.calls (CallOk-append owners k s.learned) a) at tt,
)
Step-Inv {s} (calls_lookup i k now at e) (owners, m, c, a) =
    subst Inv (sym e) (owners, m, c, moves owners s.learned s.calls i _ a at tt)
Step-Inv {s} (looks_up i k now p at free hit e) (owners, m, c, a) = subst Inv (sym e) (
  owners,
  m,
  c,
  moves owners s.learned s.calls i _ a at (lookup-Entries (IsOf owners) k s.table m hit),
)
Step-Inv {s} (finds_nothing i k now at free miss e) (owners, m, c, a) =
    subst Inv (sym e) (owners, m, c, moves owners s.learned s.calls i _ a at tt)
Step-Inv {s} (expires i k p now d at cell old e) (owners, m, c, a) =
    subst Inv (sym e) (owners, m, c, moves owners s.learned s.calls i _ a at tt)
Step-Inv {s} (is_fresh i k p now d at cell young e) (owners, m, c, a) = subst Inv (sym e) (
  owners,
  m,
  c,
  moves owners s.learned s.calls i _ a at (All-get (CallOk owners s.learned) s.calls i a at),
)
Step-Inv {s} (reads_port i k p d at cell e) (owners, m, c, a) = subst Inv (sym e) (
  owners,
  m,
  c,
  moves owners s.learned s.calls i _ a at (
      Cells-get s.learned owners s.heap p k d c (All-get (CallOk owners s.learned) s.calls i a at)
        cell),
)
Step-Inv {s} (returns i k o at e) (owners, m, c, a) =
    subst Inv (sym e) (owners, m, c, moves owners s.learned s.calls i _ a at tt)
Step-Inv (loads_ageing now free idle_sweep nonzero e) h = subst Inv (sym e) h
Step-Inv (begins_sweep age now rest loaded order e) h = subst Inv (sym e) h
Step-Inv {s} (deletes k p w rest d sweeping first cell old e) (owners, m, c, a) =
    subst Inv (sym e) (owners, delete_if-Entries (IsOf owners) (is_key k) s.table m, c, a)
Step-Inv (spares k p w rest d sweeping first cell young e) h = subst Inv (sym e) h
Step-Inv (ends_sweep w sweeping done e) h = subst Inv (sym e) h
Step-Inv (sets_ageing d e) h = subst Inv (sym e) h

abbrev pub IsIdle : Call → Type 0
IsIdle c = c ≡ idle

pub shared-Inv : (age : ℤ) (calls : List Call) → All IsIdle calls → Inv (shared age calls)
shared-Inv age calls h =
    ([], tt, tt, All-map IsIdle _ calls (λ c e. subst (CallOk [] []) (sym e) tt) h)

pub Reach-Inv : {s t : Shared} → Inv s → Reach s t → Inv t
Reach-Inv h here = h
Reach-Inv h (next r st) = Step-Inv st (Reach-Inv h r)

-- From an empty table and callers that have not called, in every state that the interleaved steps
-- of any number of calls of `Learn` and `Lookup`, of sweeps and of changes of the ageing time
-- reach: a port that a `Lookup` answers with was given by some call of `Learn` for that address in
-- that VLAN.
pub lookup_of_learned :
    (age : ℤ) (calls : List Call) {t : Shared} (i : ℕ) (k : MacKey) (port : ℕ)
    → All IsIdle calls
    → Reach (shared age calls) t
    → get_elem? t.calls i ≡ some (answered k (some port))
    → was_learned t.learned k port ≡ true
lookup_of_learned age calls {t} i k port h r at =
    let (owners, m, c, a) = Reach-Inv (shared-Inv age calls h) r in
    All-get (CallOk owners t.learned) t.calls i a at
