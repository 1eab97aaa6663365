-- ===== src/Fdb/Shared/Invariant.antt =====
-- The forwarding database under interleaving (internal/goswitch/fdb.go): every entry on the heap
-- belongs to one key for good, and holds only ports that were learned for it.
use vibe_switch.Base.{
  ℕ, zero, suc, ◌≡◌, refl, Bool, true, false, ◌&&◌, ◌||◌, none, some, List, [], ◌∷◌, ◌++◌, ◌==◌,
  length, get_elem?, All, arith,
}
use vibe_switch.Base.Assoc.{Entries}
use vibe_switch.Fdb.Table.{MacKey, key_eq, key_eq_iff, mac_key_eq, Entry}
use vibe_switch.Fdb.Shared.Steps.{
  Call, idle, learning, learn_read, refreshing, locking, looking, found, fresh, answered, Shared,
  store_time, store_entry,
}

-- Some call of `Learn` gave the port for the key.
pub was_learned : List (MacKey × ℕ) → MacKey → ℕ → Bool
was_learned [] k port = false
was_learned ((j, p) ∷ log) k port = (key_eq j k && (p == port)) || was_learned log k port

abbrev pub IsOf : List MacKey → MacKey → ℕ → Type 0
IsOf owners k p = get_elem? owners p ≡ some k

-- The heap, with the key that each entry belongs to.
abbrev pub Cells : List (MacKey × ℕ) → List MacKey → List Entry → Type 0
Cells log [] [] = Unit
Cells log [] (e ∷ heap) = ⊥
Cells log (k ∷ owners) [] = ⊥
Cells log (k ∷ owners) (e ∷ heap) = (was_learned log k e.port_idx ≡ true) × Cells log owners heap

abbrev pub CallOk : List MacKey → List (MacKey × ℕ) → Call → Type 0
CallOk owners log idle = Unit
CallOk owners log (learning k port now) = was_learned log k port ≡ true
CallOk owners log (learn_read k port now none) = was_learned log k port ≡ true
CallOk owners log (learn_read k port now (some p)) =
    (was_learned log k port ≡ true) × IsOf owners k p
CallOk owners log (refreshing k p now) = Unit
CallOk owners log (locking k port now) = was_learned log k port ≡ true
CallOk owners log (looking k now) = Unit
CallOk owners log (found k p now) = IsOf owners k p
CallOk owners log (fresh k p) = IsOf owners k p
CallOk owners log (answered k none) = Unit
CallOk owners log (answered k (some port)) = was_learned log k port ≡ true

abbrev pub Inv : Shared → Type 0
Inv s =
    (owners : List MacKey) × Entries (IsOf owners) s.table
    × Cells s.learned owners s.heap
    × All (CallOk owners s.learned) s.calls

was_learned-cons :
    (log : List (MacKey × ℕ)) (j k : MacKey) (p port : ℕ)
    → was_learned log k port ≡ true
    → was_learned ((j, p) ∷ log) k port ≡ true
unfolding was_learned
was_learned-cons log j k p port h = ground arith

pub was_learned_head :
    (log : List (MacKey × ℕ)) (k : MacKey) (port : ℕ) → was_learned ((k, port) ∷ log) k port ≡ true
unfolding was_learned
was_learned_head log k port = ground (arith, (key_eq_iff k k).1 refl)

pub Cells-log :
    (log : List (MacKey × ℕ)) (x : MacKey × ℕ) (owners : List MacKey) (heap : List Entry)
    → Cells log owners heap
    → Cells (x ∷ log) owners heap
Cells-log log x [] [] h = tt
Cells-log log x [] (e ∷ heap) h = elim h [ ]
Cells-log log x (k ∷ owners) [] h = elim h [ ]
Cells-log log (j, p) (k ∷ owners) (e ∷ heap) h =
    (was_learned-cons log j k p _ h.0, Cells-log log (j, p) owners heap h.1)

pub CallOk-log :
    (owners : List MacKey) (log : List (MacKey × ℕ)) (x : MacKey × ℕ) (c : Call)
    → CallOk owners log c
    → CallOk owners (x ∷ log) c
CallOk-log owners log x idle h = tt
CallOk-log owners log (j, p) (learning k port now) h = was_learned-cons log j k p port h
CallOk-log owners log (j, p) (learn_read k port now none) h = was_learned-cons log j k p port h
CallOk-log owners log (j, p) (learn_read k port now (some q)) h =
    (was_learned-cons log j k p port h.0, h.1)
CallOk-log owners log x (refreshing k p now) h = tt
CallOk-log owners log (j, p) (locking k port now) h = was_learned-cons log j k p port h
CallOk-log owners log x (looking k now) h = tt
CallOk-log owners log x (found k p now) h = h
CallOk-log owners log x (fresh k p) h = h
CallOk-log owners log x (answered k none) h = tt
CallOk-log owners log (j, p) (answered k (some port)) h = was_learned-cons log j k p port h

pub IsOf-append :
    (owners : List MacKey) (j k : MacKey) (p : ℕ) → IsOf owners k p → IsOf (owners ++ j ∷ []) k p
IsOf-append [] j k p h = cc
IsOf-append (o ∷ owners) j k zero h = h
IsOf-append (o ∷ owners) j k (suc p) h = IsOf-append owners j k p h

pub IsOf-last :
    (log : List (MacKey × ℕ)) (owners : List MacKey) (heap : List Entry) (k : MacKey)
    → Cells log owners heap
    → IsOf (owners ++ k ∷ []) k (length heap)
IsOf-last log [] [] k h = refl
IsOf-last log [] (e ∷ heap) k h = elim h [ ]
IsOf-last log (o ∷ owners) [] k h = elim h [ ]
IsOf-last log (o ∷ owners) (e ∷ heap) k h = IsOf-last log owners heap k h.1

pub CallOk-append :
    (owners : List MacKey) (j : MacKey) (log : List (MacKey × ℕ)) (c : Call)
    → CallOk owners log c
    → CallOk (owners ++ j ∷ []) log c
CallOk-append owners j log idle h = tt
CallOk-append owners j log (learning k port now) h = h
CallOk-append owners j log (learn_read k port now none) h = h
CallOk-append owners j log (learn_read k port now (some q)) h = (h.0, IsOf-append owners j k q h.1)
CallOk-append owners j log (refreshing k p now) h = tt
CallOk-append owners j log (locking k port now) h = h
CallOk-append owners j log (looking k now) h = tt
CallOk-append owners j log (found k p now) h = IsOf-append owners j k p h
CallOk-append owners j log (fresh k p) h = IsOf-append owners j k p h
CallOk-append owners j log (answered k none) h = tt
CallOk-append owners j log (answered k (some port)) h = h

pub Cells-append :
    (log : List (MacKey × ℕ)) (owners : List MacKey) (heap : List Entry) (k : MacKey) (e : Entry)
    → Cells log owners heap
    → was_learned log k e.port_idx ≡ true
    → Cells log (owners ++ k ∷ []) (heap ++ e ∷ [])
Cells-append log [] [] k e h w = (w, tt)
Cells-append log [] (d ∷ heap) k e h w = elim h [ ]
Cells-append log (o ∷ owners) [] k e h w = elim h [ ]
Cells-append log (o ∷ owners) (d ∷ heap) k e h w = (h.0, Cells-append log owners heap k e h.1 w)

pub Cells-get :
    (log : List (MacKey × ℕ)) (owners : List MacKey) (heap : List Entry) (p : ℕ) (k : MacKey)
    (e : Entry)
    → Cells log owners heap
    → IsOf owners k p
    → get_elem? heap p ≡ some e
    → was_learned log k e.port_idx ≡ true
Cells-get log [] [] p k e h of at = cc
Cells-get log [] (d ∷ heap) p k e h of at = elim h [ ]
Cells-get log (o ∷ owners) [] p k e h of at = elim h [ ]
Cells-get log (o ∷ owners) (d ∷ heap) zero k e h of at = grind (arith, h.0)
Cells-get log (o ∷ owners) (d ∷ heap) (suc p) k e h of at =
    Cells-get log owners heap p k e h.1 of at

pub Cells-refresh :
    (log : List (MacKey × ℕ)) (owners : List MacKey) (heap : List Entry) (p now : ℕ)
    → Cells log owners heap
    → Cells log owners (store_time heap p now)
Cells-refresh log [] [] p now h = tt
Cells-refresh log [] (d ∷ heap) p now h = elim h [ ]
Cells-refresh log (o ∷ owners) [] p now h = elim h [ ]
Cells-refresh log (o ∷ owners) (d ∷ heap) zero now h = h
Cells-refresh log (o ∷ owners) (d ∷ heap) (suc p) now h =
    (h.0, Cells-refresh log owners heap p now h.1)

pub Cells-update :
    (log : List (MacKey × ℕ)) (owners : List MacKey) (heap : List Entry) (p port now : ℕ)
    (k : MacKey)
    → Cells log owners heap
    → IsOf owners k p
    → was_learned log k port ≡ true
    → Cells log owners (store_entry heap p port now)
Cells-update log [] [] p port now k h of w = tt
Cells-update log [] (d ∷ heap) p port now k h of w = elim h [ ]
Cells-update log (o ∷ owners) [] p port now k h of w = elim h [ ]
Cells-update log (o ∷ owners) (d ∷ heap) zero port now k h of w = (grind (arith, w), h.1)
Cells-update log (o ∷ owners) (d ∷ heap) (suc p) port now k h of w =
    (h.0, Cells-update log owners heap p port now k h.1 of w)
