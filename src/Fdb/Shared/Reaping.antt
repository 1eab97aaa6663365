-- ===== src/Fdb/Shared/Reaping.antt =====
-- The loop of `reap`, entry by entry, with nothing in between (internal/goswitch/fdb.go).
use mathlib.Core.Path.{ap₂, subst}
use mathlib.Core.List.{Permᴰ}
use vibe_switch.Base.{
  ℕ, ◌≡◌, refl, sym, true, ◌∙◌, Bool, false, ◌&&◌, ◌||◌, Option, none, some, List, [], ◌∷◌,
  get_elem?, All, arith, Bool-cases, inl, inr, if◌then◌else◌,
}
use vibe_switch.Base.Int.{ℤ}
use vibe_switch.Base.Assoc.{
  lookup as map_lookup, Distinct, delete_if, delete_if-Distinct, lookup-delete_if,
}
use vibe_switch.Fdb.Table.{MacKey, key_eq, key_eq_iff, mac_key_eq, Entry, older}
use vibe_switch.Fdb.Shared.Steps.{Sweep, Shared, is_key, Reach, next, deletes, spares, ends_sweep}
use vibe_switch.Fdb.Shared.Shown.{entry_at}

abbrev pub is_old : ℤ → ℕ → Option Entry → Bool
is_old age now none = false
is_old age now (some e) = older age now e

or_swap : (a b c : Bool) → (a || (b || c)) ≡ (b || (a || c))
or_swap true true c = refl
or_swap true false c = refl
or_swap false true c = refl
or_swap false false c = refl

-- Whether the sweep of these entries deletes the key.
abbrev pub drops : List Entry → ℤ → ℕ → MacKey → List (MacKey × ℕ) → Bool
drops heap age now j [] = false
drops heap age now j ((k, p) ∷ rest) =
    (key_eq j k && is_old age now (get_elem? heap p)) || drops heap age now j rest

pub drops_table :
    (heap : List Entry) (age : ℤ) (now : ℕ) (j : MacKey) (m : List (MacKey × ℕ))
    → Distinct m
    → drops heap age now j m ≡ is_old age now (entry_at heap (map_lookup j m))
unfolding map_lookup
drops_table heap age now j [] d = refl
drops_table heap age now j ((k, p) ∷ m) d =
    ground (arith, drops_table heap age now j m d.1, key_eq_iff k j, key_eq_iff j k, d.0)

-- The sweep that is under way.
abbrev pub sweeping : List (MacKey × ℕ) → ℤ → ℕ → Sweep
sweeping rest age now = record { rest = rest; age = age; now = now }

-- A state after a sweep of these entries, which has changed nothing but the table.
pub record Swept (s u : Shared) (age : ℤ) (now : ℕ) (rest : List (MacKey × ℕ)) (t : Shared)
    : Type 0 where
  pub reach : Reach s t
  pub heap : t.heap ≡ u.heap
  pub calls : t.calls ≡ u.calls
  pub ageing : t.ageing ≡ u.ageing
  pub loaded : t.loaded ≡ u.loaded
  pub sweep : t.sweep ≡ none
  pub table :
      (j : MacKey)
      → map_lookup j t.table ≡ (if drops u.heap age now j rest then none else map_lookup j u.table)

-- The order does not matter.
pub drops_perm :
    (heap : List Entry) (age : ℤ) (now : ℕ) (j : MacKey) {m m' : List (MacKey × ℕ)}
    → Permᴰ m m'
    → drops heap age now j m ≡ drops heap age now j m'
drops_perm heap age now j Permᴰ.nil = refl
drops_perm heap age now j (Permᴰ.cons e p) =
    ap₂ (λ (c : MacKey × ℕ) b. (key_eq j c.0 && is_old age now (get_elem? heap c.1)) || b) e
      (drops_perm heap age now j p)
drops_perm heap age now j (Permᴰ.swap {a} {b} {a'} {b'} {l} e e') =
    ap₂
      (λ (c d : MacKey × ℕ).
        (key_eq j c.0 && is_old age now (get_elem? heap c.1))
        || ((key_eq j d.0 && is_old age now (get_elem? heap d.1)) || drops heap age now j l))
      e e'
    ∙ or_swap (key_eq j b'.0 && is_old age now (get_elem? heap b'.1))
        (key_eq j a'.0 && is_old age now (get_elem? heap a'.1)) (drops heap age now j l)
drops_perm heap age now j (Permᴰ.trans p q) =
    drops_perm heap age now j p ∙ drops_perm heap age now j q

abbrev pub HasCell : List Entry → MacKey × ℕ → Type 0
HasCell heap c = (e : Entry) × (get_elem? heap c.1 ≡ some e)

pub cells_perm :
    (heap : List Entry) {m m' : List (MacKey × ℕ)}
    → Permᴰ m m'
    → All (HasCell heap) m'
    → All (HasCell heap) m
cells_perm heap Permᴰ.nil h = tt
cells_perm heap (Permᴰ.cons e p) h = (subst (HasCell heap) (sym e) h.0, cells_perm heap p h.1)
cells_perm heap (Permᴰ.swap e e') h =
    (subst (HasCell heap) (sym e) h.1.0, (subst (HasCell heap) (sym e') h.0, h.1.1))
cells_perm heap (Permᴰ.trans p q) h = cells_perm heap p (cells_perm heap q h)

pub sweeps :
    (s u : Shared) (age : ℤ) (now : ℕ) (rest : List (MacKey × ℕ))
    → Reach s u
    → u.sweep ≡ some (sweeping rest age now)
    → All (HasCell u.heap) rest
    → Distinct u.table
    → (t : Shared) × Swept s u age now rest t
sweeps s u age now [] r at cells d = (
  record u { sweep = none },
  record {
    reach = next r (ends_sweep (sweeping [] age now) at refl refl);
    heap = refl;
    calls = refl;
    ageing = refl;
    loaded = refl;
    sweep = refl;
    table = λ j. refl;
  },
)
sweeps s u age now ((k, p) ∷ rest) r at ((e, cell), cells) d = elim (Bool-cases (older age now e)) [
  | inl old ↦
      let v : Shared = record u {
        table = delete_if (is_key k) u.table;
        sweep = some (sweeping rest age now);
      } in
      let (t, w) =
        sweeps s v age now rest
          (next r (deletes k p (sweeping ((k, p) ∷ rest) age now) rest e at refl cell old refl))
          refl cells (delete_if-Distinct (is_key k) u.table d) in
      (
        t,
        record {
          reach = w.reach;
          heap = w.heap;
          calls = w.calls;
          ageing = w.ageing;
          loaded = w.loaded;
          sweep = w.sweep;
          table =
              λ j. w.table j ∙ ground (arith, lookup-delete_if (is_key k) j u.table d, cell, old);
        },
      )
  | inr young ↦
      let v : Shared = record u { sweep = some (sweeping rest age now) } in
      let (t, w) =
        sweeps s v age now rest
          (next r (spares k p (sweeping ((k, p) ∷ rest) age now) rest e at refl cell young refl))
          refl cells d in
      (
        t,
        record {
          reach = w.reach;
          heap = w.heap;
          calls = w.calls;
          ageing = w.ageing;
          loaded = w.loaded;
          sweep = w.sweep;
          table = λ j. w.table j ∙ ground (arith, cell, young);
        },
      )
]
