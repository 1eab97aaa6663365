-- ===== src/Fdb/Shared/Shown.antt =====
-- The heap and the table of the shared database (internal/goswitch/fdb.go), read as one map.
use mathlib.Core.Path.{subst}
use mathlib.Core.Option.{some-injective}
use vibe_switch.Base.{
  ℕ, zero, suc, ◌≡◌, ◌≢◌, refl, sym, ap, ◌∙◌, false, Option, none, some, List, [], ◌∷◌, ◌++◌,
  length, modify, get_elem?, arith, inl, inr, Bool-cases,
}
use vibe_switch.Base.Assoc.{lookup as map_lookup, insert as map_insert, lookup-insert}
use vibe_switch.Fdb.Table.{MacKey, key_eq, key_eq_iff, mac_key_eq, Entry, Fdb}
use vibe_switch.Fdb.Shared.Steps.{Shared}
use vibe_switch.Fdb.Shared.Invariant.{IsOf, Cells}

-- What a pointer of the table shows.
abbrev pub entry_at : List Entry → Option ℕ → Option Entry
entry_at heap none = none
entry_at heap (some p) = get_elem? heap p

-- The heap and the table, read as a map from keys to entries.
pub record Shows (s : Shared) (f : Fdb) : Type 0 where
  pub ageing : f.ageing ≡ s.ageing
  pub entries : (k : MacKey) → map_lookup k f.table ≡ entry_at s.heap (map_lookup k s.table)

module _ {ℓ} {A : Type ℓ} where
  pub get_elem?-modify :
      (xs : List A) (i : ℕ) (f : A → A) {a : A}
      → get_elem? xs i ≡ some a
      → get_elem? (modify xs i f) i ≡ some (f a)
  get_elem?-modify [] i f {a} h = cc
  get_elem?-modify (x ∷ xs) zero f {a} h = ground arith
  get_elem?-modify (x ∷ xs) (suc i) f {a} h = get_elem?-modify xs i f h

  pub get_elem?-modify_other :
      (xs : List A) (i j : ℕ) (f : A → A) → j ≢ i → get_elem? (modify xs i f) j ≡ get_elem? xs j
  get_elem?-modify_other [] i j f h = refl
  get_elem?-modify_other (x ∷ xs) zero zero f h = absurd (h refl)
  get_elem?-modify_other (x ∷ xs) zero (suc j) f h = refl
  get_elem?-modify_other (x ∷ xs) (suc i) zero f h = refl
  get_elem?-modify_other (x ∷ xs) (suc i) (suc j) f h =
      get_elem?-modify_other xs i j f (λ e. h (ap suc e))

  pub get_elem?-last : (xs : List A) (a : A) → get_elem? (xs ++ a ∷ []) (length xs) ≡ some a
  get_elem?-last [] a = refl
  get_elem?-last (x ∷ xs) a = get_elem?-last xs a

  pub get_elem?-append :
      (xs ys : List A) (i : ℕ) {a : A} → get_elem? xs i ≡ some a → get_elem? (xs ++ ys) i ≡ some a
  get_elem?-append [] ys i {a} h = cc
  get_elem?-append (x ∷ xs) ys zero {a} h = h
  get_elem?-append (x ∷ xs) ys (suc i) {a} h = get_elem?-append xs ys i h

-- An owned pointer does not dangle.
pub cell_at :
    (log : List (MacKey × ℕ)) (owners : List MacKey) (heap : List Entry) (p : ℕ) (k : MacKey)
    → Cells log owners heap
    → IsOf owners k p
    → (e : Entry) × (get_elem? heap p ≡ some e)
cell_at log [] [] p k h of = cc
cell_at log [] (d ∷ heap) p k h of = elim h [ ]
cell_at log (o ∷ owners) [] p k h of = elim h [ ]
cell_at log (o ∷ owners) (d ∷ heap) zero k h of = (d, refl)
cell_at log (o ∷ owners) (d ∷ heap) (suc p) k h of = cell_at log owners heap p k h.1 of

-- A new entry behind the others does not change what the pointers show.
pub entry_at-append :
    (heap : List Entry) (e : Entry) (o : Option ℕ)
    → ((p : ℕ) → o ≡ some p → (d : Entry) × (get_elem? heap p ≡ some d))
    → entry_at (heap ++ e ∷ []) o ≡ entry_at heap o
entry_at-append heap e none valid = refl
entry_at-append heap e (some p) valid =
    let (d, at) = valid p refl in get_elem?-append heap (e ∷ []) p at ∙ sym at

-- A write to an entry shows under its own key and no other.
pub entry_at-modify :
    (owners : List MacKey) (heap : List Entry) (p : ℕ) (k j : MacKey) (f : Entry → Entry)
    (o : Option ℕ)
    → IsOf owners k p
    → ((q : ℕ) → o ≡ some q → IsOf owners j q)
    → j ≢ k
    → entry_at (modify heap p f) o ≡ entry_at heap o
entry_at-modify owners heap p k j f none of ofs ne = refl
entry_at-modify owners heap p k j f (some q) of ofs ne =
    get_elem?-modify_other heap p q f
      (λ same. ne (some-injective j k (sym (ofs q refl) ∙ ap (get_elem? owners) same ∙ of)))

abbrev pub written : Fdb → MacKey → ℕ → ℕ → Fdb
written f k port now = record f {
  table = map_insert k (record { port_idx = port; seen_at = now }) f.table;
}

-- Two maps that agree still do after an insertion of what is shown.
pub Shows-insert :
    (s t : Shared) (f : Fdb) (k : MacKey) (port now : ℕ)
    → Shows s f
    → t.ageing ≡ s.ageing
    → entry_at t.heap (map_lookup k t.table) ≡ some (record { port_idx = port; seen_at = now })
    → ((j : MacKey)
        → key_eq k j ≡ false
        → entry_at t.heap (map_lookup j t.table) ≡ entry_at s.heap (map_lookup j s.table))
    → Shows t (written f k port now)
Shows-insert s t f k port now shows same own others = record {
  ageing = shows.ageing ∙ sym same;
  entries = λ j. lookup-insert k j _ f.table ∙ elim (Bool-cases (key_eq k j)) [
    | inl hit ↦
        let at : k ≡ j = (key_eq_iff k j).0 hit in
        rw hit (
          subst
            (λ j.
              some (record { port_idx = port; seen_at = now })
              ≡ entry_at t.heap (map_lookup j t.table))
            at (sym own))
    | inr miss ↦ rw miss (shows.entries j ∙ sym (others j miss))
  ];
}
