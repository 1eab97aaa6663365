-- ===== src/Fdb/Shared/Learning.antt =====
-- `Learn` (internal/goswitch/fdb.go) with nothing in between, access by access.
use vibe_switch.Base.{
  ℕ, ◌≡◌, refl, sym, ap, ◌∙◌, true, Option, none, some, List, ◌∷◌, ◌==◌, length, modify, get_elem?,
  arith, inl, inr, Bool-cases,
}
use vibe_switch.Base.Assoc.{lookup as map_lookup, lookup-insert, lookup-insert_self}
use vibe_switch.Fdb.Table.{MacKey, key_eq, key_eq_iff, mac_key_eq, Entry, Fdb}
use vibe_switch.Fdb.Shared.Steps.{
  idle, learning, learn_read, refreshing, locking, Shared, put, store_time, store_entry,
  calls_learn, reads_table, sees_same_port, sees_other_port, misses, refreshes, updates, inserts,
  here, next,
}
use vibe_switch.Fdb.Shared.Invariant.{IsOf}
use vibe_switch.Fdb.Shared.Shown.{
  Shows, get_elem?-modify, get_elem?-last, entry_at-append, entry_at-modify, written, Shows-insert,
}
use vibe_switch.Fdb.Shared.Paused.{ReturnsWith, others_put, at_put, Paused, goes_on}

module _ (s : Shared) (f : Fdb) (i : ℕ) (k : MacKey) (port now : ℕ) where
  pub reads :
      get_elem? s.calls i ≡ some idle
      → s.sweep ≡ none
      → (t : Shared) × Paused i (learn_read k port now (map_lookup k s.table)) s t
  reads at free =
      let c = learning k port now in
      let log : List (MacKey × ℕ) = (k, port) ∷ s.learned in
      let first : Paused i c s (record s { calls = put s.calls i c; learned = log }) = record {
        reach = next here (calls_learn i k port now at refl);
        at = at_put s.calls i c at;
        others = others_put s.calls i c;
        heap = refl;
        table = refl;
        ageing = refl;
        sweep = refl;
      } in
      (
        _,
        goes_on (learn_read k port now (map_lookup k s.table)) first
            (reads_table i k port now first.at free refl),
      )

  module _
      (valid : (j : MacKey) (q : ℕ)
        → map_lookup j s.table ≡ some q
        → (d : Entry) × (get_elem? s.heap q ≡ some d))
      (shows : Shows s f) (free : s.sweep ≡ none) where
    inserted :
        (t : Shared)
        → Paused i (locking k port now) s t
        → map_lookup k s.table ≡ none
        → ReturnsWith i s (written f k port now)
    inserted t h miss = (
      _,
      next h.reach
          (inserts i k port now h.at (h.sweep ∙ free) (ap (map_lookup k) h.table ∙ miss) refl),
      at_put t.calls i idle h.at,
      (λ j ne. others_put t.calls i idle j ne ∙ h.others j ne),
      Shows-insert s _ f k port now shows h.ageing
          (rw (lookup-insert_self k (length t.heap) t.table) (get_elem?-last t.heap _))
          (λ j other.
            rw (lookup-insert k j (length t.heap) t.table, other, h.table, h.heap)
              (entry_at-append s.heap _ (map_lookup j s.table) (valid j))),
    )

    module _ (owners : List MacKey)
        (owned : (j : MacKey) (q : ℕ) → map_lookup j s.table ≡ some q → IsOf owners j q) where
      written_over :
          (t : Shared) (p : ℕ) (e : Entry) (g : Entry → Entry)
          → get_elem? s.heap p ≡ some e
          → g e ≡ record { port_idx = port; seen_at = now }
          → map_lookup k s.table ≡ some p
          → t.heap ≡ modify s.heap p g
          → t.table ≡ s.table
          → t.ageing ≡ s.ageing
          → Shows t (written f k port now)
      written_over t p e g cell same hit heap table ageing =
          Shows-insert s t f k port now shows ageing
            (rw (heap, table, hit) (get_elem?-modify s.heap p g cell ∙ ap some same))
            (λ j other.
              rw (heap, table)
                (entry_at-modify owners s.heap p k j g (map_lookup j s.table) (owned k p hit)
                  (owned j)
                  (λ eq. let yes : key_eq k j ≡ true = (key_eq_iff k j).1 (sym eq) in absurd cc)))

      refreshed :
          (t : Shared) (p : ℕ) (e : Entry)
          → Paused i (refreshing k p now) s t
          → get_elem? s.heap p ≡ some e
          → e.port_idx ≡ port
          → map_lookup k s.table ≡ some p
          → ReturnsWith i s (written f k port now)
      refreshed t p e h cell same hit = (
        _,
        next h.reach (refreshes i k p now h.at refl),
        at_put t.calls i idle h.at,
        (λ j ne. others_put t.calls i idle j ne ∙ h.others j ne),
        written_over _ p e (λ e. record e { seen_at = now }) cell
            (ap (λ (n : ℕ). record { port_idx = n; seen_at = now }) same) hit
            (ap (λ heap. store_time heap p now) h.heap) h.table h.ageing,
      )

      updated :
          (t : Shared) (p : ℕ) (e : Entry)
          → Paused i (locking k port now) s t
          → get_elem? s.heap p ≡ some e
          → map_lookup k s.table ≡ some p
          → ReturnsWith i s (written f k port now)
      updated t p e h cell hit = (
        _,
        next h.reach
            (updates i k port now p h.at (h.sweep ∙ free) (ap (map_lookup k) h.table ∙ hit) refl),
        at_put t.calls i idle h.at,
        (λ j ne. others_put t.calls i idle j ne ∙ h.others j ne),
        written_over _ p e (λ e. record e { port_idx = port; seen_at = now }) cell refl hit
            (ap (λ heap. store_entry heap p port now) h.heap) h.table h.ageing,
      )

      seen :
          (t : Shared) (p : ℕ) (e : Entry)
          → Paused i (learn_read k port now (some p)) s t
          → get_elem? s.heap p ≡ some e
          → map_lookup k s.table ≡ some p
          → ReturnsWith i s (written f k port now)
      seen t p e h cell hit = elim (Bool-cases (e.port_idx == port)) [
        | inl same ↦
            refreshed _ p e
              (goes_on (refreshing k p now) h (
                sees_same_port i k port now p e h.at (ap (λ heap. get_elem? heap p) h.heap ∙ cell)
                  (ground arith) refl))
              cell (ground arith) hit
        | inr other ↦
            updated _ p e
              (goes_on (locking k port now) h (
                sees_other_port i k port now p e h.at (ap (λ heap. get_elem? heap p) h.heap ∙ cell)
                  other refl))
              cell hit
      ]

      pub learned_alone :
          (t : Shared) (o : Option ℕ)
          → Paused i (learn_read k port now o) s t
          → map_lookup k s.table ≡ o
          → ReturnsWith i s (written f k port now)
      learned_alone t none h miss =
          inserted _ (goes_on (locking k port now) h (misses i k port now h.at refl)) miss
      learned_alone t (some p) h hit = let (e, cell) = valid k p hit in seen t p e h cell hit
