-- ===== src/Fdb/Shared/Looking.antt =====
-- `Lookup` (internal/goswitch/fdb.go) with nothing in between, access by access.
use vibe_switch.Base.{
  ◌&&◌, ℕ, ◌≡◌, refl, sym, ap, ◌∙◌, Option, none, some, get_elem?, inl, inr, Bool-cases,
}
use vibe_switch.Base.Int.{pos, ltb_ℤ}
use vibe_switch.Base.Assoc.{lookup as map_lookup}
use vibe_switch.Fdb.Table.{answer, older, MacKey, mac_key_eq, Entry, Fdb}
use vibe_switch.Fdb.Shared.Steps.{
  looking, found, fresh, answered, looks_up, finds_nothing, expires, is_fresh, reads_port, Shared,
}
use vibe_switch.Fdb.Shared.Shown.{entry_at, Shows}
use vibe_switch.Fdb.Shared.Paused.{Paused, goes_on}

module _ (s : Shared) (f : Fdb) (i : ℕ) (k : MacKey) (now : ℕ) (shows : Shows s f)
    (free : s.sweep ≡ none) where
  -- The call has its answer, and nothing else has been done.
  looked_up :
      (t : Shared) (p : ℕ) (e : Entry)
      → Paused i (found k p now) s t
      → get_elem? s.heap p ≡ some e
      → (u : Shared) × Paused i (answered k (answer f.ageing now (some e))) s u
  looked_up t p e h cell =
      let cell' = ap (λ heap. get_elem? heap p) h.heap ∙ cell in
      let same : t.ageing ≡ f.ageing = h.ageing ∙ sym shows.ageing in
      elim (Bool-cases (ltb_ℤ (pos 0) f.ageing && older f.ageing now e)) [
        | inl old ↦
            rw old
              (_, goes_on (answered k none) h (expires i k p now e h.at cell' (rw same old) refl))
        | inr young ↦
            let h' = goes_on (fresh k p) h (is_fresh i k p now e h.at cell' (rw same young) refl) in
            rw young
              (_, goes_on (answered k (some e.port_idx)) h' (reads_port i k p e h'.at cell' refl))
      ]

  pub looks :
      ((j : MacKey) (q : ℕ)
        → map_lookup j s.table ≡ some q
        → (d : Entry) × (get_elem? s.heap q ≡ some d))
      → (t : Shared) (o : Option ℕ) → Paused i (looking k now) s t
      → map_lookup k s.table ≡ o
      → (u : Shared) × Paused i (answered k (answer f.ageing now (entry_at s.heap o))) s u
  looks valid t none h miss = (
    _,
    goes_on (answered k none) h
        (finds_nothing i k now h.at (h.sweep ∙ free) (ap (map_lookup k) h.table ∙ miss) refl),
  )
  looks valid t (some p) h hit =
      let (e, cell) = valid k p hit in
      rw cell (
        looked_up _ p e
          (goes_on (found k p now) h
            (looks_up i k now p h.at (h.sweep ∙ free) (ap (map_lookup k) h.table ∙ hit) refl))
          cell)
