-- ===== src/Fdb/Laws.antt =====
-- `Learn` against `Lookup` (internal/goswitch/fdb.go), and the table as a map.
use vibe_switch.Base.{ℕ, ◌≡◌, Bytes, some, inl, inr, arith, if◌then◌else◌, Bool-cases}
use vibe_switch.Base.Int.{pos, eqb_ℤ}
use vibe_switch.Base.Assoc.{
  insert as map_insert, Distinct, Entries, lookup-insert, insert-Distinct, delete_if-Distinct,
  delete_if-Entries,
}
use vibe_switch.Fdb.Table.{
  MacKey, key_eq, mac_key_eq, Entry, Fdb, learn, answer, lookup, reap, older,
}

-- Whatever branch `Learn` takes, it writes the port and the time under the key.
pub learn_lem :
    (f : Fdb) (vid : ℕ) (mac : Bytes) (port now : ℕ)
    → learn f vid mac port now ≡ record f {
      table =
          map_insert
            (record { vid = vid; mac = mac })
            (record { port_idx = port; seen_at = now })
            f.table;
    }
unfolding learn
learn_lem f vid mac port now = ground arith

-- After a `Learn` a `Lookup` of that address in that VLAN answers with the learned port while the
-- entry is fresh, and every other address or VLAN answers as before.
pub lookup-learn :
    (f : Fdb) (vid : ℕ) (mac : Bytes) (port t vid' : ℕ) (mac' : Bytes) (now : ℕ)
    → lookup (learn f vid mac port t) vid' mac' now ≡ (
        if key_eq (record { vid = vid; mac = mac }) (record { vid = vid'; mac = mac' })
        then answer f.ageing now (some (record { port_idx = port; seen_at = t }))
        else lookup f vid' mac' now)
unfolding lookup
lookup-learn f vid mac port t vid' mac' now = rw (learn_lem, lookup-insert) (ground (arith))

abbrev pub IsMap : Fdb → Type 0
IsMap f = Distinct f.table

pub learn-IsMap :
    (f : Fdb) (vid : ℕ) (mac : Bytes) (port now : ℕ) → IsMap f → IsMap (learn f vid mac port now)
learn-IsMap f vid mac port now d = rw learn_lem (insert-Distinct _ _ f.table d)

pub reap-IsMap : (f : Fdb) (now : ℕ) → IsMap f → IsMap (reap f now)
unfolding reap
reap-IsMap f now d =
    ground (arith, delete_if-Distinct (λ (k : MacKey) e. older f.ageing now e) f.table d)

pub reap-Entries {ℓ} :
    (P : MacKey → Entry → Type ℓ) (f : Fdb) (now : ℕ)
    → Entries P f.table
    → Entries P (reap f now).table
unfolding reap
reap-Entries P f now h = elim (Bool-cases (eqb_ℤ f.ageing (pos 0))) [
  | inl never ↦ rw (never, reap) h
  | inr ages ↦ rw (ages, reap) (delete_if-Entries P _ f.table h)
]
