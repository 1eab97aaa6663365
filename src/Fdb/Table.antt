-- ===== src/Fdb/Table.antt =====
-- internal/goswitch/fdb.go: `macKey`, `entry`, `FDB`, `newFDB`, `Learn`, `Lookup` and `reap`.
use vibe_switch.Base.{
  ℕ, ◌≡◌, ◌↔◌, Bytes, Bool, true, ◌&&◌, Option, none, some, List, [], ◌==◌, arith, if◌then◌else◌,
  Eq, bytes_eq, bytes_eq_iff,
}
use vibe_switch.Base.Int.{ℤ, pos, sub_ℕ, ltb_ℤ, eqb_ℤ}
use vibe_switch.Base.Assoc.{lookup as map_lookup, insert as map_insert, delete_if}

pub record MacKey : Type 0 where
  pub vid : ℕ
  pub mac : Bytes

abbrev pub key_eq : MacKey → MacKey → Bool
key_eq k j = (k.vid == j.vid) && bytes_eq k.mac j.mac

pub key_eq_iff : (k j : MacKey) → (key_eq k j ≡ true) ↔ (k ≡ j)
key_eq_iff k j = ground (arith, bytes_eq_iff k.mac j.mac)

instance abbrev pub mac_key_eq : Eq MacKey
mac_key_eq = record { beq = key_eq; beq_iff = key_eq_iff }

pub record Entry : Type 0 where
  pub port_idx : ℕ
  pub seen_at : ℕ

pub record Fdb : Type 0 where
  pub table : List (MacKey × Entry)
  pub ageing : ℤ

unfoldable pub new_fdb : Fdb
new_fdb = record { table = []; ageing = pos 0 }

-- The second look, under the write lock.
learn_locked : Fdb → MacKey → ℕ → ℕ → Option Entry → Fdb
learn_locked f k port now (some e) = record f {
  table = map_insert k (record e { port_idx = port; seen_at = now }) f.table;
}
learn_locked f k port now none = record f {
  table = map_insert k (record { port_idx = port; seen_at = now }) f.table;
}

learn_found : Fdb → MacKey → ℕ → ℕ → Option Entry → Fdb
unfolding learn_locked
learn_found f k port now (some e) =
    if e.port_idx == port
    then record f { table = map_insert k (record e { seen_at = now }) f.table }
    else learn_locked f k port now (map_lookup k f.table)
learn_found f k port now none = learn_locked f k port now (map_lookup k f.table)

unfoldable pub learn : Fdb → ℕ → Bytes → ℕ → ℕ → Fdb
unfolding learn_found
learn f vid mac port now =
    let k : MacKey = record { vid = vid; mac = mac } in
    learn_found f k port now (map_lookup k f.table)

-- `now - seenAt > age`
abbrev pub older : ℤ → ℕ → Entry → Bool
older age now e = ltb_ℤ age (sub_ℕ now e.seen_at)

-- What `Lookup` makes of the entry that it found, with lazy expiry.
abbrev pub answer : ℤ → ℕ → Option Entry → Option ℕ
answer age now none = none
answer age now (some e) = if ltb_ℤ (pos 0) age && older age now e then none else some e.port_idx

unfoldable pub lookup : Fdb → ℕ → Bytes → ℕ → Option ℕ
lookup f vid mac now = answer f.ageing now (map_lookup (record { vid = vid; mac = mac }) f.table)

unfoldable pub reap : Fdb → ℕ → Fdb
reap f now =
    if eqb_ℤ f.ageing (pos 0)
    then f
    else record f { table = delete_if (λ k e. older f.ageing now e) f.table }
