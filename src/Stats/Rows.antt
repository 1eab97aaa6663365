-- ===== src/Stats/Rows.antt =====
-- What `FDBSnapshot` (internal/goswitch/stats.go) shows of an engine.
use vibe_switch.Base.{
  ℕ, ◌<◌, ◌≤◌, ◌+◌, ◌*◌, ◌/◌, ◌%◌, ◌^◌, ◌⊎◌, inl, inr, ltb, arith, Bool-cases, All, Bytes, ◌≡◌,
  refl, ap, true, some, List, [], ◌∷◌, map, get_elem?, Returns, Returns-bind,
}
use vibe_switch.Base.Int.{sub_ℕ}
use vibe_switch.Base.Float.{Floats}
use vibe_switch.Base.Assoc.{Entries}
use vibe_switch.Vlan.{Wiring, carries}
use vibe_switch.Fdb.{MacKey, mac_key_eq, Entry}
use vibe_switch.Engine.{Port, Engine, wirings}
use vibe_switch.Engine.Wired.{IsWired, IsLearned, port_at}
use vibe_switch.Stats.{FdbEntry, hex_digit, colon_hex, mac_string, fdb_rows, fdb_snapshot}

-- A character is the lower-case hexadecimal digit of a value.
abbrev pub IsDigit : ℕ → ℕ → Type 0
IsDigit c v = ((v < 10) × (c ≡ b'0' + v)) ⊎ ((10 ≤ v) × (v < 16) × (c + 10 ≡ b'a' + v))

-- Two characters are the digits of a byte.
abbrev pub AreDigits : ℕ → ℕ → ℕ → Type 0
AreDigits c d b = (high : ℕ) × (low : ℕ) × (b ≡ 16 * high + low) × IsDigit c high × IsDigit d low

-- Two digits for each further byte of an address, behind a colon.
pub data SpellsRest : Bytes → Bytes → Type 0 where
  ends : SpellsRest [] []
  another :
      {c d b : ℕ} {text mac : Bytes}
      → AreDigits c d b
      → SpellsRest text mac
      → SpellsRest (b':' ∷ c ∷ d ∷ text) (b ∷ mac)

-- A text shows an address: two digits for each byte, colons between.
pub data Spells : Bytes → Bytes → Type 0 where
  nothing : Spells [] []
  first :
      {c d b : ℕ} {text mac : Bytes}
      → AreDigits c d b
      → SpellsRest text mac
      → Spells (c ∷ d ∷ text) (b ∷ mac)

abbrev pub IsOctets : Bytes → Type 0
IsOctets mac = All (λ b. b < 256) mac

hex_digit-IsDigit : (v : ℕ) → v < 16 → IsDigit (hex_digit v) v
hex_digit-IsDigit v small = elim (Bool-cases (ltb v 10)) [
  | inl figure ↦ inl (ground arith)
  | inr letter ↦ inr (ground arith)
]

hex_byte-AreDigits : (b : ℕ) → b < 256 → AreDigits (hex_digit (b / 16)) (hex_digit (b % 16)) b
hex_byte-AreDigits b small = (
  b / 16,
  b % 16,
  omega arith,
  hex_digit-IsDigit (b / 16) (omega arith),
  hex_digit-IsDigit (b % 16) (omega arith),
)

colon_hex-SpellsRest : (mac : Bytes) → IsOctets mac → SpellsRest (colon_hex mac) mac
colon_hex-SpellsRest [] h = ends
colon_hex-SpellsRest (b ∷ mac) h = another (hex_byte-AreDigits b h.0) (colon_hex-SpellsRest mac h.1)

mac_string-Spells : (mac : Bytes) → IsOctets mac → Spells (mac_string mac) mac
unfolding mac_string
mac_string-Spells [] h = nothing
mac_string-Spells (b ∷ mac) h = first (hex_byte-AreDigits b h.0) (colon_hex-SpellsRest mac h.1)

-- A row tells of its entry: the VLAN, the address, the name of the port, which carries the VLAN,
-- and the time since the entry was seen, in seconds.
pub record IsRowOf (fl : Floats) (ws : List Wiring) (now : ℕ) (k : MacKey) (en : Entry)
    (row : FdbEntry fl) : Type 0 where
  pub vid : row.vid ≡ k.vid
  pub mac : Spells row.mac k.mac
  pub age : row.age_seconds ≡ fl.div (fl.of_int (sub_ℕ now en.seen_at)) (fl.of_uint (10 ^ 9))
  pub port :
      (w : Wiring) × (get_elem? ws en.port_idx ≡ some w)
      × (row.port ≡ w.name)
      × (carries w k.vid ≡ true)

-- One row for each entry, in order.
abbrev pub AreRowsOf :
    (fl : Floats) → List Wiring → ℕ → List (MacKey × Entry) → List (FdbEntry fl) → Type 0
AreRowsOf fl ws now [] [] = Unit {0}
AreRowsOf fl ws now [] (row ∷ rows) = ⊥
AreRowsOf fl ws now (e ∷ m) [] = ⊥
AreRowsOf fl ws now ((k, en) ∷ m) (row ∷ rows) =
    IsRowOf fl ws now k en row × AreRowsOf fl ws now m rows

fdb_rows-AreRowsOf :
    (fl : Floats) (ps : List Port) (now : ℕ) (m : List (MacKey × Entry))
    → let ws = map (λ (p : Port). p.wiring) ps in
      Entries (IsLearned ws) m
      → Entries (λ k en. IsOctets k.mac) m
      → Returns (fdb_rows fl ps now m) (AreRowsOf fl ws now m)
unfolding fdb_rows
fdb_rows-AreRowsOf fl ps now [] h o = tt
fdb_rows-AreRowsOf fl ps now ((k, en) ∷ m) ((w, at, member), h) (octets, o) =
    let (p, port, same) = port_at ps en.port_idx {w = w} at in
    rw port (
      Returns-bind (AreRowsOf fl _ now m) _ (fdb_rows fl ps now m) _
        (λ rows ih. (
          record {
            vid = refl;
            mac = mac_string-Spells k.mac octets;
            age = refl;
            port = (w, at, ap (λ (v : Wiring). v.name) same, member);
          },
          ih,
        ))
        (fdb_rows-AreRowsOf fl ps now m h o))

-- A snapshot does not panic, whatever the addresses.
fdb_rows_return :
    (fl : Floats) (ps : List Port) (now : ℕ) (m : List (MacKey × Entry))
    → Entries (IsLearned (map (λ (p : Port). p.wiring) ps)) m
    → Returns (fdb_rows fl ps now m) (λ rows. Unit {0})
unfolding fdb_rows
fdb_rows_return fl ps now [] h = tt
fdb_rows_return fl ps now ((k, en) ∷ m) ((w, at, member), h) =
    let (p, port, same) = port_at ps en.port_idx {w = w} at in
    rw port (
      Returns-bind (λ rows. Unit {0}) _ (fdb_rows fl ps now m) _ (λ rows ih. tt)
        (fdb_rows_return fl ps now m h))

pub fdb_snapshot_returns :
    (fl : Floats) (e : Engine) (now : ℕ)
    → IsWired e
    → Returns (fdb_snapshot fl e now) (λ rows. Unit {0})
unfolding fdb_snapshot
fdb_snapshot_returns fl e now v = fdb_rows_return fl e.ports now e.fdb.table v.learned

-- A snapshot of the table of a wired engine whose addresses consist of bytes does not panic: it has
-- one row for each entry, in order, with the entry's VLAN, its address as two lower-case
-- hexadecimal digits for each byte and colons between, the name of its port, which carries the
-- VLAN, and the nanoseconds since it was seen divided by 10^9.
pub fdb_snapshot-AreRowsOf :
    (fl : Floats) (e : Engine) (now : ℕ)
    → IsWired e
    → Entries (λ k en. IsOctets k.mac) e.fdb.table
    → Returns (fdb_snapshot fl e now) (AreRowsOf fl (wirings e) now e.fdb.table)
unfolding fdb_snapshot
fdb_snapshot-AreRowsOf fl e now v o = fdb_rows-AreRowsOf fl e.ports now e.fdb.table v.learned o
