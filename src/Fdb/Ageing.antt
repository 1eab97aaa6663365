-- ===== src/Fdb/Ageing.antt =====
-- `reap` against `Lookup` (internal/goswitch/fdb.go): lazy expiry and real deletion.
use vibe_switch.Base.{
  ℕ, ◌≤◌, ◌≡◌, ◌≢◌, ap, refl, Bytes, true, false, Option, none, some, List, [], ◌∷◌, inl, inr,
  arith, Bool-cases,
}
use vibe_switch.Base.Int.{ℤ, pos, negsuc, ltb_ℤ}
use vibe_switch.Base.Assoc.{
  lookup as map_lookup, delete_if, Entries, unless_dropped, lookup-delete_if,
}
use vibe_switch.Fdb.Table.{MacKey, mac_key_eq, Entry, Fdb, answer, lookup, reap, older}
use vibe_switch.Fdb.Laws.{IsMap}

-- What `reap` leaves under a key: an entry that has outlived a nonzero ageing time is gone, and
-- every other entry stays as it was.
pub lookup-reap :
    (f : Fdb) (now : ℕ) (k : MacKey)
    → IsMap f
    → f.ageing ≢ pos 0
    → map_lookup k (reap f now).table
      ≡ unless_dropped (λ k e. older f.ageing now e) k (map_lookup k f.table)
unfolding reap
lookup-reap f now k d h =
    ground (arith, lookup-delete_if (λ (j : MacKey) e. older f.ageing now e) k f.table d)

answer_later :
    (age : ℤ) (now later : ℕ) (k : MacKey) (o : Option Entry)
    → ltb_ℤ (pos 0) age ≡ true
    → now ≤ later
    → answer age later (unless_dropped (λ (j : MacKey) e. older age now e) k o) ≡ answer age later o
answer_later age now later k none h le = refl
answer_later (pos n) now later k (some e) h le = ground arith
answer_later (negsuc n) now later k (some e) h le = absurd (ground arith)

pub reap_never : (f : Fdb) (now : ℕ) → f.ageing ≡ pos 0 → reap f now ≡ f
unfolding reap
reap_never f now h = ground arith

pub ageing-reap : (f : Fdb) (now : ℕ) → (reap f now).ageing ≡ f.ageing
unfolding reap
ageing-reap f now = ground arith

positive_ne : (z : ℤ) → ltb_ℤ (pos 0) z ≡ true → z ≢ pos 0
positive_ne z h = ground arith

zero_of : (z : ℤ) → ltb_ℤ z (pos 0) ≡ false → ltb_ℤ (pos 0) z ≡ false → z ≡ pos 0
zero_of z h k = ground arith

-- With an ageing time that is not negative, deletion by `reap` cannot be seen: from then on
-- every `Lookup` answers as it would have without it.
pub lookup_after-reap :
    (f : Fdb) (now later vid : ℕ) (mac : Bytes)
    → IsMap f
    → ltb_ℤ f.ageing (pos 0) ≡ false
    → now ≤ later
    → lookup (reap f now) vid mac later ≡ lookup f vid mac later
unfolding lookup
lookup_after-reap f now later vid mac d h le = elim (Bool-cases (ltb_ℤ (pos 0) f.ageing)) [
  | inl positive ↦
      rw
        (
          ageing-reap,
          lookup-reap f now (record { vid = vid; mac = mac }) d (positive_ne f.ageing positive),
        )
        (answer_later f.ageing now later (record { vid = vid; mac = mac }) _ positive le)
  | inr zero ↦ ap (λ g. lookup g vid mac later) (reap_never f now (zero_of f.ageing h zero))
]

-- A negative ageing time: `Lookup` never expires an entry, yet `reap` deletes every entry that is
-- not from the future.
abbrev pub IsPast : ℕ → MacKey → Entry → Type 0
IsPast now k e = e.seen_at ≤ now

delete_all :
    (age : ℤ) (now : ℕ) (m : List (MacKey × Entry))
    → ltb_ℤ age (pos 0) ≡ true
    → Entries (IsPast now) m
    → delete_if (λ k e. older age now e) m ≡ []
unfolding delete_if
delete_all age now [] h past = refl
delete_all age now ((k, e) ∷ m) h past = ground (arith, delete_all age now m h past.1)

-- With a negative ageing time, `Lookup` answers with the port of every entry of the table at any
-- time, however old the entry is, and one call of `reap` removes all entries that were learned
-- before it.
pub reap_negative :
    (f : Fdb) (now : ℕ)
    → ltb_ℤ f.ageing (pos 0) ≡ true
    → Entries (IsPast now) f.table
    → ((vid : ℕ) (mac : Bytes) (later : ℕ) (en : Entry)
        → map_lookup (record { vid = vid; mac = mac }) f.table ≡ some en
        → lookup f vid mac later ≡ some en.port_idx)
      × ((reap f now).table ≡ [])
unfolding reap lookup
reap_negative f now h past = (
  λ vid mac later en at. rw at (ground arith),
  ground (arith, delete_all f.ageing now f.table h past),
)
