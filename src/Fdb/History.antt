-- ===== src/Fdb/History.antt =====
-- The forwarding database (internal/goswitch/fdb.go) against the history of its calls.
use vibe_switch.Base.{
  ℕ, ◌≤◌, ◌≡◌, refl, ap, ◌∙◌, Bytes, false, Option, none, some, List, [], ◌∷◌, arith, if◌then◌else◌,
}
use vibe_switch.Base.Int.{ℤ, pos, ltb_ℤ}
use vibe_switch.Base.Assoc.{lookup as map_lookup}
use vibe_switch.Fdb.Table.{MacKey, key_eq, Entry, Fdb, new_fdb, learn, answer, lookup, reap}
use vibe_switch.Fdb.Laws.{IsMap, learn-IsMap, reap-IsMap, lookup-learn}
use vibe_switch.Fdb.Ageing.{lookup_after-reap, ageing-reap}

-- A call that changes the table, with its time.
pub data Call : Type 0 where
  learns : ℕ → Bytes → ℕ → ℕ → Call
  reaps : ℕ → Call

unfoldable pub apply : Fdb → Call → Fdb
apply f (learns vid mac port now) = learn f vid mac port now
apply f (reaps now) = reap f now

-- The newest call stands first.
unfoldable pub run : Fdb → List Call → Fdb
unfolding apply
run f [] = f
run f (c ∷ cs) = apply (run f cs) c

-- The abstract database: the last `Learn` of the address in the VLAN, whatever `reap` did.
pub last_learned : MacKey → List Call → Option Entry
last_learned k [] = none
last_learned k (learns vid mac port now ∷ cs) =
    if key_eq (record { vid = vid; mac = mac }) k
    then some (record { port_idx = port; seen_at = now })
    else last_learned k cs
last_learned k (reaps now ∷ cs) = last_learned k cs

-- No sweep is later than the time.
abbrev pub SweptBy : ℕ → List Call → Type 0
SweptBy t [] = Unit {0}
SweptBy t (learns vid mac port now ∷ cs) = SweptBy t cs
SweptBy t (reaps now ∷ cs) = (now ≤ t) × SweptBy t cs

unfoldable pub empty : ℤ → Fdb
unfolding new_fdb
empty age = record new_fdb { ageing = age }

run-IsMap : (age : ℤ) (cs : List Call) → IsMap (run (empty age) cs)
unfolding run empty new_fdb
run-IsMap age [] = tt
run-IsMap age (learns vid mac port now ∷ cs) = learn-IsMap _ vid mac port now (run-IsMap age cs)
run-IsMap age (reaps now ∷ cs) = reap-IsMap _ now (run-IsMap age cs)

ageing-learn :
    (f : Fdb) (vid : ℕ) (mac : Bytes) (port now : ℕ) → (learn f vid mac port now).ageing ≡ f.ageing
unfolding learn
ageing-learn f vid mac port now = ground arith

pub ageing-run : (age : ℤ) (cs : List Call) → (run (empty age) cs).ageing ≡ age
unfolding run empty
ageing-run age [] = refl
ageing-run age (learns vid mac port now ∷ cs) = ageing-learn _ vid mac port now ∙ ageing-run age cs
ageing-run age (reaps now ∷ cs) = ageing-reap _ now ∙ ageing-run age cs

lookup-empty : (age : ℤ) (vid : ℕ) (mac : Bytes) (now : ℕ) → lookup (empty age) vid mac now ≡ none
unfolding lookup empty new_fdb map_lookup
lookup-empty age vid mac now = refl

-- With an ageing time that is not negative, after any sequence of learns and sweeps, none of the
-- sweeps later than the lookup, `Lookup` answers with the port of the last `Learn` of that
-- address in that VLAN, unless that entry is older than a nonzero ageing time.
pub lookup-run :
    (age : ℤ) (cs : List Call) (vid : ℕ) (mac : Bytes) (now : ℕ)
    → ltb_ℤ age (pos 0) ≡ false
    → SweptBy now cs
    → lookup (run (empty age) cs) vid mac now
      ≡ answer age now (last_learned (record { vid = vid; mac = mac }) cs)
unfolding run last_learned
lookup-run age [] vid mac now h s = lookup-empty age vid mac now
lookup-run age (learns v m port t ∷ cs) vid mac now h s =
    lookup-learn (run (empty age) cs) v m port t vid mac now
    ∙ ground (arith, ageing-run age cs, lookup-run age cs vid mac now h s)
lookup-run age (reaps t ∷ cs) vid mac now h s =
    lookup_after-reap (run (empty age) cs) t now vid mac (run-IsMap age cs)
      (ap (λ a. ltb_ℤ a (pos 0)) (ageing-run age cs) ∙ h) s.0
    ∙ lookup-run age cs vid mac now h s.1
