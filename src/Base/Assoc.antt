-- ===== src/Base/Assoc.antt =====
-- Go's maps, as association lists. A lookup of a missing key is `none`; an assignment overwrites
-- the entry or adds one.
use mathlib.Core.Path.{◌≡◌, refl, subst₂}
use mathlib.Core.Bool.{Bool, true}
use mathlib.Core.Logic.{inl, inr}
use mathlib.Core.List.{List, [], ◌∷◌}
use mathlib.Core.Option.{Option, none, some, some-injective}
use native.Mathlib.Omega.{arith}
use vibe_switch.Base.Tests.{Eq, Bool-cases, if◌then◌else◌}

pub beq_refl {ℓ} : {K : Type ℓ} ⦃e : Eq K⦄ (k : K) → e.beq k k ≡ true
beq_refl ⦃e⦄ k = (e.beq_iff k k).1 refl

module _ {ℓ κ} {K : Type ℓ} {V : Type κ} ⦃e : Eq K⦄ where
  unfoldable pub lookup : K → List (K × V) → Option V
  lookup k [] = none
  lookup k ((j, v) ∷ m) = if e.beq j k then some v else lookup k m

  unfoldable pub insert : K → V → List (K × V) → List (K × V)
  insert k v [] = (k, v) ∷ []
  insert k v ((j, w) ∷ m) = if e.beq j k then (j, v) ∷ m else (j, w) ∷ insert k v m

  -- Deleting, in a loop over the map, the entries that a test picks.
  unfoldable pub delete_if : (K → V → Bool) → List (K × V) → List (K × V)
  delete_if drop [] = []
  delete_if drop ((j, w) ∷ m) =
      let rest = delete_if drop m in if drop j w then rest else (j, w) ∷ rest

  -- No key stands twice.
  abbrev pub Distinct : List (K × V) → Type κ
  Distinct [] = Unit
  Distinct ((j, w) ∷ m) = (lookup j m ≡ none) × Distinct m

  pub lookup-insert :
      (k j : K) (v : V) (m : List (K × V))
      → lookup j (insert k v m) ≡ (if e.beq k j then some v else lookup j m)
  unfolding lookup insert
  lookup-insert k j v [] = refl
  lookup-insert k j v ((i, w) ∷ m) =
      ground (arith, e.beq_iff k j, e.beq_iff i k, e.beq_iff i j, lookup-insert k j v m)

  pub lookup-insert_self : (k : K) (v : V) (m : List (K × V)) → lookup k (insert k v m) ≡ some v
  lookup-insert_self k v m = ground (arith, lookup-insert k k v m, beq_refl k)

  pub insert-Distinct : (k : K) (v : V) (m : List (K × V)) → Distinct m → Distinct (insert k v m)
  unfolding insert lookup
  insert-Distinct k v [] d = ground arith
  insert-Distinct k v ((j, w) ∷ m) d =
      ground (arith, insert-Distinct k v m d.1, lookup-insert k j v m, e.beq_iff j k, e.beq_iff k j)

  pub lookup-delete_if_missing :
      (drop : K → V → Bool) (k : K) (m : List (K × V))
      → lookup k m ≡ none
      → lookup k (delete_if drop m) ≡ none
  unfolding lookup delete_if
  lookup-delete_if_missing drop k [] h = refl
  lookup-delete_if_missing drop k ((j, w) ∷ m) h = ground (arith, lookup-delete_if_missing drop k m)

  pub delete_if-Distinct :
      (drop : K → V → Bool) (m : List (K × V)) → Distinct m → Distinct (delete_if drop m)
  unfolding delete_if
  delete_if-Distinct drop [] d = tt
  delete_if-Distinct drop ((j, w) ∷ m) d =
      ground (arith, delete_if-Distinct drop m d.1, lookup-delete_if_missing drop j m d.0)

  -- What an entry is after a sweep.
  abbrev pub unless_dropped : (K → V → Bool) → K → Option V → Option V
  unless_dropped drop k none = none
  unless_dropped drop k (some v) = if drop k v then none else some v

  pub lookup-delete_if :
      (drop : K → V → Bool) (k : K) (m : List (K × V))
      → Distinct m
      → lookup k (delete_if drop m) ≡ unless_dropped drop k (lookup k m)
  unfolding lookup delete_if
  lookup-delete_if drop k [] d = refl
  lookup-delete_if drop k ((j, w) ∷ m) d =
      ground
        (arith, lookup-delete_if drop k m d.1, lookup-delete_if_missing drop j m d.0, e.beq_iff j k)

  module _ {μ} (P : K → V → Type μ) where
    abbrev pub Entries : List (K × V) → Type μ
    Entries [] = Unit
    Entries ((j, w) ∷ m) = P j w × Entries m

    pub insert-Entries :
        (k : K) (v : V) (m : List (K × V)) → P k v → Entries m → Entries (insert k v m)
    unfolding insert
    insert-Entries k v [] p h = (p, tt)
    insert-Entries k v ((j, w) ∷ m) p h = elim (Bool-cases (e.beq j k)) [
      | inl hit ↦ rw hit (rw ((e.beq_iff j k).0 hit) p, h.1)
      | inr miss ↦ rw miss (h.0, insert-Entries k v m p h.1)
    ]

    pub delete_if-Entries :
        (drop : K → V → Bool) (m : List (K × V)) → Entries m → Entries (delete_if drop m)
    unfolding delete_if
    delete_if-Entries drop [] h = tt
    delete_if-Entries drop ((j, w) ∷ m) h = elim (Bool-cases (drop j w)) [
      | inl hit ↦ rw hit (delete_if-Entries drop m h.1)
      | inr miss ↦ rw miss (h.0, delete_if-Entries drop m h.1)
    ]

    pub lookup-Entries :
        (k : K) (m : List (K × V)) {v : V} → Entries m → lookup k m ≡ some v → P k v
    unfolding lookup
    lookup-Entries k [] h f = cc
    lookup-Entries k ((j, w) ∷ m) {v} h f = elim (Bool-cases (e.beq j k)) [
      | inl hit ↦ subst₂ P ((e.beq_iff j k).0 hit) (some-injective w v (rw hit at f)) h.0
      | inr miss ↦ lookup-Entries k m h.1 (ground arith)
    ]
