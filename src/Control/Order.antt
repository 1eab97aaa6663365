-- ===== src/Control/Order.antt =====
-- The rows of `renderFDB` (internal/control/client.go) are the entries, in order.
use vibe_switch.Base.{
  ◌≡◌, ◌<◌, ◌⊎◌, ltb, refl, Bytes, true, false, List, [], ◌∷◌, arith, Bool-cases, inl, inr,
}
use mathlib.Core.List.Permᴰ as Permᴰ
use mathlib.Core.List.{Permᴰ}
use vibe_switch.Base.Float.{Floats}
use vibe_switch.Stats.{FdbEntry}
use vibe_switch.Control.{text_ltb, less, place, sort_rows}

text_ltb_asym : (s t : Bytes) → text_ltb s t ≡ true → text_ltb t s ≡ false
unfolding text_ltb
text_ltb_asym [] [] h = refl
text_ltb_asym [] (d ∷ t) h = refl
text_ltb_asym (c ∷ s) [] h = absurd (ground arith)
text_ltb_asym (c ∷ s) (d ∷ t) h = ground (arith, text_ltb_asym s t)

-- Byte by byte; a text stands before its continuations.
abbrev pub IsTextNotAfter : Bytes → Bytes → Type 0
IsTextNotAfter [] t = Unit {0}
IsTextNotAfter (c ∷ s) [] = ⊥
IsTextNotAfter (c ∷ s) (d ∷ t) = (c < d) ⊎ ((c ≡ d) × IsTextNotAfter s t)

text_not_after : (t s : Bytes) → text_ltb t s ≡ false → IsTextNotAfter s t
unfolding text_ltb
text_not_after t [] h = tt
text_not_after [] (c ∷ s) h = absurd (ground arith)
text_not_after (d ∷ t) (c ∷ s) h = elim (Bool-cases (ltb c d)) [
  | inl below ↦ inl (ground arith)
  | inr above ↦ inr (ground arith, text_not_after t s (ground arith))
]

module _ (fl : Floats) where
  -- The order of `renderFDB`: by VLAN, and in a VLAN by address, as text.
  abbrev pub IsNotAfter : FdbEntry fl → FdbEntry fl → Type 0
  IsNotAfter a b = (a.vid < b.vid) ⊎ ((a.vid ≡ b.vid) × IsTextNotAfter a.mac b.mac)

  abbrev pub InOrder : List (FdbEntry fl) → Type 0
  InOrder [] = Unit {0}
  InOrder (a ∷ []) = Unit {0}
  InOrder (a ∷ b ∷ rows) = IsNotAfter a b × InOrder (b ∷ rows)

  less-IsNotAfter : (a b : FdbEntry fl) → less fl b a ≡ false → IsNotAfter a b
  unfolding less
  less-IsNotAfter a b h = elim (Bool-cases (ltb a.vid b.vid)) [
    | inl below ↦ inl (ground arith)
    | inr not_below ↦ inr (ground arith, text_not_after b.mac a.mac (ground arith))
  ]

  less_asym : (a b : FdbEntry fl) → less fl a b ≡ true → less fl b a ≡ false
  unfolding less
  less_asym a b h = ground (arith, text_ltb_asym a.mac b.mac)

  -- No row is less than the one that it follows.
  abbrev Chained : List (FdbEntry fl) → Type 0
  Chained [] = Unit {0}
  Chained (a ∷ []) = Unit {0}
  Chained (a ∷ b ∷ rows) = (less fl b a ≡ false) × Chained (b ∷ rows)

  Chained-InOrder : (rows : List (FdbEntry fl)) → Chained rows → InOrder rows
  Chained-InOrder [] h = tt
  Chained-InOrder (a ∷ []) h = tt
  Chained-InOrder (a ∷ b ∷ rows) h = (less-IsNotAfter a b h.0, Chained-InOrder (b ∷ rows) h.1)

  place-Chained : (a : FdbEntry fl) (bs : List (FdbEntry fl)) → Chained bs → Chained (place fl a bs)
  unfolding place
  place-Chained a [] h = tt
  place-Chained a (b ∷ []) h = ground (arith, less_asym b a)
  place-Chained a (b ∷ c ∷ bs) h =
      ground (arith, less_asym b a, less_asym c a, place-Chained a (c ∷ bs) h.1)

  place-Perm : (a : FdbEntry fl) (bs : List (FdbEntry fl)) → Permᴰ (place fl a bs) (a ∷ bs)
  unfolding place
  place-Perm a [] = Permᴰ.refl _
  place-Perm a (b ∷ bs) = elim (Bool-cases (less fl b a)) [
    | inl below ↦ rw below (Permᴰ.trans (Permᴰ.cons refl (place-Perm a bs)) (Permᴰ.swap refl refl))
    | inr above ↦ rw above (Permᴰ.refl _)
  ]

  sort_rows-Chained :
      (rows : List (FdbEntry fl)) → Chained (sort_rows fl rows) × Permᴰ (sort_rows fl rows) rows
  unfolding sort_rows
  sort_rows-Chained [] = (tt, Permᴰ.nil)
  sort_rows-Chained (a ∷ rows) =
      let (ordered, same) = sort_rows-Chained rows in
      (
        place-Chained a (sort_rows fl rows) ordered,
        Permᴰ.trans (place-Perm a (sort_rows fl rows)) (Permᴰ.cons refl same),
      )

  -- The rows that are printed are exactly the entries of the answer, and each row has a lower VLAN
  -- than the next, or the same VLAN and an address that, byte by byte as text, is not above the
  -- next one's.
  pub sort_rows-InOrder :
      (rows : List (FdbEntry fl)) → InOrder (sort_rows fl rows) × Permᴰ (sort_rows fl rows) rows
  sort_rows-InOrder rows =
      let (chained, same) = sort_rows-Chained rows in
      (Chained-InOrder (sort_rows fl rows) chained, same)
