-- ===== src/Harness/Sockets/Held.antt =====
-- Which sockets of the harness (internal/harness/probe.go, internal/harness/perf.go) are open after a
-- list of calls, and which a list of captures holds.
use vibe_switch.Base.{
  ℕ, ◌≡◌, refl, Bytes, Bool, true, false, none, List, [], ◌∷◌, ◌++◌, ◌==◌, map, nat_eq, All, arith,
  if◌then◌else◌,
}
use vibe_switch.Base.Assoc.{lookup, lookup-insert, insert as map_insert}
use vibe_switch.Harness.Sockets.Captures.{
  SocketCall, opens, fails_to_open, sets_filter, writes, closes,
}

abbrev after_call : ℕ → Bool → SocketCall → Bool
after_call h b (opens ns opts tp) = if tp == h then true else b
after_call h b (fails_to_open ns opts) = b
after_call h b (sets_filter tp program) = b
after_call h b (writes tp frame) = b
after_call h b (closes tp) = if tp == h then false else b

-- Whether a socket is open after the calls, from whether it was before.
abbrev pub is_open : ℕ → Bool → List SocketCall → Bool
is_open h b [] = b
is_open h b (c ∷ cs) = is_open h (after_call h b c) cs

abbrev pub IsClosed : List SocketCall → Type 0
IsClosed calls = (h : ℕ) → is_open h false calls ≡ false

pub is_open-append :
    (h : ℕ) (b : Bool) (xs ys : List SocketCall)
    → is_open h b (xs ++ ys) ≡ is_open h (is_open h b xs) ys
is_open-append h b [] ys = refl
is_open-append h b (c ∷ cs) ys = is_open-append h (after_call h b c) cs ys

pub is_open-sent :
    (h s : ℕ) (sent : List Bytes) (rest : List SocketCall) (b : Bool)
    → is_open h b (map (writes s) sent ++ rest) ≡ is_open h b rest
is_open-sent h s [] rest b = refl
is_open-sent h s (f ∷ fs) rest b = is_open-sent h s fs rest b

abbrev pub holds : ℕ → List (ℕ × ℕ) → Bool
holds h [] = false
holds h ((i, tp) ∷ caps) = let rest = holds h caps in if tp == h then true else rest

pub holds-insert :
    (h i tp : ℕ) (caps : List (ℕ × ℕ))
    → lookup i caps ≡ none
    → holds h (map_insert i tp caps) ≡ (if tp == h then true else holds h caps)
unfolding map_insert lookup
holds-insert h i tp [] miss = refl
holds-insert h i tp ((j, u) ∷ caps) miss = ground (arith, holds-insert h i tp caps)

abbrev pub Fresh : List ℕ → List (ℕ × ℕ) → Type 0
Fresh idxs caps = All (λ i. lookup i caps ≡ none) idxs

pub Fresh-empty : (idxs : List ℕ) → Fresh idxs []
unfolding lookup
Fresh-empty [] = tt
Fresh-empty (i ∷ is) = (refl, Fresh-empty is)

abbrev pub NoRepeat : List ℕ → Type 0
NoRepeat [] = Unit
NoRepeat (i ∷ is) = All (λ j. (i == j) ≡ false) is × NoRepeat is

pub insert-Fresh :
    (i tp : ℕ) (idxs : List ℕ) (caps : List (ℕ × ℕ))
    → All (λ j. (i == j) ≡ false) idxs
    → Fresh idxs caps
    → Fresh idxs (map_insert i tp caps)
insert-Fresh i tp [] caps other fresh = tt
insert-Fresh i tp (j ∷ js) caps other fresh = (
  ground (arith, lookup-insert i j tp caps, other.0, fresh.0),
  insert-Fresh i tp js caps other.1 fresh.1,
)
