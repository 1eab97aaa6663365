-- ===== src/Base/Decimal.antt =====
-- Decimal numbers: `strconv.Itoa` and the verb %d for numbers that are not negative, and the number
-- that a text of digits spells.
use Prim.Native.Nat.{ℕ, zero, suc, ◌+◌, ◌-◌, ◌*◌, ◌/◌, ◌%◌, ◌<◌}
use mathlib.Core.Path.{◌≡◌, sym, ap, ◌∙◌}
use mathlib.Core.List.{[], ◌∷◌}
use native.Mathlib.Omega.{arith}
use vibe_switch.Base.Tests.{Bytes, ltb, if◌then◌else◌}

-- The number that a text of digits spells behind the number `seen`.
abbrev pub spelt : ℕ → Bytes → ℕ
spelt seen [] = seen
spelt seen (digit ∷ text) = spelt (seen * 10 + (digit - b'0')) text

-- The digits of a number, in front of others; each round takes one, so `n + 1` rounds are enough.
unfoldable pub digits_before : ℕ → ℕ → Bytes → Bytes
digits_before zero n text = text
digits_before (suc fuel) n text =
    let digit = n % 10 + b'0' in
    let rest = digits_before fuel (n / 10) (digit ∷ text) in if ltb n 10 then digit ∷ text else rest

unfoldable pub itoa : ℕ → Bytes
unfolding digits_before
itoa n = digits_before (suc n) n []

spelt-digits_before :
    (fuel n : ℕ) (text : Bytes) → n < fuel → spelt 0 (digits_before fuel n text) ≡ spelt n text
unfolding digits_before
spelt-digits_before zero n text h = absurd (omega arith)
spelt-digits_before (suc fuel) n text h = ground (
  arith,
  spelt-digits_before fuel (n / 10) ((n % 10 + b'0') ∷ text),
  ap (λ k. spelt k text) (regroup n),
  ap (λ k. spelt k text) (last n),
)
  where
    regroup : (n : ℕ) → n / 10 * 10 + (n % 10 + b'0' - b'0') ≡ n
    regroup n = omega arith

    last : (n : ℕ) → 0 * 10 + (n % 10 + b'0' - b'0') ≡ n % 10
    last n = omega arith

pub spelt-itoa : (n : ℕ) → spelt 0 (itoa n) ≡ n
unfolding itoa
spelt-itoa n = spelt-digits_before (suc n) n [] (omega arith)

-- Different numbers are written differently.
pub itoa-injective : (m n : ℕ) → itoa m ≡ itoa n → m ≡ n
itoa-injective m n h = sym (spelt-itoa m) ∙ ap (spelt 0) h ∙ spelt-itoa n
