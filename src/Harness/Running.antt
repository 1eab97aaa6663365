-- ===== src/Harness/Running.antt =====
-- Commands that run in order until one fails, as internal/harness runs them (`run`, `mustIP`,
-- `BridgeSwitch.ns`). Whether a command succeeds is the surroundings'.
use vibe_switch.Base.{Bool, true, false, List, [], ◌∷◌}

-- The commands that are run, the failing one included, and whether all succeeded.
unfoldable pub run_until_error {ℓ} : {A : Type ℓ} → (A → Bool) → List A → List A × Bool
run_until_error ok [] = ([], true)
run_until_error ok (c ∷ cs) = elim (ok c) [
  | true ↦ let (done, end) = run_until_error ok cs in (c ∷ done, end)
  | false ↦ (c ∷ [], false)
]
