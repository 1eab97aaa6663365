-- ===== src/Fdb/Shared/Paused.antt =====
-- A call of the shared database (internal/goswitch/fdb.go) that nothing interrupts.
use vibe_switch.Base.{ℕ, ◌≡◌, ◌≢◌, ◌∙◌, some, List, get_elem?}
use vibe_switch.Fdb.Table.{mac_key_eq, Fdb}
use vibe_switch.Fdb.Shared.Steps.{Call, idle, Shared, put, Step, Reach, next}
use vibe_switch.Fdb.Shared.Shown.{Shows, get_elem?-modify, get_elem?-modify_other}

-- The calls of the others are as they were.
abbrev pub Others : ℕ → Shared → Shared → Type 0
Others i s t = (j : ℕ) → j ≢ i → get_elem? t.calls j ≡ get_elem? s.calls j

-- A way to a state in which the call has returned, with the table as told, and nothing else done.
abbrev pub ReturnsWith : ℕ → Shared → Fdb → Type 0
ReturnsWith i s f =
    (t : Shared) × Reach s t × (get_elem? t.calls i ≡ some idle) × Others i s t × Shows t f

pub others_put :
    (calls : List Call) (i : ℕ) (c : Call) (j : ℕ)
    → j ≢ i
    → get_elem? (put calls i c) j ≡ get_elem? calls j
others_put calls i c j ne = get_elem?-modify_other calls i j _ ne

pub at_put :
    (calls : List Call) (i : ℕ) (c : Call) {b : Call}
    → get_elem? calls i ≡ some b
    → get_elem? (put calls i c) i ≡ some c
at_put calls i c h = get_elem?-modify calls i _ h

-- The call stands somewhere, and nothing else has been done since `s`.
pub record Paused (i : ℕ) (c : Call) (s t : Shared) : Type 0 where
  pub reach : Reach s t
  pub at : get_elem? t.calls i ≡ some c
  pub others : Others i s t
  pub heap : t.heap ≡ s.heap
  pub table : t.table ≡ s.table
  pub ageing : t.ageing ≡ s.ageing
  pub sweep : t.sweep ≡ s.sweep

pub goes_on :
    {i : ℕ} {b : Call} {s t : Shared} (c : Call)
    → Paused i b s t
    → Step t (record t { calls = put t.calls i c })
    → Paused i c s (record t { calls = put t.calls i c })
goes_on {i} {t} c h st = record {
  reach = next h.reach st;
  at = at_put t.calls i c h.at;
  others = λ j ne. others_put t.calls i c j ne ∙ h.others j ne;
  heap = h.heap;
  table = h.table;
  ageing = h.ageing;
  sweep = h.sweep;
}
