-- ===== src/Transport/Opening.antt =====
-- `OpenInterface` (internal/goswitch/afpacket.go) leaves open what it returns, and nothing else.
use vibe_switch.Base.{ℕ, Bool, true, false, Option, none, some, List, [], ◌∷◌, ◌==◌, if◌then◌else◌}
use vibe_switch.Transport.{
  Call, runs, warns, opens, fails_to_open, sets_promiscuous, sets_filter, closes, Instruction,
}

-- Whether a handle has been opened, made promiscuous, filtered, and not closed.
pub record Status : Type 0 where
  pub is_open : Bool
  pub promiscuous : Bool
  pub filter : List Instruction

abbrev pub unopened : Status
unopened = record { is_open = false; promiscuous = false; filter = [] }

-- What a call does to the handle that it names.
abbrev pub after_call : ℕ → Status → Call → Status
after_call h s (opens opts tp) = if tp == h then record s { is_open = true } else s
after_call h s (sets_promiscuous tp) = if tp == h then record s { promiscuous = true } else s
after_call h s (sets_filter tp program) = if tp == h then record s { filter = program } else s
after_call h s (closes tp) = if tp == h then unopened else s
after_call h s (runs args) = s
after_call h s (warns name) = s
after_call h s (fails_to_open opts) = s

unfoldable pub status : ℕ → Status → List Call → Status
status h s [] = s
status h s (c ∷ cs) = status h (after_call h s c) cs

-- The handle that a result has.
abbrev pub is_handle : Option ℕ → ℕ → Bool
is_handle none h = false
is_handle (some tp) h = tp == h
