-- ===== src/Harness/Sockets/Restored.antt =====
-- What `openInNetns` (internal/harness/probe.go) leaves behind on its thread.
use vibe_switch.Base.{ℕ, Bool, true, false, Option, none, some, List, [], ◌∷◌, ◌==◌, if◌then◌else◌}
use vibe_switch.Harness.Sockets.Namespaces.{
  ThreadCall, locks_thread, unlocks_thread, gets_home, finds, enters, closes_namespace,
  opens_socket, fails,
}

-- A thread: whether it is locked to its goroutine, the handles on namespaces that are open, the
-- one that is its own, where it is if it is not at home, and the sockets that it has opened.
pub record Thread : Type 0 where
  pub locked : Bool
  pub held : List ℕ
  pub home : Option ℕ
  pub away : Option ℕ
  pub sockets : List ℕ

abbrev drop_handle : ℕ → List ℕ → List ℕ
drop_handle h [] = []
drop_handle h (j ∷ js) = let rest = drop_handle h js in if j == h then js else j ∷ rest

-- Where a thread is that has entered the namespace of a handle.
abbrev entered : ℕ → Option ℕ → Option ℕ
entered h none = some h
entered h (some home) = if home == h then none else some h

abbrev after_call : Thread → ThreadCall → Thread
after_call t locks_thread = record t { locked = true }
after_call t unlocks_thread = record t { locked = false }
after_call t (gets_home h) = record t { held = h ∷ t.held; home = some h }
after_call t (finds name h) = record t { held = h ∷ t.held }
after_call t (enters h) = record t { away = entered h t.home }
after_call t (closes_namespace h) = record t { held = drop_handle h t.held }
after_call t (opens_socket opts tp) = record t { sockets = tp ∷ t.sockets }
after_call t fails = t

abbrev pub after_calls : Thread → List ThreadCall → Thread
after_calls t [] = t
after_calls t (c ∷ cs) = after_calls (after_call t c) cs

abbrev pub outside : Thread
outside = record { locked = false; held = []; home = none; away = none; sockets = [] }

abbrev pub socket_list : Option ℕ → List ℕ
socket_list none = []
socket_list (some tp) = tp ∷ []
