-- ===== src/Harness/Sockets/Namespaces.antt =====
-- `openInNetns` (internal/harness/probe.go). What the thread asks of the system is a list of calls;
-- deferred calls stand at the end, the last one first.
use vibe_switch.Base.{ℕ, Bytes, Bool, true, false, Option, none, some, List, [], ◌∷◌, if◌then◌else◌}
use vibe_switch.Transport.{SocketOption}

-- What netns and afpacket answer: a handle on the namespace that the thread is in, a handle on a named
-- one, whether the thread may enter the namespace of a handle, and a socket.
pub record Netns : Type 0 where
  pub get : Option ℕ
  pub get_from_name : Bytes → Option ℕ
  pub set : ℕ → Bool
  pub new_socket : List SocketOption → Option ℕ

pub data ThreadCall : Type 0 where
  locks_thread unlocks_thread : ThreadCall
  gets_home : ℕ → ThreadCall
  finds : Bytes → ℕ → ThreadCall
  enters : ℕ → ThreadCall
  closes_namespace : ℕ → ThreadCall
  opens_socket : List SocketOption → ℕ → ThreadCall
  fails : ThreadCall  -- a call that returned an error

-- `netns.Set`
abbrev pub set_call : Bool → ℕ → ThreadCall
set_call true handle = enters handle
set_call false handle = fails

-- `afpacket.NewTPacket`
abbrev pub socket_call : List SocketOption → Option ℕ → ThreadCall
socket_call opts none = fails
socket_call opts (some tp) = opens_socket opts tp

-- With both handles.
unfoldable pub enter_and_open : Netns → List SocketOption → ℕ → ℕ → List ThreadCall × Option ℕ
enter_and_open k opts home target =
    if k.set target
    then (
      enters target
          ∷ socket_call opts (k.new_socket opts)
          ∷ set_call (k.set home) home
          ∷ closes_namespace target
          ∷ closes_namespace home
          ∷ unlocks_thread
          ∷ [],
      k.new_socket opts,
    )
    else (fails ∷ closes_namespace target ∷ closes_namespace home ∷ unlocks_thread ∷ [], none)

-- With the handle on the thread's own namespace.
unfoldable pub find_and_open :
    Netns → Bytes → List SocketOption → ℕ → Option ℕ → List ThreadCall × Option ℕ
find_and_open k name opts home none = (fails ∷ closes_namespace home ∷ unlocks_thread ∷ [], none)
find_and_open k name opts home (some target) =
    let (calls, tp) = enter_and_open k opts home target in (finds name target ∷ calls, tp)

unfoldable pub lock_and_open :
    Netns → Bytes → List SocketOption → Option ℕ → List ThreadCall × Option ℕ
lock_and_open k name opts none = (fails ∷ unlocks_thread ∷ [], none)
lock_and_open k name opts (some home) =
    let (calls, tp) = find_and_open k name opts home (k.get_from_name name) in
    (gets_home home ∷ calls, tp)

-- `openInNetns`
unfoldable pub open_in_netns : Netns → Bytes → List SocketOption → List ThreadCall × Option ℕ
open_in_netns k name opts =
    let (calls, tp) = lock_and_open k name opts k.get in (locks_thread ∷ calls, tp)
