-- ===== src/Harness/Fixture.antt =====
-- `Setup` and `Teardown` (internal/harness/topology.go) whole, with a `GoSwitch`
-- (internal/harness/switch.go) as the switch under test.
use vibe_switch.Base.{
  ℕ, ◌≡◌, refl, Bytes, Bool, true, false, ap, ◌&&◌, bytes_eq_iff, bytes_eq, Option, List, [], ◌∷◌,
  ◌++◌, map, arith, ◌∙◌, none, Bool-cases, inl, inr, if◌then◌else◌,
}
use vibe_switch.Engine.{Engine, seen_name}
use vibe_switch.Transport.{Call}
use vibe_switch.Transport.Opening.{status, unopened}
use vibe_switch.Harness.Adapter.{Namespace, StartEnd, started, start, stop}
use vibe_switch.Harness.Adapter.Handles.{status-start}
use vibe_switch.Harness.Topology.{
  Host, Topology, Command, add_netns, delete_netns, add_veth, move_to_netns, in_netns, setup,
  teardown, ports_of_hosts,
}
use vibe_switch.Harness.Topology.CleanUp.{created, deleted, teardown-setup}

-- What a topology has run, what its switch has asked of the sockets, the switch, and whether
-- `Setup` has returned.
pub record Fixture : Type 0 where
  pub commands : List Command
  pub calls : List Call
  pub switch : Option Engine
  pub is_up : Bool

abbrev is_started : StartEnd → Bool
is_started started = true
is_started x = false

-- `Setup`. A command that fails, or a start that does, ends the test; `Teardown` runs all the same.
unfoldable pub set_up : (Command → Bool) → Namespace → Topology → Fixture
set_up ok ns top =
    let (commands, done) = setup ok top in
    let (calls, switch, end) = start ns none (ports_of_hosts top.hosts) in
    if done
    then record { commands = commands; calls = calls; switch = switch; is_up = is_started end }
    else record { commands = commands; calls = []; switch = none; is_up = false }

-- `Teardown`
unfoldable pub tear_down : Topology → Fixture → Fixture
tear_down top x = record x {
  commands = x.commands ++ teardown top;
  calls = x.calls ++ stop x.switch;
  is_up = false;
}

-- Whether a namespace is there after commands, from whether it was before. A deletion takes effect
-- or not; `Teardown` does not look.
abbrev pub remains : (Bytes → Bool) → Bytes → Bool → List Command → Bool
remains goes name b [] = b
remains goes name b (add_netns ns ∷ cs) =
    remains goes name (if bytes_eq ns name then true else b) cs
remains goes name b (delete_netns ns ∷ cs) =
    remains goes name (if bytes_eq ns name && goes ns then false else b) cs
remains goes name b (add_veth a a' ∷ cs) = remains goes name b cs
remains goes name b (move_to_netns a ns ∷ cs) = remains goes name b cs
remains goes name b (in_netns ns args ∷ cs) = remains goes name b cs

module _ (goes : Bytes → Bool) (name : Bytes) where
  remains-append :
      (xs ys : List Command) (b : Bool)
      → remains goes name b (xs ++ ys) ≡ remains goes name (remains goes name b xs) ys
  remains-append [] ys b = refl
  remains-append (add_netns ns ∷ cs) ys b = remains-append cs ys _
  remains-append (delete_netns ns ∷ cs) ys b = remains-append cs ys _
  remains-append (add_veth a a' ∷ cs) ys b = remains-append cs ys b
  remains-append (move_to_netns a ns ∷ cs) ys b = remains-append cs ys b
  remains-append (in_netns ns args ∷ cs) ys b = remains-append cs ys b

  -- What remains was created.
  remains-created :
      (cs : List Command) → remains goes name false cs ≡ true → seen_name (created cs) name ≡ true
  remains-created [] h = absurd cc
  remains-created (add_netns ns ∷ cs) h = ground (arith, remains-created cs)
  remains-created (delete_netns ns ∷ cs) h = ground (arith, remains-created cs)
  remains-created (add_veth a a' ∷ cs) h = remains-created cs h
  remains-created (move_to_netns a ns ∷ cs) h = remains-created cs h
  remains-created (in_netns ns args ∷ cs) h = remains-created cs h

  goes_by_name : (ns : Bytes) → goes name ≡ true → (bytes_eq ns name && goes ns) ≡ bytes_eq ns name
  goes_by_name ns h = elim (Bool-cases (bytes_eq ns name)) [
    | inl same ↦ rw same (ap goes ((bytes_eq_iff ns name).0 same) ∙ h)
    | inr other ↦ rw other refl
  ]

  -- Nothing remains that is deleted by commands that only delete, or was not there before.
  remains-deletes :
      (b : Bool) (hs : List Host) (ns : Bytes)
      → goes name ≡ true
      → let cs = map (λ (h : Host). delete_netns h.ns) hs ++ delete_netns ns ∷ [] in
        (b ≡ true → seen_name (deleted cs) name ≡ true) → remains goes name b cs ≡ false
  remains-deletes b [] ns g gone = ground (arith, gone, goes_by_name ns g)
  remains-deletes b (h ∷ hs) ns g gone =
      ground
        (arith, gone, goes_by_name h.ns g, remains-deletes b hs ns g, remains-deletes false hs ns g)

  none_remains :
      (ok : Command → Bool) (top : Topology)
      → goes name ≡ true
      → remains goes name false ((setup ok top).0 ++ teardown top) ≡ false
  unfolding teardown
  none_remains ok top g =
      remains-append (setup ok top).0 (teardown top) false
      ∙ remains-deletes (remains goes name false (setup ok top).0) top.hosts top.sw_ns g
          (λ was. teardown-setup ok top name (remains-created (setup ok top).0 was))

-- However `Setup` ends, at a command that fails, at a socket, at a configuration that is refused or
-- well: after `Teardown` no namespace is left whose deletion takes effect, of all that were created,
-- and every socket that the switch opened has been closed.
pub tear_down-set_up :
    (ok : Command → Bool) (ns : Namespace) (top : Topology) (tp : ℕ) (goes : Bytes → Bool)
    (name : Bytes)
    → goes name ≡ true
    → let x = tear_down top (set_up ok ns top) in
      (remains goes name false x.commands ≡ false) × (status tp unopened x.calls ≡ unopened)
unfolding set_up tear_down stop
tear_down-set_up ok ns top tp goes name g = elim (Bool-cases (setup ok top).1) [
  | inl done ↦
      rw (done, set_up)
        (none_remains goes name ok top g, (status-start ns (ports_of_hosts top.hosts) tp).2)
  | inr failed ↦ rw (failed, set_up) (none_remains goes name ok top g, unfold status in refl)
]
