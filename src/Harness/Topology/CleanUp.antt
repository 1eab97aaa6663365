-- ===== src/Harness/Topology/CleanUp.antt =====
-- `Teardown` deletes what `Setup` has created (internal/harness/topology.go), also after a `Setup`
-- that was cut short.
use vibe_switch.Base.{
  ◌≡◌, refl, ap, ◌∙◌, Bytes, Bool, true, ◌||◌, List, [], ◌∷◌, ◌++◌, map, arith, Bool-cases, inl,
  inr,
}
use vibe_switch.Engine.{seen_name}
use vibe_switch.Harness.Running.{run_until_error}
use vibe_switch.Harness.Topology.Hosts.{Host, Topology}
use vibe_switch.Harness.Topology.Commands.{
  Command, add_netns, delete_netns, add_veth, move_to_netns, in_netns, address_if, host_commands,
  hosts_commands, setup_commands, setup, teardown,
}

-- The namespaces that commands create, and those that they delete.
abbrev pub created : List Command → List Bytes
created [] = []
created (add_netns ns ∷ cs) = ns ∷ created cs
created (delete_netns ns ∷ cs) = created cs
created (add_veth a b ∷ cs) = created cs
created (move_to_netns a ns ∷ cs) = created cs
created (in_netns ns args ∷ cs) = created cs

abbrev pub deleted : List Command → List Bytes
deleted [] = []
deleted (delete_netns ns ∷ cs) = ns ∷ deleted cs
deleted (add_netns ns ∷ cs) = deleted cs
deleted (add_veth a b ∷ cs) = deleted cs
deleted (move_to_netns a ns ∷ cs) = deleted cs
deleted (in_netns ns args ∷ cs) = deleted cs

created-append : (xs ys : List Command) → created (xs ++ ys) ≡ created xs ++ created ys
created-append [] ys = refl
created-append (add_netns ns ∷ xs) ys = ap (◌∷◌ ns) (created-append xs ys)
created-append (delete_netns ns ∷ xs) ys = created-append xs ys
created-append (add_veth a b ∷ xs) ys = created-append xs ys
created-append (move_to_netns a ns ∷ xs) ys = created-append xs ys
created-append (in_netns ns args ∷ xs) ys = created-append xs ys

created-address_if : (ns a ip : Bytes) → created (address_if ns a ip) ≡ []
created-address_if ns a [] = refl
created-address_if ns a (c ∷ ip) = refl

created-host_commands :
    (top : Topology) (h : Host) (cs : List Command)
    → created (host_commands top h ++ cs) ≡ h.ns ∷ created cs
unfolding host_commands
created-host_commands top h cs = ap (◌∷◌ h.ns) (
    created-append (address_if h.ns h.if_name h.ip ++ _) cs
    ∙ ground (
      arith,
      created-append (address_if h.ns h.if_name h.ip),
      created-address_if h.ns h.if_name h.ip,
    ))

seen-append :
    (xs ys : List Bytes) (n : Bytes) → seen_name (xs ++ ys) n ≡ (seen_name xs n || seen_name ys n)
seen-append [] ys n = refl
seen-append (x ∷ xs) ys n = ground (arith, seen-append xs ys n)

seen_created-cons :
    (c : Command) (cs : List Command) (n : Bytes)
    → seen_name (created (c ∷ cs)) n ≡ (seen_name (created (c ∷ [])) n || seen_name (created cs) n)
seen_created-cons c cs n =
    ap (λ ns. seen_name ns n) (created-append (c ∷ []) cs)
    ∙ seen-append (created (c ∷ [])) (created cs) n

-- What a run creates is among what the commands create.
created-run_until_error :
    (ok : Command → Bool) (cs : List Command) (n : Bytes)
    → seen_name (created (run_until_error ok cs).0) n ≡ true
    → seen_name (created cs) n ≡ true
unfolding run_until_error
created-run_until_error ok [] n h = h
created-run_until_error ok (c ∷ cs) n h = elim (Bool-cases (ok c)) [
  | inl fine ↦ ground (
    arith,
    seen_created-cons c cs n,
    seen_created-cons c (run_until_error ok cs).0 n,
    created-run_until_error ok cs n,
  )
  | inr failed ↦ ground (arith, seen_created-cons c cs n)
]

created-hosts_commands :
    (top : Topology) (hs : List Host)
    → created (hosts_commands top hs) ≡ map (λ (h : Host). h.ns) hs
unfolding hosts_commands
created-hosts_commands top [] = refl
created-hosts_commands top (h ∷ hs) =
    created-host_commands top h (hosts_commands top hs)
    ∙ ap (◌∷◌ h.ns) (created-hosts_commands top hs)

deleted-teardown :
    (hs : List Host) (cs : List Command)
    → deleted (map (λ (h : Host). delete_netns h.ns) hs ++ cs)
      ≡ map (λ (h : Host). h.ns) hs ++ deleted cs
deleted-teardown [] cs = refl
deleted-teardown (h ∷ hs) cs = ap (◌∷◌ h.ns) (deleted-teardown hs cs)

-- However far `Setup` comes before a command fails, every namespace that it has created is one
-- that `Teardown` deletes.
pub teardown-setup :
    (ok : Command → Bool) (top : Topology) (ns : Bytes)
    → seen_name (created (setup ok top).0) ns ≡ true
    → seen_name (deleted (teardown top)) ns ≡ true
unfolding setup setup_commands teardown
teardown-setup ok top ns h = ground (
  arith,
  created-run_until_error ok (setup_commands top) ns h,
  created-hosts_commands top top.hosts,
  deleted-teardown top.hosts (delete_netns top.sw_ns ∷ []),
  seen-append (map (λ (h : Host). h.ns) top.hosts) (top.sw_ns ∷ []) ns,
)
