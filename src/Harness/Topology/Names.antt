-- ===== src/Harness/Topology/Names.antt =====
-- The hosts of a topology are told apart by their names (internal/harness/topology.go).
use vibe_switch.Base.{
  ℕ, zero, suc, ◌+◌, ◌%◌, ◌≤◌, ◌<◌, ◌≡◌, ◌≢◌, refl, ap, sym, ◌∙◌, Bytes, codes, Option, none, some,
  List, [], ◌∷◌, ◌++◌, length, get_elem?, get_or, arith,
}
use vibe_switch.Base.Decimal.{itoa, itoa-injective}
use mathlib.Core.List.{append_cancel_left}
use mathlib.Core.Path.{subst₂}
use mathlib.Core.Option.{some-injective}
use vibe_switch.Harness.Topology.Hosts.{
  HostSpec, Host, Topology, prefix_of, name_of, mac_of, host_of, hosts_from, new_topology,
  find_host, host,
}

-- The spec of an index that starts at 1.
abbrev pub spec_at : List HostSpec → ℕ → Option HostSpec
spec_at specs zero = none
spec_at specs (suc i) = get_elem? specs i

abbrev host_from : Bytes → ℕ → Option HostSpec → Option Host
host_from prefix idx none = none
host_from prefix idx (some s) = some (host_of prefix idx s)

-- The index that a host from a position on is found by.
find_host-below :
    (prefix : Bytes) (k : ℕ) (specs : List HostSpec) (idx : ℕ)
    → idx ≤ k
    → find_host (hosts_from prefix k specs) idx ≡ none
unfolding find_host hosts_from host_of
find_host-below prefix k [] idx h = refl
find_host-below prefix k (s ∷ specs) idx h =
    ground (arith, find_host-below prefix (k + 1) specs idx)

find_host-hosts_from :
    (prefix : Bytes) (k : ℕ) (specs : List HostSpec) (i idx : ℕ)
    → idx ≡ k + suc i
    → find_host (hosts_from prefix k specs) idx ≡ host_from prefix idx (get_elem? specs i)
unfolding find_host hosts_from host_of
find_host-hosts_from prefix k [] i idx e = refl
find_host-hosts_from prefix k (s ∷ specs) zero idx e =
    let here : k + 1 ≡ idx = omega arith in rw here (ground arith)
find_host-hosts_from prefix k (s ∷ specs) (suc i) idx e =
    ground (arith, find_host-hosts_from prefix (k + 1) specs i idx)

host-new_topology :
    (pid seq : ℕ) (specs : List HostSpec) (idx : ℕ)
    → host (new_topology pid seq specs) idx ≡ host_from (prefix_of pid seq) idx (spec_at specs idx)
unfolding host new_topology
host-new_topology pid seq specs zero = find_host-below (prefix_of pid seq) 0 specs 0 (omega arith)
host-new_topology pid seq specs (suc i) =
    find_host-hosts_from (prefix_of pid seq) 0 specs i (suc i) (omega arith)

name_of-injective :
    (prefix : Bytes) (letter i j : ℕ) → name_of prefix letter i ≡ name_of prefix letter j → i ≡ j
unfolding name_of
name_of-injective prefix letter i j h =
    let tails : itoa i ≡ itoa j =
      cc (append_cancel_left prefix (letter ∷ itoa i) (letter ∷ itoa j) h) in
    itoa-injective i j tails

-- The namespace of a host does not have the name of the switch's.
name_of-ne-sw : (prefix : Bytes) (i : ℕ) → name_of prefix b'h' i ≢ prefix ++ codes "sw"
unfolding name_of
name_of-ne-sw prefix i h =
    let tails : b'h' ∷ itoa i ≡ codes "sw" =
      append_cancel_left prefix (b'h' ∷ itoa i) (codes "sw") h in
    let heads : b'h' ≡ b's' = ap (λ s. get_or s 0 0) tails in absurd (omega (arith, heads))

mac_of-injective : (i j : ℕ) → i < 256 → j < 256 → mac_of i ≡ mac_of j → i ≡ j
unfolding mac_of
mac_of-injective i j p q h =
    let lasts : i % 256 ≡ j % 256 = ap (λ s. get_or s 5 0) h in omega (arith, lasts)

-- What tells two hosts of a topology apart.
pub record IsOwn (top : Topology) (i j : ℕ) (h h' : Host) : Type 0 where
  pub idx : h.idx ≡ i
  pub ns : h.ns ≡ h'.ns → i ≡ j
  pub sw_if : h.sw_if ≡ h'.sw_if → i ≡ j
  pub mac : length top.hosts < 256 → h.mac ≡ h'.mac → i ≡ j
  pub sw_ns : h.ns ≢ top.sw_ns

length-hosts_from :
    (prefix : Bytes) (k : ℕ) (specs : List HostSpec)
    → length (hosts_from prefix k specs) ≡ length specs
unfolding hosts_from
length-hosts_from prefix k [] = refl
length-hosts_from prefix k (s ∷ specs) = omega (arith, length-hosts_from prefix (k + 1) specs)

get_elem?-lt :
    (specs : List HostSpec) (i : ℕ) {s : HostSpec} → get_elem? specs i ≡ some s → i < length specs
get_elem?-lt [] i h = cc
get_elem?-lt (t ∷ specs) zero h = omega arith
get_elem?-lt (t ∷ specs) (suc i) h = omega (arith, get_elem?-lt specs i h)

spec_at-le :
    (specs : List HostSpec) (i : ℕ) {s : HostSpec} → spec_at specs i ≡ some s → i ≤ length specs
spec_at-le specs zero h = cc
spec_at-le specs (suc i) h = omega (arith, get_elem?-lt specs i h)

host_of-IsOwn :
    (pid seq : ℕ) (specs : List HostSpec) (i j : ℕ) (s t : HostSpec)
    → spec_at specs i ≡ some s
    → spec_at specs j ≡ some t
    → let top = new_topology pid seq specs in
      IsOwn top i j (host_of top.prefix i s) (host_of top.prefix j t)
unfolding host_of new_topology
host_of-IsOwn pid seq specs i j s t at at' = record {
  idx = refl;
  ns = name_of-injective (prefix_of pid seq) b'h' i j;
  sw_if = name_of-injective (prefix_of pid seq) b's' i j;
  mac = λ few.
      mac_of-injective i j
        (omega (arith, spec_at-le specs i at, length-hosts_from (prefix_of pid seq) 0 specs))
        (omega (arith, spec_at-le specs j at', length-hosts_from (prefix_of pid seq) 0 specs));
  sw_ns = name_of-ne-sw (prefix_of pid seq) i;
}

from_spec :
    (prefix : Bytes) (idx : ℕ) (o : Option HostSpec) (h : Host)
    → host_from prefix idx o ≡ some h
    → (s : HostSpec) × (o ≡ some s) × (host_of prefix idx s ≡ h)
from_spec prefix idx none h e = cc
from_spec prefix idx (some s) h e = (s, refl, some-injective _ _ e)

-- Two hosts that are found by their indices in a topology have these indices, and are the same one
-- if they share a namespace or an interface of the switch, or, with fewer than 256 hosts, a MAC
-- address; and no host has the switch's namespace.
pub host-IsOwn :
    (pid seq : ℕ) (specs : List HostSpec) (i j : ℕ) (h h' : Host)
    → host (new_topology pid seq specs) i ≡ some h
    → host (new_topology pid seq specs) j ≡ some h'
    → IsOwn (new_topology pid seq specs) i j h h'
unfolding new_topology
host-IsOwn pid seq specs i j h h' found found' =
    let (s, at, same) =
      from_spec (prefix_of pid seq) i (spec_at specs i) h
        (sym (host-new_topology pid seq specs i) ∙ found) in
    let (t, at', same') =
      from_spec (prefix_of pid seq) j (spec_at specs j) h'
        (sym (host-new_topology pid seq specs j) ∙ found') in
    subst₂ (IsOwn (new_topology pid seq specs) i j) same same'
      (host_of-IsOwn pid seq specs i j s t at at')
