-- ===== src/Harness/Adapter/SameVlans.antt =====
-- The kernel bridge and this repository's engine get the same VLANs from the same ports
-- (internal/harness/switch.go, internal/goswitch/engine.go).
use vibe_switch.Base.{
  ℕ, zero, suc, ◌≤◌, ◌≡◌, refl, ap, sym, ◌∙◌, Bytes, bytes_eq, bytes_eq_iff, Bool, true, false, not,
  ◌&&◌, ◌||◌, Option, none, some, List, [], ◌∷◌, ◌++◌, ◌==◌, get_elem?, map, arith, Bool-cases, inl,
  inr, if◌then◌else◌,
}
use vibe_switch.Vlan.{Wiring, role_of, contains, add_all, carries}
use vibe_switch.Engine.{
  Engine, PortConfig, new_engine, ok, wirings, make_port, seen_name, has_trunk, wants_tag,
}
use vibe_switch.Engine
use vibe_switch.Engine.Construct.{ports_of, new_engine-IsWired}
use vibe_switch.Engine.Config.{is_ok, bytes_eq_comm, names_ok, valid_config, is_ok-new_engine}
use vibe_switch.Engine.Wired.{port_at}
use vibe_switch.Harness.Adapter.GoSwitch.{Port, vlan_aware, config_of}
use vibe_switch.Harness.Adapter.Bridge.{
  BridgeCommand, add_bridge, bridge_up, enslave, port_up, add_vlan, set_ageing_time, delete_bridge,
  port_vlans, any_aware, vlans_if, port_commands, start_commands,
}

-- How a list of commands makes a port a member of a VLAN: not at all, or tagged or untagged by
-- the first command that does.
abbrev pub assigned : Bytes → ℕ → List BridgeCommand → Option Bool
assigned name v [] = none
assigned name v (add_vlan p vid untagged ∷ cs) =
    if bytes_eq p name && (vid == v) then some untagged else assigned name v cs
assigned name v (add_bridge aware ∷ cs) = assigned name v cs
assigned name v (bridge_up ∷ cs) = assigned name v cs
assigned name v (enslave p ∷ cs) = assigned name v cs
assigned name v (port_up p ∷ cs) = assigned name v cs
assigned name v (set_ageing_time n ∷ cs) = assigned name v cs
assigned name v (delete_bridge ∷ cs) = assigned name v cs

abbrev or_else : Option Bool → Option Bool → Option Bool
or_else none o = o
or_else (some b) o = some b

assigned-append :
    (name : Bytes) (v : ℕ) (xs ys : List BridgeCommand)
    → assigned name v (xs ++ ys) ≡ or_else (assigned name v xs) (assigned name v ys)
assigned-append name v [] ys = refl
assigned-append name v (add_vlan p vid untagged ∷ xs) ys =
    ground (arith, assigned-append name v xs ys)
assigned-append name v (add_bridge aware ∷ xs) ys = assigned-append name v xs ys
assigned-append name v (bridge_up ∷ xs) ys = assigned-append name v xs ys
assigned-append name v (enslave p ∷ xs) ys = assigned-append name v xs ys
assigned-append name v (port_up p ∷ xs) ys = assigned-append name v xs ys
assigned-append name v (set_ageing_time n ∷ xs) ys = assigned-append name v xs ys
assigned-append name v (delete_bridge ∷ xs) ys = assigned-append name v xs ys

-- The tagged VLANs of a port.
assigned-tagged :
    (p name : Bytes) (v : ℕ) (vids : List ℕ)
    → assigned name v (map (λ vid. add_vlan p vid false) vids)
      ≡ (if bytes_eq p name && contains vids v then some false else none)
assigned-tagged p name v [] = ground arith
assigned-tagged p name v (vid ∷ vids) = ground (arith, assigned-tagged p name v vids)

contains-add_all :
    (set vids : List ℕ) (v : ℕ)
    → contains (add_all set vids) v ≡ (contains set v || contains vids v)
unfolding add_all
contains-add_all set [] v = ground arith
contains-add_all set (x ∷ vids) v = elim (Bool-cases (contains set x)) [
  | inl old ↦ rw (old, add_all) (ground (arith, contains-add_all set vids v))
  | inr new ↦ rw (new, add_all) (contains-add_all (x ∷ set) vids v ∙ ground arith)
]

-- The VLANs that one port gets, seen under any name, for the three ways of its fields.
assigned-vlans :
    (sw_if : Bytes) (access_vid : ℕ) (vids : List ℕ) (name : Bytes) (v i io : ℕ)
    → 1 ≤ v
    → let p : Port = record { sw_if = sw_if; access_vid = access_vid; trunk = vids } in
      assigned name v (port_vlans p) ≡ (
        if bytes_eq sw_if name && carries (make_port i (config_of p) io).wiring v
        then some (not (wants_tag (make_port i (config_of p) io).role))
        else none)
unfolding port_vlans make_port role_of carries
assigned-vlans sw_if a (x ∷ vids) name v i io pos =
    assigned-tagged sw_if name v (x ∷ vids) ∙ ground (arith, contains-add_all [] (x ∷ vids) v)
assigned-vlans sw_if a [] name v i io pos = ground arith

assigned-port_vlans :
    (p : Port) (name : Bytes) (v i io : ℕ)
    → 1 ≤ v
    → assigned name v (port_vlans p) ≡ (
        if bytes_eq p.sw_if name && carries (make_port i (config_of p) io).wiring v
        then some (not (wants_tag (make_port i (config_of p) io).role))
        else none)
assigned-port_vlans p = assigned-vlans p.sw_if p.access_vid p.trunk

-- A port that is not VLAN-aware gets none, so it does not matter whether the bridge is.
port_vlans_unaware : (p : Port) → vlan_aware p ≡ false → port_vlans p ≡ []
unfolding vlan_aware port_vlans
port_vlans_unaware p h = ground arith

assigned-vlans_if :
    (p : Port) (aware : Bool) (name : Bytes) (v : ℕ)
    → (vlan_aware p ≡ true → aware ≡ true)
    → assigned name v (vlans_if aware p) ≡ assigned name v (port_vlans p)
assigned-vlans_if p true name v h = refl
assigned-vlans_if p false name v h = elim (Bool-cases (vlan_aware p)) [
  | inl is ↦ absurd (ground (arith, h is))
  | inr not_aware ↦ ap (assigned name v) (sym (port_vlans_unaware p not_aware))
]

-- Every aware port of a list is among those that make the bridge aware.
abbrev Covers : Bool → List Port → Type 0
Covers aware [] = Unit {0}
Covers aware (p ∷ ps) = (vlan_aware p ≡ true → aware ≡ true) × Covers aware ps

Covers-all :
    (aware : Bool) (ps : List Port) → (any_aware ps ≡ true → aware ≡ true) → Covers aware ps
unfolding any_aware
Covers-all aware [] h = tt
Covers-all aware (p ∷ ps) h = ((λ q. h (ground arith)), Covers-all aware ps (λ q. h (ground arith)))

-- A name that no port has gets nothing.
assigned_elsewhere :
    (aware : Bool) (ps : List Port) (name : Bytes) (v : ℕ)
    → 1 ≤ v
    → Covers aware ps
    → seen_name (map (λ c. c.name) (map config_of ps)) name ≡ false
    → assigned name v (port_commands aware ps) ≡ none
unfolding port_commands
assigned_elsewhere aware [] name v pos cover h = refl
assigned_elsewhere aware (p ∷ ps) name v pos cover h =
    assigned-append name v (vlans_if aware p) (port_commands aware ps)
    ∙ ground (
      arith,
      assigned-vlans_if p aware name v cover.0,
      assigned-port_vlans p name v 0 0 pos,
      assigned_elsewhere aware ps name v pos cover.1,
    )

-- A name that no port of a list has is not that of the port at a position.
other_name :
    (ps : List Port) (name : Bytes) (i : ℕ) (p : Port)
    → seen_name (map (λ c. c.name) (map config_of ps)) name ≡ false
    → get_elem? ps i ≡ some p
    → bytes_eq name p.sw_if ≡ false
other_name [] name i p h at = cc
other_name (c ∷ ps) name zero p h at =
    let same : c ≡ p = ground arith in rw (← same, bytes_eq_comm name c.sw_if) (ground arith)
other_name (c ∷ ps) name (suc i) p h at = other_name ps name i p (ground arith) at

-- The port at a position, from a position in the list of ports on.
assigned_here :
    (aware : Bool) (ps : List Port) (ios : List ℕ) (k i : ℕ) (p : Port) (q : Engine.Port) (v : ℕ)
    → 1 ≤ v
    → Covers aware ps
    → names_ok (map config_of ps) ≡ true
    → get_elem? ps i ≡ some p
    → get_elem? (ports_of k (map config_of ps) ios) i ≡ some q
    → assigned p.sw_if v (port_commands aware ps)
      ≡ (if carries q.wiring v then some (not (wants_tag q.role)) else none)
unfolding port_commands ports_of
assigned_here aware [] ios k i p q v pos cover ok_names at at' = cc
assigned_here aware (c ∷ ps) [] k i p q v pos cover ok_names at at' = cc
assigned_here aware (c ∷ ps) (io ∷ ios) k zero p q v pos cover ok_names at at' =
    let same : c ≡ p = ground arith in
    let same' : make_port k (config_of c) io ≡ q = ground arith in
    rw (← same, ← same')
      (assigned-append c.sw_if v (vlans_if aware c) (port_commands aware ps)
        ∙ ground (
          arith,
          assigned-vlans_if c aware c.sw_if v cover.0,
          assigned-port_vlans c c.sw_if v k io pos,
          bytes_eq_iff c.sw_if c.sw_if,
          assigned_elsewhere aware ps c.sw_if v pos cover.1,
        ))
assigned_here aware (c ∷ ps) (io ∷ ios) k (suc i) p q v pos cover ok_names at at' =
    assigned-append p.sw_if v (vlans_if aware c) (port_commands aware ps)
    ∙ ground (
      arith,
      assigned-vlans_if c aware p.sw_if v cover.0,
      assigned-port_vlans c p.sw_if v k io pos,
      other_name ps c.sw_if i p,
      assigned_here aware ps ios (suc k) i p q v pos cover.1,
    )

-- The ports that this repository's engine accepts are configured on the kernel bridge with the
-- same VLANs: for every port and every VLAN but 0, the commands make the bridge's port a member
-- exactly if the engine's port carries the VLAN, and untagged exactly if the engine sends its
-- frames without a tag.
pub assigned-start_commands :
    (ps : List Port) (ios : List ℕ) {e : Engine} (i : ℕ) (p : Port) (w : Wiring) (v : ℕ)
    → new_engine (map config_of ps) ios ≡ ok e
    → get_elem? ps i ≡ some p
    → get_elem? (wirings e) i ≡ some w
    → 1 ≤ v
    → assigned p.sw_if v (start_commands ps)
      ≡ (if carries w v then some (not (wants_tag w.role)) else none)
unfolding start_commands valid_config
assigned-start_commands ps ios {e} i p w v built at at' pos =
    let (q, here, same) = port_at e.ports i {w = w} at' in
    let ports : e.ports ≡ ports_of 0 (map config_of ps) ios =
      (new_engine-IsWired (map config_of ps) ios built).1 in
    let fine : names_ok (map config_of ps) ≡ true =
      ground (arith, is_ok-new_engine (map config_of ps) ios, ap is_ok built) in
    rw (← same) (
      assigned_here (any_aware ps) ps ios 0 i p q v pos (Covers-all (any_aware ps) ps (λ h. h)) fine
        at (ap (λ l. get_elem? l i) (sym ports) ∙ here))
