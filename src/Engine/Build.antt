-- ===== src/Engine/Build.antt =====
-- internal/goswitch/engine.go: `PortConfig` and `NewEngine`.
use vibe_switch.Base.{
  ℕ, suc, Bytes, Bool, true, false, not, ◌&&◌, ◌||◌, Option, none, some, List, [], ◌∷◌, ◌++◌, ◌==◌,
  length, if◌then◌else◌, bytes_eq, nat_eq,
}
use vibe_switch.Base.Assoc.{lookup as map_lookup, insert as map_insert}
use vibe_switch.Vlan.{PortRole, plain, access, trunk, role_of, add_all, Wiring}
use vibe_switch.Fdb.{new_fdb}
use vibe_switch.Frame.{new_frame_parser}
use vibe_switch.Engine.Ports.{Port, Engine, zero_stats, or_nil}

pub record PortConfig : Type 0 where
  pub name : Bytes
  pub access_vid : ℕ
  pub trunk_vids : List ℕ

pub data ConfigError : Type 0 where
  handle_mismatch : ℕ → ℕ → ConfigError
  no_ports : ConfigError
  empty_name : ℕ → ConfigError
  duplicate_port : Bytes → ConfigError
  access_and_trunk : Bytes → ConfigError
  mixed_roles : ConfigError
  index_out_of_range : ConfigError

pub data Result {ℓ} (A : Type ℓ) : Type ℓ where
  ok : A → Result A
  err : ConfigError → Result A

-- The variables of the loop over the config.
pub record Building : Type 0 where
  pub ports : List Port
  pub seen : List Bytes
  pub any_vlan : Bool
  pub any_plain : Bool

abbrev pub seen_name : List Bytes → Bytes → Bool
seen_name [] n = false
seen_name (x ∷ xs) n = if bytes_eq x n then true else seen_name xs n

abbrev pub is_empty : Bytes → Bool
is_empty [] = true
is_empty (c ∷ cs) = false

abbrev pub has_trunk : List ℕ → Bool
has_trunk [] = false
has_trunk (v ∷ vs) = true

-- The fields that the switch over the role fills.
wire : PortRole → ℕ → PortConfig → ℕ → Wiring
wire plain i c io = record {
  idx = i;
  name = c.name;
  io = io;
  role = plain;
  pvid = 0;
  allow = [];
  trunk_vids = [];
}
wire access i c io = record {
  idx = i;
  name = c.name;
  io = io;
  role = access;
  pvid = c.access_vid;
  allow = [];
  trunk_vids = [];
}
wire trunk i c io = record {
  idx = i;
  name = c.name;
  io = io;
  role = trunk;
  pvid = 0;
  allow = add_all [] c.trunk_vids;
  trunk_vids = c.trunk_vids;
}

abbrev pub is_plain : PortRole → Bool
is_plain plain = true
is_plain access = false
is_plain trunk = false

unfoldable pub make_port : ℕ → PortConfig → ℕ → Port
unfolding wire
make_port i c io = record {
  wiring = wire (role_of c.access_vid c.trunk_vids) i c io;
  stats = zero_stats;
  parser = new_frame_parser;
}

abbrev pub config_error : ℕ → PortConfig → List Bytes → Option ConfigError
config_error i c seen =
    if is_empty c.name
    then some (empty_name i)
    else if seen_name seen c.name
    then some (duplicate_port c.name)
    else if not (c.access_vid == 0) && has_trunk c.trunk_vids
    then some (access_and_trunk c.name)
    else none

abbrev pub push_port : ℕ → PortConfig → ℕ → Building → Building
push_port i c io b =
    let p = make_port i c io in
    record {
      ports = b.ports ++ p ∷ [];
      seen = c.name ∷ b.seen;
      any_vlan = b.any_vlan || not (is_plain p.role);
      any_plain = b.any_plain || is_plain p.role;
    }

-- The loop over the config; `ios` is read in step, so its end is an index out of range.
unfoldable pub add_ports : ℕ → List PortConfig → List ℕ → Building → Result Building
add_ports i [] ios b = ok b
add_ports i (c ∷ cs) [] b = err index_out_of_range
add_ports i (c ∷ cs) (io ∷ ios) b = elim (config_error i c b.seen) [
  | some e ↦ err e
  | none ↦ add_ports (suc i) cs ios (push_port i c io b)
]

abbrev pub Members : Type 0
Members = List (ℕ × List ℕ)

unfoldable pub append_member : Members → ℕ → ℕ → Members
append_member m vid idx = map_insert vid (or_nil (map_lookup vid m) ++ idx ∷ []) m

-- The loop over the keys of `p.allow`, in some order.
unfoldable pub append_trunk : Members → List ℕ → ℕ → Members
append_trunk m [] idx = m
append_trunk m (v ∷ vs) idx = append_trunk (append_member m v idx) vs idx

add_member_as : PortRole → Members → Wiring → Members
add_member_as plain m w = append_member m 0 w.idx
add_member_as access m w = append_member m w.pvid w.idx
add_member_as trunk m w = append_trunk m w.allow w.idx

unfoldable pub add_member : Members → Wiring → Members
unfolding add_member_as
add_member m w = add_member_as w.role m w

unfoldable pub vid_members_of : Members → List Port → Members
vid_members_of m [] = m
vid_members_of m (p ∷ ps) = vid_members_of (add_member m p.wiring) ps

unfoldable pub finish : Building → Result Engine
finish b =
    if b.any_vlan && b.any_plain
    then err mixed_roles
    else ok (record {
      ports = b.ports;
      fdb = new_fdb;
      vid_members = vid_members_of [] b.ports;
      vlan_aware = b.any_vlan;
    })

abbrev pub start_building : Building
start_building = record { ports = []; seen = []; any_vlan = false; any_plain = false }

infixl 5 ◌>>=◌
abbrev pub ◌>>=◌ {ℓ κ} : {A : Type ℓ} {B : Type κ} → Result A → (A → Result B) → Result B
ok a >>= f = f a
err e >>= f = err e

unfoldable pub new_engine : List PortConfig → List ℕ → Result Engine
unfolding finish
new_engine cfg ios =
    if not (length cfg == length ios)
    then err (handle_mismatch (length cfg) (length ios))
    else if length cfg == 0
    then err no_ports
    else add_ports 0 cfg ios start_building >>= finish
