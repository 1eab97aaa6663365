-- ===== src/Vlan/Rules.antt =====
-- internal/goswitch/vlan.go: the roles, `roleOf`, `portRole.String` and `port.classify`, with the
-- part of `port` (internal/goswitch/engine.go) that no frame changes.
use vibe_switch.Base.{
  ℕ, Bytes, codes, Bool, true, false, not, Option, none, some, List, [], ◌∷◌, ◌==◌, if◌then◌else◌,
}

pub data PortRole : Type 0 where
  plain access trunk : PortRole

-- `portRole.String`
unfoldable pub role_string : PortRole → Bytes
role_string access = codes "access"
role_string trunk = codes "trunk"
role_string plain = codes "plain"

-- `len(trunk) > 0` is the first case of the switch.
unfoldable pub role_of : ℕ → List ℕ → PortRole
role_of access_vid (v ∷ vs) = trunk
role_of access_vid [] = if not (access_vid == 0) then access else plain

-- A set of VIDs: Go's `map[uint16]bool` that holds only `true`.
abbrev pub contains : List ℕ → ℕ → Bool
contains [] v = false
contains (x ∷ xs) v = if x == v then true else contains xs v

-- Adding the VIDs of a list one by one; a VID that is there stays.
unfoldable pub add_all : List ℕ → List ℕ → List ℕ
add_all set [] = set
add_all set (v ∷ vs) = add_all (if contains set v then set else v ∷ set) vs

-- What is fixed at construction of a port; `io` is the identity of its handle.
pub record Wiring : Type 0 where
  pub idx : ℕ
  pub name : Bytes
  pub io : ℕ
  pub role : PortRole
  pub pvid : ℕ
  pub allow : List ℕ
  pub trunk_vids : List ℕ

classify_as : PortRole → Wiring → Bool → ℕ → Option ℕ
classify_as plain p has_tag tag_vid = some 0
classify_as access p has_tag tag_vid = if has_tag then none else some p.pvid
classify_as trunk p has_tag tag_vid =
    if not has_tag then none else if not (contains p.allow tag_vid) then none else some tag_vid

-- `none` is the source's `ok = false`: the frame is dropped.
unfoldable pub classify : Wiring → Bool → ℕ → Option ℕ
unfolding classify_as
classify p has_tag tag_vid = classify_as p.role p has_tag tag_vid

-- An independent description: the port is a member of a VLAN.
carries_as : PortRole → Wiring → ℕ → Bool
carries_as plain p vid = vid == 0
carries_as access p vid = vid == p.pvid
carries_as trunk p vid = contains p.allow vid

unfoldable pub carries : Wiring → ℕ → Bool
unfolding carries_as
carries p vid = carries_as p.role p vid
