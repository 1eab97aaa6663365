-- ===== src/Engine/Config.antt =====
-- Which configurations `NewEngine` (internal/goswitch/engine.go) accepts.
use vibe_switch.Base.{
  ℕ, suc, ◌≡◌, refl, ◌∙◌, Bytes, Bool, true, false, not, ◌&&◌, ◌||◌, none, some, List, [], ◌∷◌,
  ◌==◌, length, map, arith, Bool-cases, Option-cases, inl, inr, bytes_eq,
}
use vibe_switch.Vlan.{role_of}
use vibe_switch.Engine.{
  PortConfig, ConfigError, config_error, Result, ok, err, Building, seen_name, is_empty, has_trunk,
  is_plain, make_port, push_port, add_ports, finish, new_engine, start_building, ◌>>=◌,
}

abbrev pub is_ok {ℓ} : {A : Type ℓ} → Result A → Bool
is_ok (ok a) = true
is_ok (err x) = false

-- Every port has a name, and no two have the same.
abbrev pub names_ok : List PortConfig → Bool
names_ok [] = true
names_ok (c ∷ cs) =
    not (is_empty c.name) && not (seen_name (map (λ d. d.name) cs) c.name) && names_ok cs

-- No port is both an access port and a trunk.
abbrev pub roles_ok : List PortConfig → Bool
roles_ok [] = true
roles_ok (c ∷ cs) = not (not (c.access_vid == 0) && has_trunk c.trunk_vids) && roles_ok cs

abbrev pub some_vlan : List PortConfig → Bool
some_vlan [] = false
some_vlan (c ∷ cs) = not (is_plain (role_of c.access_vid c.trunk_vids)) || some_vlan cs

abbrev pub some_plain : List PortConfig → Bool
some_plain [] = false
some_plain (c ∷ cs) = is_plain (role_of c.access_vid c.trunk_vids) || some_plain cs

-- The configurations of a switch: as many handles as ports, at least one port, names that are
-- there and differ, no port with two roles, and no plain port beside a VLAN port.
unfoldable pub valid_config : List PortConfig → List ℕ → Bool
valid_config cfg ios =
    (length cfg == length ios)
    && not (length cfg == 0)
    && names_ok cfg
    && roles_ok cfg
    && not (some_vlan cfg && some_plain cfg)

-- No port has a name of the list.
abbrev fresh : List Bytes → List PortConfig → Bool
fresh seen [] = true
fresh seen (c ∷ cs) = not (seen_name seen c.name) && fresh seen cs

pub bytes_eq_comm : (x y : Bytes) → bytes_eq x y ≡ bytes_eq y x
bytes_eq_comm [] [] = refl
bytes_eq_comm [] (b ∷ y) = refl
bytes_eq_comm (a ∷ x) [] = refl
bytes_eq_comm (a ∷ x) (b ∷ y) = ground (arith, bytes_eq_comm x y)

fresh-cons :
    (n : Bytes) (seen : List Bytes) (cs : List PortConfig)
    → fresh (n ∷ seen) cs ≡ (fresh seen cs && not (seen_name (map (λ d. d.name) cs) n))
fresh-cons n seen [] = refl
fresh-cons n seen (c ∷ cs) = ground (arith, fresh-cons n seen cs, bytes_eq_comm n c.name)

fresh-nil : (cs : List PortConfig) → fresh [] cs ≡ true
fresh-nil [] = refl
fresh-nil (c ∷ cs) = fresh-nil cs

role-make_port :
    (i : ℕ) (c : PortConfig) (io : ℕ) → (make_port i c io).role ≡ role_of c.access_vid c.trunk_vids
unfolding make_port role_of
role-make_port i c io = ground arith

-- The checks that a port passes in the loop.
passes : PortConfig → List Bytes → Bool
passes c seen =
    not (is_empty c.name)
    && not (seen_name seen c.name)
    && not (not (c.access_vid == 0) && has_trunk c.trunk_vids)

config_error_of_passes :
    (i : ℕ) (c : PortConfig) (seen : List Bytes)
    → passes c seen ≡ true
    → config_error i c seen ≡ none
unfolding passes
config_error_of_passes i c seen h = ground arith

config_error_of_fails :
    (i : ℕ) (c : PortConfig) (seen : List Bytes)
    → passes c seen ≡ false
    → (x : ConfigError) × (config_error i c seen ≡ some x)
unfolding passes
config_error_of_fails i c seen h = elim (Option-cases (config_error i c seen)) [
  | inl accepted ↦ absurd (ground arith)
  | inr found ↦ found
]

or_assoc : (a b c : Bool) → ((a || b) || c) ≡ (a || (b || c))
or_assoc a b c = ground arith

-- Regrouping the checks of one port with those of the rest.
regroup :
    (e s b n f o r m : Bool)
    → (not e && not s && not b) ≡ true
    → (n && (f && not o) && r && m) ≡ ((not e && not o && n) && (not s && f) && (not b && r) && m)
regroup e s b n f o r m h = ground arith

refused :
    (e s b n f o r m : Bool)
    → (not e && not s && not b) ≡ false
    → false ≡ ((not e && not o && n) && (not s && f) && (not b && r) && m)
refused e s b n f o r m h = ground arith

mixes : Building → List PortConfig → Bool
mixes b cs = not ((b.any_vlan || some_vlan cs) && (b.any_plain || some_plain cs))

mixes-push_port :
    (i : ℕ) (c : PortConfig) (io : ℕ) (b : Building) (cs : List PortConfig)
    → mixes (push_port i c io b) cs ≡ mixes b (c ∷ cs)
unfolding mixes
mixes-push_port i c io b cs = rw (role-make_port i c io, or_assoc b.any_vlan, or_assoc b.any_plain)

is_ok-add_ports :
    (i : ℕ) (cs : List PortConfig) (ios : List ℕ) (b : Building)
    → length cs ≡ length ios
    → is_ok (add_ports i cs ios b >>= finish)
      ≡ (names_ok cs && fresh b.seen cs && roles_ok cs && mixes b cs)
unfolding add_ports
is_ok-add_ports i [] ios b h = unfold finish mixes in ground arith
is_ok-add_ports i (c ∷ cs) [] b h = absurd (omega arith)
is_ok-add_ports i (c ∷ cs) (io ∷ ios) b h = elim (Bool-cases (passes c b.seen)) [
  | inl good ↦
      rw (config_error_of_passes i c b.seen good, add_ports)
        (is_ok-add_ports (suc i) cs ios (push_port i c io b) (omega arith)
          ∙ rw (fresh-cons, mixes-push_port)
              (unfold passes in
                regroup (is_empty c.name) (seen_name b.seen c.name) _ (names_ok cs)
                  (fresh b.seen cs) _ (roles_ok cs) (mixes b (c ∷ cs)) good))
  | inr bad ↦
      let (x, found) = config_error_of_fails i c b.seen bad in
      rw (found, add_ports)
        (unfold passes in
          refused (is_empty c.name) (seen_name b.seen c.name) _ (names_ok cs) (fresh b.seen cs) _
            (roles_ok cs) (mixes b (c ∷ cs)) bad)
]

-- `NewEngine` returns an engine exactly for the valid configurations, and an error for all others.
pub is_ok-new_engine :
    (cfg : List PortConfig) (ios : List ℕ) → is_ok (new_engine cfg ios) ≡ valid_config cfg ios
unfolding new_engine valid_config mixes
is_ok-new_engine cfg ios = elim (Bool-cases (length cfg == length ios)) [
  | inl same ↦ ground (arith, is_ok-add_ports 0 cfg ios start_building, fresh-nil cfg)
  | inr differ ↦ ground arith
]
