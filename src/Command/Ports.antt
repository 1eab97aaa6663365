-- ===== src/Command/Ports.antt =====
-- The configs that the port flags of cmd/vibe-switch/main.go collect, and what `NewEngine`
-- (internal/goswitch/engine.go) makes of them.
use vibe_switch.Base.{
  ℕ, ◌+◌, ◌≤◌, ◌≡◌, ◌⊎◌, refl, ap, Bytes, true, not, ◌&&◌, List, [], ◌∷◌, ◌++◌, ◌==◌, All,
  All-append, length, length-append, arith, Option-cases, inl, inr,
}
use mathlib.Core.Path.{subst}
use vibe_switch.Engine.{PortConfig, new_engine}
use vibe_switch.Engine.Config.{
  is_ok, is_ok-new_engine, valid_config, names_ok, roles_ok, some_vlan, some_plain,
}
use vibe_switch.Command.{
  Result, FlagError, ok, err, ◌>>=◌, or_no_vids, cut, split, parse_vid, parse_vids, split_name_vid,
  split_name_vids, PortFlag, plain_flag, access_flag, trunk_flag, set_flag, set_flags,
}
use vibe_switch.Command.Vid.{parse_vid_iff}

abbrev pub IsVlan : ℕ → Type 0
IsVlan v = (1 ≤ v) × (v ≤ 4094)

-- A plain port, an access port of a VLAN, or a trunk of one or more VLANs.
abbrev pub IsFlagConfig : PortConfig → Type 0
IsFlagConfig c =
    ((c.access_vid ≡ 0) ⊎ (IsVlan c.access_vid × (c.trunk_vids ≡ []))) × All IsVlan c.trunk_vids

-- Inversion of a successful bind.
>>=-eq-ok {ℓ κ} :
    {A : Type ℓ} {B : Type κ} (m : Result A) (f : A → Result B) (b : B)
    → (m >>= f) ≡ ok b
    → (a : A) × (m ≡ ok a) × (f a ≡ ok b)
>>=-eq-ok (ok a) f b h = (a, refl, h)
>>=-eq-ok (err x) f b h = cc

pub Result-cases {ℓ} :
    {A : Type ℓ} (r : Result A) → ((a : A) × (r ≡ ok a)) ⊎ ((x : FlagError) × (r ≡ err x))
Result-cases (ok a) = inl (a, refl)
Result-cases (err x) = inr (x, refl)

ok_or {ℓ} : {A : Type ℓ} → A → Result A → A
ok_or a (ok b) = b
ok_or a (err x) = a

ok_inj {ℓ} : {A : Type ℓ} {a b : A} → ok a ≡ ok b → a ≡ b
unfolding ok_or
ok_inj {a} h = ap (ok_or a) h

or_no_vids_inj : (s n name : Bytes) (ws vs : List ℕ) → or_no_vids s n ws ≡ ok (name, vs) → ws ≡ vs
or_no_vids_inj s n name [] vs h = cc
or_no_vids_inj s n name (w ∷ ws) vs h = ap (λ (x : Bytes × List ℕ). x.1) (ok_inj h)

appended :
    (cfgs : List PortConfig) (c : PortConfig) (cfgs' : List PortConfig)
    → (cfgs ++ c ∷ []) ≡ cfgs'
    → IsFlagConfig c
    → All IsFlagConfig cfgs
    → All IsFlagConfig cfgs' × (length cfgs' ≡ length cfgs + 1)
appended cfgs c cfgs' h good goods = (
  subst (All IsFlagConfig) h (All-append IsFlagConfig cfgs (c ∷ []) goods (good, tt)),
  omega (arith, ap length h, length-append cfgs (c ∷ [])),
)

parse_vid-IsVlan : (s : Bytes) (v : ℕ) → parse_vid s ≡ ok v → IsVlan v
parse_vid-IsVlan s v h = let (a, b, c, low, high) = (parse_vid_iff s v).0 h in (low, high)

parse_vids-IsVlan : (parts : List Bytes) (vs : List ℕ) → parse_vids parts ≡ ok vs → All IsVlan vs
unfolding parse_vids
parse_vids-IsVlan [] vs h = ground arith
parse_vids-IsVlan (part ∷ parts) vs h =
    let (v, first, others) = >>=-eq-ok (parse_vid part) _ vs h in
    let (rest, tail, whole) = >>=-eq-ok (parse_vids parts) _ vs others in
    subst (All IsVlan) (ok_inj whole)
      (parse_vid-IsVlan part v first, parse_vids-IsVlan parts rest tail)

split_name_vid-IsVlan : (s name : Bytes) (v : ℕ) → split_name_vid s ≡ ok (name, v) → IsVlan v
unfolding split_name_vid
split_name_vid-IsVlan s name v h = elim (Option-cases (cut s b':')) [
  | inl missing ↦ absurd (ground arith)
  | inr ((n, rest), found) ↦ elim (Result-cases (parse_vid rest)) [
    | inl (w, good) ↦ subst IsVlan (ground arith) (parse_vid-IsVlan rest w good)
    | inr (x, bad) ↦ absurd (ground arith)
  ]
]

split_name_vids-IsVlan :
    (s name : Bytes) (vs : List ℕ) → split_name_vids s ≡ ok (name, vs) → All IsVlan vs
unfolding split_name_vids
split_name_vids-IsVlan s name vs h = elim (Option-cases (cut s b':')) [
  | inl missing ↦ absurd (ground arith)
  | inr ((n, rest), found) ↦ elim (Result-cases (parse_vids (split rest b','))) [
    | inl (ws, good) ↦
        subst (All IsVlan) (or_no_vids_inj s n name ws vs (ground arith))
          (parse_vids-IsVlan _ ws good)
    | inr (x, bad) ↦ absurd (ground arith)
  ]
]

set_flag-IsFlagConfig :
    (f : PortFlag) (v : Bytes) (cfgs cfgs' : List PortConfig)
    → set_flag f v cfgs ≡ ok cfgs'
    → All IsFlagConfig cfgs
    → All IsFlagConfig cfgs' × (length cfgs' ≡ length cfgs + 1)
unfolding set_flag
set_flag-IsFlagConfig plain_flag v cfgs cfgs' h good =
    appended cfgs _ cfgs' (ok_inj h) (inl refl, tt) good
set_flag-IsFlagConfig access_flag v cfgs cfgs' h good =
    let ((name, vid), split, whole) = >>=-eq-ok (split_name_vid v) _ cfgs' h in
    appended cfgs _ cfgs' (ok_inj whole) (inr (split_name_vid-IsVlan v name vid split, refl), tt)
      good
set_flag-IsFlagConfig trunk_flag v cfgs cfgs' h good =
    let ((name, vids), split, whole) = >>=-eq-ok (split_name_vids v) _ cfgs' h in
    appended cfgs _ cfgs' (ok_inj whole) (inl refl, split_name_vids-IsVlan v name vids split) good

pub set_flags-IsFlagConfig :
    (fs : List (PortFlag × Bytes)) (cfgs cfgs' : List PortConfig)
    → set_flags fs cfgs ≡ ok cfgs'
    → All IsFlagConfig cfgs
    → All IsFlagConfig cfgs' × (length cfgs' ≡ length cfgs + length fs)
unfolding set_flags
set_flags-IsFlagConfig [] cfgs cfgs' h good =
    (subst (All IsFlagConfig) (ok_inj h) good, omega (arith, ap length (ok_inj h)))
set_flags-IsFlagConfig ((f, v) ∷ fs) cfgs cfgs' h good =
    let (mid, first, others) = >>=-eq-ok (set_flag f v cfgs) _ cfgs' h in
    let (good', longer) = set_flag-IsFlagConfig f v cfgs mid first good in
    let (good'', longest) = set_flags-IsFlagConfig fs mid cfgs' others good' in
    (good'', omega (arith, longer, longest))

roles_ok_of_flags : (cfgs : List PortConfig) → All IsFlagConfig cfgs → roles_ok cfgs ≡ true
roles_ok_of_flags [] h = refl
roles_ok_of_flags (c ∷ cs) h = ground (arith, roles_ok_of_flags cs h.1)

-- The configs that the port flags collect are one for each flag, their VIDs lie from 1 to 4094 and
-- none has two roles; so, with a handle for each, `NewEngine` refuses them only for an empty or
-- repeated name, for a plain port beside a VLAN port, or if there is no flag.
pub is_ok-set_flags :
    (fs : List (PortFlag × Bytes)) (cfgs : List PortConfig) (ios : List ℕ)
    → set_flags fs [] ≡ ok cfgs
    → length ios ≡ length fs
    → All IsFlagConfig cfgs
      × (length cfgs ≡ length fs)
      × (is_ok (new_engine cfgs ios)
          ≡ (not (length fs == 0) && names_ok cfgs && not (some_vlan cfgs && some_plain cfgs)))
unfolding valid_config
is_ok-set_flags fs cfgs ios h same =
    let (good, longer) = set_flags-IsFlagConfig fs [] cfgs h tt in
    (
      good,
      omega (arith, longer),
      ground (arith, is_ok-new_engine cfgs ios, roles_ok_of_flags cfgs good, longer),
    )
