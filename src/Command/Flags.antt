-- ===== src/Command/Flags.antt =====
-- cmd/vibe-switch/main.go: `parseVID`, `splitNameVID`, `splitNameVIDs` and `portCollector.Set`.
use vibe_switch.Base.{
  ℕ, Bytes, ◌||◌, Option, none, some, List, [], ◌∷◌, ◌++◌, ◌==◌, ltb, if◌then◌else◌,
}
use vibe_switch.Engine.{PortConfig, is_empty}
use vibe_switch.Command.Text.{trim_space, cut, split, parse_uint16}

-- The text that the message quotes.
pub data FlagError : Type 0 where
  expected_vid : Bytes → FlagError
  expected_vids : Bytes → FlagError
  invalid_vid : Bytes → FlagError
  no_vids : Bytes → FlagError

pub data Result {ℓ} (A : Type ℓ) : Type ℓ where
  ok : A → Result A
  err : FlagError → Result A

infixl 5 ◌>>=◌
abbrev pub ◌>>=◌ {ℓ κ} : {A : Type ℓ} {B : Type κ} → Result A → (A → Result B) → Result B
ok a >>= f = f a
err e >>= f = err e

vid_of : Bytes → Option ℕ → Result ℕ
vid_of s none = err (invalid_vid s)
vid_of s (some n) = if (n == 0) || ltb 4094 n then err (invalid_vid s) else ok n

unfoldable pub parse_vid : Bytes → Result ℕ
unfolding vid_of
parse_vid s = vid_of s (parse_uint16 (trim_space s))

unfoldable pub split_name_vid : Bytes → Result (Bytes × ℕ)
split_name_vid s = elim (cut s b':') [
  | none ↦ err (expected_vid s)
  | some (name, rest) ↦
      if is_empty name then err (expected_vid s) else do vid ← parse_vid rest; ok (name, vid)
]

-- The loop over the parts; it stops at the first that is no VID.
unfoldable pub parse_vids : List Bytes → Result (List ℕ)
parse_vids [] = ok []
parse_vids (part ∷ parts) = do vid ← parse_vid part; vids ← parse_vids parts; ok (vid ∷ vids)

abbrev pub or_no_vids : Bytes → Bytes → List ℕ → Result (Bytes × List ℕ)
or_no_vids s name [] = err (no_vids s)
or_no_vids s name (v ∷ vs) = ok (name, v ∷ vs)

unfoldable pub split_name_vids : Bytes → Result (Bytes × List ℕ)
split_name_vids s = elim (cut s b':') [
  | none ↦ err (expected_vids s)
  | some (name, rest) ↦
      if is_empty name
      then err (expected_vids s)
      else do vids ← parse_vids (split rest b','); or_no_vids s name vids
]

-- The three flags that a `portCollector` stands behind.
pub data PortFlag : Type 0 where
  plain_flag access_flag trunk_flag : PortFlag

-- `portCollector.Set`: the configs collected so far, and one more.
unfoldable pub set_flag : PortFlag → Bytes → List PortConfig → Result (List PortConfig)
set_flag plain_flag v cfgs = ok (cfgs ++ record { name = v; access_vid = 0; trunk_vids = [] } ∷ [])
set_flag access_flag v cfgs = do
  (name, vid) ← split_name_vid v
  ok (cfgs ++ record { name = name; access_vid = vid; trunk_vids = [] } ∷ [])
set_flag trunk_flag v cfgs = do
  (name, vids) ← split_name_vids v
  ok (cfgs ++ record { name = name; access_vid = 0; trunk_vids = vids } ∷ [])

-- `fs.Parse` on the port flags, in the order of the command line.
unfoldable pub set_flags : List (PortFlag × Bytes) → List PortConfig → Result (List PortConfig)
set_flags [] cfgs = ok cfgs
set_flags ((f, v) ∷ fs) cfgs = do cfgs' ← set_flag f v cfgs; set_flags fs cfgs'
