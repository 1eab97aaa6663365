-- ===== src/Command/Vid.antt =====
-- What `parseVID` (cmd/vibe-switch/main.go) accepts.
use vibe_switch.Base.{
  ℕ, ◌+◌, ◌-◌, ◌*◌, ◌≤◌, ◌≡◌, ◌≢◌, ◌↔◌, refl, Bytes, Bool, true, ◌&&◌, none, some, [], ◌∷◌, arith,
  leb, if◌then◌else◌,
}
use vibe_switch.Command.{trim_space, scan_uint, parse_uint16, parse_vid, ok, max_u16}

-- Every character is a decimal digit.
abbrev pub decimal : Bytes → Bool
decimal [] = true
decimal (digit ∷ text) = (leb b'0' digit && leb digit b'9') && decimal text

-- The number that a text of digits spells behind the number `seen`.
abbrev pub spelt : ℕ → Bytes → ℕ
spelt seen [] = seen
spelt seen (digit ∷ text) = spelt (seen * 10 + (digit - b'0')) text

-- A decimal number of a VLAN: digits that spell a number from 1 to 4094.
abbrev pub IsVid : Bytes → ℕ → Type 0
IsVid text vid =
    (text ≢ []) × (decimal text ≡ true) × (spelt 0 text ≡ vid) × (1 ≤ vid) × (vid ≤ 4094)

spelt_grows : (text : Bytes) (seen : ℕ) → seen ≤ spelt seen text
spelt_grows [] seen = omega arith
spelt_grows (digit ∷ text) seen = omega (arith, spelt_grows text (seen * 10 + (digit - b'0')))

-- The loop gives the number that is spelt, unless it meets another character or leaves 16 bits.
scan_uint_lem :
    (text : Bytes) (seen : ℕ)
    → seen ≤ max_u16
    → scan_uint text seen
      ≡ (if decimal text && leb (spelt seen text) max_u16 then some (spelt seen text) else none)
unfolding scan_uint
scan_uint_lem [] seen small = ground arith
scan_uint_lem (digit ∷ text) seen small =
    let sum = seen * 10 + (digit - b'0') in
    ground (arith, scan_uint_lem text sum, spelt_grows text sum)

vid_of_text : (text : Bytes) (vid : ℕ) → IsVid text vid → parse_uint16 text ≡ some vid
unfolding parse_uint16
vid_of_text [] vid v = absurd (v.0 refl)
vid_of_text (digit ∷ text) vid (filled, digits, number, low, high) =
    ground (arith, scan_uint_lem (digit ∷ text) 0 (omega arith))

parse_uint16-IsVid :
    (text : Bytes) (vid : ℕ) → parse_uint16 text ≡ some vid → 1 ≤ vid → vid ≤ 4094 → IsVid text vid
unfolding parse_uint16
parse_uint16-IsVid [] vid got low high = absurd (ground arith)
parse_uint16-IsVid (digit ∷ text) vid got low high =
    let run = scan_uint_lem (digit ∷ text) 0 (omega arith) in
    ((λ gone. absurd (ground arith)), ground arith, ground arith, low, high)

-- `parseVID` accepts exactly the texts that are, without the white space around them, decimal
-- numbers from 1 to 4094, leading zeros allowed, and returns that number.
pub parse_vid_iff : (s : Bytes) (n : ℕ) → (parse_vid s ≡ ok n) ↔ IsVid (trim_space s) n
unfolding parse_vid
parse_vid_iff s n = (
  λ accepted. ground (arith, parse_uint16-IsVid (trim_space s) n),
  λ v. ground (arith, vid_of_text (trim_space s) n v),
)
