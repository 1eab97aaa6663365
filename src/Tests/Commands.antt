-- ===== src/Tests/Commands.antt =====
-- The command line at sample arguments.
use vibe_switch.Base.{◌≡◌, ◌↔◌, refl, Bytes, not, ◌&&◌, All, [], ◌∷◌, List, length, ◌==◌, codes}
use vibe_switch.Engine.{PortConfig, new_engine}
use vibe_switch.Engine.Config.{is_ok, names_ok, some_vlan, some_plain}
use vibe_switch.Command.{
  parse_vid, trim_space, trim_left, cut, split, scan_uint, parse_uint16, parse_vids, split_name_vid,
  split_name_vids, set_flag, set_flags, ok, access_flag, trunk_flag, PortFlag,
}
use vibe_switch.Command.Vid.{IsVid, parse_vid_iff}
use vibe_switch.Command.Ports.{IsFlagConfig, is_ok-set_flags}

parse_vid_iff_example : (parse_vid (codes " 0042") ≡ ok 42) ↔ IsVid (trim_space (codes " 0042")) 42
parse_vid_iff_example = parse_vid_iff (codes " 0042") 42

abbrev pub flags : List (PortFlag × Bytes)
flags = (access_flag, codes "eth0:10") ∷ (trunk_flag, codes "eth2:10,20") ∷ []

collected : (cfgs : List PortConfig) × (set_flags flags [] ≡ ok cfgs)
unfolding set_flags set_flag split_name_vid split_name_vids parse_vids parse_vid cut split
    trim_space trim_left scan_uint parse_uint16
collected = (_, refl)

is_ok-set_flags_example :
    All IsFlagConfig collected.0
    × (length collected.0 ≡ length flags)
    × (is_ok (new_engine collected.0 (7 ∷ 8 ∷ [])) ≡ (
        not (length flags == 0)
        && names_ok collected.0
        && not (some_vlan collected.0 && some_plain collected.0)))
is_ok-set_flags_example = is_ok-set_flags flags collected.0 (7 ∷ 8 ∷ []) collected.1 refl
