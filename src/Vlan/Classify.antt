-- ===== src/Vlan/Classify.antt =====
-- What `classify` (internal/goswitch/vlan.go) accepts.
use vibe_switch.Base.{ℕ, ◌≡◌, Bool, true, ◌&&◌, not, none, some, arith, if◌then◌else◌}
use vibe_switch.Vlan.Rules.{PortRole, plain, access, trunk, Wiring, classify, carries}

-- The tag state that an ingress port wants, by its role; a plain port takes any frame.
abbrev pub accepts_tag : PortRole → Bool → Bool
accepts_tag plain has_tag = true
accepts_tag access has_tag = not has_tag
accepts_tag trunk has_tag = has_tag

abbrev pub vid_of : PortRole → Wiring → ℕ → ℕ
vid_of plain p tag_vid = 0
vid_of access p tag_vid = p.pvid
vid_of trunk p tag_vid = tag_vid

-- A frame is classified exactly when its tag state suits the role and the port is a member of
-- the VLAN that the role gives; it is then put in that VLAN, and dropped otherwise.
pub classify_lem :
    (p : Wiring) (has_tag : Bool) (tag_vid : ℕ)
    → let vid = vid_of p.role p tag_vid in
      classify p has_tag tag_vid
      ≡ (if accepts_tag p.role has_tag && carries p vid then some vid else none)
unfolding classify carries
classify_lem p has_tag tag_vid = ground arith

-- A classified frame is in a VLAN that the ingress port carries.
pub classify-carries :
    (p : Wiring) (has_tag : Bool) (tag_vid : ℕ) {vid : ℕ}
    → classify p has_tag tag_vid ≡ some vid
    → carries p vid ≡ true
unfolding classify carries
classify-carries p has_tag tag_vid h = ground arith
