-- ===== src/Engine/Step.antt =====
-- `forward` (internal/goswitch/engine.go) keeps the engine wired, and makes the writes that the
-- wiring and the table determine.
use vibe_switch.Base.{
  ℕ, ◌≡◌, refl, ◌∙◌, Bytes, Bool, Option, none, some, List, arith, if◌then◌else◌, Bool-cases,
  Option-cases, inl, inr, ◌>>=◌, Returns,
}
use vibe_switch.Base.Assoc.{lookup as map_lookup, insert-Entries, insert-Distinct, lookup-Entries}
use vibe_switch.Vlan.{Wiring, classify}
use vibe_switch.Fdb
use vibe_switch.Fdb.{Fdb, MacKey, mac_key_eq, Entry}
use vibe_switch.Fdb.Laws.{learn_lem}
use vibe_switch.Frame.{Gopacket, FrameParser, FrameView, frame_view, is_group, copy_mac}
use vibe_switch.Engine.{
  Port, PortStats, Engine, Write, wirings, members, bump, learn_source, count_rx, flood, flood_loop,
  switch_frame, route,
}
use vibe_switch.Engine.Wired.{IsWired, IsMember, IsLearned, wirings-modify, wirings-bump}
use vibe_switch.Engine.Deliver.{
  tally, wirings-tally, fdb-tally, vid_members-tally, deliver_all, deliver_one, flood_loop_lem,
  send_known_lem,
}

-- A change that touches only counters and decoders keeps an engine wired.
pub unchanged-IsWired :
    (e e' : Engine)
    → wirings e' ≡ wirings e
    → e'.vid_members ≡ e.vid_members
    → e'.fdb ≡ e.fdb
    → IsWired e
    → IsWired e'
unfolding members
unchanged-IsWired e e' w m f v = record {
  indexed = rw w v.indexed;
  member_lists = λ vid. rw (w, m) (v.member_lists vid);
  learned = rw (w, f) v.learned;
  is_map = rw f v.is_map;
}

pub bump-IsWired :
    (i : ℕ) (f : PortStats → PortStats) (e : Engine) → IsWired e → IsWired (bump i f e)
bump-IsWired i f e = unchanged-IsWired e (bump i f e) (wirings-bump i f e) refl refl

pub wirings-count_rx :
    (e : Engine) (i : ℕ) (frame : Bytes) (fp : FrameParser)
    → wirings (count_rx e i frame fp) ≡ wirings e
unfolding count_rx
wirings-count_rx e i frame fp = wirings-modify e.ports i _ (λ p. refl)

pub count_rx-IsWired :
    (e : Engine) (i : ℕ) (frame : Bytes) (fp : FrameParser)
    → IsWired e
    → IsWired (count_rx e i frame fp)
unfolding count_rx
count_rx-IsWired e i frame fp =
    unchanged-IsWired e _ (wirings-modify e.ports i _ (λ p. refl)) refl refl

pub tally-IsWired : (e : Engine) (ws : List Write) → IsWired e → IsWired (tally e ws)
tally-IsWired e ws =
    unchanged-IsWired e (tally e ws) (wirings-tally e ws) (vid_members-tally e ws) (fdb-tally e ws)

-- Learning at a member port.
pub learn_source-IsWired :
    (e : Engine) (i : ℕ) (fv : FrameView) (vid now : ℕ)
    → IsMember (wirings e) vid i
    → IsWired e
    → IsWired (learn_source e i fv vid now)
unfolding learn_source members
learn_source-IsWired e i fv vid now m v = elim (Bool-cases (is_group fv.src)) [
  | inl group ↦ rw group v
  | inr single ↦
      rw (single, learn_lem)
        (record {
          indexed = v.indexed;
          member_lists = v.member_lists;
          learned = insert-Entries (IsLearned (wirings e)) _ _ e.fdb.table m v.learned;
          is_map = insert-Distinct _ _ e.fdb.table v.is_map;
        })
]

wirings-learn_source :
    (e : Engine) (i : ℕ) (fv : FrameView) (vid now : ℕ)
    → wirings (learn_source e i fv vid now) ≡ wirings e
unfolding learn_source
wirings-learn_source e i fv vid now = ground arith

-- An answer of the table is a member of the VLAN.
pub lookup-IsMember :
    (e : Engine) (vid : ℕ) (mac : Bytes) (now : ℕ) {out : ℕ}
    → IsWired e
    → Fdb.lookup e.fdb vid mac now ≡ some out
    → IsMember (wirings e) vid out
unfolding Fdb.lookup
lookup-IsMember e vid mac now {out} v h =
    elim (Option-cases (map_lookup (record { vid = vid; mac = mac }) e.fdb.table)) [
      | inl miss ↦ absurd (ground arith)
      | inr (en, hit) ↦
          let same : en.port_idx ≡ out = ground arith in
          rw same at (lookup-Entries (IsLearned (wirings e)) _ e.fdb.table v.learned hit)
    ]

-- The frame as the engine reads it: its view and its VLAN, or a drop.
abbrev pub classified : Gopacket → Port → Bytes → Option (FrameView × ℕ)
classified g p frame = do
  fv ← frame_view (g.decode_layers frame p.parser) frame
  vid ← classify p.wiring fv.has_tag fv.tag_vid
  some (fv, vid)

-- The table once the source address has been noted.
abbrev pub fdb_after : Fdb → ℕ → FrameView → ℕ → ℕ → Fdb
fdb_after f i fv vid now = if is_group fv.src then f else Fdb.learn f vid (copy_mac fv.src) i now

fdb-learn_source :
    (e : Engine) (i : ℕ) (fv : FrameView) (vid now : ℕ)
    → (learn_source e i fv vid now).fdb ≡ fdb_after e.fdb i fv vid now
unfolding learn_source
fdb-learn_source e i fv vid now = ground arith

-- The port that the table gives for the destination; `none` for a group address or a miss.
abbrev pub destination : Fdb → FrameView → ℕ → ℕ → Option ℕ
destination f fv vid now = if is_group fv.dst then none else Fdb.lookup f vid (copy_mac fv.dst) now

-- The outcome of switching: the writes, the table, and the invariant with the wiring kept.
pub record Switched (e : Engine) (fdb : Fdb) (ds : List Write) (r : Engine × List Write)
    : Type 0 where
  pub writes : r.1 ≡ ds
  pub wired : IsWired r.0
  pub same_ports : wirings r.0 ≡ wirings e
  pub table : r.0.fdb ≡ fdb

pub destination-IsMember :
    (e : Engine) (fv : FrameView) (vid now out : ℕ)
    → IsWired e
    → destination e.fdb fv vid now ≡ some out
    → IsMember (wirings e) vid out
destination-IsMember e fv vid now out v h =
    lookup-IsMember e vid (copy_mac fv.dst) now v (ground arith)

module _ (g : Gopacket) (takes : ℕ → Bytes → Bool) where
  -- The specification of a switch: one write to the port of a known destination, unless it is the
  -- ingress port; otherwise one write to each other member of the VLAN.
  abbrev pub deliveries_to : Option ℕ → List Wiring → ℕ → FrameView → ℕ → List Write
  deliveries_to (some out) ws i fv vid = deliver_one g takes fv vid i out ws
  deliveries_to none ws i fv vid = deliver_all g takes fv vid i ws

  tally-Switched :
      (e₀ e : Engine) (ds : List Write)
      → IsWired e
      → wirings e ≡ wirings e₀
      → Switched e₀ e.fdb ds (tally e ds, ds)
  tally-Switched e₀ e ds v w = record {
    writes = refl;
    wired = tally-IsWired e ds v;
    same_ports = wirings-tally e ds ∙ w;
    table = fdb-tally e ds;
  }

  flood_loop-Switched :
      (e₀ e : Engine) (i : ℕ) (fv : FrameView) (vid : ℕ)
      → IsWired e
      → wirings e ≡ wirings e₀
      → Returns
          (flood_loop g takes e i fv vid (members e vid))
          (Switched e₀ e.fdb (deliver_all g takes fv vid i (wirings e₀)))
  flood_loop-Switched e₀ e i fv vid v w =
      rw (v.member_lists vid, flood_loop_lem g takes fv vid i e v.indexed, ← w)
        (tally-Switched e₀ e (deliver_all g takes fv vid i (wirings e)) v w)

  route-Switched :
      (e₀ e : Engine) (i : ℕ) (fv : FrameView) (vid : ℕ) (o : Option ℕ)
      → IsWired e
      → wirings e ≡ wirings e₀
      → ((out : ℕ) → o ≡ some out → IsMember (wirings e) vid out)
      → Returns
          (route g takes o e i fv vid)
          (Switched e₀ e.fdb (deliveries_to o (wirings e₀) i fv vid))
  unfolding route flood
  route-Switched e₀ e i fv vid none v w m =
      flood_loop-Switched e₀ (bump i _ e) i fv vid (bump-IsWired i _ e v) (wirings-bump i _ e ∙ w)
  route-Switched e₀ e i fv vid (some out) v w m =
      rw (send_known_lem g takes fv vid i e out (m out refl), ← w)
        (tally-Switched e₀ e (deliver_one g takes fv vid i out (wirings e)) v w)

  pub switch_frame-Switched :
      (e₀ e : Engine) (i : ℕ) (fv : FrameView) (vid now : ℕ)
      → IsWired e
      → wirings e ≡ wirings e₀
      → IsMember (wirings e) vid i
      → let fdb = fdb_after e.fdb i fv vid now in
        Returns
          (switch_frame g takes e i fv vid now)
          (Switched e₀ fdb (deliveries_to (destination fdb fv vid now) (wirings e₀) i fv vid))
  unfolding switch_frame
  switch_frame-Switched e₀ e i fv vid now v w m =
      let e' = learn_source e i fv vid now in
      rw (← fdb-learn_source e i fv vid now) (
        route-Switched e₀ e' i fv vid (destination e'.fdb fv vid now)
          (learn_source-IsWired e i fv vid now m v) (wirings-learn_source e i fv vid now ∙ w)
          (λ out. destination-IsMember e' fv vid now out (learn_source-IsWired e i fv vid now m v)))
