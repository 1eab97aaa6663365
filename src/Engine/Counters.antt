-- ===== src/Engine/Counters.antt =====
-- The counters of the ports (internal/goswitch/stats.go) against what `forward`
-- (internal/goswitch/engine.go) did.
use vibe_switch.Base.{
  ℕ, zero, suc, ◌+◌, ◌%◌, ◌^◌, ◌≡◌, refl, Bytes, Bool, true, false, ◌&&◌, not, some, List, [], ◌∷◌,
  ◌++◌, ◌==◌, length, map, modify, get_elem?, arith, Bool-cases, Option-cases, inl, inr,
  if◌then◌else◌,
}
use vibe_switch.Frame.{Gopacket, FrameParser, FrameView}
use vibe_switch.Engine.{
  Port, PortStats, Engine, Write, add64, bump, count_tx, count_rx, flood_loop, send_known, emit,
  emit_at,
}
use vibe_switch.Engine.Deliver.{tally, count_write}

abbrev pub ledger : Engine → List PortStats
ledger e = map (λ (p : Port). p.stats) e.ports

-- Equal as counters of 64 bits.
abbrev pub Counts : ℕ → ℕ → Type 0
Counts a b = a % 2 ^ 64 ≡ b % 2 ^ 64

-- The writes to a port that were taken, and those that were refused.
abbrev pub taken : ℕ → List Write → ℕ
taken i [] = 0
taken i (w ∷ ws) = (if (w.port == i) && w.accepted then 1 else 0) + taken i ws

abbrev pub refused : ℕ → List Write → ℕ
refused i [] = 0
refused i (w ∷ ws) = (if (w.port == i) && not w.accepted then 1 else 0) + refused i ws

-- The bytes of the writes to a port that were taken.
abbrev pub taken_bytes : ℕ → List Write → ℕ
taken_bytes i [] = 0
taken_bytes i (w ∷ ws) =
    (if (w.port == i) && w.accepted then length w.pkt else 0) + taken_bytes i ws

-- What happened to a port: the frames that arrived there and their bytes, and how many of them were
-- flooded and dropped.
pub record Happened : Type 0 where
  pub frames : ℕ
  pub bytes : ℕ
  pub flooded : ℕ
  pub dropped : ℕ

abbrev pub nothing : Happened
nothing = record { frames = 0; bytes = 0; flooded = 0; dropped = 0 }

abbrev pub both : Happened → Happened → Happened
both m n = record {
  frames = m.frames + n.frames;
  bytes = m.bytes + n.bytes;
  flooded = m.flooded + n.flooded;
  dropped = m.dropped + n.dropped;
}

-- A port's counters before and after that happened to it, and some writes were made.
pub record IsBooked (i : ℕ) (m : Happened) (ws : List Write) (s t : PortStats) : Type 0 where
  pub rx_frames : Counts t.rx_frames (s.rx_frames + m.frames)
  pub rx_bytes : Counts t.rx_bytes (s.rx_bytes + m.bytes)
  pub tx_frames : Counts t.tx_frames (s.tx_frames + taken i ws)
  pub tx_bytes : Counts t.tx_bytes (s.tx_bytes + taken_bytes i ws)
  pub flooded : Counts t.flooded (s.flooded + m.flooded)
  pub forward_drop : Counts t.forward_drop (s.forward_drop + m.dropped)
  pub tx_drop : Counts t.tx_drop (s.tx_drop + refused i ws)

pub IsBooked-nothing : (i : ℕ) (s : PortStats) → IsBooked i nothing [] s s
IsBooked-nothing i s = omega arith

-- The same of the counters of the port at an index of an engine.
abbrev pub Booked : ℕ → Happened → List Write → Engine → Engine → Type 0
Booked i m ws e e' =
    (s : PortStats)
    → get_elem? (ledger e) i ≡ some s
    → (t : PortStats) × (get_elem? (ledger e') i ≡ some t) × IsBooked i m ws s t

taken_bytes-append :
    (i : ℕ) (ws vs : List Write) → taken_bytes i (ws ++ vs) ≡ taken_bytes i ws + taken_bytes i vs
taken_bytes-append i [] vs = omega arith
taken_bytes-append i (w ∷ ws) vs = omega (arith, taken_bytes-append i ws vs)

taken-append : (i : ℕ) (ws vs : List Write) → taken i (ws ++ vs) ≡ taken i ws + taken i vs
taken-append i [] vs = omega arith
taken-append i (w ∷ ws) vs = omega (arith, taken-append i ws vs)

refused-append : (i : ℕ) (ws vs : List Write) → refused i (ws ++ vs) ≡ refused i ws + refused i vs
refused-append i [] vs = omega arith
refused-append i (w ∷ ws) vs = omega (arith, refused-append i ws vs)

pub Booked-trans :
    (i : ℕ) (m n : Happened) (ws vs : List Write) (e e' e'' : Engine)
    → Booked i m ws e e'
    → Booked i n vs e' e''
    → Booked i (both m n) (ws ++ vs) e e''
Booked-trans i m n ws vs e e' e'' b c s at =
    let (t, at', x) = b s at in
    let (u, at'', y) = c t at' in
    (
      u,
      at'',
      record {
        rx_frames = omega (arith, x.rx_frames, y.rx_frames);
        rx_bytes = omega (arith, x.rx_bytes, y.rx_bytes);
        tx_frames = omega (arith, x.tx_frames, y.tx_frames, taken-append i ws vs);
        tx_bytes = omega (arith, x.tx_bytes, y.tx_bytes, taken_bytes-append i ws vs);
        flooded = omega (arith, x.flooded, y.flooded);
        forward_drop = omega (arith, x.forward_drop, y.forward_drop);
        tx_drop = omega (arith, x.tx_drop, y.tx_drop, refused-append i ws vs);
      },
    )

get_elem?-modify :
    (ps : List Port) (f : Port → Port) (h : PortStats → PortStats) (i j : ℕ) {s : PortStats}
    → ((p : Port) → (f p).stats ≡ h p.stats)
    → get_elem? (map (λ (p : Port). p.stats) ps) j ≡ some s
    → get_elem? (map (λ (p : Port). p.stats) (modify ps i f)) j ≡ some (if i == j then h s else s)
get_elem?-modify [] f h i j c at = cc
get_elem?-modify (p ∷ ps) f h zero zero c at = ground (arith, c p)
get_elem?-modify (p ∷ ps) f h zero (suc j) c at = ground arith
get_elem?-modify (p ∷ ps) f h (suc i) zero c at = ground arith
get_elem?-modify (p ∷ ps) f h (suc i) (suc j) c at =
    ground (arith, get_elem?-modify ps f h i j c at)

count_write-Booked :
    (i : ℕ) (e : Engine) (w : Write) → Booked i nothing (w ∷ []) e (count_write e w)
unfolding count_tx
count_write-Booked i e w s at = (
  _,
  get_elem?-modify e.ports _ (count_tx w.accepted (length w.pkt)) w.port i (λ p. refl) at,
  elim (Bool-cases w.accepted) [ inl took ↦ ground arith | inr lost ↦ ground arith ],
)

pub tally-Booked : (i : ℕ) (e : Engine) (ws : List Write) → Booked i nothing ws e (tally e ws)
unfolding tally
tally-Booked i e [] s at = (s, at, IsBooked-nothing i s)
tally-Booked i e (w ∷ ws) s at =
    Booked-trans i nothing nothing (w ∷ []) ws e (count_write e w) (tally (count_write e w) ws)
      (count_write-Booked i e w) (tally-Booked i (count_write e w) ws) s at

-- What happened to a port if it is the one that is meant.
abbrev pub if_at : Bool → Happened → Happened
if_at true m = m
if_at false m = nothing

-- A change of a port's counters that books something.
pub bump-Booked :
    (i j : ℕ) (m : Happened) (f : PortStats → PortStats) (e : Engine)
    → ((s : PortStats) → IsBooked i m [] s (f s))
    → Booked i (if_at (j == i) m) [] e (bump j f e)
bump-Booked i j m f e h s at = (
  _,
  get_elem?-modify e.ports _ f j i (λ p. refl) at,
  elim (Bool-cases (j == i)) [ inl hit ↦ rw hit (h s) | inr miss ↦ rw miss (IsBooked-nothing i s) ],
)

-- A frame that arrived.
abbrev pub heard : Bytes → Happened
heard frame = record { frames = 1; bytes = length frame; flooded = 0; dropped = 0 }

pub count_rx-Booked :
    (i j : ℕ) (e : Engine) (frame : Bytes) (fp : FrameParser)
    → Booked i (if_at (j == i) (heard frame)) [] e (count_rx e j frame fp)
unfolding count_rx
count_rx-Booked i j e frame fp s at = (
  _,
  get_elem?-modify e.ports _
      (λ s. record s {
        rx_frames = add64 s.rx_frames 1;
        rx_bytes = add64 s.rx_bytes (length frame);
      })
      j i (λ p. refl) at,
  elim (Bool-cases (j == i)) [
    | inl hit ↦ rw hit (omega arith)
    | inr miss ↦ rw miss (IsBooked-nothing i s)
  ],
)

module _ (g : Gopacket) (takes : ℕ → Bytes → Bool) (fv : FrameView) (vid : ℕ) where
  emit_at-tally :
      (e : Engine) (idx : ℕ) (r : Engine × Write)
      → emit_at g takes e idx fv vid ≡ some r
      → r.0 ≡ count_write e r.1
  unfolding emit_at emit
  emit_at-tally e idx r h = elim (Option-cases (get_elem? e.ports idx)) [
    | inl miss ↦ absurd (ground arith)
    | inr (p, at) ↦ ground arith
  ]

  pub flood_loop-tally :
      (ingress : ℕ) (idxs : List ℕ) (e : Engine) (r : Engine × List Write)
      → flood_loop g takes e ingress fv vid idxs ≡ some r
      → r.0 ≡ tally e r.1
  unfolding flood_loop tally
  flood_loop-tally ingress [] e r h = ground arith
  flood_loop-tally ingress (idx ∷ idxs) e r h = elim (Bool-cases (idx == ingress)) [
    | inl skip ↦ flood_loop-tally ingress idxs e r (ground arith)
    | inr other ↦ elim (Option-cases (emit_at g takes e idx fv vid)) [
      | inl miss ↦ absurd (ground arith)
      | inr ((e', w), sent) ↦ elim (Option-cases (flood_loop g takes e' ingress fv vid idxs)) [
        | inl miss ↦ absurd (ground arith)
        | inr ((e'', ws), more) ↦ ground (
          arith,
          emit_at-tally e idx (e', w) sent,
          flood_loop-tally ingress idxs e' (e'', ws) more,
        )
      ]
    ]
  ]

  pub send_known-tally :
      (ingress out : ℕ) (e : Engine) (r : Engine × List Write)
      → send_known g takes e ingress fv vid out ≡ some r
      → r.0 ≡ tally e r.1
  unfolding send_known tally
  send_known-tally ingress out e r h = elim (Bool-cases (out == ingress)) [
    | inl back ↦ ground arith
    | inr away ↦ elim (Option-cases (emit_at g takes e out fv vid)) [
      | inl miss ↦ absurd (ground arith)
      | inr ((e', w), sent) ↦ ground (arith, emit_at-tally e out (e', w) sent)
    ]
  ]
