-- ===== src/Engine/Construct.antt =====
-- What `NewEngine` (internal/goswitch/engine.go) builds.
use vibe_switch.Base.{
  ℕ, suc, ◌≡◌, ◌⊎◌, refl, ap, sym, ◌∙◌, false, List, [], ◌∷◌, ◌++◌, append_assoc, append-nil, map,
  All, nat_eq, arith, if◌then◌else◌, Bool-cases, inl, inr, ◌==◌,
}
use vibe_switch.Base.Assoc.{lookup as map_lookup, lookup-insert}
use vibe_switch.Vlan.{Wiring, carries, contains, add_all, role_of}
use vibe_switch.Fdb.{new_fdb, Fdb}
use vibe_switch.Engine.{
  Port, Engine, members, PortConfig, Building, Result, ok, err, Members, or_nil, append_member,
  append_trunk, add_member, vid_members_of, add_ports, make_port, new_engine, push_port,
  start_building, finish, ConfigError,
}
use vibe_switch.Engine.Wired.{Indexed, carriers, IsWired}

abbrev in_list : Members → ℕ → List ℕ
in_list m vid = or_nil (map_lookup vid m)

in_list-append_member :
    (m : Members) (v idx vid : ℕ)
    → in_list (append_member m v idx) vid ≡ in_list m vid ++ (if v == vid then idx ∷ [] else [])
unfolding append_member
in_list-append_member m v idx vid = rw lookup-insert (ground (arith, append-nil (in_list m vid)))

-- A set that holds no VID twice.
abbrev NoRepeat : List ℕ → Type 0
NoRepeat [] = Unit {0}
NoRepeat (v ∷ vs) = (contains vs v ≡ false) × NoRepeat vs

add_all-NoRepeat : (set vs : List ℕ) → NoRepeat set → NoRepeat (add_all set vs)
unfolding add_all
add_all-NoRepeat set [] h = h
add_all-NoRepeat set (v ∷ vs) h = elim (Bool-cases (contains set v)) [
  | inl old ↦ rw old (add_all-NoRepeat set vs h)
  | inr new ↦ rw new (add_all-NoRepeat (v ∷ set) vs (new, h))
]

in_list-append_trunk :
    (m : Members) (vs : List ℕ) (idx vid : ℕ)
    → NoRepeat vs
    → in_list (append_trunk m vs idx) vid
      ≡ in_list m vid ++ (if contains vs vid then idx ∷ [] else [])
unfolding append_trunk
in_list-append_trunk m [] idx vid h = sym (append-nil _)
in_list-append_trunk m (v ∷ vs) idx vid h = ground (
  arith,
  in_list-append_trunk (append_member m v idx) vs idx vid h.1,
  in_list-append_member m v idx vid,
  append-nil (in_list m vid),
  append-nil (in_list m vid ++ idx ∷ []),
)

in_list-add_member :
    (m : Members) (w : Wiring) (vid : ℕ)
    → NoRepeat w.allow
    → in_list (add_member m w) vid ≡ in_list m vid ++ (if carries w vid then w.idx ∷ [] else [])
unfolding add_member carries
in_list-add_member m w vid h = ground (
  arith,
  in_list-append_member m 0 w.idx vid,
  in_list-append_member m w.pvid w.idx vid,
  in_list-append_trunk m w.allow w.idx vid h,
)

abbrev IsDeduped : Port → Type 0
IsDeduped p = NoRepeat p.allow

vid_members-carriers :
    (m : Members) (ps : List Port) (vid : ℕ)
    → All IsDeduped ps
    → in_list (vid_members_of m ps) vid
      ≡ in_list m vid ++ carriers vid (map (λ (p : Port). p.wiring) ps)
unfolding vid_members_of carriers
vid_members-carriers m [] vid h = sym (append-nil _)
vid_members-carriers m (p ∷ ps) vid h = ground (
  arith,
  vid_members-carriers (add_member m p.wiring) ps vid h.1,
  in_list-add_member m p.wiring vid h.0,
  append-nil (in_list m vid),
  append_assoc (in_list m vid) (p.idx ∷ []) (carriers vid (map (λ (q : Port). q.wiring) ps)),
)

-- The ports in the order of the config, each with its own handle.
unfoldable pub ports_of : ℕ → List PortConfig → List ℕ → List Port
ports_of i [] ios = []
ports_of i (c ∷ cs) [] = []
ports_of i (c ∷ cs) (io ∷ ios) = make_port i c io ∷ ports_of (suc i) cs ios

ports-add_ports :
    (i : ℕ) (cs : List PortConfig) (ios : List ℕ) (b b' : Building)
    → add_ports i cs ios b ≡ ok b'
    → b'.ports ≡ b.ports ++ ports_of i cs ios
unfolding add_ports ports_of
ports-add_ports i [] ios b b' h = ground (arith, append-nil b.ports)
ports-add_ports i (c ∷ cs) [] b b' h = cc
ports-add_ports i (c ∷ cs) (io ∷ ios) b b' h = ground (
  arith,
  ports-add_ports (suc i) cs ios (push_port i c io b) b',
  append_assoc b.ports (make_port i c io ∷ []) (ports_of (suc i) cs ios),
)

make_port-IsDeduped : (i : ℕ) (c : PortConfig) (io : ℕ) → IsDeduped (make_port i c io)
unfolding make_port role_of
make_port-IsDeduped i c io = ground (arith, add_all-NoRepeat [] c.trunk_vids tt)

ports_of-IsDeduped :
    (i : ℕ) (cs : List PortConfig) (ios : List ℕ) → All IsDeduped (ports_of i cs ios)
unfolding ports_of
ports_of-IsDeduped i [] ios = tt
ports_of-IsDeduped i (c ∷ cs) [] = tt
ports_of-IsDeduped i (c ∷ cs) (io ∷ ios) =
    (make_port-IsDeduped i c io, ports_of-IsDeduped (suc i) cs ios)

idx-make_port : (i : ℕ) (c : PortConfig) (io : ℕ) → (make_port i c io).idx ≡ i
unfolding make_port role_of
idx-make_port i c io = ground arith

ports_of-Indexed :
    (i : ℕ) (cs : List PortConfig) (ios : List ℕ)
    → Indexed i (map (λ (p : Port). p.wiring) (ports_of i cs ios))
unfolding ports_of
ports_of-Indexed i [] ios = tt
ports_of-Indexed i (c ∷ cs) [] = tt
ports_of-Indexed i (c ∷ cs) (io ∷ ios) = (idx-make_port i c io, ports_of-Indexed (suc i) cs ios)

pub Result-cases {ℓ} :
    {A : Type ℓ} (r : Result A) → ((a : A) × (r ≡ ok a)) ⊎ ((x : ConfigError) × (r ≡ err x))
Result-cases (ok a) = inl (a, refl)
Result-cases (err x) = inr (x, refl)

finish_lem :
    (b : Building) (e : Engine)
    → finish b ≡ ok e
    → (e.ports ≡ b.ports) × (e.vid_members ≡ vid_members_of [] b.ports) × (e.fdb ≡ new_fdb)
unfolding finish
finish_lem b e h = ground arith

new_engine-finish :
    (cfg : List PortConfig) (ios : List ℕ) (e : Engine)
    → new_engine cfg ios ≡ ok e
    → (b : Building) × (add_ports 0 cfg ios start_building ≡ ok b) × (finish b ≡ ok e)
unfolding new_engine
new_engine-finish cfg ios e h = elim (Result-cases (add_ports 0 cfg ios start_building)) [
  | inl (b, built) ↦ (b, built, ground arith)
  | inr (x, refused) ↦ absurd (ground arith)
]

new_engine-ports :
    (cfg : List PortConfig) (ios : List ℕ) {e : Engine}
    → new_engine cfg ios ≡ ok e
    → (e.ports ≡ ports_of 0 cfg ios)
      × (e.vid_members ≡ vid_members_of [] (ports_of 0 cfg ios))
      × (e.fdb ≡ new_fdb)
new_engine-ports cfg ios {e} h =
    let (b, built, done) = new_engine-finish cfg ios e h in
    let (ports, lists, fdb) = finish_lem b e done in
    let all = ports-add_ports 0 cfg ios start_building b built in
    (ports ∙ all, lists ∙ ap (vid_members_of []) all, fdb)

-- An engine that `NewEngine` returns has one port for each config, in order, wired to the handle
-- of the same position, member lists that hold exactly the ports that carry each VLAN, and an
-- empty table.
pub new_engine-IsWired :
    (cfg : List PortConfig) (ios : List ℕ) {e : Engine}
    → new_engine cfg ios ≡ ok e
    → IsWired e × (e.ports ≡ ports_of 0 cfg ios) × (e.fdb.table ≡ [])
unfolding members new_fdb map_lookup
new_engine-IsWired cfg ios {e} h =
    let (ports, lists, fdb) = new_engine-ports cfg ios h in
    (
      record {
        indexed = rw ports (ports_of-Indexed 0 cfg ios);
        member_lists = λ vid.
            rw (lists, ports)
              (vid_members-carriers [] (ports_of 0 cfg ios) vid (ports_of-IsDeduped 0 cfg ios));
        learned = rw fdb tt;
        is_map = rw fdb tt;
      },
      ports,
      ap (λ (f : Fdb). f.table) fdb,
    )
