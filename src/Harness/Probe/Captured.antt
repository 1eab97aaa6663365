-- ===== src/Harness/Probe/Captured.antt =====
-- What a capture reports (internal/harness/probe.go): the test frames that came, in order.
use vibe_switch.Base.{
  ℕ, ◌<◌, ◌≡◌, ◌≢◌, ◌⊎◌, inl, inr, true, Bool-cases, bytes_eq_iff, take, refl, ◌∙◌, Bytes, Option,
  none, some, List, [], ◌∷◌, ◌++◌, append_assoc, append-nil, length, map, All, arith, Returns,
}
use vibe_switch.Frame.{Gopacket}
use vibe_switch.Harness.Probe.Frames.{
  Decoder, serialize, FrameInfo, parse, Read, timed_out, got, capture_loop, keep_test, received,
  is_test, magic,
}
use vibe_switch.Harness.Probe.RoundTrip.{ReadsBack, IsRead, parse-serialize}

-- A frame that the harness builds.
pub record TestFrame : Type 0 where
  pub src : Bytes
  pub dst : Bytes
  pub vid : ℕ
  pub body : Bytes
  pub pad : ℕ

-- What a read of the socket comes to: a test frame, another frame, or an idle cycle.
pub data Arrival : Type 0 where
  test : TestFrame → Arrival
  foreign : Bytes → Arrival
  idle : Arrival

abbrev pub IsBuildable : TestFrame → Type 0
IsBuildable f = (length f.src ≡ 6) × (length f.dst ≡ 6) × (f.vid < 4096)

-- Not a test frame: it does not decode, its type is not that of the tests, or its payload does not
-- start with the marker DE AD BE EF.
abbrev pub IsForeign : Option FrameInfo → Type 0
IsForeign none = Unit
IsForeign (some fi) =
    (fi.eth_type ≢ 0x88b5) ⊎ ((rest : Bytes) → fi.payload ≢ 0xde ∷ 0xad ∷ 0xbe ∷ 0xef ∷ rest)

-- The test frames can be built, and the others are not test frames.
abbrev pub IsTold : Decoder → Arrival → Type 0
IsTold d (test f) = IsBuildable f
IsTold d (foreign b) = IsForeign (parse d b)
IsTold d idle = Unit {0}

abbrev pub read_of : Gopacket → Arrival → Read
read_of g (test f) = got (serialize g f.src f.dst f.vid f.body f.pad)
read_of g (foreign b) = got b
read_of g idle = timed_out

abbrev pub tests_of : List Arrival → List TestFrame
tests_of [] = []
tests_of (test f ∷ as') = f ∷ tests_of as'
tests_of (foreign b ∷ as') = tests_of as'
tests_of (idle ∷ as') = tests_of as'

-- Each frame is read as it was built.
abbrev pub AreRead : List TestFrame → List FrameInfo → Type 0
AreRead [] [] = Unit {0}
AreRead [] (fi ∷ fis) = ⊥
AreRead (f ∷ fs) [] = ⊥
AreRead (f ∷ fs) (fi ∷ fis) = IsRead f.src f.dst f.vid f.body fi × AreRead fs fis

-- The frames that the loop keeps.
frames_of : Gopacket → List Arrival → List Bytes
frames_of g [] = []
frames_of g (test f ∷ as') = serialize g f.src f.dst f.vid f.body f.pad ∷ frames_of g as'
frames_of g (foreign b ∷ as') = b ∷ frames_of g as'
frames_of g (idle ∷ as') = frames_of g as'

capture_loop_lem :
    (g : Gopacket) (as' : List Arrival) (kept : List Bytes)
    → capture_loop (map (read_of g) as') kept ≡ kept ++ frames_of g as'
unfolding capture_loop frames_of
capture_loop_lem g [] kept = ground (arith, append-nil kept)
capture_loop_lem g (test f ∷ as') kept =
    capture_loop_lem g as' _ ∙ append_assoc kept (_ ∷ []) (frames_of g as')
capture_loop_lem g (foreign b ∷ as') kept =
    capture_loop_lem g as' _ ∙ append_assoc kept (b ∷ []) (frames_of g as')
capture_loop_lem g (idle ∷ as') kept = capture_loop_lem g as' kept

-- A frame that is read as a test frame is kept in front.
keep-AreRead :
    (f : TestFrame) (o : Option FrameInfo) (fs : List TestFrame) (fis : List FrameInfo)
    → Returns o (IsRead f.src f.dst f.vid f.body)
    → AreRead fs fis
    → AreRead (f ∷ fs) (keep_test o fis)
keep-AreRead f none fs fis h r = elim h [ ]
keep-AreRead f (some fi) fs fis h r = rw (h.test) (h, r)

-- What starts with the four bytes of the marker.
marker_first :
    (p : Bytes) → take 4 p ≡ magic → (rest : Bytes) × (p ≡ 0xde ∷ 0xad ∷ 0xbe ∷ 0xef ∷ rest)
marker_first [] h = absurd (ground arith)
marker_first (a ∷ []) h = absurd (ground arith)
marker_first (a ∷ b ∷ []) h = absurd (ground arith)
marker_first (a ∷ b ∷ c ∷ []) h = absurd (ground arith)
marker_first (a ∷ b ∷ c ∷ d ∷ rest) h = (rest, ground arith)

-- A frame that is taken for a test frame has the type and the marker.
is_test-lem :
    (fi : FrameInfo)
    → is_test fi ≡ true
    → (fi.eth_type ≡ 0x88b5) × ((rest : Bytes) × (fi.payload ≡ 0xde ∷ 0xad ∷ 0xbe ∷ 0xef ∷ rest))
unfolding is_test
is_test-lem fi h =
    (ground arith, marker_first fi.payload (ground (arith, bytes_eq_iff (take 4 fi.payload) magic)))

pub is_test-IsForeign : (fi : FrameInfo) → is_test fi ≡ true → ¬ IsForeign (some fi)
is_test-IsForeign fi kept (inl untyped) = untyped (is_test-lem fi kept).0
is_test-IsForeign fi kept (inr unmarked) =
    let (ty, starts) = is_test-lem fi kept in unmarked starts.0 starts.1

-- A frame that is not a test frame is dropped.
drops_foreign : (o : Option FrameInfo) (fis : List FrameInfo) → IsForeign o → keep_test o fis ≡ fis
drops_foreign none fis h = refl
drops_foreign (some fi) fis h = elim (Bool-cases (is_test fi)) [
  | inr other ↦ rw other refl
  | inl kept ↦ absurd (is_test-IsForeign fi kept h)
]

module _ (g : Gopacket) (d : Decoder) (law : ReadsBack g d) where
  received-AreRead :
      (as' : List Arrival)
      → All (IsTold d) as'
      → AreRead (tests_of as') (received d (frames_of g as'))
  unfolding received frames_of
  received-AreRead [] h = tt
  received-AreRead (test f ∷ as') h =
      keep-AreRead f _ (tests_of as') (received d (frames_of g as'))
        (parse-serialize g d law f.src f.dst f.vid f.body f.pad h.0.0 h.0.1 h.0.2)
        (received-AreRead as' h.1)
  received-AreRead (foreign b ∷ as') h =
      rw (drops_foreign (parse d b) (received d (frames_of g as')) h.0) (received-AreRead as' h.1)
  received-AreRead (idle ∷ as') h = received-AreRead as' h.1

  -- With a decoder that reads what the serializer writes: whatever mixture of test frames, other
  -- frames and idle cycles a capture meets, `Received` gives the test frames, all of them and in
  -- the order in which they came, each as it was built.
  pub received-capture_loop :
      (arrivals : List Arrival)
      → All (IsTold d) arrivals
      → AreRead (tests_of arrivals) (received d (capture_loop (map (read_of g) arrivals) []))
  received-capture_loop arrivals h =
      rw (capture_loop_lem g arrivals []) (received-AreRead arrivals h)
