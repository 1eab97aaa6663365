-- ===== src/Harness/Perf/Stamps.antt =====
-- What internal/harness/perf.go uses of `encoding/binary`: eight bytes in network order.
use vibe_switch.Base.{ℕ, ◌+◌, ◌*◌, ◌/◌, ◌%◌, ◌^◌, ◌<◌, ◌≡◌, Bytes, [], ◌∷◌, get_or, arith}

-- `binary.BigEndian.PutUint64`
unfoldable pub put_uint64 : ℕ → Bytes
put_uint64 n =
    (n / 2 ^ 56 % 256)
    ∷ (n / 2 ^ 48 % 256)
    ∷ (n / 2 ^ 40 % 256)
    ∷ (n / 2 ^ 32 % 256)
    ∷ (n / 2 ^ 24 % 256)
    ∷ (n / 2 ^ 16 % 256)
    ∷ (n / 2 ^ 8 % 256)
    ∷ (n % 256)
    ∷ []

-- `binary.BigEndian.Uint64`, of the bytes from an index on.
unfoldable pub uint64_at : Bytes → ℕ → ℕ
uint64_at b i =
    get_or b i 0 * 2 ^ 56
    + get_or b (i + 1) 0 * 2 ^ 48
    + get_or b (i + 2) 0 * 2 ^ 40
    + get_or b (i + 3) 0 * 2 ^ 32
    + get_or b (i + 4) 0 * 2 ^ 24
    + get_or b (i + 5) 0 * 2 ^ 16
    + get_or b (i + 6) 0 * 2 ^ 8
    + get_or b (i + 7) 0

-- Eight bytes give the number back.
pub regroup_uint64 :
    (n : ℕ)
    → n < 2 ^ 64
    → n / 2 ^ 56 % 256 * 2 ^ 56
        + n / 2 ^ 48 % 256 * 2 ^ 48
        + n / 2 ^ 40 % 256 * 2 ^ 40
        + n / 2 ^ 32 % 256 * 2 ^ 32
        + n / 2 ^ 24 % 256 * 2 ^ 24
        + n / 2 ^ 16 % 256 * 2 ^ 16
        + n / 2 ^ 8 % 256 * 2 ^ 8
        + n % 256
      ≡ n
regroup_uint64 n h = omega arith
