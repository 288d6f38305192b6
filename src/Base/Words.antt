-- ===== src/Base/Words.antt =====
-- Machine words: `size_t` arithmetic with its wrap-around, and a `uint32_t` as its four bytes.
use Prim.Native.Nat.{ℕ, ◌+◌, ◌-◌, ◌*◌, ◌/◌, ◌%◌, ◌^◌, ◌≤◌, ◌<◌}
use mathlib.Core.Path.{◌≡◌}
use mathlib.Core.List.{List, [], ◌∷◌}
use native.Mathlib.Omega.{arith}
use xuanqiong.Base.Lists.{get_or}

-- `a += n` and `a -= n` on a `size_t`.
abbrev pub add64 : ℕ → ℕ → ℕ
add64 a n = (a + n) % 2 ^ 64

abbrev pub sub64 : ℕ → ℕ → ℕ
sub64 a n = (a + 2 ^ 64 - n % 2 ^ 64) % 2 ^ 64

-- The bytes of a `uint32_t` in memory, low byte first.
unfoldable pub bytes_u32 : ℕ → List ℕ
bytes_u32 v = v % 256 ∷ v / 256 % 256 ∷ v / 65536 % 256 ∷ v / 16777216 % 256 ∷ []

-- The `uint32_t` that stands in the first four bytes.
unfoldable pub read_u32 : List ℕ → ℕ
read_u32 xs = get_or xs 0 0 + 256 * get_or xs 1 0 + 65536 * get_or xs 2 0 + 16777216 * get_or xs 3 0

pub read_u32-bytes_u32 : (v : ℕ) → v < 2 ^ 32 → read_u32 (bytes_u32 v) ≡ v
unfolding read_u32 bytes_u32
read_u32-bytes_u32 v h = omega arith

-- A counter modulo 2 ^ 64 follows the number that it counts.
pub add64_count : (l k : ℕ) → add64 (l % 2 ^ 64) k ≡ (l + k) % 2 ^ 64
add64_count l k = omega arith

pub sub64_count : (l k : ℕ) → sub64 ((l + k) % 2 ^ 64) k ≡ l % 2 ^ 64
sub64_count l k = omega arith

-- Counting a region and taking its unused part back counts the used part.
pub sub64-add64 :
    (r size n : ℕ) → n ≤ size → size < 2 ^ 64 → sub64 (add64 r size) (size - n) ≡ add64 r n
sub64-add64 r size n h k = omega arith
