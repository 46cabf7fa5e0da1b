-- ===== src/Prelude/Bits.antt =====
-- Bit operations on machine words of a given width, and little-endian bytes.
use Prim.Native.Nat.{ℕ, zero, suc, ◌+◌, ◌-◌, ◌*◌, ◌/◌, ◌%◌, ◌^◌, ◌<◌, max}
use mathlib.Core.Path.{◌≡◌}
use mathlib.Core.List.{List, [], ◌∷◌}
use native.Mathlib.Omega.{arith}
use temnion.Prelude.Tests.{◌==◌, if◌then◌else◌}

-- The lowest `w` bits of two words, combined bit by bit.
unfoldable pub bitwise : (ℕ → ℕ → ℕ) → ℕ → ℕ → ℕ → ℕ
bitwise f zero a b = 0
bitwise f (suc w) a b = f (a % 2) (b % 2) + 2 * bitwise f w (a / 2) (b / 2)

unfoldable pub bit_or : ℕ → ℕ → ℕ → ℕ
bit_or w a b = bitwise max w a b

unfoldable pub bit_xor : ℕ → ℕ → ℕ → ℕ
bit_xor w a b = bitwise (λ x y. (x + y) % 2) w a b

-- `x << k` on a word of `w` bits
unfoldable pub shift_left : ℕ → ℕ → ℕ → ℕ
shift_left w x k = x * 2 ^ k % 2 ^ w

unfoldable pub shift_right : ℕ → ℕ → ℕ
shift_right x k = x / 2 ^ k

-- How many bits a word of `w` bits needs: `w - x.leading_zeros()`.
unfoldable pub bit_length : ℕ → ℕ → ℕ
bit_length zero x = 0
bit_length (suc w) x = if x == 0 then 0 else suc (bit_length w (x / 2))

unfoldable pub leading_zeros : ℕ → ℕ → ℕ
leading_zeros w x = w - bit_length w x

unfoldable pub trailing_zeros : ℕ → ℕ → ℕ
trailing_zeros zero x = 0
trailing_zeros (suc w) x = if x % 2 == 0 then suc (trailing_zeros w (x / 2)) else 0

-- `to_le_bytes` of a word of `k` bytes, and `from_le_bytes`
abbrev pub to_le_bytes : ℕ → ℕ → List ℕ
to_le_bytes zero n = []
to_le_bytes (suc k) n = n % 256 ∷ to_le_bytes k (n / 256)

abbrev pub from_le_bytes : List ℕ → ℕ
from_le_bytes [] = 0
from_le_bytes (b ∷ bytes) = b + 256 * from_le_bytes bytes

-- One more than the largest word of `k` bytes.
abbrev pub byte_bound : ℕ → ℕ
byte_bound zero = 1
byte_bound (suc k) = 256 * byte_bound k

pub from_le_bytes-to_le_bytes : (k n : ℕ) → n < byte_bound k → from_le_bytes (to_le_bytes k n) ≡ n
from_le_bytes-to_le_bytes zero n h = omega arith
from_le_bytes-to_le_bytes (suc k) n h =
    omega (arith, from_le_bytes-to_le_bytes k (n / 256) (omega arith))
