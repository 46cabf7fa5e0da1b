-- ===== src/Prelude/Words.antt =====
-- Machine words: the largest `u32` and the casts that drop high bits.
use Prim.Native.Nat.{ℕ, ◌<◌, ◌+◌, ◌*◌, ◌%◌}
use mathlib.Core.Option.{Option, none, some}
use mathlib.Core.Path.{◌≡◌}
use native.Mathlib.Omega.{arith}
use temnion.Prelude.Tests.{ltb, if◌then◌else◌}

abbrev pub u32_max : ℕ
u32_max = 4294967295

abbrev pub u64_max : ℕ
u64_max = 18446744073709551615

-- `n as u32` of a wider unsigned number
abbrev pub as_u32 : ℕ → ℕ
as_u32 n = n % 4294967296

abbrev pub as_u64 : ℕ → ℕ
as_u64 n = n % 18446744073709551616

abbrev pub as_u8 : ℕ → ℕ
as_u8 n = n % 256

-- `u32::checked_add`
abbrev pub checked_add_u32 : ℕ → ℕ → Option ℕ
checked_add_u32 a b = if ltb (a + b) 4294967296 then some (a + b) else none

-- `usize::checked_add` on a machine of 64 bits
abbrev pub checked_add : ℕ → ℕ → Option ℕ
checked_add a b = if ltb (a + b) 18446744073709551616 then some (a + b) else none

-- `usize::checked_mul`
abbrev pub checked_mul : ℕ → ℕ → Option ℕ
checked_mul a b = if ltb (a * b) 18446744073709551616 then some (a * b) else none

pub checked_add_inv :
    (a b : ℕ) {c : ℕ} → checked_add a b ≡ some c → (c ≡ a + b) × (a + b < 18446744073709551616)
checked_add_inv a b h = ground arith

pub checked_mul_inv : (a b : ℕ) {c : ℕ} → checked_mul a b ≡ some c → c ≡ a * b
checked_mul_inv a b h = ground arith
