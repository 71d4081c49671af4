-- ===== src/Base/Words.antt =====
-- Casts to the fixed widths and the halves of a 64-bit word.
use Prim.Native.Nat.{ℕ, ◌+◌, ◌*◌, ◌/◌, ◌%◌, ◌^◌}
use mathlib.Core.Path.{◌≡◌}
use native.Mathlib.Omega.{arith}

abbrev pub u16 : ℕ → ℕ
u16 n = n % 2 ^ 16

abbrev pub u32 : ℕ → ℕ
u32 n = n % 2 ^ 32

abbrev pub u64 : ℕ → ℕ
u64 n = n % 2 ^ 64

-- `(uint32_t)(x & 0xFFFFFFFF)` and `(uint32_t)(x >> 32)`: a mask of low ones is the remainder.
abbrev pub low_half : ℕ → ℕ
low_half x = u32 x

abbrev pub high_half : ℕ → ℕ
high_half x = u32 (x / 2 ^ 32)

-- What two 32-bit registers or fields hold together.
abbrev pub join_halves : ℕ → ℕ → ℕ
join_halves lo hi = hi * 2 ^ 32 + lo

-- The halves of a word make it up again.
pub join_halves_lem : (x : ℕ) → join_halves (low_half x) (high_half x) ≡ u64 x
join_halves_lem x = omega arith

pub join_halves-u64 : (x : ℕ) → join_halves (low_half (u64 x)) (high_half (u64 x)) ≡ u64 x
join_halves-u64 x = omega arith
