-- ===== src/Base/Words.antt =====
-- Arithmetic of `size_t` (64 bits) and the conversion of `int32_t` to `size_t`.
use Prim.Native.Nat.{ℕ, ◌+◌, ◌-◌, ◌%◌, ◌<◌, ◌≤◌}
use mathlib.Core.Path.{◌≡◌}
use native.Mathlib.Omega.{arith}
use dynamic_extension.Base.Tests.{ltb, if◌then◌else◌}

-- 2 ^ 64 and 2 ^ 32.
abbrev pub size_mod : ℕ
size_mod = 0x1_0000_0000_0000_0000

abbrev pub word_mod : ℕ
word_mod = 0x1_0000_0000

abbrev pub add64 : ℕ → ℕ → ℕ
add64 a b = (a + b) % size_mod

abbrev pub sub64 : ℕ → ℕ → ℕ
sub64 a b = (a + size_mod - b) % size_mod

-- An `int64_t` value that is assigned to an `int32_t`, as the bit pattern that stays.
abbrev pub narrow32 : ℕ → ℕ
narrow32 a = a % word_mod

-- An `int32_t` (as its bit pattern) in an operation with a `size_t`: the sign is extended.
abbrev pub widen64 : ℕ → ℕ
widen64 a = if ltb a 0x8000_0000 then a else a + (size_mod - word_mod)

pub widen64-narrow32 : (a : ℕ) → a < 0x8000_0000 → widen64 (narrow32 a) ≡ a
widen64-narrow32 a h = ground arith

pub sub64-exact : (a b : ℕ) → b ≤ a → a < size_mod → sub64 a b ≡ a - b
sub64-exact a b h k = omega arith
