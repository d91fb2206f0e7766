-- ===== src/Base/Words.antt =====
-- Go's unsigned integers of 32 and 64 bits, as natural numbers reduced by their modulus.
use Prim.Native.Nat.{ℕ, ◌+◌, ◌-◌, ◌%◌, ◌^◌}

abbrev pub u32_mod : ℕ
u32_mod = 2 ^ 32

abbrev pub u64_mod : ℕ
u64_mod = 2 ^ 64

-- `math.MaxUint64`
abbrev pub max_u64 : ℕ
max_u64 = 2 ^ 64 - 1

-- `math.MaxUint32`
abbrev pub max_u32 : ℕ
max_u32 = 2 ^ 32 - 1

abbrev pub u32 : ℕ → ℕ
u32 n = n % u32_mod

abbrev pub add64 : ℕ → ℕ → ℕ
add64 a b = (a + b) % u64_mod

abbrev pub sub64 : ℕ → ℕ → ℕ
sub64 a b = (a + u64_mod - b) % u64_mod
