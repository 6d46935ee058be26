-- ===== src/Prelude/Words.antt =====
-- Machine integers as native numbers with their wrap-around written out (LP64).
use Prim.Native.Nat.{ℕ, ◌+◌, ◌*◌, ◌%◌, ◌^◌}

-- The number of values of a `size_t`, a `uint64_t` and an `unsigned long`.
abbrev pub u64_mod : ℕ
u64_mod = 2 ^ 64

-- The number of values of a `uint32_t`.
abbrev pub u32_mod : ℕ
u32_mod = 2 ^ 32

abbrev pub add64 : ℕ → ℕ → ℕ
add64 a b = (a + b) % u64_mod

abbrev pub mul64 : ℕ → ℕ → ℕ
mul64 a b = (a * b) % u64_mod
