-- ===== src/Base/Words.antt =====
-- Rust's unsigned machine integers: a value is a number, and the checked operations test its range.
use Prim.Native.Nat.{ℕ, ◌+◌, ◌-◌, ◌*◌, ◌^◌, ◌<◌}
use mathlib.Core.Option.{Option, none, some}
use asteria.Base.Tests.{ltb, leb, if◌then◌else◌}

-- `u64`, and `usize` on the 64-bit targets that the program supports
abbrev pub u64_bound : ℕ
u64_bound = 2 ^ 64

abbrev pub u128_bound : ℕ
u128_bound = 2 ^ 128

abbrev pub IsU64 : ℕ → Type 0
IsU64 n = n < u64_bound

-- `checked_add` and `checked_mul` at the width of the bound
abbrev pub checked_add : ℕ → ℕ → ℕ → Option ℕ
checked_add bound a b = if ltb (a + b) bound then some (a + b) else none

abbrev pub checked_mul : ℕ → ℕ → ℕ → Option ℕ
checked_mul bound a b = if ltb (a * b) bound then some (a * b) else none

abbrev pub checked_sub : ℕ → ℕ → Option ℕ
checked_sub a b = if leb b a then some (a - b) else none

-- `abs_diff`
abbrev pub abs_diff : ℕ → ℕ → ℕ
abs_diff a b = (a - b) + (b - a)
