-- ===== src/Base/Words.antt =====
-- Unsigned 64-bit arithmetic, with its wrap-around, and facts about positions in a circular buffer.
use Prim.Native.Nat.{ℕ, ◌+◌, ◌-◌, ◌*◌, ◌%◌, ◌^◌, ◌<◌}
use mathlib.Core.Logic.{◌≢◌}
use native.Mathlib.Nat.{div-add-mod}
use native.Mathlib.Omega.{arith}

abbrev pub u64_mod : ℕ
u64_mod = 2 ^ 64

-- `~0ull`.
abbrev pub u64_max : ℕ
u64_max = 2 ^ 64 - 1

abbrev pub add64 : ℕ → ℕ → ℕ
add64 a b = (a + b) % u64_mod

abbrev pub sub64 : ℕ → ℕ → ℕ
sub64 a b = (a + u64_mod - b) % u64_mod

abbrev pub mul64 : ℕ → ℕ → ℕ
mul64 a b = (a * b) % u64_mod

-- Two counters less than `n` apart stand at different places of a circular buffer of `n` slots.
pub mod_ne_of_close : (n i j : ℕ) → i < j → j < i + n → i % n ≢ j % n
mod_ne_of_close n i j h k e = grind (arith, div-add-mod i n, div-add-mod j n)
