-- ===== src/Word.antt =====
-- uint32_t arithmetic as natural numbers below 2 ^ 32, with the wrap-around written out, and the
-- sign extension of prototype-integrator/include/funcs.h.
mod Bits
mod Xor
mod Digits
pub use Bits.*
pub use Digits.*
pub use Xor.*
use virtual_machine.Prelude.{
  ℕ, ◌+◌, ◌-◌, ◌*◌, ◌/◌, ◌%◌, ◌^◌, ◌≤◌, ◌<◌, ◌≡◌, arith, bit_or, if◌then◌else◌, ◌==◌,
}

abbrev pub u32_mod : ℕ
u32_mod = 2 ^ 32

abbrev pub u32_max : ℕ
u32_max = 2 ^ 32 - 1

abbrev pub u64_mod : ℕ
u64_mod = 2 ^ 64

unfoldable pub add32 : ℕ → ℕ → ℕ
add32 a b = (a + b) % u32_mod

unfoldable pub sub32 : ℕ → ℕ → ℕ
sub32 a b = (a + u32_mod - b) % u32_mod

unfoldable pub mul32 : ℕ → ℕ → ℕ
mul32 a b = a * b % u32_mod

-- `~x` of a 32-bit word
unfoldable pub not32 : ℕ → ℕ
not32 a = u32_max - a

-- `x << k`, truncated to 32 bits
unfoldable pub shl32 : ℕ → ℕ → ℕ
shl32 x k = x * 2 ^ k % u32_mod

-- `sext(n, b)`
unfoldable pub sext : ℕ → ℕ → ℕ
unfolding shl32
sext n b = if n / 2 ^ (b - 1) % 2 == 1 then bit_or n (shl32 u32_max b) else n
