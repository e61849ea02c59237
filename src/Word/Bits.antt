-- ===== src/Word/Bits.antt =====
-- The bitwise operations of two words are words.
use Prim.Native.Nat.{max, digits, differ, bit_and-bitwise, bit_or-bitwise, bit_xor-bitwise}
use virtual_machine.Prelude.{
  ℕ, zero, suc, ◌/◌, ◌%◌, ◌^◌, ◌≤◌, ◌<◌, arith, min, bit_and, bit_or, bit_xor,
}
use native.Mathlib.Nat.{pow-suc}

module _ (z : ℕ → ℕ) (f : ℕ → ℕ → ℕ) where
  -- `n` is the number of digits still to be read.
  digits-lt :
      (n k a b : ℕ)
      → ((y : ℕ) → z y ≤ y)
      → ((x y : ℕ) → x < 2 → y < 2 → f x y < 2)
      → a < 2 ^ k
      → b < 2 ^ k
      → digits z f n a b < 2 ^ k
  digits-lt zero k a b hz hf ha hb = omega (arith, hz b)
  digits-lt (suc n) k zero b hz hf ha hb = omega (arith, hz b)
  digits-lt (suc n) zero (suc a) b hz hf ha hb = absurd (omega arith)
  digits-lt (suc n) (suc k) (suc a) b hz hf ha hb = omega (
    arith,
    pow-suc 2 k,
    digits-lt n k (suc a / 2) (b / 2) hz hf (omega (arith, pow-suc 2 k))
        (omega (arith, pow-suc 2 k)),
    hf (suc a % 2) (b % 2) (omega arith) (omega arith),
  )

pub differ-lt : (x y : ℕ) → x < 2 → y < 2 → differ x y < 2
differ-lt zero y hx hy = hy
differ-lt (suc zero) zero hx hy = hx
differ-lt (suc zero) (suc y) hx hy = omega arith
differ-lt (suc (suc x)) y hx hy = absurd (omega arith)

module _ (k a b : ℕ) (ha : a < 2 ^ k) (hb : b < 2 ^ k) where
  pub bit_and-lt : bit_and a b < 2 ^ k
  bit_and-lt =
      rw (bit_and-bitwise a b)
        (digits-lt (λ _. 0) min a k a b (λ y. omega arith) (λ x y p q. omega arith) ha hb)

  pub bit_or-lt : bit_or a b < 2 ^ k
  bit_or-lt =
      rw (bit_or-bitwise a b)
        (digits-lt (λ y. y) max a k a b (λ y. omega arith) (λ x y p q. omega arith) ha hb)

  pub bit_xor-lt : bit_xor a b < 2 ^ k
  bit_xor-lt =
      rw (bit_xor-bitwise a b)
        (digits-lt (λ y. y) differ a k a b (λ y. omega arith) differ-lt ha hb)
