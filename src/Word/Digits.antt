-- ===== src/Word/Digits.antt =====
-- `x & (2 ^ k - 1)` is the remainder by 2 ^ k, by the digits of both.
use Prim.Native.Nat.{digits, bit_and-bitwise}
use native.Mathlib.Nat.{
  pow-suc, mul-add-mod_self_right, mod-eq_of_lt, div-add-mod', mod-lt, mod-mod_of_dvd, mod-mod,
  dvd-mul_right,
}
use virtual_machine.Prelude.{
  ℕ, zero, suc, ◌+◌, ◌-◌, ◌*◌, ◌/◌, ◌%◌, ◌^◌, ◌∣◌, ◌≤◌, ◌<◌, ◌≡◌, ◌⊎◌, inl, inr, arith, refl, sym,
  ◌∙◌, min, bit_and, ap,
}

le-cases : (a n : ℕ) → a ≤ suc n → (a ≤ n) ⊎ (a ≡ suc n)
le-cases a n h = ground arith

-- The digits that `word` and `mask` share, read from the lowest one while the fuel lasts.
abbrev shared : ℕ → ℕ → ℕ → ℕ
shared fuel word mask = digits (λ rest. 0) min fuel word mask

one_more : (fuel word mask : ℕ) → word ≤ fuel → shared (suc fuel) word mask ≡ shared fuel word mask
one_more zero zero mask h = refl
one_more zero (suc word) mask h = absurd (omega arith)
one_more (suc fuel) zero mask h = refl
one_more (suc fuel) (suc word) mask h =
    omega (arith, one_more fuel (suc word / 2) (mask / 2) (omega arith))

enough : (fuel word mask : ℕ) → word ≤ fuel → shared fuel word mask ≡ shared word word mask
enough zero zero mask h = refl
enough zero (suc word) mask h = absurd (omega arith)
enough (suc fuel) word mask h = elim (le-cases word fuel h) [
  | inl le ↦ one_more fuel word mask le ∙ enough fuel word mask le
  | inr e ↦ ap (λ k. shared k word mask) (sym e)
]

-- The lowest digit of `word & mask` and the others.
pub bit_and-step :
    (word mask : ℕ)
    → bit_and word mask ≡ min (word % 2) (mask % 2) + 2 * bit_and (word / 2) (mask / 2)
bit_and-step zero mask = rw (bit_and-bitwise 0 mask, bit_and-bitwise 0 (mask / 2)) (omega arith)
bit_and-step (suc word) mask =
    rw (bit_and-bitwise (suc word) mask, bit_and-bitwise (suc word / 2) (mask / 2))
      (omega (arith, enough word (suc word / 2) (mask / 2) (omega arith)))

bit_and_zero : (n x : ℕ) → x ≤ n → bit_and x 0 ≡ 0
bit_and_zero zero zero h = refl
bit_and_zero zero (suc x) h = absurd (omega arith)
bit_and_zero (suc n) x h = omega (arith, bit_and-step x 0, bit_and_zero n (x / 2) (omega arith))

pub pow_pos : (k : ℕ) → 0 < 2 ^ k
pow_pos zero = omega arith
pow_pos (suc k) = omega (arith, pow-suc 2 k, pow_pos k)

mod-double_of :
    (m x q r : ℕ) → 0 < m → x ≡ q * (m * 2) + r → r < m * 2 → r ≡ (x / 2 % m) * 2 + x % 2
mod-double_of m x q r pos e lt =
    let halved : x / 2 ≡ q * m + r / 2 = omega arith in
    let inside : x / 2 % m ≡ r / 2 =
      ap (λ y. y % m) halved
      ∙ mul-add-mod_self_right q m (r / 2)
      ∙ mod-eq_of_lt {n = r / 2} {m = m} (omega arith) in
    omega arith

mod-double : (x m : ℕ) → 0 < m → x % (m * 2) ≡ (x / 2 % m) * 2 + x % 2
mod-double x m pos =
    mod-double_of m x (x / (m * 2)) (x % (m * 2)) pos (sym (div-add-mod' x (m * 2)))
      (mod-lt x {m = m * 2} (omega arith))

half : (k : ℕ) → (2 ^ suc k - 1) / 2 ≡ 2 ^ k - 1
half k = omega (arith, pow-suc 2 k)

-- A mask of ones takes the remainder.
pub bit_and-mask : (k x : ℕ) → bit_and x (2 ^ k - 1) ≡ x % 2 ^ k
bit_and-mask zero x = omega (arith, bit_and_zero x x (omega arith))
bit_and-mask (suc k) x = omega (
  arith,
  pow-suc 2 k,
  pow_pos k,
  mod-double x (2 ^ k) (pow_pos k),
  bit_and-mask k (x / 2),
  bit_and-step x (2 ^ suc k - 1),
  ap (bit_and (x / 2)) (half k),
  ap (λ m. x % m) (pow-suc 2 k),
)

dvd-pow : (n : ℕ) → 2 ^ n ∣ 2 ^ suc n
dvd-pow n = rw (pow-suc 2 n) (dvd-mul_right (2 ^ n) 2)

-- A remainder by a larger power of two does not matter.
pub mod-mod_pow : (n k x : ℕ) → k ≤ n → x % 2 ^ n % 2 ^ k ≡ x % 2 ^ k
mod-mod_pow zero k x h =
    let e : 2 ^ k ≡ 1 = ap (λ j. 2 ^ j) (let z : k ≡ 0 = omega arith in z) in
    ap (λ m. x % 1 % m) e ∙ omega arith ∙ ap (λ m. x % m) (sym e)
mod-mod_pow (suc n) k x h = elim (le-cases k n h) [
  | inl le ↦
      sym (mod-mod_pow n k (x % 2 ^ suc n) le)
      ∙ ap (λ y. y % 2 ^ k) (mod-mod_of_dvd (2 ^ n) x (dvd-pow n))
      ∙ mod-mod_pow n k x le
  | inr e ↦ ap (λ j. x % 2 ^ suc n % 2 ^ j) e ∙ mod-mod x (2 ^ suc n) ∙ ap (λ j. x % 2 ^ j) (sym e)
]
