-- ===== src/Word/Xor.antt =====
-- The exclusive or of words, digit by digit: its algebra, halves and shifts.
use Prim.Native.Nat.{digits, differ, bit_xor-bitwise}
use virtual_machine.Prelude.{
  ℕ, zero, suc, ◌+◌, ◌*◌, ◌/◌, ◌%◌, ◌^◌, ◌≤◌, ◌<◌, ◌≡◌, arith, refl, sym, ap, ◌∙◌, bit_xor,
}
use virtual_machine.Word.Bits.{differ-lt}
use native.Mathlib.Nat.{pow-suc, mul_assoc}

-- Digits beyond those of the first number do not count.
digits_more :
    (n m a b : ℕ) → a ≤ n → a ≤ m → digits (λ y. y) differ n a b ≡ digits (λ y. y) differ m a b
digits_more zero zero a b hn hm = refl
digits_more zero (suc m) zero b hn hm = refl
digits_more zero (suc m) (suc a) b hn hm = absurd (omega arith)
digits_more (suc n) zero zero b hn hm = refl
digits_more (suc n) zero (suc a) b hn hm = absurd (omega arith)
digits_more (suc n) (suc m) zero b hn hm = refl
digits_more (suc n) (suc m) (suc a) b hn hm =
    ap (λ h. h * 2 + differ (suc a % 2) (b % 2))
      (digits_more n m (suc a / 2) (b / 2) (omega arith) (omega arith))

xor_zero_left : (b : ℕ) → bit_xor 0 b ≡ b
xor_zero_left b = bit_xor-bitwise 0 b

xor_digits : (a b : ℕ) → bit_xor a b ≡ bit_xor (a / 2) (b / 2) * 2 + differ (a % 2) (b % 2)
xor_digits zero b = rw (xor_zero_left b, xor_zero_left (b / 2)) (omega arith)
xor_digits (suc a) b =
    rw (bit_xor-bitwise (suc a) b, bit_xor-bitwise (suc a / 2) (b / 2))
      (ap (λ h. h * 2 + differ (suc a % 2) (b % 2))
        (digits_more a (suc a / 2) (suc a / 2) (b / 2) (omega arith) (omega arith)))

differ_comm : (x y : ℕ) → differ x y ≡ differ y x
differ_comm zero zero = refl
differ_comm zero (suc y) = refl
differ_comm (suc x) zero = refl
differ_comm (suc x) (suc y) = differ_comm x y

differ_self : (x : ℕ) → differ x x ≡ 0
differ_self zero = refl
differ_self (suc x) = differ_self x

differ_assoc : (x y z : ℕ) → x < 2 → y < 2 → z < 2 → differ (differ x y) z ≡ differ x (differ y z)
differ_assoc zero y z hx hy hz = refl
differ_assoc (suc zero) zero z hx hy hz = refl
differ_assoc (suc zero) (suc zero) zero hx hy hz = refl
differ_assoc (suc zero) (suc zero) (suc zero) hx hy hz = refl
differ_assoc (suc zero) (suc zero) (suc (suc z)) hx hy hz = absurd (omega arith)
differ_assoc (suc zero) (suc (suc y)) z hx hy hz = absurd (omega arith)
differ_assoc (suc (suc x)) y z hx hy hz = absurd (omega arith)

pub xor-half : (a b : ℕ) → bit_xor a b / 2 ≡ bit_xor (a / 2) (b / 2)
xor-half a b = omega (arith, xor_digits a b, differ-lt (a % 2) (b % 2) (omega arith) (omega arith))

pub xor-parity : (a b : ℕ) → bit_xor a b % 2 ≡ differ (a % 2) (b % 2)
xor-parity a b =
    omega (arith, xor_digits a b, differ-lt (a % 2) (b % 2) (omega arith) (omega arith))

halves : (m n : ℕ) → m / 2 ≡ n / 2 → m % 2 ≡ n % 2 → m ≡ n
halves m n h p = omega arith

comm_below : (n a b : ℕ) → a + b ≤ n → bit_xor a b ≡ bit_xor b a
comm_below zero zero zero h = refl
comm_below zero zero (suc b) h = absurd (omega arith)
comm_below zero (suc a) b h = absurd (omega arith)
comm_below (suc n) a b h =
    halves (bit_xor a b) (bit_xor b a)
      (xor-half a b ∙ comm_below n (a / 2) (b / 2) (omega arith) ∙ sym (xor-half b a))
      (xor-parity a b ∙ differ_comm (a % 2) (b % 2) ∙ sym (xor-parity b a))

pub xor_comm : (a b : ℕ) → bit_xor a b ≡ bit_xor b a
xor_comm a b = comm_below (a + b) a b (omega arith)

pub xor_zero : (a : ℕ) → bit_xor a 0 ≡ a
xor_zero a = xor_comm a 0 ∙ xor_zero_left a

self_below : (n a : ℕ) → a ≤ n → bit_xor a a ≡ 0
self_below zero zero h = xor_zero_left 0
self_below zero (suc a) h = absurd (omega arith)
self_below (suc n) a h =
    halves (bit_xor a a) 0 (xor-half a a ∙ self_below n (a / 2) (omega arith))
      (xor-parity a a ∙ differ_self (a % 2))

pub xor_self : (a : ℕ) → bit_xor a a ≡ 0
xor_self a = self_below a a (omega arith)

assoc_below : (n a b c : ℕ) → a + b + c ≤ n → bit_xor (bit_xor a b) c ≡ bit_xor a (bit_xor b c)
assoc_below zero zero b c h = rw (xor_zero_left b, xor_zero_left (bit_xor b c)) refl
assoc_below zero (suc a) b c h = absurd (omega arith)
assoc_below (suc n) a b c h =
    halves (bit_xor (bit_xor a b) c) (bit_xor a (bit_xor b c))
      (rw (xor-half (bit_xor a b) c, xor-half a b, xor-half a (bit_xor b c), xor-half b c)
        (assoc_below n (a / 2) (b / 2) (c / 2) (omega arith)))
      (rw (xor-parity (bit_xor a b) c, xor-parity a b, xor-parity a (bit_xor b c), xor-parity b c)
        (differ_assoc (a % 2) (b % 2) (c % 2) (omega arith) (omega arith) (omega arith)))

pub xor_assoc : (a b c : ℕ) → bit_xor (bit_xor a b) c ≡ bit_xor a (bit_xor b c)
xor_assoc a b c = assoc_below (a + b + c) a b c (omega arith)

-- The same word twice cancels.
pub xor_twice : (a c : ℕ) → bit_xor (bit_xor a c) c ≡ a
xor_twice a c = xor_assoc a c c ∙ ap (bit_xor a) (xor_self c) ∙ xor_zero a

pub xor_cancel : (a b c : ℕ) → bit_xor a c ≡ bit_xor b c → a ≡ b
xor_cancel a b c e = sym (xor_twice a c) ∙ ap (λ x. bit_xor x c) e ∙ xor_twice b c

eight_halves : (a : ℕ) → a / 256 ≡ a / 2 / 2 / 2 / 2 / 2 / 2 / 2 / 2
eight_halves a = omega arith

pub xor_high : (a b : ℕ) → bit_xor a b / 256 ≡ bit_xor (a / 256) (b / 256)
xor_high a b =
    eight_halves (bit_xor a b)
    ∙ rw
        (
          xor-half a b,
          xor-half (a / 2) (b / 2),
          xor-half (a / 2 / 2) (b / 2 / 2),
          xor-half (a / 2 / 2 / 2) (b / 2 / 2 / 2),
          xor-half (a / 2 / 2 / 2 / 2) (b / 2 / 2 / 2 / 2),
          xor-half (a / 2 / 2 / 2 / 2 / 2) (b / 2 / 2 / 2 / 2 / 2),
          xor-half (a / 2 / 2 / 2 / 2 / 2 / 2) (b / 2 / 2 / 2 / 2 / 2 / 2),
          xor-half (a / 2 / 2 / 2 / 2 / 2 / 2 / 2) (b / 2 / 2 / 2 / 2 / 2 / 2 / 2),
          eight_halves a,
          eight_halves b,
        )
        refl

split_double : (m l : ℕ) → bit_xor m (l / 2) ≡ m + l / 2 → bit_xor (m * 2) l ≡ m * 2 + l
split_double m l e =
    halves (bit_xor (m * 2) l) (m * 2 + l)
      (xor-half (m * 2) l
        ∙ ap (λ x. bit_xor x (l / 2)) {x = m * 2 / 2} {y = m} (omega arith)
        ∙ e
        ∙ omega arith)
      (xor-parity (m * 2) l
        ∙ ap (λ x. differ x (l % 2)) {x = m * 2 % 2} {y = 0} (omega arith)
        ∙ omega arith)

doubled : (k h : ℕ) → h * 2 ^ suc k ≡ h * 2 ^ k * 2
doubled k h = ap (◌*◌ h) (pow-suc 2 k) ∙ sym (mul_assoc h (2 ^ k) 2)

pub xor_split : (k h l : ℕ) → l < 2 ^ k → bit_xor (h * 2 ^ k) l ≡ h * 2 ^ k + l
xor_split zero h zero hl = xor_zero (h * 1) ∙ omega arith
xor_split zero h (suc l) hl = absurd (omega arith)
xor_split (suc k) h l hl =
    rw (doubled k h)
      (split_double (h * 2 ^ k) l (xor_split k h (l / 2) (omega (arith, pow-suc 2 k))))
