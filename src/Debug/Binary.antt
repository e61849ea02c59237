-- ===== src/Debug/Binary.antt =====
-- The bits that `fprintf_binary` prints.
use native.Mathlib.Nat.{div-div-eq-div-mul, pow-suc}
use virtual_machine.Prelude.{
  ℕ, zero, suc, not, ◌+◌, ◌-◌, ◌*◌, ◌/◌, ◌%◌, ◌^◌, ◌<◌, ◌≡◌, ◌==◌, ◌&&◌, arith, sym, ap, ◌∙◌,
  if◌then◌else◌, List, [], ◌∷◌, Bool-cases, inl, inr,
}
use virtual_machine.Word.{u32_mod}
use virtual_machine.Debug.{binary_digit, binary_digits, fprintf_binary}

-- The number of a binary numeral with spaces, with `acc` for the digits before it.
abbrev pub read_binary : List ℕ → ℕ → ℕ
read_binary [] acc = acc
read_binary (c ∷ s) acc = read_binary s (if c == b' ' then acc else acc * 2 + (c - b'0'))

read_digit :
    (d acc : ℕ) (rest : List ℕ)
    → d < 2
    → read_binary ((b'0' + d) ∷ rest) acc ≡ read_binary rest (acc * 2 + d)
read_digit d acc rest h = ap (read_binary rest) (
    let e : (if (b'0' + d) == b' ' then acc else acc * 2 + (b'0' + d - b'0')) ≡ acc * 2 + d =
      ground (arith, h) in
    e)

digit_read :
    (c num acc : ℕ) (rest : List ℕ)
    → read_binary (binary_digit c num rest) acc ≡ read_binary rest (acc * 2 + num / 2 ^ c % 2)
unfolding binary_digit
digit_read c num acc rest =
    let one = read_digit (num / 2 ^ c % 2) acc rest (omega arith) in
    elim (Bool-cases ((c + 1) % 8 == 0 && not (c == 31))) [ inl b ↦ rw b one | inr b ↦ rw b one ]

half-pow : (num c : ℕ) → num / 2 ^ suc c ≡ num / 2 ^ c / 2
half-pow num c = sym (div-div-eq-div-mul num (2 ^ c) 2 ∙ ap (λ m. num / m) (sym (pow-suc 2 c)))

read-binary_digits : (n num : ℕ) → read_binary (binary_digits n num) (num / 2 ^ n) ≡ num
unfolding binary_digits
read-binary_digits zero num = omega arith
read-binary_digits (suc c) num =
    let e : num / 2 ^ suc c * 2 + num / 2 ^ c % 2 ≡ num / 2 ^ c =
      rw (half-pow num c) (omega arith) in
    digit_read c num (num / 2 ^ suc c) (binary_digits c num)
    ∙ ap (read_binary (binary_digits c num)) e
    ∙ read-binary_digits c num

-- The binary numeral that the log shows for an instruction reads as the instruction.
pub read-fprintf_binary : (num : ℕ) → num < u32_mod → read_binary (fprintf_binary num) 0 ≡ num
unfolding fprintf_binary
read-fprintf_binary num h =
    ap (read_binary (binary_digits 32 num)) (let e : 0 ≡ num / 2 ^ 32 = omega (arith, h) in e)
    ∙ read-binary_digits 32 num
