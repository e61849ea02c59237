-- ===== src/Assembler/Files.antt =====
-- How the loop of the assembler cuts a file into lines.
use virtual_machine.Prelude.{
  ℕ, zero, suc, false, ◌≤◌, ◌<◌, ◌≡◌, refl, arith, ap, ◌∙◌, List, [], ◌∷◌, ◌++◌, length,
  length-append, All, Bool-cases, inl, inr,
}
use virtual_machine.Assembler.Text.{is_newline, fgets, read_lines}

-- A line that fits the buffer is read whole.
pub fgets-line :
    (n : ℕ) (s rest : List ℕ)
    → All (λ c. is_newline c ≡ false) s
    → length s < n
    → fgets n (s ++ b'\n' ∷ rest) ≡ (s ++ b'\n' ∷ [], rest)
unfolding fgets
fgets-line zero s rest h lt = absurd (omega (arith, lt))
fgets-line (suc n) [] rest h lt = refl
fgets-line (suc n) (c ∷ s) rest h lt =
    rw (h.0) (rw (fgets-line n s rest h.1 (omega (arith, lt))) refl)

-- Every byte is delivered, and none twice.
pub fgets-append : (n : ℕ) (input : List ℕ) → (fgets n input).0 ++ (fgets n input).1 ≡ input
unfolding fgets
fgets-append zero input = refl
fgets-append (suc n) [] = refl
fgets-append (suc n) (c ∷ input) = elim (Bool-cases (is_newline c)) [
  | inl e ↦ rw e refl
  | inr e ↦ rw e (ap (◌∷◌ c) (fgets-append n input))
]

-- A call of `fgets` on a file that has not ended makes progress.
pub fgets-shorter :
    (n c : ℕ) (input : List ℕ) → length ((fgets (suc n) (c ∷ input)).1) ≤ length input
unfolding fgets
fgets-shorter n c input = elim (Bool-cases (is_newline c)) [
  | inl e ↦ rw e (omega arith)
  | inr e ↦ rw e (
      omega (
        arith,
        ap length (fgets-append n input),
        length-append ((fgets n input).0) ((fgets n input).1),
      ))
]

abbrev pub concat : List (List ℕ) → List ℕ
concat [] = []
concat (x ∷ xs) = x ++ concat xs

less_fuel : (a b fuel : ℕ) → a ≤ b → suc b ≤ suc fuel → a ≤ fuel
less_fuel a b fuel h k = omega (arith, h, k)

-- With the length of the file as fuel, the lines that the loop gets are the whole file in order.
pub concat-read_lines :
    (fuel : ℕ) (input : List ℕ) → length input ≤ fuel → concat (read_lines fuel input) ≡ input
unfolding read_lines
concat-read_lines zero [] h = refl
concat-read_lines zero (c ∷ input) h = absurd (omega (arith, h))
concat-read_lines (suc fuel) [] h = refl
concat-read_lines (suc fuel) (c ∷ input) h =
    ap (◌++◌ ((fgets 511 (c ∷ input)).0)) (
      concat-read_lines fuel ((fgets 511 (c ∷ input)).1)
        (less_fuel _ _ _ (fgets-shorter 510 c input) h))
    ∙ fgets-append 511 (c ∷ input)

-- A line that fits the buffer is the first, whatever stands behind it.
pub read_lines-line :
    (fuel : ℕ) (s rest : List ℕ)
    → All (λ c. is_newline c ≡ false) s
    → length s < 511
    → read_lines (suc fuel) (s ++ b'\n' ∷ rest) ≡ (s ++ b'\n' ∷ []) ∷ read_lines fuel rest
unfolding read_lines
read_lines-line fuel [] rest h lt = refl
read_lines-line fuel (c ∷ s) rest h lt = rw (fgets-line 511 (c ∷ s) rest h lt) refl
