-- ===== src/Debug/Listing.antt =====
-- The assembler on a file with a line for each word, as `fprintf_inst` prints it.
use virtual_machine.Prelude.{
  ℕ, zero, suc, Bool, true, false, not, ◌+◌, ◌-◌, ◌/◌, ◌%◌, ◌≤◌, ◌<◌, ◌≡◌, ◌==◌, ◌||◌, ltb, refl,
  arith, ap, ◌∙◌, List, [], ◌∷◌, ◌++◌, map, length, length-append, All, Bool-cases, inl, inr,
  if_true,
}
use virtual_machine.Word.{u32_mod}
use virtual_machine.Instruction.{opc, ra, rb, rc, fimm, imm8}
use virtual_machine.Assembler.Text.{
  Strtol, word, is_newline, read_lines, bytes_of, assemble_lines, assemble_file,
}
use virtual_machine.Assembler.Tokens.{IsQuiet, All-map, not_newline}
use virtual_machine.Assembler.Files.{concat, read_lines-line}
use virtual_machine.Debug.{
  decimal, decimal_digits, signed_decimal, hexadecimal, spaces, padded, c_text, fprintf_inst,
  opcode_name,
}
use virtual_machine.Debug.Names.{named_count, length-opcode_name}
use virtual_machine.Debug.Words.{fprintf_inst-quiet, word_text, operands_text}
use virtual_machine.Debug.Reassembly.{ReadsDecimals, takes_c, source_line-inverse}

digits-length : (fuel n : ℕ) (out : List ℕ) → length (decimal_digits fuel n out) ≤ fuel + length out
unfolding decimal_digits
digits-length zero n out = omega arith
digits-length (suc fuel) n out = elim (Bool-cases (n / 10 == 0)) [
  | inl e ↦ rw e (omega arith)
  | inr e ↦ rw e (omega (arith, digits-length fuel (n / 10) ((b'0' + n % 10) ∷ out)))
]

decimal-length : (n : ℕ) → length (decimal n) ≤ 10
unfolding decimal
decimal-length n = omega (arith, digits-length 10 n [])

signed-length : (v : ℕ) → length (signed_decimal v) ≤ 11
unfolding signed_decimal
signed-length v = elim (Bool-cases (ltb v 128)) [
  | inl e ↦ rw e (omega (arith, decimal-length v))
  | inr e ↦ rw e (omega (arith, decimal-length (256 - v)))
]

c_text-length : (i : ℕ) → length (c_text i) ≤ 12
unfolding c_text
c_text-length i = elim (Bool-cases (fimm i)) [
  | inl e ↦ rw e (omega (arith, signed-length (imm8 i)))
  | inr e ↦ rw e (omega (arith, decimal-length (rc i)))
]

hexadecimal-length : (n v : ℕ) → length (hexadecimal n v) ≡ n
unfolding hexadecimal
hexadecimal-length zero v = refl
hexadecimal-length (suc n) v = ap suc (hexadecimal-length n v)

spaces-length : (n : ℕ) → length (spaces n) ≡ n
unfolding spaces
spaces-length zero = refl
spaces-length (suc n) = ap suc (spaces-length n)

padded-length : (s : List ℕ) → length s ≤ 12 → length (padded s) ≤ 12
unfolding padded
padded-length s h =
    omega (arith, h, length-append s (spaces (10 - length s)), spaces-length (10 - length s))

below_limit : (n : ℕ) → n ≤ 73 → n < 511
below_limit n h = omega (arith, h)

append-length : (m n : ℕ) (s t : List ℕ) → length s ≤ m → length t ≤ n → length (s ++ t) ≤ m + n
append-length m n s t h k = omega (arith, h, k, length-append s t)

word_text-length : (i : ℕ) → length (word_text i) ≤ 13
word_text-length i =
    omega (arith, append-length 8 1 (hexadecimal 8 i) (b']' ∷ []) hex (omega arith))
  where
    hex : length (hexadecimal 8 i) ≤ 8
    hex = omega (arith, hexadecimal-length 8 i)

operands-length : (i : ℕ) → length (operands_text i) ≤ 60
operands-length i =
    let c =
      append-length 12 14 (c_text i) (b' ' ∷ word_text i) (c_text-length i)
        (omega (arith, word_text-length i)) in
    let b =
      append-length 10 28 (decimal (rb i)) (b',' ∷ b' ' ∷ c_text i ++ (b' ' ∷ word_text i))
        (decimal-length (rb i)) (omega (arith, c)) in
    omega (
      arith,
      append-length 10 41 (decimal (ra i))
          (b',' ∷ b' ' ∷ b'R' ∷ decimal (rb i) ++ (b',' ∷ b' ' ∷ c_text i ++ (b' ' ∷ word_text i)))
          (decimal-length (ra i)) (omega (arith, b)),
    )

-- The line fits the buffer of the assembler.
fprintf_inst-length : (i : ℕ) → opc i < named_count → length (fprintf_inst i) < 511
unfolding fprintf_inst
fprintf_inst-length i lt =
    let h =
      append-length 12 61 (padded (opcode_name (opc i))) (b' ' ∷ operands_text i)
        (padded-length _ (length-opcode_name (opc i) lt)) (omega (arith, operands-length i)) in
    below_limit _ h

-- The words that the assembler takes back.
pub record IsTaken (raw_halt : Bool) (i : ℕ) : Type 0 where
  pub bound : i < u32_mod
  pub known : opc i < named_count
  pub kept : (raw_halt || not (opc i == 66)) ≡ true
  pub allowed : takes_c i ≡ true

abbrev pub listing : List ℕ → List ℕ
listing [] = []
listing (i ∷ is) = fprintf_inst i ++ b'\n' ∷ listing is

abbrev line : ℕ → List ℕ
line i = fprintf_inst i ++ b'\n' ∷ []

no_lines : (fuel : ℕ) → read_lines fuel [] ≡ []
unfolding read_lines
no_lines zero = refl
no_lines (suc fuel) = refl

-- Any fuel that is as large as the file serves.
read_lines-listing :
    (raw_halt : Bool) (fuel : ℕ) (is : List ℕ)
    → All (IsTaken raw_halt) is
    → length (listing is) ≤ fuel
    → read_lines fuel (listing is) ≡ map line is
read_lines-listing raw_halt fuel [] h enough = no_lines fuel
read_lines-listing raw_halt zero (i ∷ is) h enough =
    absurd (omega (arith, enough, length-append (fprintf_inst i) (b'\n' ∷ listing is)))
read_lines-listing raw_halt (suc fuel) (i ∷ is) h enough =
    read_lines-line fuel (fprintf_inst i) (listing is)
      (All-map IsQuiet (λ c. is_newline c ≡ false) (fprintf_inst i) not_newline
        (fprintf_inst-quiet i (h.0.known)))
      (fprintf_inst-length i (h.0.known))
    ∙ ap (◌∷◌ (line i)) (
        read_lines-listing raw_halt fuel is (h.1)
          (omega (arith, enough, length-append (fprintf_inst i) (b'\n' ∷ listing is))))

module _ (strtol : Strtol) (reads : ReadsDecimals strtol) (raw_halt : Bool) where
  assemble_lines-map :
      (is : List ℕ)
      → All (IsTaken raw_halt) is
      → assemble_lines strtol raw_halt (map line is)
        ≡ record { output = concat (map bytes_of is); succeeds = true }
  unfolding assemble_lines
  assemble_lines-map [] h = refl
  assemble_lines-map (i ∷ is) h =
      let t = h.0 in
      let w =
        source_line-inverse strtol reads raw_halt i (t.bound) (t.known) (t.kept)
        ∙ if_true (takes_c i) (word i) _ (t.allowed) in
      rw w (rw (assemble_lines-map is (h.1)) refl)

  -- On a `strtol` that reads decimals as documented: the lines that the log prints of words, one
  -- line each, assemble to the bytes of these words in order, and to nothing else, for words of 32
  -- bits with a known opcode, not HALT unless it is kept, and with an immediate only where the
  -- opcode allows one.
  pub assemble_file-listing :
      (is : List ℕ)
      → All (IsTaken raw_halt) is
      → assemble_file strtol raw_halt (listing is)
        ≡ record { output = concat (map bytes_of is); succeeds = true }
  unfolding assemble_file
  assemble_file-listing is h =
      ap (assemble_lines strtol raw_halt)
        (read_lines-listing raw_halt (length (listing is)) is h (omega arith))
      ∙ assemble_lines-map is h
