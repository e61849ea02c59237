-- ===== src/Debug/Words.antt =====
-- The words of what `fprintf_inst` prints, as `strtok` of the assembler finds them.
use mathlib.Core.Path.{subst}
use mathlib.Core.List.{append_assoc, append-nil}
use virtual_machine.Prelude.{
  ℕ, zero, Bool, suc, ◌+◌, ◌-◌, ◌/◌, ◌%◌, ◌^◌, ◌<◌, ◌≡◌, ◌==◌, ltb, refl, arith, sym, ap, ◌∙◌, ◌&◌,
  some, List, [], ◌∷◌, ◌++◌, length, All, if_split, Bool-cases, inl, inr,
}
use virtual_machine.Instruction.{opc, ra, rb, rc, fimm, imm8}
use virtual_machine.Assembler.{assemble_line}
use virtual_machine.Assembler.Text.{Strtol, strtok, outcome, operand, instruction, source_line}
use virtual_machine.Assembler.Tokens.{
  IsPlain, IsQuiet, plain-IsQuiet, All-append, All-map, strtok-word, strtok-skip, source_line-word,
}
use virtual_machine.Debug.{
  decimal, decimal_digits, signed_decimal, hex_digit, hexadecimal, spaces, padded, c_text,
  fprintf_inst, opcode_name,
}
use virtual_machine.Debug.Names.{named_count, name_word}

digits-IsPlain :
    (fuel n : ℕ) (out : List ℕ) → All IsPlain out → All IsPlain (decimal_digits fuel n out)
unfolding decimal_digits
digits-IsPlain zero n out h = h
digits-IsPlain (suc fuel) n out h =
    let digit : IsPlain (b'0' + n % 10) = omega arith in
    if_split (All IsPlain) (n / 10 == 0) (digit, h)
      (digits-IsPlain fuel (n / 10) ((b'0' + n % 10) ∷ out) (digit, h))

pub decimal-IsPlain : (n : ℕ) → All IsPlain (decimal n)
unfolding decimal
decimal-IsPlain n = digits-IsPlain 10 n [] tt

signed_decimal-IsPlain : (v : ℕ) → All IsPlain (signed_decimal v)
unfolding signed_decimal
signed_decimal-IsPlain v =
    if_split (All IsPlain) (ltb v 128) (decimal-IsPlain v) (omega arith, decimal-IsPlain (256 - v))

c_text-IsPlain : (i : ℕ) → All IsPlain (c_text i)
unfolding c_text
c_text-IsPlain i =
    if_split (All IsPlain) (fimm i) (omega arith, signed_decimal-IsPlain (imm8 i))
      (omega arith, decimal-IsPlain (rc i))

-- `c_text` is not empty.
pub c_text_cons : (i : ℕ) → (c : ℕ) × (w : List ℕ) × (c_text i ≡ c ∷ w)
unfolding c_text
c_text_cons i = elim (Bool-cases (fimm i)) [
  | inl e ↦ (b'#', signed_decimal (imm8 i), rw e refl)
  | inr e ↦ (b'R', decimal (rc i), rw e refl)
]

hex-quiet : (d : ℕ) → d < 16 → IsQuiet (hex_digit d)
unfolding hex_digit
hex-quiet d h = ground (arith, h)

hexadecimal-quiet : (n v : ℕ) → All IsQuiet (hexadecimal n v)
unfolding hexadecimal
hexadecimal-quiet zero v = tt
hexadecimal-quiet (suc n) v = (hex-quiet (v / 16 ^ n % 16) (omega arith), hexadecimal-quiet n v)

spaces-quiet : (n : ℕ) → All IsQuiet (spaces n)
unfolding spaces
spaces-quiet zero = tt
spaces-quiet (suc n) = (omega arith, spaces-quiet n)

-- The part behind the operands, which the assembler does not look at.
abbrev pub word_text : ℕ → List ℕ
word_text i = b' ' ∷ b'[' ∷ b'0' ∷ b'x' ∷ hexadecimal 8 i ++ (b']' ∷ [])

abbrev pub operands_text : ℕ → List ℕ
operands_text i =
    (b'R' ∷ decimal (ra i))
    ++ (b',' ∷ b' ' ∷ b'R' ∷ decimal (rb i) ++ (b',' ∷ b' ' ∷ c_text i ++ (b' ' ∷ word_text i)))

quiet : (s : List ℕ) → All IsPlain s → All IsQuiet s
quiet s h = All-map IsPlain IsQuiet s plain-IsQuiet h

word_text-quiet : (i : ℕ) → All IsQuiet (word_text i)
word_text-quiet i =
    omega arith
    & omega arith
    & omega arith
    & omega arith
    & All-append IsQuiet (hexadecimal 8 i) (b']' ∷ []) (hexadecimal-quiet 8 i) (omega arith, tt)

operands-quiet : (i : ℕ) → All IsQuiet (operands_text i)
operands-quiet i =
    omega arith
    & All-append IsQuiet (decimal (ra i)) _ (quiet (decimal (ra i)) (decimal-IsPlain (ra i))) (
        omega arith
        & omega arith
        & omega arith
        & All-append IsQuiet (decimal (rb i)) _ (quiet (decimal (rb i)) (decimal-IsPlain (rb i))) (
            omega arith
            & omega arith
            & All-append IsQuiet (c_text i) _ (quiet (c_text i) (c_text-IsPlain i))
                (omega arith & word_text-quiet i)))

strtok-spaces : (n : ℕ) (x : List ℕ) → strtok (spaces n ++ b' ' ∷ x) ≡ strtok x
unfolding spaces
strtok-spaces zero x = strtok-skip b' ' x refl
strtok-spaces (suc n) x = strtok-skip b' ' (spaces n ++ b' ' ∷ x) refl ∙ strtok-spaces n x

-- Behind the name comes white space, then the operands.
strtok-name :
    (c : ℕ) (w : List ℕ) (n : ℕ) (x : List ℕ)
    → All IsPlain (c ∷ w)
    → (r : List ℕ) × (strtok (((c ∷ w) ++ spaces n) ++ b' ' ∷ x) ≡ (some (c ∷ w), r))
      × (strtok r ≡ strtok x)
unfolding spaces
strtok-name c w zero x h =
    (x, ap (λ t. strtok (t ++ b' ' ∷ x)) (append-nil (c ∷ w)) ∙ strtok-word c w b' ' x h refl, refl)
strtok-name c w (suc n) x h = (
  spaces n ++ b' ' ∷ x,
  ap strtok (append_assoc (c ∷ w) (b' ' ∷ spaces n) (b' ' ∷ x))
      ∙ strtok-word c w b' ' (spaces n ++ b' ' ∷ x) h refl,
  strtok-spaces n x,
)

-- The operands, one token after the other, with what `strtok` goes on with.
abbrev rest_a : ℕ → List ℕ
rest_a i = b' ' ∷ b'R' ∷ decimal (rb i) ++ (b',' ∷ b' ' ∷ c_text i ++ (b' ' ∷ word_text i))

abbrev rest_b : ℕ → List ℕ
rest_b i = b' ' ∷ c_text i ++ (b' ' ∷ word_text i)

strtok-a : (i : ℕ) → strtok (operands_text i) ≡ (some (b'R' ∷ decimal (ra i)), rest_a i)
strtok-a i =
    strtok-word b'R' (decimal (ra i)) b',' (rest_a i) (omega arith, decimal-IsPlain (ra i)) refl

strtok-b : (i : ℕ) → strtok (rest_a i) ≡ (some (b'R' ∷ decimal (rb i)), rest_b i)
strtok-b i =
    strtok-skip b' ' _ refl
    ∙ strtok-word b'R' (decimal (rb i)) b',' (rest_b i) (omega arith, decimal-IsPlain (rb i)) refl

strtok-c : (i : ℕ) → strtok (rest_b i) ≡ (some (c_text i), word_text i)
strtok-c i =
    let (c, w, e) = c_text_cons i in
    strtok-skip b' ' _ refl
    ∙ ap (λ t. strtok (t ++ b' ' ∷ word_text i)) e
    ∙ strtok-word c w b' ' (word_text i) (subst (All IsPlain) e (c_text-IsPlain i)) refl
    ∙ ap (λ t. (some t, word_text i)) (sym e)

-- The assembler reads the three operands of a text that goes on with them.
pub instruction-operands :
    (strtol : Strtol) (raw_halt : Bool) (tok r : List ℕ) (i : ℕ)
    → strtok r ≡ strtok (operands_text i)
    → instruction strtol raw_halt (some tok, r)
      ≡ outcome (
          assemble_line raw_halt tok
            (operand strtol (some (b'R' ∷ decimal (ra i))))
            (operand strtol (some (b'R' ∷ decimal (rb i))))
            (operand strtol (some (c_text i))))
unfolding instruction
instruction-operands strtol raw_halt tok r i h =
    rw (h ∙ strtok-a i) (rw (strtok-b i) (rw (strtok-c i) refl))

-- The line of a word, from the name of its opcode on.
source_line-name :
    (strtol : Strtol) (raw_halt : Bool) (c : ℕ) (w : List ℕ) (n i : ℕ)
    → All IsPlain (c ∷ w)
    → source_line strtol raw_halt ((((c ∷ w) ++ spaces n) ++ b' ' ∷ operands_text i) ++ b'\n' ∷ [])
      ≡ outcome (
          assemble_line raw_halt
            (c ∷ w)
            (operand strtol (some (b'R' ∷ decimal (ra i))))
            (operand strtol (some (b'R' ∷ decimal (rb i))))
            (operand strtol (some (c_text i))))
source_line-name strtol raw_halt c w n i h =
    let (r, found, goes_on) = strtok-name c w n (operands_text i) h in
    let all =
      All-append IsQuiet (w ++ spaces n) _
        (All-append IsQuiet w (spaces n) (quiet w h.1) (spaces-quiet n))
        (omega arith, operands-quiet i) in
    source_line-word strtol raw_halt c ((w ++ spaces n) ++ b' ' ∷ operands_text i) (h.0) all
    ∙ ap (instruction strtol raw_halt) found
    ∙ instruction-operands strtol raw_halt (c ∷ w) r i goes_on

-- The assembler sees the name and the three operands in what the log prints of a word.
pub source_line-fprintf_inst :
    (strtol : Strtol) (raw_halt : Bool) (i : ℕ)
    → opc i < named_count
    → source_line strtol raw_halt (fprintf_inst i ++ b'\n' ∷ [])
      ≡ outcome (
          assemble_line raw_halt
            (opcode_name (opc i))
            (operand strtol (some (b'R' ∷ decimal (ra i))))
            (operand strtol (some (b'R' ∷ decimal (rb i))))
            (operand strtol (some (c_text i))))
unfolding fprintf_inst padded
source_line-fprintf_inst strtol raw_halt i lt =
    let (c, w, e, plain) = name_word (opc i) lt in
    rw e (source_line-name strtol raw_halt c w _ i plain)

pub fprintf_inst-quiet : (i : ℕ) → opc i < named_count → All IsQuiet (fprintf_inst i)
unfolding fprintf_inst padded
fprintf_inst-quiet i lt =
    let (c, w, e, plain) = name_word (opc i) lt in
    rw e (
      All-append IsQuiet ((c ∷ w) ++ spaces (10 - length (c ∷ w))) _
        (All-append IsQuiet (c ∷ w) (spaces (10 - length (c ∷ w))) (quiet (c ∷ w) plain)
          (spaces-quiet (10 - length (c ∷ w))))
        (omega arith, operands-quiet i))
