-- ===== src/Debug/Reassembly.antt =====
-- The assembler on what `fprintf_inst` prints.
use virtual_machine.Prelude.{
  ℕ, Bool, true, false, not, ◌+◌, ◌-◌, ◌<◌, ◌≤◌, ◌≡◌, ◌==◌, ◌||◌, ltb, refl, arith, sym, ap, ◌∙◌,
  if◌then◌else◌, none, some, [], ◌∷◌, ◌++◌, get_elem?, Bool-cases, inl, inr,
}
use virtual_machine.Word.{u32_mod}
use virtual_machine.Instruction.{opc, ra, rb, rc, fimm, imm8}
use virtual_machine.Instruction.Encoding.{reg, imm, encode, encode-decode}
use virtual_machine.Assembler.{
  ℤ, pos, negsuc, Token, register, immediate, low8, allows_imm, check_imm8_range, assemble,
  assemble_line, mnemonic,
}
use virtual_machine.Assembler.Opcodes.{codes, op_table, same_name}
use virtual_machine.Assembler.Words.{assemble-registers, assemble-immediate}
use virtual_machine.Assembler.Text.{
  Strtol, parsed, to_int, parse_reg, parse_immediate, classify, operand, refused, word, outcome,
  source_line,
}
use virtual_machine.Debug.{decimal, signed_decimal, c_text, fprintf_inst, opcode_name}
use virtual_machine.Debug.Words.{source_line-fprintf_inst}
use virtual_machine.Debug.Names.{
  named_count, entry_flags, entry_at, opcode_from_name-opcode_name, halt_name,
}

-- What `strtol` does on a decimal numeral without leading zeros, here up to 255, and on a negative one
-- down to -128.
pub record ReadsDecimals (strtol : Strtol) : Type 0 where
  pub reads :
      (n : ℕ)
      → n ≤ 255
      → strtol (decimal n) ≡ record { value = pos n; end_at_start = false; fails = false }
  pub reads_minus :
      (n : ℕ)
      → n ≤ 127
      → strtol (b'-' ∷ decimal (n + 1))
        ≡ record { value = negsuc n; end_at_start = false; fails = false }

ra-le : (i : ℕ) → ra i ≤ 255
unfolding ra
ra-le i = omega arith

rb-le : (i : ℕ) → rb i ≤ 255
unfolding rb
rb-le i = omega arith

rc-le : (i : ℕ) → rc i ≤ 255
unfolding rc
rc-le i = omega arith

imm8-le : (i : ℕ) → imm8 i ≤ 255
unfolding imm8
imm8-le i = omega arith

same_mnemonic :
    (raw_halt : Bool) (op : ℕ)
    → op < named_count
    → (raw_halt || not (op == 66)) ≡ true
    → mnemonic raw_halt (opcode_name op) ≡ opcode_name op
unfolding mnemonic
same_mnemonic true op lt h = refl
same_mnemonic false op lt h = elim (Bool-cases (same_name (opcode_name op) (codes "halt"))) [
  | inl e ↦ let is_halt = halt_name op lt e in absurd (ground (arith, h, is_halt))
  | inr e ↦ rw e refl
]

-- A line with the name that the log prints goes to the entry of that opcode.
assemble_line-opcode_name :
    (raw_halt : Bool) (op : ℕ) (a b c : Token)
    → op < named_count
    → (raw_halt || not (op == 66)) ≡ true
    → assemble_line raw_halt (opcode_name op) a b c
      ≡ assemble (entry_flags (get_elem? op_table op)) op a b c
unfolding assemble_line
assemble_line-opcode_name raw_halt op a b c lt h =
    let (entry, e) = entry_at op lt in
    rw (same_mnemonic raw_halt op lt h)
      (rw (opcode_from_name-opcode_name op lt, assemble_line) (rw (e, assemble_line) refl))

-- The assembler takes the opcode with the operand C that the word has.
abbrev pub takes_c : ℕ → Bool
takes_c i = if fimm i then allows_imm (entry_flags (get_elem? op_table (opc i))) else true

outcome_if :
    (b : Bool) (i : ℕ) → outcome (if b then some i else none) ≡ (if b then word i else refused)
unfolding outcome
outcome_if true i = refl
outcome_if false i = refl

module _ (strtol : Strtol) (h : ReadsDecimals strtol) where
  register-operand : (n : ℕ) → n ≤ 255 → operand strtol (some (b'R' ∷ decimal n)) ≡ register (pos n)
  unfolding operand parse_reg parsed to_int classify
  register-operand n lt = rw (h.reads n lt) (ground (arith, lt))

  -- The number of an 8-bit pattern.
  abbrev signed : ℕ → ℤ
  signed v = if ltb v 128 then pos v else negsuc (255 - v)

  immediate-operand :
      (v : ℕ) → v ≤ 255 → operand strtol (some (b'#' ∷ signed_decimal v)) ≡ immediate (signed v)
  unfolding operand parse_reg parse_immediate parsed to_int classify signed_decimal
  immediate-operand v lt = elim (Bool-cases (ltb v 128)) [
    | inl e ↦ rw e (rw (h.reads v lt) (ground (arith, lt, e)))
    | inr e ↦
        let spelled : 256 - v ≡ (255 - v) + 1 = ground (arith, lt, e) in
        rw e (
          rw spelled (rw (h.reads_minus (255 - v) (ground (arith, lt, e))) (ground (arith, lt, e))))
  ]

  low8-signed : (v : ℕ) → v ≤ 255 → low8 (signed v) ≡ v
  unfolding low8
  low8-signed v lt = ground (arith, lt)

  signed-range : (v : ℕ) → v ≤ 255 → check_imm8_range (signed v) ≡ true
  unfolding check_imm8_range
  signed-range v lt = ground (arith, lt)

  registers_word :
      (i : ℕ)
      → i < u32_mod
      → opc i < named_count
      → fimm i ≡ false
      → assemble
          (entry_flags (get_elem? op_table (opc i)))
          (opc i)
          (register (pos (ra i)))
          (register (pos (rb i)))
          (operand strtol (some (c_text i)))
        ≡ some i
  unfolding c_text
  registers_word i bound lt e =
      let whole : encode (opc i) (ra i) (rb i) (reg (rc i)) ≡ i =
        ap (λ b. encode (opc i) (ra i) (rb i) (if b then imm (imm8 i) else reg (rc i))) (sym e)
        ∙ encode-decode i bound in
      rw e (
        rw (register-operand (rc i) (rc-le i)) (
          assemble-registers _ (opc i) (ra i) (rb i) (rc i) (omega (arith, lt)) (ra-le i) (rb-le i)
            (rc-le i)
          ∙ ap some whole))

  immediate_word :
      (i : ℕ)
      → i < u32_mod
      → opc i < named_count
      → fimm i ≡ true
      → assemble
          (entry_flags (get_elem? op_table (opc i)))
          (opc i)
          (register (pos (ra i)))
          (register (pos (rb i)))
          (operand strtol (some (c_text i)))
        ≡ (if allows_imm (entry_flags (get_elem? op_table (opc i))) then some i else none)
  unfolding c_text
  immediate_word i bound lt e =
      let whole : encode (opc i) (ra i) (rb i) (imm (low8 (signed (imm8 i)))) ≡ i =
        ap (λ v. encode (opc i) (ra i) (rb i) (imm v)) (low8-signed (imm8 i) (imm8-le i))
        ∙ ap (λ b. encode (opc i) (ra i) (rb i) (if b then imm (imm8 i) else reg (rc i))) (sym e)
        ∙ encode-decode i bound in
      let flags = entry_flags (get_elem? op_table (opc i)) in
      rw e (
        rw (immediate-operand (imm8 i) (imm8-le i)) (
          assemble-immediate flags (opc i) (ra i) (rb i) (signed (imm8 i)) (omega (arith, lt))
            (ra-le i) (rb-le i) (signed-range (imm8 i) (imm8-le i))
          ∙ ap (λ w. if allows_imm flags then some w else none) whole))

  c_word :
      (i : ℕ)
      → i < u32_mod
      → opc i < named_count
      → assemble
          (entry_flags (get_elem? op_table (opc i)))
          (opc i)
          (register (pos (ra i)))
          (register (pos (rb i)))
          (operand strtol (some (c_text i)))
        ≡ (if takes_c i then some i else none)
  c_word i bound lt = elim (Bool-cases (fimm i)) [
    | inl e ↦ immediate_word i bound lt e ∙ rw e refl
    | inr e ↦ registers_word i bound lt e ∙ rw e refl
  ]

  -- On a `strtol` that reads decimals as documented: what the log prints of a 32-bit word with a
  -- known opcode, not HALT unless it is kept, assembles to that word again, unless the word has an
  -- immediate that the assembler does not allow for the opcode: then the line is refused.
  pub source_line-inverse :
      (raw_halt : Bool) (i : ℕ)
      → i < u32_mod
      → opc i < named_count
      → (raw_halt || not (opc i == 66)) ≡ true
      → source_line strtol raw_halt (fprintf_inst i ++ b'\n' ∷ [])
        ≡ (if takes_c i then word i else refused)
  unfolding outcome
  source_line-inverse raw_halt i bound lt kept =
      source_line-fprintf_inst strtol raw_halt i lt
      ∙ rw (register-operand (ra i) (ra-le i)) (
          rw (register-operand (rb i) (rb-le i)) (
            rw
              (assemble_line-opcode_name raw_halt (opc i) (register (pos (ra i)))
                (register (pos (rb i))) (operand strtol (some (c_text i))) lt kept)
              (rw (c_word i bound lt) (outcome_if (takes_c i) i))))
