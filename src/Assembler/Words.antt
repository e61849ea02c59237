-- ===== src/Assembler/Words.antt =====
-- What the machine reads from an assembled line.
use mathlib.Core.Path.{subst}
use mathlib.Core.Option.{some-injective}
use virtual_machine.Prelude.{
  ℕ, Bool, true, false, ◌-◌, ◌<◌, ◌≤◌, ◌≡◌, leb, arith, refl, sym, ap, ◌∙◌, if◌then◌else◌, Option,
  none, some, List, get_elem?, Bool-cases, inl, inr,
}
use virtual_machine.Word.{u32_mod}
use virtual_machine.Instruction.{opc, ra, rb, rc, fimm, sextimm8}
use virtual_machine.Instruction.Encoding.{
  Operand, reg, imm, encode, low_byte, is_imm, decode-encode, sextimm8_lem, signed8,
}
use virtual_machine.Assembler.Opcodes.{
  CFlags, cflag_allow_imm, cflag_none, cflag_c_must_reg, op_table, opcode_from_name,
}
use virtual_machine.Assembler.{
  ℤ, pos, negsuc, Token, missing, register, immediate, malformed, check_reg_range, check_imm8_range,
  low8, register_number, parse_register, allows_imm, must_reg, parse_c, check_must_reg, assemble,
  assemble_line, mnemonic, assemble_line, mnemonic, ◌>>=◌,
}

-- A token that names the register `r`.
abbrev pub Names : Token → ℕ → Type 0
Names missing r = r ≡ 0
Names (register (pos n)) r = r ≡ n
Names (register (negsuc n)) r = ⊥
Names (immediate v) r = ⊥
Names malformed r = ⊥

-- A number as a 32-bit word in two's complement.
abbrev pub to_word : ℤ → ℕ
to_word (pos n) = n
to_word (negsuc n) = u32_mod - 1 - n

-- A token that an instruction word expresses in its operand C.
abbrev pub Reads : Token → ℕ → Type 0
Reads missing i = (fimm i ≡ false) × (rc i ≡ 0)
Reads (register (pos n)) i = (fimm i ≡ false) × (rc i ≡ n)
Reads (register (negsuc n)) i = ⊥
Reads (immediate v) i = (fimm i ≡ true) × (sextimm8 i ≡ to_word v)
Reads malformed i = ⊥

register_number_lem :
    (t : ℤ) (n : ℕ) → register_number t ≡ some n → Names (register t) n × (n < 256)
unfolding register_number check_reg_range low8
register_number_lem (pos k) n h = elim (Bool-cases (leb k 255)) [
  | inl e ↦ ground (arith, h, e)
  | inr e ↦ ground (arith, h, e)
]
register_number_lem (negsuc k) n h = absurd (cc)

parse_register_lem : (t : Token) (n : ℕ) → parse_register t ≡ some n → Names t n × (n < 256)
unfolding parse_register
parse_register_lem missing n h = ground (arith, h)
parse_register_lem (register r) n h = register_number_lem r n h
parse_register_lem (immediate v) n h = absurd (cc)
parse_register_lem malformed n h = absurd (cc)

-- What `parse_c` keeps of a token.
abbrev Means : Token → Operand → Type 0
Means t (reg n) = Names t n × (n < 256)
Means t (imm b) = (v : ℤ) × (t ≡ immediate v) × (signed8 b ≡ to_word v) × (b < 256)

bind_inv :
    {A B : Type 0} (o : Option A) (f : A → Option B) {b : B}
    → (o >>= f) ≡ some b
    → (a : A) × (o ≡ some a) × (f a ≡ some b)
bind_inv none f h = absurd (cc)
bind_inv (some a) f h = (a, refl, h)

checked_lem :
    (flags : CFlags) (oc checked : Operand) → check_must_reg flags oc ≡ some checked → oc ≡ checked
unfolding check_must_reg
checked_lem flags (reg n) checked h = some-injective _ _ h
checked_lem flags (imm v) checked h = elim (Bool-cases (must_reg flags)) [
  | inl e ↦ absurd (ground (arith, h, e))
  | inr e ↦ ground (arith, h, e)
]

emitted :
    (op na nb i : ℕ) (oc : Operand)
    → (if leb op 127 then some (encode op na nb oc) else none) ≡ some i
    → (op < 128) × (i ≡ encode op na nb oc)
emitted op na nb i oc h = ground (arith, h)

inverse :
    (flags : CFlags) (op : ℕ) (a b c : Token) (i : ℕ)
    → assemble flags op a b c ≡ some i
    → (na : ℕ) × (nb : ℕ) × (oc : Operand) × (parse_register a ≡ some na)
      × (parse_register b ≡ some nb)
      × (parse_c flags c ≡ some oc)
      × (op < 128)
      × (i ≡ encode op na nb oc)
unfolding assemble
inverse flags op a b c i h =
    let (na, ea, h₁) = bind_inv (parse_register a) _ h in
    let (nb, eb, h₂) = bind_inv (parse_register b) _ h₁ in
    let (oc, ec, h₃) = bind_inv (parse_c flags c) _ h₂ in
    let (oc', e, h₄) = bind_inv (check_must_reg flags oc) _ h₃ in
    let (lt, eq) = emitted op na nb i oc' h₄ in
    (na, nb, oc, ea, eb, ec, lt, eq ∙ ap (encode op na nb) (sym (checked_lem flags oc oc' e)))

low8_lem : (v : ℤ) → check_imm8_range v ≡ true → (signed8 (low8 v) ≡ to_word v) × (low8 v < 256)
unfolding low8 check_imm8_range
low8_lem (pos n) e = ground (arith, e)
low8_lem (negsuc n) e = ground (arith, e)

immediate_inv :
    (allowed : Bool) (v : ℤ) (oc : Operand)
    → (if allowed then (if check_imm8_range v then some (imm (low8 v)) else none) else none)
      ≡ some oc
    → (check_imm8_range v ≡ true) × (imm (low8 v) ≡ oc)
immediate_inv allowed v oc h = ground (arith, h)

parse_c_lem : (flags : CFlags) (t : Token) (oc : Operand) → parse_c flags t ≡ some oc → Means t oc
unfolding parse_c
parse_c_lem flags missing oc h = subst (Means missing) (some-injective _ _ h) (refl, omega arith)
parse_c_lem flags (register r) oc h =
    let (n, e, h') = bind_inv (register_number r) _ h in
    subst (Means (register r)) (some-injective _ _ h') (register_number_lem r n e)
parse_c_lem flags (immediate v) oc h =
    let (e, eq) = immediate_inv (allows_imm flags) v oc h in
    let (f, lt) = low8_lem v e in subst (Means (immediate v)) eq (v, refl, f, lt)
parse_c_lem flags malformed oc h = absurd (cc)

Means-lt : (c : Token) (oc : Operand) → Means c oc → low_byte oc < 256
Means-lt c (reg n) m = m.1
Means-lt c (imm b) (v, e, f, lt) = lt

Means-Reads :
    (c : Token) (oc : Operand) (i : ℕ)
    → Means c oc
    → fimm i ≡ is_imm oc
    → rc i ≡ low_byte oc
    → Reads c i
unfolding rc
Means-Reads missing (reg n) i m f r = (f, r ∙ m.0)
Means-Reads (register (pos k)) (reg n) i m f r = (f, r ∙ m.0)
Means-Reads (register (negsuc k)) (reg n) i m f r = m.0
Means-Reads (immediate v) (reg n) i m f r = absurd (m.0)
Means-Reads malformed (reg n) i m f r = m.0
Means-Reads c (imm b) i (v, e, s, lt) f r =
    subst (λ t. Reads t i) (sym e) (f, sextimm8_lem i ∙ ap signed8 r ∙ s)

assembled_word :
    (flags : CFlags) (op : ℕ) (a b c : Token) (i : ℕ)
    → assemble flags op a b c ≡ some i
    → (opc i ≡ op) × Names a (ra i) × Names b (rb i) × Reads c i
assembled_word flags op a b c i h =
    let (na, nb, oc, ea, eb, ec, lt, e) = inverse flags op a b c i h in
    let (name_a, lt_a) = parse_register_lem a na ea in
    let (name_b, lt_b) = parse_register_lem b nb eb in
    let m = parse_c_lem flags c oc ec in
    let (o, d_a, d_b, d_f, d_c, _) = decode-encode op na nb oc lt lt_a lt_b (Means-lt c oc m) in
    subst (λ w. (opc w ≡ op) × Names a (ra w) × Names b (rb w) × Reads c w) (sym e)
      (
        o,
        subst (Names a) (sym d_a) name_a,
        subst (Names b) (sym d_b) name_b,
        Means-Reads c oc (encode op na nb oc) m d_f d_c,
      )

-- Operands already read as tokens that the assembler accepts after a mnemonic become a word that
-- the machine decodes to the opcode of the mnemonic, to the registers that the tokens name
-- (register 0 for one left out), and to the third operand, a register or an immediate with its
-- sign.
pub assembled_line :
    (raw_halt : Bool) (tok : List ℕ) (a b c : Token) (i : ℕ)
    → assemble_line raw_halt tok a b c ≡ some i
    → (opcode_from_name (mnemonic raw_halt tok) ≡ some (opc i))
      × Names a (ra i)
      × Names b (rb i)
      × Reads c i
unfolding assemble_line
assembled_line raw_halt tok a b c i h =
    let (op, e, h₁) = bind_inv (opcode_from_name (mnemonic raw_halt tok)) _ h in
    let (entry, _, h₂) = bind_inv (get_elem? op_table op) _ h₁ in
    let (o, na, nb, r) = assembled_word (entry.1) op a b c i h₂ in (e ∙ ap some (sym o), na, nb, r)

-- With an opcode below 128 that allows it, register numbers up to 255 and an immediate from -128 to
-- 127, the assembler accepts the line and writes the word of these fields.
pub assemble_accepts :
    (op na nb : ℕ) (v : ℤ)
    → op < 128
    → na ≤ 255
    → nb ≤ 255
    → check_imm8_range v ≡ true
    → assemble cflag_allow_imm op (register (pos na)) (register (pos nb)) (immediate v)
      ≡ some (encode op na nb (imm (low8 v)))
unfolding assemble parse_register register_number check_reg_range parse_c allows_imm check_must_reg
    must_reg low8
assemble_accepts op na nb v o a b h = ground (arith, o, a, b, h)

-- A line with three registers from 0 to 255 is accepted whatever the flags of its opcode.
pub assemble-registers :
    (flags : CFlags) (op na nb nc : ℕ)
    → op < 128
    → na ≤ 255
    → nb ≤ 255
    → nc ≤ 255
    → assemble flags op (register (pos na)) (register (pos nb)) (register (pos nc))
      ≡ some (encode op na nb (reg nc))
unfolding assemble parse_register register_number check_reg_range parse_c check_must_reg low8
assemble-registers flags op na nb nc o a b c = ground (arith, o, a, b, c)

-- An immediate in range is accepted exactly for the opcodes that allow one.
pub assemble-immediate :
    (flags : CFlags) (op na nb : ℕ) (v : ℤ)
    → op < 128
    → na ≤ 255
    → nb ≤ 255
    → check_imm8_range v ≡ true
    → assemble flags op (register (pos na)) (register (pos nb)) (immediate v)
      ≡ (if allows_imm flags then some (encode op na nb (imm (low8 v))) else none)
unfolding assemble parse_register register_number check_reg_range parse_c allows_imm check_must_reg
    must_reg low8
assemble-immediate cflag_none op na nb v o a b h = ground (arith, o, a, b, h)
assemble-immediate cflag_allow_imm op na nb v o a b h = ground (arith, o, a, b, h)
assemble-immediate cflag_c_must_reg op na nb v o a b h = ground (arith, o, a, b, h)

-- What the assembler writes for a line is a 32-bit word.
pub assemble_line-lt :
    (raw_halt : Bool) (tok : List ℕ) (a b c : Token) (i : ℕ)
    → assemble_line raw_halt tok a b c ≡ some i
    → i < u32_mod
unfolding assemble_line encode
assemble_line-lt raw_halt tok a b c i h =
    let (op, _, h₁) = bind_inv (opcode_from_name (mnemonic raw_halt tok)) _ h in
    let (entry, _, h₂) = bind_inv (get_elem? op_table op) _ h₁ in
    let (na, nb, oc, _, _, _, _, e) = inverse (entry.1) op a b c i h₂ in rw e (omega arith)
