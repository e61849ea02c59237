-- ===== src/Assembler.antt =====
-- The assembler of prototype-integrator/tools/converter.c on one line: the operands as its parsers
-- deliver them, the word that it writes.
pub mod Opcodes
pub mod Handlers
pub mod Words
pub mod Text
pub mod Tokens
pub mod Files
use virtual_machine.Prelude.{
  ℕ, zero, suc, Bool, true, false, not, ◌+◌, ◌-◌, ◌%◌, ◌&&◌, leb, if◌then◌else◌, Option, none, some,
  List, [], ◌∷◌, get_elem?,
}
use virtual_machine.Instruction.Encoding.{Operand, reg, imm, encode}
use virtual_machine.Assembler.Opcodes.{
  CFlags, cflag_none, cflag_allow_imm, cflag_c_must_reg, codes, op_table, same_name,
  opcode_from_name,
}

infixl 5 ◌>>=◌
abbrev ◌>>=◌ : {A B : Type 0} → Option A → (A → Option B) → Option B
none >>= f = none
some a >>= f = f a

-- `int`
pub data ℤ : Type 0 where
  pos : ℕ → ℤ
  negsuc : ℕ → ℤ

-- An operand token, with the answers of `parse_reg` and `parse_immediate`: none at all, a register
-- `R<n>`, an immediate `#<n>`, or neither.
pub data Token : Type 0 where
  missing : Token
  register : ℤ → Token
  immediate : ℤ → Token
  malformed : Token

unfoldable pub check_reg_range : ℤ → Bool
check_reg_range (pos n) = leb n 255
check_reg_range (negsuc n) = false

unfoldable pub check_imm8_range : ℤ → Bool
check_imm8_range (pos n) = leb n 127
check_imm8_range (negsuc n) = leb n 127

-- `(uint8_t)v`
unfoldable pub low8 : ℤ → ℕ
low8 (pos n) = n % 256
low8 (negsuc n) = 255 - n % 256

-- `Areg & 0xFF` of a register number in range, else the error.
unfoldable pub register_number : ℤ → Option ℕ
unfolding check_reg_range low8
register_number r = if check_reg_range r then some (low8 r) else none

-- The operands A and B.
unfoldable pub parse_register : Token → Option ℕ
unfolding register_number
parse_register missing = some 0
parse_register (register r) = register_number r
parse_register (immediate v) = none
parse_register malformed = none

unfoldable pub allows_imm : CFlags → Bool
allows_imm cflag_allow_imm = true
allows_imm cflag_none = false
allows_imm cflag_c_must_reg = false

unfoldable pub must_reg : CFlags → Bool
must_reg cflag_c_must_reg = true
must_reg cflag_allow_imm = false
must_reg cflag_none = false

-- The operand C.
unfoldable pub parse_c : CFlags → Token → Option Operand
unfolding register_number allows_imm check_imm8_range low8
parse_c flags missing = some (reg 0)
parse_c flags (register r) = do n ← register_number r; some (reg n)
parse_c flags (immediate v) =
    if allows_imm flags then (if check_imm8_range v then some (imm (low8 v)) else none) else none
parse_c flags malformed = none

-- "Opcode requires C to be a register"
unfoldable pub check_must_reg : CFlags → Operand → Option Operand
unfolding must_reg
check_must_reg flags (reg n) = some (reg n)
check_must_reg flags (imm v) = if must_reg flags then none else some (imm v)

-- The word of an opcode with its operands; `none` is an error, at which the assembler stops.
unfoldable pub assemble : CFlags → ℕ → Token → Token → Token → Option ℕ
unfolding parse_register parse_c check_must_reg encode
assemble flags op a b c = do
  na ← parse_register a
  nb ← parse_register b
  oc ← parse_c flags c
  checked ← check_must_reg flags oc
  (if leb op 127 then some (encode op na nb checked) else none)

-- `halt` is rewritten to `exit` unless the assembler was asked not to.
unfoldable pub mnemonic : Bool → List ℕ → List ℕ
unfolding same_name
mnemonic raw_halt tok = if not raw_halt && same_name tok (codes "halt") then codes "exit" else tok

-- One line of the source.
unfoldable pub assemble_line : Bool → List ℕ → Token → Token → Token → Option ℕ
unfolding mnemonic opcode_from_name op_table assemble
assemble_line raw_halt tok a b c = do
  op ← opcode_from_name (mnemonic raw_halt tok)
  entry ← get_elem? op_table op
  assemble (entry.1) op a b c
