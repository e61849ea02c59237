-- ===== src/Debug.antt =====
-- What prototype-integrator/src/debug.c prints of an instruction: its name, its operands and its bits.
-- Texts are lists of bytes, the calls of `fprintf` one after the other are an append.
pub mod Names
pub mod Binary
pub mod Log
pub mod Changes
pub mod Entries
pub mod Replay
pub mod Words
pub mod Reassembly
pub mod Listing
pub mod Dump
pub mod NonZero
use virtual_machine.Prelude.{
  ℕ, zero, suc, ◌+◌, ◌-◌, ◌*◌, ◌/◌, ◌%◌, ◌^◌, ◌==◌, ◌&&◌, not, ltb, leb, if◌then◌else◌, Option,
  none, some, List, [], ◌∷◌, ◌++◌, length, get_elem?,
}
use virtual_machine.Instruction.{opc, ra, rb, rc, fimm, imm8}
use virtual_machine.Assembler.Opcodes.{codes}

-- The entries with a name; the others are NULL.
unfoldable pub opcode_names : List (List ℕ)
opcode_names =
    codes "ADD"
    ∷ codes "SUB"
    ∷ codes "MUL"
    ∷ codes "DIV"
    ∷ codes "MOD"
    ∷ codes "EXPT"
    ∷ codes "ABS"
    ∷ codes "SQRT"
    ∷ codes "LN"
    ∷ codes "LOG"
    ∷ codes "EXP"
    ∷ codes "SIN"
    ∷ codes "COS"
    ∷ codes "TAN"
    ∷ codes "ASIN"
    ∷ codes "ACOS"
    ∷ codes "ATAN"
    ∷ codes "AND"
    ∷ codes "OR"
    ∷ codes "XOR"
    ∷ codes "NOT"
    ∷ codes "EQ"
    ∷ codes "NE"
    ∷ codes "GT"
    ∷ codes "GE"
    ∷ codes "LT"
    ∷ codes "LE"
    ∷ codes "TIME"
    ∷ codes "DATE"
    ∷ codes "TOD"
    ∷ codes "DT"
    ∷ codes "ADD_TIME"
    ∷ codes "SUB_TIME"
    ∷ codes "YEAR"
    ∷ codes "MONTH"
    ∷ codes "DAY"
    ∷ codes "HOUR"
    ∷ codes "MINUTE"
    ∷ codes "SECOND"
    ∷ codes "LEN"
    ∷ codes "CONCAT"
    ∷ codes "LEFT"
    ∷ codes "RIGHT"
    ∷ codes "MID"
    ∷ codes "INSERT"
    ∷ codes "DELETE"
    ∷ codes "REPLACE"
    ∷ codes "TON"
    ∷ codes "TOF"
    ∷ codes "TP"
    ∷ codes "CTU"
    ∷ codes "CTD"
    ∷ codes "CTUD"
    ∷ codes "LIMIT"
    ∷ codes "SEL"
    ∷ codes "MUX"
    ∷ codes "RISING_EDGE"
    ∷ codes "FALLING_EDGE"
    ∷ codes "EDGE_BOTH"
    ∷ codes "RS_LATCH"
    ∷ codes "SR_LATCH"
    ∷ codes "DEMUX"
    ∷ codes "JMP"
    ∷ codes "JMP_IF"
    ∷ codes "JMP_IF_NOT"
    ∷ codes "EXIT"
    ∷ codes "HALT"
    ∷ codes "NOP"
    ∷ []

-- OPCODE_COUNT
abbrev pub opcode_count : ℕ
opcode_count = 128

abbrev pub name_or_unknown : Option (List ℕ) → List ℕ
name_or_unknown none = codes "UNKNOWN"
name_or_unknown (some s) = s

unfoldable pub opcode_name : ℕ → List ℕ
unfolding opcode_names
opcode_name opcode =
    if leb opcode_count opcode
    then codes "UNKNOWN"
    else name_or_unknown (get_elem? opcode_names opcode)

-- `%u`: the decimal digits, with the number of digits at most as fuel, in front of `out`.
unfoldable pub decimal_digits : ℕ → ℕ → List ℕ → List ℕ
decimal_digits zero n out = out
decimal_digits (suc fuel) n out =
    if n / 10 == 0
    then (b'0' + n % 10) ∷ out
    else decimal_digits fuel (n / 10) ((b'0' + n % 10) ∷ out)

-- A 32-bit number has ten digits at most.
unfoldable pub decimal : ℕ → List ℕ
unfolding decimal_digits
decimal n = decimal_digits 10 n []

-- `%d` of the `int8_t` with this pattern
unfoldable pub signed_decimal : ℕ → List ℕ
unfolding decimal
signed_decimal v = if ltb v 128 then decimal v else b'-' ∷ decimal (256 - v)

unfoldable pub hex_digit : ℕ → ℕ
hex_digit d = if ltb d 10 then b'0' + d else b'A' + (d - 10)

-- `%0<n>X`
unfoldable pub hexadecimal : ℕ → ℕ → List ℕ
unfolding hex_digit
hexadecimal zero v = []
hexadecimal (suc n) v = hex_digit (v / 16 ^ n % 16) ∷ hexadecimal n v

unfoldable pub spaces : ℕ → List ℕ
spaces zero = []
spaces (suc n) = b' ' ∷ spaces n

-- `%-10s`
unfoldable pub padded : List ℕ → List ℕ
unfolding spaces
padded s = s ++ spaces (10 - length s)

-- The operand C: the immediate if FIMM is set, else the register.
unfoldable pub c_text : ℕ → List ℕ
unfolding fimm rc imm8 decimal signed_decimal
c_text instr = if fimm instr then b'#' ∷ signed_decimal (imm8 instr) else b'R' ∷ decimal (rc instr)

unfoldable pub fprintf_inst : ℕ → List ℕ
unfolding opc ra rb opcode_name padded decimal c_text hexadecimal
fprintf_inst instr =
    padded (opcode_name (opc instr))
    ++ (b' ' ∷ b'R' ∷ decimal (ra instr)
        ++ (b',' ∷ b' ' ∷ b'R' ∷ decimal (rb instr)
            ++ (b',' ∷ b' ' ∷ c_text instr
                ++ (b' ' ∷ b' ' ∷ b'[' ∷ b'0' ∷ b'x' ∷ hexadecimal 8 instr ++ (b']' ∷ [])))))

-- The digit of one bit, with the space in front of each further byte.
unfoldable pub binary_digit : ℕ → ℕ → List ℕ → List ℕ
binary_digit c num rest =
    let digit = b'0' + num / 2 ^ c % 2 in
    if (c + 1) % 8 == 0 && not (c == 31) then b' ' ∷ digit ∷ rest else digit ∷ rest

-- The loop of `fprintf_binary` on the bits below `n`.
unfoldable pub binary_digits : ℕ → ℕ → List ℕ
unfolding binary_digit
binary_digits zero num = []
binary_digits (suc c) num = binary_digit c num (binary_digits c num)

unfoldable pub fprintf_binary : ℕ → List ℕ
fprintf_binary num = binary_digits 32 num
