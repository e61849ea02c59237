-- ===== src/Assembler/Opcodes.antt =====
-- The table of opcodes of prototype-integrator/tools/converter.c and the search in it.
use Prim.Native.Char.{code}
use Prim.Native.String.{String}
use virtual_machine.Prelude.{
  ℕ, Bool, true, false, ◌+◌, ◌==◌, ◌&&◌, leb, if◌then◌else◌, Option, none, some, List, [], ◌∷◌,
}

pub data CFlags : Type 0 where
  cflag_none cflag_allow_imm cflag_c_must_reg : CFlags

-- The code points of a name.
abbrev pub codes : String → List ℕ
codes String.[] = []
codes (String.◌∷◌ c s) = code c ∷ codes s

-- `op_table`; the code of an entry is its index, and is not read.
unfoldable pub op_table : List (List ℕ × CFlags)
op_table =
    (codes "add", cflag_allow_imm)
    ∷ (codes "sub", cflag_allow_imm)
    ∷ (codes "mul", cflag_allow_imm)
    ∷ (codes "div", cflag_allow_imm)
    ∷ (codes "mod", cflag_allow_imm)
    ∷ (codes "expt", cflag_allow_imm)
    ∷ (codes "abs", cflag_none)
    ∷ (codes "sqrt", cflag_none)
    ∷ (codes "ln", cflag_none)
    ∷ (codes "log", cflag_none)
    ∷ (codes "exp", cflag_none)
    ∷ (codes "sin", cflag_none)
    ∷ (codes "cos", cflag_none)
    ∷ (codes "tan", cflag_none)
    ∷ (codes "asin", cflag_none)
    ∷ (codes "acos", cflag_none)
    ∷ (codes "atan", cflag_none)
    ∷ (codes "and", cflag_allow_imm)
    ∷ (codes "or", cflag_allow_imm)
    ∷ (codes "xor", cflag_allow_imm)
    ∷ (codes "not", cflag_none)
    ∷ (codes "eq", cflag_allow_imm)
    ∷ (codes "ne", cflag_allow_imm)
    ∷ (codes "gt", cflag_allow_imm)
    ∷ (codes "ge", cflag_allow_imm)
    ∷ (codes "lt", cflag_allow_imm)
    ∷ (codes "le", cflag_allow_imm)
    ∷ (codes "time", cflag_none)
    ∷ (codes "date", cflag_none)
    ∷ (codes "tod", cflag_none)
    ∷ (codes "dt", cflag_none)
    ∷ (codes "add_time", cflag_allow_imm)
    ∷ (codes "sub_time", cflag_allow_imm)
    ∷ (codes "year", cflag_none)
    ∷ (codes "month", cflag_none)
    ∷ (codes "day", cflag_none)
    ∷ (codes "hour", cflag_none)
    ∷ (codes "minute", cflag_none)
    ∷ (codes "second", cflag_none)
    ∷ (codes "len", cflag_none)
    ∷ (codes "concat", cflag_c_must_reg)
    ∷ (codes "left", cflag_allow_imm)
    ∷ (codes "right", cflag_allow_imm)
    ∷ (codes "mid", cflag_allow_imm)
    ∷ (codes "insert", cflag_allow_imm)
    ∷ (codes "delete", cflag_allow_imm)
    ∷ (codes "replace", cflag_allow_imm)
    ∷ (codes "ton", cflag_allow_imm)
    ∷ (codes "tof", cflag_allow_imm)
    ∷ (codes "tp", cflag_allow_imm)
    ∷ (codes "ctu", cflag_allow_imm)
    ∷ (codes "ctd", cflag_allow_imm)
    ∷ (codes "ctud", cflag_c_must_reg)
    ∷ (codes "limit", cflag_allow_imm)
    ∷ (codes "sel", cflag_c_must_reg)
    ∷ (codes "mux", cflag_allow_imm)
    ∷ (codes "rising_edge", cflag_allow_imm)
    ∷ (codes "falling_edge", cflag_allow_imm)
    ∷ (codes "edge_both", cflag_allow_imm)
    ∷ (codes "rs_latch", cflag_allow_imm)
    ∷ (codes "sr_latch", cflag_allow_imm)
    ∷ (codes "demux", cflag_allow_imm)
    ∷ (codes "jmp", cflag_allow_imm)
    ∷ (codes "jmp_if", cflag_allow_imm)
    ∷ (codes "jmp_if_not", cflag_allow_imm)
    ∷ (codes "exit", cflag_allow_imm)
    ∷ (codes "halt", cflag_none)
    ∷ (codes "nop", cflag_none)
    ∷ []

unfoldable pub to_lower : ℕ → ℕ
to_lower c = if leb 65 c && leb c 90 then c + 32 else c

-- `strcasecmp(a, b) == 0`, on the bytes of the "C" locale.
unfoldable pub same_name : List ℕ → List ℕ → Bool
unfolding to_lower
same_name [] [] = true
same_name [] (d ∷ ds) = false
same_name (c ∷ cs) [] = false
same_name (c ∷ cs) (d ∷ ds) = to_lower c == to_lower d && same_name cs ds

-- The loop of `opcode_from_name`, at the index `k` of the table.
unfoldable pub find_opcode : List (List ℕ × CFlags) → ℕ → List ℕ → Option ℕ
unfolding same_name
find_opcode [] k name = none
find_opcode ((n, flags) ∷ entries) k name = elim (same_name n name) [
  | true ↦ some k
  | false ↦ find_opcode entries (k + 1) name
]

-- `none` stands for -1.
unfoldable pub opcode_from_name : List ℕ → Option ℕ
unfolding find_opcode op_table
opcode_from_name name = find_opcode op_table 0 name
