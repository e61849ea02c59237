-- ===== src/Tests/Instructions.antt =====
-- The words, the arithmetic, the comparisons, the clock and the selections.
use virtual_machine.Prelude.{false, ◌≡◌, arith, refl, leb, All, some, if◌then◌else◌}
use virtual_machine.Instruction.{opc, ra, rb, rc, fimm}
use virtual_machine.Instruction.Encoding.{encode, c_field}
use virtual_machine.Machine.{VmState, bv, cv_or_imm, mw32, mw8}
use virtual_machine.Host.{Host}
use virtual_machine.Ops.Select.{op_mux, op_demux, op_mux-op_demux, element_addr}
use virtual_machine.Assembler.Opcodes.{op_table, codes, opcode_from_name}
use virtual_machine.Assembler.{
  mnemonic, assemble_line, pos, negsuc, register, immediate, assemble, parse_register,
  register_number, check_reg_range, parse_c, allows_imm, check_imm8_range, check_must_reg, must_reg,
  low8,
}
use virtual_machine.Assembler.Words.{Names, Reads, assembled_line}
use virtual_machine.Assembler.Handlers.{handler_at, named_handlers, tables_agree}
use virtual_machine.Lifecycle.{calloc_vm}

-- R0 = 5, R1 = 1000, R2 = 3
abbrev numbers : VmState
numbers = record calloc_vm { reg = λ r. if leb 2 r then 3 else (if leb 1 r then 1000 else 5) }

op_mux-op_demux_example : (op_mux (op_demux numbers 514) 514).reg (ra 514) ≡ numbers.reg (ra 514)
unfolding calloc_vm element_addr op_demux bv cv_or_imm ra rb rc fimm mw32 mw8
op_mux-op_demux_example = op_mux-op_demux numbers 514 514 (omega arith) (omega arith) refl

abbrev noon : Host
noon = record {
  pow = λ x y. 0;
  sqrt = λ x. 0;
  log = λ x. 0;
  log10 = λ x. 0;
  exp = λ x. 0;
  sin = λ x. 0;
  cos = λ x. 0;
  tan = λ x. 0;
  asin = λ x. 0;
  acos = λ x. 0;
  atan = λ x. 0;
  current_tm = record {
    tm_hour = 12;
    tm_min = 34;
    tm_sec = 56;
    tm_year = 125;
    tm_mon = 10;
    tm_mday = 25;
  };
  monotonic_ms = 1000;
}

tables_agree_example :
    All
      (λ row. handler_at noon (opcode_from_name (codes (row.0))) ≡ some (row.1))
      (named_handlers noon)
tables_agree_example = tables_agree noon

-- div r5, R6, #-7
assembled_line_example :
    (opcode_from_name (mnemonic false (codes "div")) ≡ some (opc 101322233))
    × Names (register (pos 5)) (ra 101322233)
    × Names (register (pos 6)) (rb 101322233)
    × Reads (immediate (negsuc 6)) 101322233
unfolding assemble_line mnemonic opcode_from_name op_table assemble parse_register register_number
    check_reg_range parse_c allows_imm check_imm8_range check_must_reg must_reg low8 encode c_field
assembled_line_example =
    assembled_line false (codes "div") (register (pos 5)) (register (pos 6)) (immediate (negsuc 6))
      101322233 refl
