-- ===== src/Instruction.antt =====
-- The fields of an instruction word: the macros OPC, RA, RB, RC, FIMM, IMM8 and SEXTIMM8 of
-- prototype-integrator/include/funcs.h. Masks and shifts are written as `%` and `/` by powers of 2.
pub mod Encoding
use virtual_machine.Prelude.{ℕ, Bool, ◌/◌, ◌%◌, ◌^◌, ◌==◌}
use virtual_machine.Word.{sext}

unfoldable pub opc : ℕ → ℕ
opc i = i / 2 ^ 25 % 128

unfoldable pub ra : ℕ → ℕ
ra i = i / 2 ^ 17 % 256

unfoldable pub rb : ℕ → ℕ
rb i = i / 2 ^ 9 % 256

unfoldable pub rc : ℕ → ℕ
rc i = i % 256

unfoldable pub fimm : ℕ → Bool
fimm i = i / 2 ^ 8 % 2 == 1

unfoldable pub imm8 : ℕ → ℕ
imm8 i = i % 256

unfoldable pub sextimm8 : ℕ → ℕ
unfolding sext
sextimm8 i = sext (i % 256) 8
