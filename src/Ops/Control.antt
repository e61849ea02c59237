-- ===== src/Ops/Control.antt =====
-- The jumps and the controlling instructions of prototype-integrator/src/funcs.c.
use virtual_machine.Prelude.{
  ℕ, true, false, ◌<◌, refl, nonzero, if◌then◌else◌, Bool-cases, inl, inr,
}
use virtual_machine.Word.{u32_mod}
use virtual_machine.Instruction.{ra, fimm, imm8, sextimm8}
use virtual_machine.Instruction.Encoding.{sextimm8-lt}
use virtual_machine.Machine.{VmState, bv, cv}
use virtual_machine.Machine.Frame.{IsValid, Framed-refl, Framed-quiet, KeepsFrame, bv-lt}

unfoldable pub jump_target : VmState → ℕ → ℕ
jump_target vm i = if fimm i then sextimm8 i else bv vm i

unfoldable pub op_jmp : VmState → ℕ → VmState
unfolding jump_target
op_jmp vm i = record vm { pc = jump_target vm i }

unfoldable pub op_jmp_if : VmState → ℕ → VmState
unfolding jump_target
op_jmp_if vm i = if nonzero (cv vm i) then record vm { pc = jump_target vm i } else vm

unfoldable pub op_jmp_if_not : VmState → ℕ → VmState
unfolding jump_target
op_jmp_if_not vm i = if nonzero (cv vm i) then vm else record vm { pc = jump_target vm i }

unfoldable pub op_halt : VmState → ℕ → VmState
op_halt vm i = record vm { running = false; stop_requested = true }

unfoldable pub op_nop : VmState → ℕ → VmState
op_nop vm i = vm

unfoldable pub op_exit : VmState → ℕ → VmState
op_exit vm i = record vm {
  exit_code = if fimm i then imm8 i else ra i;
  running = false;
  stop_requested = true;
}

jump_target-lt : (vm : VmState) (i : ℕ) → IsValid vm → jump_target vm i < u32_mod
unfolding jump_target
jump_target-lt vm i v = elim (Bool-cases (fimm i)) [
  | inl e ↦ rw e (sextimm8-lt i)
  | inr e ↦ rw e (bv-lt vm i v)
]

pub op_jmp-KeepsFrame : KeepsFrame op_jmp
unfolding op_jmp
op_jmp-KeepsFrame vm i v =
    Framed-quiet v refl (λ h. h) refl refl (jump_target-lt vm i v) v.ctu v.ctd v.ctud

pub op_jmp_if-KeepsFrame : KeepsFrame op_jmp_if
unfolding op_jmp_if
op_jmp_if-KeepsFrame vm i v = elim (Bool-cases (nonzero (cv vm i))) [
  | inl e ↦ rw e (Framed-quiet v refl (λ h. h) refl refl (jump_target-lt vm i v) v.ctu v.ctd v.ctud)
  | inr e ↦ rw e (Framed-refl i v)
]

pub op_jmp_if_not-KeepsFrame : KeepsFrame op_jmp_if_not
unfolding op_jmp_if_not
op_jmp_if_not-KeepsFrame vm i v = elim (Bool-cases (nonzero (cv vm i))) [
  | inl e ↦ rw e (Framed-refl i v)
  | inr e ↦ rw e (Framed-quiet v refl (λ h. h) refl refl (jump_target-lt vm i v) v.ctu v.ctd v.ctud)
]

pub op_halt-KeepsFrame : KeepsFrame op_halt
unfolding op_halt
op_halt-KeepsFrame vm i v = Framed-quiet v refl (λ h. refl) refl refl v.pc_word v.ctu v.ctd v.ctud

pub op_nop-KeepsFrame : KeepsFrame op_nop
unfolding op_nop
op_nop-KeepsFrame vm i v = Framed-refl i v

pub op_exit-KeepsFrame : KeepsFrame op_exit
unfolding op_exit
op_exit-KeepsFrame vm i v = Framed-quiet v refl (λ h. refl) refl refl v.pc_word v.ctu v.ctd v.ctud
