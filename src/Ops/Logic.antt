-- ===== src/Ops/Logic.antt =====
-- The bitwise and the comparing instructions of prototype-integrator/src/funcs.c.
use virtual_machine.Prelude.{
  ℕ, not, ◌+◌, ◌-◌, ◌≡◌, arith, ◌==◌, ltb, leb, to_nat, bit_and, bit_or, bit_xor,
}
use virtual_machine.Word.{not32, bit_and-lt, bit_or-lt, bit_xor-lt}
use virtual_machine.Instruction.{ra}
use virtual_machine.Machine.{VmState, bv, cv_or_imm, set_a}
use virtual_machine.Machine.Frame.{KeepsFrame, set_a-Framed, bv-lt, cv_or_imm-lt, to_nat-lt}

unfoldable pub op_and : VmState → ℕ → VmState
op_and vm i = set_a vm i (bit_and (bv vm i) (cv_or_imm vm i))

unfoldable pub op_or : VmState → ℕ → VmState
op_or vm i = set_a vm i (bit_or (bv vm i) (cv_or_imm vm i))

unfoldable pub op_xor : VmState → ℕ → VmState
op_xor vm i = set_a vm i (bit_xor (bv vm i) (cv_or_imm vm i))

unfoldable pub op_not : VmState → ℕ → VmState
unfolding not32
op_not vm i = set_a vm i (not32 (bv vm i))

unfoldable pub op_eq : VmState → ℕ → VmState
op_eq vm i = set_a vm i (to_nat (bv vm i == cv_or_imm vm i))

unfoldable pub op_ne : VmState → ℕ → VmState
op_ne vm i = set_a vm i (to_nat (not (bv vm i == cv_or_imm vm i)))

unfoldable pub op_gt : VmState → ℕ → VmState
op_gt vm i = set_a vm i (to_nat (ltb (cv_or_imm vm i) (bv vm i)))

unfoldable pub op_ge : VmState → ℕ → VmState
op_ge vm i = set_a vm i (to_nat (leb (cv_or_imm vm i) (bv vm i)))

unfoldable pub op_lt : VmState → ℕ → VmState
op_lt vm i = set_a vm i (to_nat (ltb (bv vm i) (cv_or_imm vm i)))

unfoldable pub op_le : VmState → ℕ → VmState
op_le vm i = set_a vm i (to_nat (leb (bv vm i) (cv_or_imm vm i)))

pub op_and-KeepsFrame : KeepsFrame op_and
unfolding op_and
op_and-KeepsFrame vm i v =
    set_a-Framed vm i _ v (bit_and-lt 32 _ _ (bv-lt vm i v) (cv_or_imm-lt vm i v))

pub op_or-KeepsFrame : KeepsFrame op_or
unfolding op_or
op_or-KeepsFrame vm i v =
    set_a-Framed vm i _ v (bit_or-lt 32 _ _ (bv-lt vm i v) (cv_or_imm-lt vm i v))

pub op_xor-KeepsFrame : KeepsFrame op_xor
unfolding op_xor
op_xor-KeepsFrame vm i v =
    set_a-Framed vm i _ v (bit_xor-lt 32 _ _ (bv-lt vm i v) (cv_or_imm-lt vm i v))

pub op_not-KeepsFrame : KeepsFrame op_not
unfolding op_not
op_not-KeepsFrame vm i v = set_a-Framed vm i _ v (omega arith)

pub op_eq-KeepsFrame : KeepsFrame op_eq
unfolding op_eq
op_eq-KeepsFrame vm i v = set_a-Framed vm i _ v (to_nat-lt _)

pub op_ne-KeepsFrame : KeepsFrame op_ne
unfolding op_ne
op_ne-KeepsFrame vm i v = set_a-Framed vm i _ v (to_nat-lt _)

pub op_gt-KeepsFrame : KeepsFrame op_gt
unfolding op_gt
op_gt-KeepsFrame vm i v = set_a-Framed vm i _ v (to_nat-lt _)

pub op_ge-KeepsFrame : KeepsFrame op_ge
unfolding op_ge
op_ge-KeepsFrame vm i v = set_a-Framed vm i _ v (to_nat-lt _)

pub op_lt-KeepsFrame : KeepsFrame op_lt
unfolding op_lt
op_lt-KeepsFrame vm i v = set_a-Framed vm i _ v (to_nat-lt _)

pub op_le-KeepsFrame : KeepsFrame op_le
unfolding op_le
op_le-KeepsFrame vm i v = set_a-Framed vm i _ v (to_nat-lt _)

-- The six comparisons agree: what LT, EQ and GT write adds up to 1, and NE, GE and LE write 1 minus
-- what EQ, LT and GT write.
pub compare_agree :
    (vm : VmState) (i : ℕ)
    → ((op_lt vm i).reg (ra i) + (op_eq vm i).reg (ra i) + (op_gt vm i).reg (ra i) ≡ 1)
      × ((op_ne vm i).reg (ra i) ≡ 1 - (op_eq vm i).reg (ra i))
      × ((op_ge vm i).reg (ra i) ≡ 1 - (op_lt vm i).reg (ra i))
      × ((op_le vm i).reg (ra i) ≡ 1 - (op_gt vm i).reg (ra i))
unfolding op_lt op_eq op_gt op_ne op_ge op_le set_a
compare_agree vm i = ground arith
