-- ===== src/Tests/Text.antt =====
-- The strings.
use virtual_machine.Prelude.{
  ℕ, arith, refl, inr, ◌==◌, if◌then◌else◌, List, [], ◌∷◌, ◌++◌, take, drop,
}
use virtual_machine.Instruction.{ra, rb, rc, fimm}
use virtual_machine.Machine.{VmState, bv, cv, cv_or_imm}
use virtual_machine.Ops.Strings.{op_concat, op_insert, op_replace}
use virtual_machine.Ops.Strings.Bytes.{IsString}
use virtual_machine.Ops.Strings.Joins.{op_concat_lem, op_insert_lem}
use virtual_machine.Ops.Strings.Replace.{op_replace_lem}
use virtual_machine.Lifecycle.{calloc_vm}

-- "ABC" at 100 and "DE" at 200; R0 = 100, R1 = 200, R3 = 1, R4 = 2
abbrev letters : ℕ → ℕ
letters a =
    if a == 100
    then 65
    else (if a == 101
        then 66
        else (if a == 102 then 67 else (if a == 200 then 68 else (if a == 201 then 69 else 0))))

abbrev texts : VmState
texts = record calloc_vm {
  mem = letters;
  reg = λ r. if r == 1 then 200 else (if r == 3 then 1 else (if r == 4 then 2 else 100));
}

abbrev abc : List ℕ
abc = 65 ∷ 66 ∷ 67 ∷ []

abbrev de : List ℕ
de = 68 ∷ 69 ∷ []

abc_held : IsString letters 100 abc
abc_held = record {
  nonzero_bytes = (omega arith, (omega arith, (omega arith, tt)));
  held = (refl, (refl, (refl, (refl, tt))));
}

de_held : IsString letters 200 de
de_held = record {
  nonzero_bytes = (omega arith, (omega arith, tt));
  held = (refl, (refl, (refl, tt)));
}

-- CONCAT R0, R0, R1
op_concat_lem_example : IsString (op_concat texts 1).mem 100 (abc ++ de)
unfolding calloc_vm bv cv rb rc
op_concat_lem_example =
    op_concat_lem texts 1 abc de abc_held de_held (omega arith) (omega arith) (inr (omega arith))

-- INSERT R0, R1, R4
op_insert_lem_example : IsString (op_insert texts 516).mem 100 (take 2 abc ++ (de ++ drop 2 abc))
unfolding calloc_vm bv cv_or_imm ra rb rc fimm
op_insert_lem_example =
    op_insert_lem texts 516 abc de abc_held de_held (omega arith) (omega arith) (inr (omega arith))

-- REPLACE R0, R1, R4: only one byte is left to replace
op_replace_lem_example :
    IsString (op_replace texts 516).mem 100 (take 2 abc ++ (take 1 de ++ drop 3 abc))
unfolding calloc_vm bv cv_or_imm ra rb rc fimm
op_replace_lem_example =
    op_replace_lem texts 516 abc de abc_held de_held (omega arith) (omega arith) (inr (omega arith))
      (omega arith)
