-- ===== src/Runtime/Loop.antt =====
-- `vm_run_module` and the loop over the modules in a cycle of `run_program`: they end, within the
-- limit of instructions, and keep the machine valid.
use virtual_machine.Prelude.{
  ℕ, zero, suc, Bool, All, true, false, ◌+◌, ◌*◌, ◌<◌, ◌≤◌, ◌≡◌, ◌≢◌, arith, refl, List, [], ◌∷◌,
  length,
}
use virtual_machine.Word.{u32_mod, add32}
use virtual_machine.Host.{Host, GivesWords}
use virtual_machine.Machine.{VmState, ModuleInfo}
use virtual_machine.Machine.Frame.{IsValid}
use virtual_machine.Runtime.{
  Progress, continues, finishes, run_instruction, max_instructions, loop_on, run_loop, run_module,
  run_modules,
}
use virtual_machine.Runtime.Step.{
  after, Kept, Kept-refl, Kept-trans, Kept-quiet, run_instruction-Kept,
}

Bool-split :
    (P : ℕ × VmState → Type 0) (b : Bool) {x y : ℕ × VmState}
    → P x
    → P y
    → P (elim b [ false ↦ x | true ↦ y ])
Bool-split P false p q = p
Bool-split P true p q = q

List-split :
    (P : ℕ × VmState → Type 0) (l : List ModuleInfo) {x y : ℕ × VmState}
    → P x
    → P y
    → P (elim l [ [] ↦ x | _ ∷ _ ↦ y ])
List-split P [] p q = p
List-split P (m ∷ ms) p q = q

loop_on-bounds :
    (next : VmState → ℕ × VmState) (total left : ℕ) (p : Progress)
    → ((vm : VmState) → (total + 1 ≤ (next vm).0) × ((next vm).0 ≤ total + 1 + left))
    → (total ≤ (loop_on next total p).0) × ((loop_on next total p).0 ≤ total + suc left)
unfolding loop_on
loop_on-bounds next total left (continues vm) h = omega (arith, (h vm).0, (h vm).1)
loop_on-bounds next total left (finishes vm) h = omega arith

loop_on-Kept :
    (next : VmState → ℕ × VmState) (total : ℕ) {vm : VmState} (p : Progress)
    → Kept vm (after p)
    → ((vm' : VmState) → IsValid vm' → Kept vm' (next vm').1)
    → Kept vm (loop_on next total p).1
unfolding loop_on after
loop_on-Kept next total (continues vm') k h = Kept-trans k (h vm' k.valid)
loop_on-Kept next total (finishes vm') k h = k

same_unless_empty :
    (l : List ModuleInfo) (x x' y : ℕ × VmState)
    → l ≢ []
    → elim l [ [] ↦ x | _ ∷ _ ↦ y ] ≡ elim l [ [] ↦ x' | _ ∷ _ ↦ y ]
same_unless_empty [] x x' y h = absurd (h refl)
same_unless_empty (m ∷ ms) x x' y h = refl

module _ (env : ℕ → Host) where
  run_loop-bounds :
      (m : ModuleInfo) (module_end left total : ℕ) (vm : VmState)
      → (total ≤ (run_loop env m module_end left total vm).0)
        × ((run_loop env m module_end left total vm).0 ≤ total + left)
  unfolding run_loop
  run_loop-bounds m module_end zero total vm = omega arith
  run_loop-bounds m module_end (suc left) total vm =
      Bool-split (λ r. (total ≤ r.0) × (r.0 ≤ total + suc left)) vm.running (omega arith)
        (loop_on-bounds (run_loop env m module_end left (total + 1)) total left
          (run_instruction (env total) m module_end vm)
          (run_loop-bounds m module_end left (total + 1)))

  run_module-bounds :
      (m : ModuleInfo) (total : ℕ) (vm : VmState)
      → (total ≤ (run_module env m total vm).0)
        × ((run_module env m total vm).0 ≤ total + max_instructions)
  unfolding run_module
  run_module-bounds m total vm =
      List-split (λ r. (total ≤ r.0) × (r.0 ≤ total + max_instructions)) vm.modules (omega arith)
        (run_loop-bounds m (add32 m.addr m.size) max_instructions total
          (record vm { running = true; pc = m.addr }))

  -- However the programs behave, jumps backwards included, a cycle ends: from a count of executed
  -- instructions on, its modules execute at least none and at most 100000 more each.
  run_modules-bounds :
      (ms : List ModuleInfo) (total : ℕ) (vm : VmState)
      → (total ≤ (run_modules env ms total vm).0)
        × ((run_modules env ms total vm).0 ≤ total + length ms * max_instructions)
  unfolding run_modules
  run_modules-bounds [] total vm = omega arith
  run_modules-bounds (m ∷ ms) total vm =
      let r = run_module env m total vm in
      let h = run_module-bounds m total vm in
      let h' = run_modules-bounds ms r.0 r.1 in omega (arith, h.0, h.1, h'.0, h'.1)

module _ (env : ℕ → Host) (words : (n : ℕ) → GivesWords (env n)) where
  run_loop-Kept :
      (m : ModuleInfo) (module_end left total : ℕ) (vm : VmState)
      → IsValid vm
      → Kept vm (run_loop env m module_end left total vm).1
  unfolding run_loop
  run_loop-Kept m module_end zero total vm v = Kept-refl v
  run_loop-Kept m module_end (suc left) total vm v =
      Bool-split (λ r. Kept vm r.1) vm.running (Kept-refl v)
        (loop_on-Kept (run_loop env m module_end left (total + 1)) total
          (run_instruction (env total) m module_end vm)
          (run_instruction-Kept (env total) (words total) m module_end v)
          (run_loop-Kept m module_end left (total + 1)))

  pub run_module-Kept :
      (m : ModuleInfo) (total : ℕ) (vm : VmState)
      → m.addr < u32_mod
      → IsValid vm
      → Kept vm (run_module env m total vm).1
  unfolding run_module
  run_module-Kept m total vm a v =
      let started = record vm { running = true; pc = m.addr } in
      let k = Kept-quiet {vm' = started} v refl (λ h. h) refl refl a refl refl refl in
      List-split (λ r. Kept vm r.1) vm.modules (Kept-refl v)
        (Kept-trans k
          (run_loop-Kept m (add32 m.addr m.size) max_instructions total started k.valid))

  -- Whatever the programs are, a cycle over modules at 32-bit addresses leaves a valid machine valid
  -- and writes nothing beyond the memory.
  pub run_modules-Kept :
      (ms : List ModuleInfo) (total : ℕ) (vm : VmState)
      → All (λ m. m.addr < u32_mod) ms
      → IsValid vm
      → Kept vm (run_modules env ms total vm).1
  unfolding run_modules
  run_modules-Kept [] total vm a v = Kept-refl v
  run_modules-Kept (m ∷ ms) total vm (a, rest) v =
      let r = run_module env m total vm in
      let k = run_module-Kept m total vm a v in
      Kept-trans k (run_modules-Kept ms r.0 r.1 rest k.valid)

-- A HALT or an EXIT of one module does not keep the next one of the cycle from being run: it starts
-- whatever `running` is, and from its own address wherever the program counter is.
pub run_module_restarts :
    (env : ℕ → Host) (m : ModuleInfo) (total pc : ℕ) (running : Bool) (vm : VmState)
    → vm.modules ≢ []
    → run_module env m total (record vm { running = running; pc = pc }) ≡ run_module env m total vm
unfolding run_module
run_module_restarts env m total pc running vm h = same_unless_empty vm.modules _ _ _ h
