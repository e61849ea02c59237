-- ===== src/Runtime/Steps.antt =====
-- `vm_run_module` of prototype-integrator/src/vm_runtime.c against the instructions it executes, one
-- by one.
use virtual_machine.Prelude.{
  ℕ, zero, suc, true, false, ◌+◌, ◌<◌, ◌≡◌, ◌≢◌, arith, refl, sym, ap, ◌∙◌, List, [], ◌∷◌,
  Bool-cases, inl, inr,
}
use virtual_machine.Word.{add32}
use virtual_machine.Host.{Host}
use virtual_machine.Machine.{VmState, ModuleInfo}
use virtual_machine.Runtime.{
  Progress, continues, finishes, run_instruction, loop_on, run_loop, max_instructions, run_module,
}

module _ (env : ℕ → Host) (m : ModuleInfo) (module_end : ℕ) where
  -- That many instructions, from a count of executed ones on, each on a running machine and each
  -- with the result 0 of `vm_run_instruction`.
  pub data Steps : ℕ → ℕ → VmState → VmState → Type 0 where
    here : {total : ℕ} {vm : VmState} → Steps 0 total vm vm
    next :
        {n total : ℕ} {vm vm' vm'' : VmState}
        → vm.running ≡ true
        → run_instruction (env total) m module_end vm ≡ continues vm'
        → Steps n (total + 1) vm' vm''
        → Steps (suc n) total vm vm''

  -- Why a run ends after `n` instructions in the state `vm'`, and what it gives: the limit of `left`
  -- instructions is reached, the machine does not run, or the instruction has the result 1.
  pub data Ends (left n total : ℕ) (vm' : VmState) (r : ℕ × VmState) : Type 0 where
    at_limit : n ≡ left → r ≡ (total, vm') → Ends left n total vm' r
    halted : n < left → vm'.running ≡ false → r ≡ (total, vm') → Ends left n total vm' r
    finished :
        (vm'' : VmState)
        → n < left
        → vm'.running ≡ true
        → run_instruction (env total) m module_end vm' ≡ finishes vm''
        → r ≡ (total, vm'')
        → Ends left n total vm' r

  abbrev pub Runs : ℕ → ℕ → VmState → ℕ × VmState → Type 0
  Runs left total vm r =
      (n : ℕ) × (vm' : VmState) × Steps n total vm vm' × Ends left n (total + n) vm' r

  Ends-suc :
      {left n t t' : ℕ} {vm' : VmState} {r : ℕ × VmState}
      → t ≡ t'
      → Ends left n t vm' r
      → Ends (suc left) (suc n) t' vm' r
  Ends-suc {vm' = vm'} e (at_limit h eq) = at_limit (omega (arith, h)) (eq ∙ ap (λ c. (c, vm')) e)
  Ends-suc {vm' = vm'} e (halted h off eq) =
      halted (omega (arith, h)) off (eq ∙ ap (λ c. (c, vm')) e)
  Ends-suc {vm' = vm'} e (finished vm'' h on step eq) =
      finished vm'' (omega (arith, h)) on
        (ap (λ c. run_instruction (env c) m module_end vm') (sym e) ∙ step)
        (eq ∙ ap (λ c. (c, vm'')) e)

  loop_on-Runs :
      (left total : ℕ) (vm : VmState) (p : Progress)
      → vm.running ≡ true
      → run_instruction (env total) m module_end vm ≡ p
      → ((vm' : VmState)
          → Runs left (total + 1) vm' (run_loop env m module_end left (total + 1) vm'))
      → Runs
          (suc left)
          total
          vm
          (loop_on (λ vm'. run_loop env m module_end left (total + 1) vm') total p)
  unfolding loop_on
  loop_on-Runs left total vm (continues vm') on e h =
      let (n, last, steps, ends) = h vm' in
      (suc n, last, next on e steps, Ends-suc (omega arith) ends)
  loop_on-Runs left total vm (finishes vm') on e h = (
    0,
    vm,
    here,
    finished vm' (omega arith) on
        (ap (λ c. run_instruction (env c) m module_end vm) (omega arith) ∙ e)
        (ap (λ c. (c, vm')) (omega arith)),
  )

  run_loop-Runs :
      (left total : ℕ) (vm : VmState) → Runs left total vm (run_loop env m module_end left total vm)
  unfolding run_loop
  run_loop-Runs zero total vm = (0, vm, here, at_limit refl (ap (λ c. (c, vm)) (omega arith)))
  run_loop-Runs (suc left) total vm = elim (Bool-cases vm.running) [
    | inl on ↦
        simp (on, run_loop)
          (loop_on-Runs left total vm (run_instruction (env total) m module_end vm) on refl
            (run_loop-Runs left (total + 1)))
    | inr off ↦
        simp (off, run_loop)
          (0, vm, here, halted (omega arith) off (ap (λ c. (c, vm)) (omega arith)))
  ]

unless_empty :
    (l : List ModuleInfo) (x y : ℕ × VmState) → l ≢ [] → elim l [ [] ↦ x | _ ∷ _ ↦ y ] ≡ y
unless_empty [] x y h = absurd (h refl)
unless_empty (m ∷ ms) x y h = refl

pub started :
    (env : ℕ → Host) (m : ModuleInfo) (total : ℕ) (vm : VmState)
    → vm.modules ≢ []
    → run_module env m total vm
      ≡ run_loop env m
          (add32 m.addr m.size)
          max_instructions
          total
          (record vm { running = true; pc = m.addr })
unfolding run_module
started env m total vm some = unless_empty vm.modules _ _ some

-- On a machine with modules, whatever the programs do, jumps backwards included: the run of a
-- module is a sequence of instructions, counted one by one, that starts at the module's address
-- with `running` set, each instruction on a running machine; it ends after the first of them that
-- has the result 1, when the machine does not run, or after 100000 instructions, and not earlier.
pub run_module-Runs :
    (env : ℕ → Host) (m : ModuleInfo) (total : ℕ) (vm : VmState)
    → vm.modules ≢ []
    → Runs env m
        (add32 m.addr m.size)
        100000
        total
        (record vm { running = true; pc = m.addr })
        (run_module env m total vm)
run_module-Runs env m total vm some = rw (started env m total vm some) (
    run_loop-Runs env m (add32 m.addr m.size) max_instructions total
      (record vm { running = true; pc = m.addr }))
