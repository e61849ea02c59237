-- ===== src/Debug/Replay.antt =====
-- The run of a module with the log against the run without it.
use mathlib.Core.Path.{subst}
use virtual_machine.Prelude.{
  ℕ, zero, suc, true, false, ◌+◌, ◌<◌, ◌≡◌, ◌==◌, ◌||◌, ltb, leb, refl, arith, sym, ap, ◌∙◌, some,
  Bool-cases, Option-cases, inl, inr,
}
use virtual_machine.Host.{Host}
use virtual_machine.Machine.{VmState, ModuleInfo, reg_count, mr32}
use virtual_machine.OpTable.{op_ex}
use virtual_machine.Instruction.{opc}
use virtual_machine.Runtime.{
  Progress, continues, finishes, execute, run_instruction, loop_on, run_loop, advance, update_time,
  decode_instruction,
}
use virtual_machine.Debug.Log.{
  Log, log_before, log_after, logged_execute, logged_instruction, logged_on, logged_loop,
}
use virtual_machine.Debug.Changes.{register_of, byte_of, replay}
use virtual_machine.Debug.Entries.{
  register_of-IgnoresRest, byte_of-IgnoresRest, replay-log_before, log_before_snapshot,
  log_after_on, registers-log_after, bytes-log_after,
}

-- The same registers and the same memory.
abbrev SameArrays : VmState → VmState → Type 0
SameArrays vm' vm = (vm'.reg ≡ vm.reg) × (vm'.mem ≡ vm.mem)

decoded_same :
    (vm vm' : VmState) (addr raw : ℕ)
    → decode_instruction vm addr ≡ some (raw, vm')
    → SameArrays vm' vm
unfolding decode_instruction
decoded_same vm vm' addr raw h = elim (Option-cases (vm.decoded_cache addr)) [
  | inl e ↦ ground (arith, h, e)
  | inr (raw', e) ↦
      let same : some (raw', vm) ≡ some (raw, vm') = sym (rw (e, decode_instruction) refl) ∙ h in
      let regs : vm'.reg ≡ vm.reg = cc in let mem : vm'.mem ≡ vm.mem = cc in (regs, mem)
]

module _ (reg₀ mem₀ : ℕ → ℕ) where
  -- The log is on, and its changes lead from the first registers to the present ones, and from the
  -- first bytes of the first memory to those of the present one.
  pub record Follows (log : Log) (vm : VmState) : Type 0 where
    pub on : log.enabled ≡ true
    pub registers : (r : ℕ) → r < reg_count → replay register_of log.entries reg₀ r ≡ vm.reg r
    pub bytes : (a : ℕ) → a < 256 → replay byte_of log.entries mem₀ a ≡ vm.mem a

  Follows-same :
      {log : Log} (vm vm' : VmState) → SameArrays vm' vm → Follows log vm → Follows log vm'
  Follows-same vm vm' e f = record {
    on = f.on;
    registers = λ r lt. f.registers r lt ∙ ap (λ (g : ℕ → ℕ). g r) (sym (e.0));
    bytes = λ a lt. f.bytes a lt ∙ ap (λ (g : ℕ → ℕ). g a) (sym (e.1));
  }

  logged-Follows :
      (log : Log) (vm vm' : VmState) (pc pc' instr : ℕ)
      → Follows log vm
      → Follows (log_after (log_before log vm pc instr) vm' pc') vm'
  logged-Follows log vm vm' pc pc' instr f =
      let before = log_before log vm pc instr in
      let (on, regs, mem) = log_before_snapshot log vm pc instr f.on in
      record {
        on = log_after_on before vm' pc' on;
        registers = λ r lt. registers-log_after before vm' pc' r reg₀ on lt (
            ap (λ (g : ℕ → ℕ). g r)
              (replay-log_before register_of register_of-IgnoresRest log vm pc instr reg₀)
            ∙ f.registers r lt
            ∙ ap (λ (g : ℕ → ℕ). g r) (sym regs));
        bytes = λ a lt. bytes-log_after before vm' pc' a mem₀ on lt (
            ap (λ (g : ℕ → ℕ). g a)
              (replay-log_before byte_of byte_of-IgnoresRest log vm pc instr mem₀)
            ∙ f.bytes a lt
            ∙ ap (λ (g : ℕ → ℕ). g a) (sym mem));
      }

  -- The machine after a logged step.
  abbrev machine : Progress → VmState
  machine (continues vm) = vm
  machine (finishes vm) = vm

  update_time-same : (host : Host) (vm : VmState) → SameArrays (update_time host vm) vm
  unfolding update_time
  update_time-same host vm = ground arith

  logged_execute-Follows :
      (host : Host) (log : Log) (instr raw : ℕ) (vm : VmState)
      → Follows log vm
      → let (log', p) = logged_execute host log instr (raw, vm) in
        (p ≡ execute host instr (raw, vm)) × Follows log' (machine p)
  unfolding logged_execute execute
  logged_execute-Follows host log instr raw vm f = elim (Option-cases (op_ex host (opc instr))) [
    | inl e ↦
        rw (e, logged_execute, execute)
          (refl, Follows-same vm (record vm { running = false }) (refl, refl) f)
    | inr (op, e) ↦
        rw (e, logged_execute, execute)
          (
            refl,
            Follows-same (advance vm.pc (op vm raw)) _ (update_time-same host _)
                (logged-Follows log vm (advance vm.pc (op vm raw)) vm.pc _ instr f),
          )
  ]

  logged_instruction-Follows :
      (host : Host) (m : ModuleInfo) (module_end : ℕ) (log : Log) (vm : VmState)
      → Follows log vm
      → let (log', p) = logged_instruction host m module_end log vm in
        (p ≡ run_instruction host m module_end vm) × Follows log' (machine p)
  unfolding logged_instruction run_instruction
  logged_instruction-Follows host m module_end log vm f =
      elim (Bool-cases (leb module_end vm.pc || ltb vm.pc m.addr)) [
        | inl e ↦ rw e (refl, f)
        | inr inside ↦ elim (Bool-cases (mr32 vm vm.pc == 0)) [
          | inl e ↦ rw inside (rw e (refl, f))
          | inr nonzero ↦ elim (Option-cases (decode_instruction vm vm.pc)) [
            | inl e ↦ rw inside (
                rw nonzero (
                  rw (e, logged_instruction, run_instruction)
                    (refl, Follows-same vm (record vm { running = false }) (refl, refl) f)))
            | inr ((raw, vm'), e) ↦ rw inside (
                rw nonzero (
                  rw (e, logged_instruction, run_instruction)
                    (logged_execute-Follows host log (mr32 vm vm.pc) raw vm'
                      (Follows-same vm vm' (decoded_same vm vm' vm.pc raw e) f))))
          ]
        ]
      ]

  logged_on-Follows :
      (next : Log → VmState → Log × VmState) (next' : VmState → ℕ × VmState) (total : ℕ)
      (r : Log × Progress) (p : Progress)
      → r.1 ≡ p
      → Follows r.0 (machine r.1)
      → ((log : Log) (vm : VmState)
          → Follows log vm
          → ((next log vm).1 ≡ (next' vm).1) × Follows (next log vm).0 (next log vm).1)
      → ((logged_on next r).1 ≡ (loop_on next' total p).1)
        × Follows (logged_on next r).0 (logged_on next r).1
  unfolding logged_on loop_on
  logged_on-Follows next next' total (log, continues vm) p e f step =
      let (same, f') = step log vm f in
      (same ∙ ap (λ (q : Progress). (loop_on next' total q).1) e, f')
  logged_on-Follows next next' total (log, finishes vm) p e f step =
      (ap (λ (q : Progress). (loop_on next' total q).1) e, f)

  logged_loop-run_loop :
      (env : ℕ → Host) (m : ModuleInfo) (module_end left total : ℕ) (log : Log) (vm : VmState)
      → Follows log vm
      → let (log', vm') = logged_loop env m module_end left total log vm in
        (vm' ≡ (run_loop env m module_end left total vm).1) × Follows log' vm'
  unfolding logged_loop run_loop
  logged_loop-run_loop env m module_end zero total log vm f = (refl, f)
  logged_loop-run_loop env m module_end (suc left) total log vm f = elim (Bool-cases vm.running) [
    | inl e ↦
        let (same, f') = logged_instruction-Follows (env total) m module_end log vm f in
        simp (e, logged_loop, run_loop)
          (logged_on-Follows (λ log' vm'. logged_loop env m module_end left (total + 1) log' vm')
            (λ vm'. run_loop env m module_end left (total + 1) vm') total
            (logged_instruction (env total) m module_end log vm)
            (run_instruction (env total) m module_end vm) same f'
            (logged_loop-run_loop env m module_end left (total + 1)))
    | inr e ↦ simp (e, logged_loop, run_loop) (refl, f)
  ]

  -- If the log is on, and the changes logged so far lead from some registers and some memory to the
  -- registers and the first 256 bytes at the start of the run of a module, then with the changes
  -- logged in the run they lead to the registers and the first 256 bytes at the end of the run
  -- without the log.
  pub logged_loop-Follows :
      (env : ℕ → Host) (m : ModuleInfo) (module_end left total : ℕ) (log : Log) (vm : VmState)
      → Follows log vm
      → Follows
          (logged_loop env m module_end left total log vm).0
          (run_loop env m module_end left total vm).1
  logged_loop-Follows env m module_end left total log vm f =
      let (same, f') = logged_loop-run_loop env m module_end left total log vm f in
      subst (λ vm'. Follows (logged_loop env m module_end left total log vm).0 vm') same f'
