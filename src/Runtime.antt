-- ===== src/Runtime.antt =====
-- The execution of instructions and modules: prototype-integrator/src/vm_runtime.c, with the cache
-- of decoded instructions of prototype-integrator/src/vm_tables.c.
pub mod Time
pub mod Step
pub mod Cache
pub mod Loop
pub mod Steps
use virtual_machine.Prelude.{
  ℕ, zero, suc, Bool, true, false, not, ◌+◌, ◌-◌, ◌*◌, ◌/◌, ◌%◌, ◌≤◌, ◌||◌, ◌&&◌, ◌==◌, ltb, leb,
  if◌then◌else◌, update, Option, none, some, List, [], ◌∷◌,
}
use virtual_machine.Word.{u64_mod, add32}
use virtual_machine.Host.{Host}
use virtual_machine.Instruction.{opc}
use virtual_machine.Machine.{VmState, ModuleInfo, mem_bytes, mr32}
use virtual_machine.OpTable.{op_ex}

-- MAX_INSTRUCTIONS
abbrev pub max_instructions : ℕ
max_instructions = 100000

-- `vm_update_time_after_instruction`. With tick timing the time is the clock's; else each
-- instruction adds the period of the clock rate, whole milliseconds of it to `time_ms`.
unfoldable pub update_time : Host → VmState → VmState
update_time host vm =
    let rate = vm.config.clock_rate_hz in
    let accum = (vm.instr_ns_accum + 1_000_000_000 / rate) % u64_mod in
    let add_ms = accum / 1_000_000 in
    if rate == 0
    then vm
    else if vm.config.enable_tick_timing
    then record vm { time_ms = host.monotonic_ms }
    else if add_ms == 0
    then record vm { instr_ns_accum = accum }
    else record vm {
      time_ms = (vm.time_ms + add_ms) % u64_mod;
      instr_ns_accum = accum - add_ms * 1_000_000;
    }

-- `decode_instruction_cached`: the raw word of the entry, and the machine with the entry cached. The
-- other fields of an entry are computed from that word and not read by the runtime.
unfoldable pub decode_instruction : VmState → ℕ → Option (ℕ × VmState)
decode_instruction vm addr = elim (vm.decoded_cache addr) [
  | some raw ↦ some (raw, vm)
  | none ↦
      if leb (mem_bytes - 3) addr
      then none
      else let raw = mr32 vm addr in
        some (raw, record vm { decoded_cache = update vm.decoded_cache addr (some raw) })
]

-- The results 0 and 1 of `vm_run_instruction`.
pub data Progress : Type 0 where
  continues : VmState → Progress
  finishes : VmState → Progress

-- `if (vm->PC == old_pc) vm->PC += 4`
unfoldable pub advance : ℕ → VmState → VmState
unfolding add32
advance old_pc vm = if vm.pc == old_pc then record vm { pc = add32 vm.pc 4 } else vm

-- The handler runs on the cached word; the opcode is that of the fetched one.
unfoldable pub execute : Host → ℕ → ℕ × VmState → Progress
execute host instr (raw, vm) = elim (op_ex host (opc instr)) [
  | none ↦ finishes (record vm { running = false })
  | some op ↦ continues (update_time host (advance vm.pc (op vm raw)))
]

unfoldable pub run_instruction : Host → ModuleInfo → ℕ → VmState → Progress
run_instruction host m module_end vm =
    let instr = mr32 vm vm.pc in
    if leb module_end vm.pc || ltb vm.pc m.addr
    then finishes vm
    else if instr == 0
    then finishes vm
    else elim (decode_instruction vm vm.pc) [
      | none ↦ finishes (record vm { running = false })
      | some entry ↦ execute host instr entry
    ]

-- The body of the loop: on to the next instruction, or out.
unfoldable pub loop_on : (VmState → ℕ × VmState) → ℕ → Progress → ℕ × VmState
loop_on next total (continues vm) = next vm
loop_on next total (finishes vm) = (total, vm)

-- The loop of `vm_run_module`: `left` instructions remain of the limit, and `env` gives the host's
-- answers by the number of instructions executed in the cycle.
unfoldable pub run_loop : (ℕ → Host) → ModuleInfo → ℕ → ℕ → ℕ → VmState → ℕ × VmState
run_loop env m module_end zero total vm = (total, vm)
run_loop env m module_end (suc left) total vm = elim vm.running [
  | false ↦ (total, vm)
  | true ↦
      loop_on (λ vm'. run_loop env m module_end left (total + 1) vm') total
        (run_instruction (env total) m module_end vm)
]

unfoldable pub run_module : (ℕ → Host) → ModuleInfo → ℕ → VmState → ℕ × VmState
unfolding add32
run_module env m total vm = elim vm.modules [
  | [] ↦ (total, vm)
  | _ ∷ _ ↦
      run_loop env m (add32 m.addr m.size) max_instructions total
        (record vm { running = true; pc = m.addr })
]

-- The loop over the modules in one cycle of `run_program`.
unfoldable pub run_modules : (ℕ → Host) → List ModuleInfo → ℕ → VmState → ℕ × VmState
run_modules env [] total vm = (total, vm)
run_modules env (m ∷ ms) total vm =
    let (total', vm') = run_module env m total vm in run_modules env ms total' vm'
