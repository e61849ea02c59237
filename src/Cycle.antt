-- ===== src/Cycle.antt =====
-- One pass of the loop of `run_program` (prototype-integrator/src/vm_runtime.c) from the check of
-- `stop_requested` on, and the passes one after another without the reload before it, which Program
-- has; the reports are left out, and the sleep is in Perf.
pub mod Stop
pub mod Clock
use virtual_machine.Prelude.{
  ℕ, Bool, true, false, not, ◌+◌, ◌%◌, ◌==◌, ◌&&◌, ◌||◌, ltb, if◌then◌else◌, List, [], ◌∷◌,
}
use virtual_machine.Word.{u64_mod, add32}
use virtual_machine.Host.{Host}
use virtual_machine.Machine.{VmState, reg_count, crc32}
use virtual_machine.Ops.TimerOps.{update_all_timers}
use virtual_machine.Hashing.{calculate_registers_hash_ex, calculate_memory_hash}
use virtual_machine.Runtime.{run_modules}

-- What the world does in one pass: whether a signal asked to stop before it, and the host's answers.
pub record Pass : Type 0 where
  pub vm_stop_requested : Bool
  pub env : ℕ → Host

-- `run_program` before the loop; `now` is the monotonic clock in milliseconds.
unfoldable pub start_program : ℕ → VmState → VmState
start_program now vm = record vm {
  time_ms = now;
  config = record (vm.config) { hash_algo = crc32 };
}

-- The start of a pass: the signal is taken over and the pass is counted.
unfoldable pub begin_cycle : Bool → VmState → VmState
unfolding add32
begin_cycle signal vm = record vm {
  stop_requested = vm.stop_requested || signal;
  cycle_count = add32 vm.cycle_count 1;
}

unfoldable pub registers_hash : VmState → ℕ
unfolding calculate_registers_hash_ex
registers_hash vm = calculate_registers_hash_ex vm.reg reg_count vm.config.hash_algo

-- The first cycle remembers the hash of the registers.
unfoldable pub init_hash : VmState → VmState
unfolding registers_hash
init_hash vm =
    if vm.config.enable_hash_check && vm.cycle_count == 1
    then record vm { prev_cycle_hash = registers_hash vm }
    else vm

-- Without tick timing a cycle lasts at least its configured time.
unfoldable pub fill_cycle : ℕ → VmState → VmState
fill_cycle cycle_start_ms vm =
    let expected_end = (cycle_start_ms + vm.config.cycle_time_ms) % u64_mod in
    if not vm.config.enable_tick_timing && ltb vm.time_ms expected_end
    then record vm { time_ms = expected_end }
    else vm

-- The two warnings of the hash check.
unfoldable pub hash_mismatch : VmState → Bool
unfolding registers_hash
hash_mismatch vm =
    vm.config.enable_hash_check
    && (ltb 1 vm.cycle_count && not (registers_hash vm == vm.prev_cycle_hash))

unfoldable pub program_mismatch : VmState → Bool
unfolding calculate_memory_hash
program_mismatch vm =
    vm.config.enable_hash_check
    && not (calculate_memory_hash vm.mem vm.pc_start vm.program_size == vm.program_hash)

-- The pass behind the check of `stop_requested`.
unfoldable pub run_cycle : (ℕ → Host) → VmState → VmState
unfolding init_hash fill_cycle registers_hash
run_cycle env vm =
    let vm₁ = init_hash vm in
    let vm₂ = (run_modules env vm₁.modules 0 vm₁).1 in
    let vm₃ = update_all_timers (fill_cycle vm.time_ms vm₂) in
    record vm₃ { prev_cycle_hash = registers_hash vm₃ }

-- The passes, until one finds `stop_requested` set. The state at the end, and whether it stopped.
unfoldable pub run_cycles : List Pass → VmState → Bool × VmState
unfolding begin_cycle run_cycle
run_cycles [] vm = (false, vm)
run_cycles (p ∷ ps) vm =
    let vm₁ = begin_cycle p.vm_stop_requested vm in
    elim vm₁.stop_requested [ true ↦ (true, vm₁) | false ↦ run_cycles ps (run_cycle p.env vm₁) ]
