-- ===== src/Perf.antt =====
-- The measurement of time around the machine: `ts_to_ns`, `ts_diff_ns`, the counters of
-- `vm_run_instruction` and of the cycle, and the sleep at the end of a cycle
-- (prototype-integrator/src/vm_runtime.c), `vm_perf_stats_init`
-- (prototype-integrator/src/vm_lifecycle.c); `vm_get_elapsed_ms` and `vm_wait_for_tick`
-- (prototype-integrator/src/vm_helpers.c). What the clock says is an argument; `long` is taken as wide
-- enough.
pub mod Extremes
pub mod Sleeping
use virtual_machine.Prelude.{
  ℕ, zero, suc, Bool, true, false, not, ◌+◌, ◌-◌, ◌*◌, ◌/◌, ◌%◌, ◌==◌, ◌||◌, ltb, leb,
  if◌then◌else◌, Option, none, some, List, [], ◌∷◌,
}
use virtual_machine.Word.{u64_mod}
use virtual_machine.Timers.{Timespec}
use virtual_machine.Machine.{VmConfig}

unfoldable pub ts_to_ns : Timespec → ℕ
ts_to_ns t = (t.tv_sec * 1_000_000_000 + t.tv_nsec) % u64_mod

-- The difference of two `uint64_t`.
unfoldable pub ts_diff_ns : Timespec → Timespec → ℕ
unfolding ts_to_ns
ts_diff_ns start end = (ts_to_ns end + (u64_mod - ts_to_ns start)) % u64_mod

-- `vm_perf_stats_t`
pub record VmPerfStats : Type 0 where
  pub cycles_total : ℕ
  pub instructions_total : ℕ
  pub cycle_exec_ns_total : ℕ
  pub instr_exec_ns_total : ℕ
  pub fetch_ns_total : ℕ
  pub decode_ns_total : ℕ
  pub dispatch_ns_total : ℕ
  pub min_instr_ns : ℕ
  pub max_instr_ns : ℕ
  pub overrun_cycles : ℕ

-- The minimum starts at UINT64_MAX.
abbrev pub vm_perf_stats_init : VmPerfStats
vm_perf_stats_init = record {
  cycles_total = 0;
  instructions_total = 0;
  cycle_exec_ns_total = 0;
  instr_exec_ns_total = 0;
  fetch_ns_total = 0;
  decode_ns_total = 0;
  dispatch_ns_total = 0;
  min_instr_ns = u64_mod - 1;
  max_instr_ns = 0;
  overrun_cycles = 0;
}

abbrev pub add64 : ℕ → ℕ → ℕ
add64 a b = (a + b) % u64_mod

-- The four readings of the clock in `vm_run_instruction`.
pub record Stamps : Type 0 where
  pub t0 : Timespec
  pub t1 : Timespec
  pub t2 : Timespec
  pub t3 : Timespec

-- The end of `vm_run_instruction`.
unfoldable pub record_instruction : Stamps → VmPerfStats → VmPerfStats
unfolding ts_diff_ns
record_instruction s perf =
    let total_ns = ts_diff_ns s.t0 s.t3 in
    record perf {
      instructions_total = add64 perf.instructions_total 1;
      instr_exec_ns_total = add64 perf.instr_exec_ns_total total_ns;
      fetch_ns_total = add64 perf.fetch_ns_total (ts_diff_ns s.t0 s.t1);
      decode_ns_total = add64 perf.decode_ns_total (ts_diff_ns s.t1 s.t2);
      dispatch_ns_total = add64 perf.dispatch_ns_total (ts_diff_ns s.t2 s.t3);
      min_instr_ns =
          if perf.min_instr_ns == 0 || ltb total_ns perf.min_instr_ns
          then total_ns
          else perf.min_instr_ns;
      max_instr_ns = if ltb perf.max_instr_ns total_ns then total_ns else perf.max_instr_ns;
    }

unfoldable pub record_instructions : List Stamps → VmPerfStats → VmPerfStats
unfolding record_instruction
record_instructions [] perf = perf
record_instructions (s ∷ ss) perf = record_instructions ss (record_instruction s perf)

-- `vm_get_elapsed_ms` is the first number less the second: `long` division cuts toward 0, and the
-- difference of the nanoseconds may be negative.
unfoldable pub vm_get_elapsed_ms : Timespec → Timespec → ℕ × ℕ
vm_get_elapsed_ms start end = (
  end.tv_sec * 1000 + (end.tv_nsec - start.tv_nsec) / 1_000_000,
  start.tv_sec * 1000 + (start.tv_nsec - end.tv_nsec) / 1_000_000,
)

-- What the end of a cycle sleeps, if it does, from `cycle_time_ms - elapsed_ms`; a cycle with no time
-- left is an overrun, which is counted if the check is on.
unfoldable pub finish_cycle :
    VmConfig → Timespec → Timespec → Timespec → VmPerfStats → Option Timespec × VmPerfStats
unfolding ts_diff_ns
finish_cycle config cycle_start cycle_end cycle_exec_end perf =
    let (later, earlier) = vm_get_elapsed_ms cycle_start cycle_end in
    let remaining_ms = config.cycle_time_ms + earlier - later in
    let counted = record perf {
      cycle_exec_ns_total = add64 perf.cycle_exec_ns_total (ts_diff_ns cycle_start cycle_exec_end);
      cycles_total = add64 perf.cycles_total 1;
    } in
    if ltb 0 remaining_ms
    then (
      some (record { tv_sec = remaining_ms / 1000; tv_nsec = remaining_ms % 1000 * 1_000_000 }),
      counted,
    )
    else (
      none,
      (if config.enable_cycle_check
          then record counted { overrun_cycles = add64 counted.overrun_cycles 1 }
          else counted),
    )

-- What `vm_wait_for_tick` sleeps: the clock says `current_time`, and `last_tick_time` is of the last
-- call.
unfoldable pub wait_for_tick : VmConfig → Timespec → Timespec → Option Timespec
wait_for_tick config last_tick_time current_time =
    let interval_ns = 1_000_000_000 / config.clock_rate_hz in
    let later = current_time.tv_sec * 1_000_000_000 + current_time.tv_nsec in
    let earlier = last_tick_time.tv_sec * 1_000_000_000 + last_tick_time.tv_nsec in
    if not config.enable_tick_timing || config.clock_rate_hz == 0
    then none
    else if ltb later (interval_ns + earlier)
    then some (record { tv_sec = 0; tv_nsec = interval_ns + earlier - later })
    else none
