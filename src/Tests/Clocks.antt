-- ===== src/Tests/Clocks.antt =====
-- Measured times.
use virtual_machine.Prelude.{
  ℕ, not, ◌-◌, ◌*◌, ◌≤◌, ◌≡◌, ◌&&◌, ltb, arith, if◌then◌else◌, [], ◌∷◌, All,
}
use virtual_machine.Lifecycle.{default_config}
use virtual_machine.Timers.{Timespec}
use virtual_machine.Perf.{
  Stamps, vm_perf_stats_init, add64, ts_to_ns, ts_diff_ns, record_instructions, finish_cycle,
}
use virtual_machine.Perf.Extremes.{duration, IsOne, record_instructions-extremes}
use virtual_machine.Perf.Sleeping.{slept, Accepted, elapsed_ms, finish_cycle-slept}

abbrev at_ns : ℕ → Timespec
at_ns n = record { tv_sec = 1; tv_nsec = n }

abbrev short : Stamps
short = record { t0 = at_ns 100; t1 = at_ns 110; t2 = at_ns 120; t3 = at_ns 150 }

abbrev long : Stamps
long = record { t0 = at_ns 200; t1 = at_ns 250; t2 = at_ns 260; t3 = at_ns 300 }

record_instructions-extremes_example :
    let perf = record_instructions (short ∷ long ∷ []) vm_perf_stats_init in
    All (λ x. perf.min_instr_ns ≤ duration x) (short ∷ long ∷ [])
    × IsOne perf.min_instr_ns (short ∷ long ∷ [])
    × All (λ x. duration x ≤ perf.max_instr_ns) (short ∷ long ∷ [])
    × IsOne perf.max_instr_ns (short ∷ long ∷ [])
unfolding ts_diff_ns ts_to_ns
record_instructions-extremes_example =
    record_instructions-extremes short (long ∷ []) (omega arith, (omega arith, tt))

-- A cycle that took 30 ms and some.
abbrev cycle_end : Timespec
cycle_end = record { tv_sec = 1; tv_nsec = 30_500_100 }

finish_cycle-slept_example :
    let (sleep, after) =
      finish_cycle default_config (at_ns 100) cycle_end cycle_end vm_perf_stats_init in
    Accepted sleep
    × (slept sleep ≡ (default_config.cycle_time_ms - elapsed_ms (at_ns 100) cycle_end) * 1_000_000)
    × (after.overrun_cycles ≡ (
        if default_config.enable_cycle_check
          && not (ltb (elapsed_ms (at_ns 100) cycle_end) default_config.cycle_time_ms)
        then add64 vm_perf_stats_init.overrun_cycles 1
        else vm_perf_stats_init.overrun_cycles))
finish_cycle-slept_example =
    finish_cycle-slept default_config (at_ns 100) cycle_end cycle_end vm_perf_stats_init
      (omega arith) (omega arith) (omega arith)
