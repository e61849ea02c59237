-- ===== src/Runtime/Time.antt =====
-- The virtual time of the machine.
use virtual_machine.Prelude.{false, ◌+◌, ◌*◌, ◌/◌, ◌<◌, ◌≡◌, arith}
use virtual_machine.Word.{u64_mod}
use virtual_machine.Host.{Host}
use virtual_machine.Machine.{VmState}
use virtual_machine.Runtime.{update_time}

-- Without tick timing and with a clock rate that is not 0, an instruction advances the time, in
-- nanoseconds, by exactly the period of the clock rate, with less than a millisecond carried over,
-- if no more was carried before and the time does not reach the end of its 64 bits.
pub update_time_exact :
    (host : Host) (vm : VmState)
    → vm.config.enable_tick_timing ≡ false
    → 0 < vm.config.clock_rate_hz
    → vm.instr_ns_accum < 1_000_000
    → vm.time_ms + 1001 < u64_mod
    → let vm' = update_time host vm in
      (vm'.time_ms * 1_000_000 + vm'.instr_ns_accum
        ≡ vm.time_ms * 1_000_000 + vm.instr_ns_accum + 1_000_000_000 / vm.config.clock_rate_hz)
      × (vm'.instr_ns_accum < 1_000_000)
unfolding update_time
update_time_exact host vm tick rate carry lim = ground arith
