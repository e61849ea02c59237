-- ===== src/Cycle/Clock.antt =====
-- The time that a cycle takes.
use virtual_machine.Prelude.{
  ℕ, Bool, true, false, max, ap, sym, ◌∙◌, refl, not, ◌+◌, ◌%◌, ◌<◌, ◌≡◌, ◌&&◌, ltb, arith,
  if◌then◌else◌,
}
use virtual_machine.Word.{u64_mod}
use virtual_machine.Machine.{VmState}
use virtual_machine.Cycle.{fill_cycle}

longer :
    (b : Bool) (vm : VmState) (start : ℕ)
    → b ≡ ltb vm.time_ms start
    → (if b then record vm { time_ms = start } else vm)
      ≡ record vm { time_ms = max vm.time_ms start }
longer true vm start h = let e : max vm.time_ms start ≡ start = ground arith in rw e refl
longer false vm start h =
    let e : max vm.time_ms start ≡ vm.time_ms = ground arith in
    ap (λ t. record vm { time_ms = t }) (sym e)

-- At the end of a cycle without tick timing the time becomes the later one of the time that the
-- instructions took and the start of the cycle plus the configured cycle time, when this sum does
-- not reach 2 ^ 64; no other part of the machine changes.
pub fill_cycle_lem :
    (start : ℕ) (vm : VmState)
    → vm.config.enable_tick_timing ≡ false
    → start + vm.config.cycle_time_ms < u64_mod
    → fill_cycle start vm ≡ record vm { time_ms = max vm.time_ms (start + vm.config.cycle_time_ms) }
unfolding fill_cycle
fill_cycle_lem start vm tick fits =
    let e : (start + vm.config.cycle_time_ms) % u64_mod ≡ start + vm.config.cycle_time_ms =
      omega arith in
    longer
      (not vm.config.enable_tick_timing
        && ltb vm.time_ms ((start + vm.config.cycle_time_ms) % u64_mod))
      vm ((start + vm.config.cycle_time_ms) % u64_mod) (ground (arith, tick))
    ∙ ap (λ t. record vm { time_ms = max vm.time_ms t }) e
