-- ===== src/Perf/Sleeping.antt =====
-- What the machine sleeps at the end of a cycle and between two ticks.
use native.Mathlib.Nat.{div-mul-le_self, mul-le-mul_left}
use virtual_machine.Prelude.{
  ℕ, true, false, not, ◌+◌, ◌-◌, ◌*◌, ◌/◌, ◌%◌, ◌≤◌, ◌<◌, ◌≡◌, ◌==◌, ◌||◌, ◌&&◌, ltb, arith,
  if◌then◌else◌, Option, none, some, Bool-cases, inl, inr,
}
use virtual_machine.Machine.{VmConfig}
use virtual_machine.Timers.{Timespec}
use virtual_machine.Perf.{VmPerfStats, add64, vm_get_elapsed_ms, finish_cycle, wait_for_tick}
use virtual_machine.Perf.Extremes.{ns}

-- A `struct timespec` that the kernel accepts.
abbrev pub IsTimespec : Timespec → Type 0
IsTimespec t = t.tv_nsec < 1_000_000_000

-- The elapsed time in milliseconds, on a clock that does not run backwards.
abbrev pub elapsed_ms : Timespec → Timespec → ℕ
elapsed_ms s t = (vm_get_elapsed_ms s t).0 - (vm_get_elapsed_ms s t).1

-- The elapsed milliseconds differ from the elapsed nanoseconds by less than a millisecond, in one
-- direction or the other.
pub elapsed_ms_lem :
    (s t : Timespec)
    → IsTimespec s
    → IsTimespec t
    → ns s ≤ ns t
    → (ns t - ns s < elapsed_ms s t * 1_000_000 + 1_000_000)
      × (elapsed_ms s t * 1_000_000 < ns t - ns s + 1_000_000)
unfolding vm_get_elapsed_ms
elapsed_ms_lem s t a b h = omega (arith, a, b, h)

-- What is slept, in nanoseconds.
abbrev pub slept : Option Timespec → ℕ
slept none = 0
slept (some t) = ns t

abbrev pub Accepted : Option Timespec → Type 0
Accepted none = Unit
Accepted (some t) = IsTimespec t

abbrev later : Timespec → Timespec → ℕ
later s t = (vm_get_elapsed_ms s t).0

abbrev earlier : Timespec → Timespec → ℕ
earlier s t = (vm_get_elapsed_ms s t).1

elapsed_order :
    (s t : Timespec) → IsTimespec s → IsTimespec t → ns s ≤ ns t → earlier s t ≤ later s t
unfolding vm_get_elapsed_ms
elapsed_order s t a b h = omega (arith, a, b, h)

remaining_ns :
    (time a b : ℕ)
    → b ≤ a
    → (time + b - a) / 1000 * 1_000_000_000 + (time + b - a) % 1000 * 1_000_000
      ≡ (time - (a - b)) * 1_000_000
remaining_ns time a b h = omega (arith, h)

nothing_left :
    (time a b : ℕ) → b ≤ a → ltb 0 (time + b - a) ≡ false → 0 ≡ (time - (a - b)) * 1_000_000
nothing_left time a b h k = let z : time + b - a ≡ 0 = ground (arith, k) in omega (arith, h, z)

-- On valid readings of a clock that does not run backwards, the end of a cycle asks for a sleep
-- that the system accepts and that lasts as long as the elapsed milliseconds are short of the cycle
-- time, and for none if they are not; exactly in the latter case, and if the check is on, an
-- overrun is counted.
pub finish_cycle-slept :
    (config : VmConfig) (s e x : Timespec) (perf : VmPerfStats)
    → IsTimespec s
    → IsTimespec e
    → ns s ≤ ns e
    → let (sleep, after) = finish_cycle config s e x perf in
      Accepted sleep
      × (slept sleep ≡ (config.cycle_time_ms - elapsed_ms s e) * 1_000_000)
      × (after.overrun_cycles ≡ (
          if config.enable_cycle_check && not (ltb (elapsed_ms s e) config.cycle_time_ms)
          then add64 perf.overrun_cycles 1
          else perf.overrun_cycles))
unfolding finish_cycle
finish_cycle-slept config s e x perf hs he h =
    let order = elapsed_order s e hs he h in
    elim (Bool-cases (ltb 0 (config.cycle_time_ms + earlier s e - later s e))) [
      | inl b ↦ rw b (
        omega arith,
        remaining_ns config.cycle_time_ms (later s e) (earlier s e) order,
        ground (arith, b, order),
      )
      | inr b ↦ rw b (
        tt,
        nothing_left config.cycle_time_ms (later s e) (earlier s e) order b,
        ground (arith, b, order),
      )
    ]

interval_le : (rate : ℕ) → 2 ≤ rate → 1_000_000_000 / rate ≤ 500_000_000
interval_le rate h =
    omega (arith, div-mul-le_self 1_000_000_000 rate, mul-le-mul_left (1_000_000_000 / rate) h)

tick_accepted :
    (interval now last : ℕ)
    → last ≤ now
    → interval ≤ 500_000_000
    → interval + last - now < 1_000_000_000
tick_accepted interval now last h k = omega (arith, h, k)

-- With the clock rate of at least 2.
pub wait_for_tick-slept :
    (config : VmConfig) (last now : Timespec)
    → config.enable_tick_timing ≡ true
    → 2 ≤ config.clock_rate_hz
    → ns last ≤ ns now
    → let sleep = wait_for_tick config last now in
      Accepted sleep × (slept sleep ≡ 1_000_000_000 / config.clock_rate_hz - (ns now - ns last))
unfolding wait_for_tick
wait_for_tick-slept config last now on rate h =
    let short = interval_le config.clock_rate_hz rate in
    let active : (not config.enable_tick_timing || config.clock_rate_hz == 0) ≡ false =
      ground (arith, on, rate) in
    let interval = 1_000_000_000 / config.clock_rate_hz in
    elim (Bool-cases (ltb (ns now) (interval + ns last))) [
      | inl b ↦
          rw active (rw b (tick_accepted interval (ns now) (ns last) h short, omega (arith, h)))
      | inr b ↦ rw active (rw b (tt, ground (arith, b, h)))
    ]
