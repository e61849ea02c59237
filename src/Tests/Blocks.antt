-- ===== src/Tests/Blocks.antt =====
-- The function blocks: timers, counters, edges and latches.
use virtual_machine.Prelude.{
  ℕ, Bool, true, false, not, ◌+◌, ◌%◌, ◌^◌, ◌≤◌, ◌<◌, ◌≡◌, arith, refl, min, leb, if◌then◌else◌,
  List, [], ◌∷◌,
}
use virtual_machine.Word.{u32_max}
use virtual_machine.Instruction.{ra, rb, rc}
use virtual_machine.Timers.{zero_timer, IecTimer}
use virtual_machine.Timers.Elapsed.{IsAligned, reached}
use virtual_machine.Timers.OnDelay.{ton_scans, held, ton_delays, ton_fires_early}
use virtual_machine.Timers.OffDelay.{tof_released, tof_delays}
use virtual_machine.Timers.Pulse.{tp_scans, times, tp_pulses}
use virtual_machine.Machine.{VmState}
use virtual_machine.Ops.Counters.{op_ctu}
use virtual_machine.Ops.Counters.Runs.{
  scan_all, scan_both, rising_edges, ups, downs, ctu_counts, ctud_counts,
}
use virtual_machine.Lifecycle.{calloc_vm}

-- A = R0, B = R1, C = R2
abbrev word : ℕ
word = 514

abbrev on : IecTimer
on = record {
  enabled = true;
  input = true;
  output = true;
  prev_input = true;
  timing = false;
  start = record { tv_sec = 0; tv_nsec = 0 };
  preset_ms = 500;
  et = 0;
}

aligned : (s n : ℕ) → s ≤ n → n < 2 ^ 32 → s % 1000 ≤ n % 1000 → IsAligned s n
aligned s n h lim w = record {
  after = h;
  range = omega (arith, lim);
  within = w;
  near = omega (arith, lim);
}

ton_delays_example :
    (ton_scans 500 zero_timer (held (1000 ∷ 1400 ∷ 1700 ∷ []))).output
    ≡ reached 500 1000 (1400 ∷ 1700 ∷ [])
unfolding zero_timer
ton_delays_example =
    ton_delays 500 (omega arith) zero_timer 1000 (1400 ∷ 1700 ∷ []) (omega arith) refl refl (
      aligned 1000 1400 (omega arith) (omega arith) (omega arith),
      (aligned 1000 1700 (omega arith) (omega arith) (omega arith), tt),
    )

ton_fires_early_example : (ton_scans 500 zero_timer (held (1900 ∷ 2000 ∷ []))).output ≡ true
unfolding zero_timer
ton_fires_early_example =
    ton_fires_early 500 (omega arith) zero_timer 1900 2000 refl refl (omega arith) (omega arith)
      (omega arith) (omega arith) (omega arith)

tof_delays_example :
    (tof_released 500 on (1000 ∷ 1400 ∷ 1700 ∷ [])).output
    ≡ not (reached 500 1000 (1400 ∷ 1700 ∷ []))
tof_delays_example = tof_delays 500 (omega arith) on 1000 (1400 ∷ 1700 ∷ []) (omega arith) refl (
  aligned 1000 1400 (omega arith) (omega arith) (omega arith),
  (aligned 1000 1700 (omega arith) (omega arith) (omega arith), tt),
)

abbrev pulse_scans : List (Bool × ℕ)
pulse_scans = (true, 1400) ∷ (false, 1700) ∷ []

tp_pulses_example :
    (tp_scans 500 zero_timer ((true, 1000) ∷ pulse_scans)).output
    ≡ not (reached 500 1000 (times pulse_scans))
unfolding zero_timer
tp_pulses_example =
    tp_pulses 500 (omega arith) zero_timer 1000 pulse_scans (omega arith) refl
      (
        aligned 1000 1400 (omega arith) (omega arith) (omega arith),
        (aligned 1000 1700 (omega arith) (omega arith) (omega arith), tt),
      )
      (refl, (refl, tt))

abbrev five : VmState
five = record calloc_vm {
  ctu_counters = λ k. record { value = 5; preset = 0 };
  ctd_counters = λ k. record { value = 5; preset = 0 };
  ctud_counters = λ k. record { value = 5; preset = 0 };
}

ctu_counts_example :
    ((scan_all op_ctu 514 3 five (true ∷ false ∷ true ∷ [])).ctu_counters 3).value
    ≡ min u32_max (5 + rising_edges false (true ∷ false ∷ true ∷ []))
unfolding ra rb calloc_vm
ctu_counts_example =
    ctu_counts 514 3 (omega arith) (omega arith) five (true ∷ false ∷ true ∷ []) (omega arith)

abbrev up_down : List (Bool × Bool)
up_down = (true, false) ∷ (false, true) ∷ (true, true) ∷ []

ctud_counts_example :
    ((scan_both 514 3 five up_down).ctud_counters 3).value + rising_edges false (downs up_down)
    ≡ 5 + rising_edges false (ups up_down)
unfolding ra rb rc calloc_vm
ctud_counts_example =
    ctud_counts 514 3 (omega arith) (omega arith) (omega arith) (omega arith) five up_down
      (omega arith) (omega arith)

-- R0 = 3, R1 = 1, R2 = 1
abbrev inputs : VmState
inputs = record calloc_vm { reg = λ r. if leb 1 r then 1 else 3 }
