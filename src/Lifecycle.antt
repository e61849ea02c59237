-- ===== src/Lifecycle.antt =====
-- Creation, defaults and reset of a machine: prototype-integrator/src/vm_lifecycle.c.
pub mod Reset
use virtual_machine.Prelude.{ℕ, Bool, true, false, List, [], Option, none}
use virtual_machine.Timers.{IecTimer, zero_timer}
use virtual_machine.Machine.{VmState, VmConfig, Counter, simple_fnv1a, crc32}

-- DEFAULT_PC_START
abbrev pub default_pc_start : ℕ
default_pc_start = 12288

unfoldable pub vm_state_init_registers : VmState → VmState
vm_state_init_registers vm = record vm { reg = λ r. 0 }

-- What `vm_state_clear_iec_state` does to a TON, TOF or TP timer: the start time stays.
unfoldable pub clear_timer : IecTimer → IecTimer
clear_timer t = record t {
  enabled = false;
  input = false;
  output = false;
  prev_input = false;
  timing = false;
  preset_ms = 0;
  et = 0;
}

abbrev cleared : Counter
cleared = record { value = 0; preset = 0 }

-- The retentive timers are disabled and otherwise left as they are.
unfoldable pub vm_state_clear_iec_state : VmState → VmState
unfolding clear_timer
vm_state_clear_iec_state vm = record vm {
  edge_prev_rising = λ k. false;
  edge_prev_falling = λ k. false;
  edge_prev_both = λ k. false;
  rs_latches = λ k. false;
  sr_latches = λ k. false;
  ton_timers = λ k. clear_timer (vm.ton_timers k);
  tof_timers = λ k. clear_timer (vm.tof_timers k);
  tp_timers = λ k. clear_timer (vm.tp_timers k);
  tonr_timers = λ k. record (vm.tonr_timers k) { enabled = false };
  tofr_timers = λ k. record (vm.tofr_timers k) { enabled = false };
  ctu_counters = λ k. cleared;
  ctd_counters = λ k. cleared;
  ctud_counters = λ k. cleared;
  ctu_prev_input = λ k. false;
  ctd_prev_input = λ k. false;
  ctud_prev_up = λ k. false;
  ctud_prev_down = λ k. false;
}

abbrev pub default_config : VmConfig
default_config = record {
  clock_rate_hz = 100;
  cycle_time_ms = 1000;
  enable_cycle_check = true;
  enable_hash_check = false;
  enable_tick_timing = false;
  hash_algo = crc32;
}

-- `vm_init_defaults` is this function on a machine that exists.
unfoldable pub vm_state_init_common : VmState → VmState
unfolding vm_state_init_registers vm_state_clear_iec_state
vm_state_init_common vm = vm_state_clear_iec_state (
    vm_state_init_registers (record vm {
      pc_start = default_pc_start;
      pc = 0;
      running = true;
      time_ms = 0;
      instr_ns_accum = 0;
      program_hash = 0;
      program_size = 0;
      cycle_count = 0;
      prev_cycle_hash = 0;
      exit_code = 0;
      stop_requested = false;
      reload_pending = false;
      config = default_config;
    }))

-- `vm_state_reset_runtime`, all that `vm_reset` does to a machine.
unfoldable pub vm_reset : VmState → VmState
unfolding vm_state_init_registers vm_state_clear_iec_state
vm_reset vm = vm_state_clear_iec_state (
    vm_state_init_registers (record vm {
      running = true;
      exit_code = 0;
      stop_requested = false;
      reload_pending = false;
      cycle_count = 0;
      prev_cycle_hash = 0;
      instr_ns_accum = 0;
      time_ms = 0;
      pc = vm.pc_start;
    }))

-- The memory that `calloc` gives, with an empty cache (`vm_tables_init`).
unfoldable pub calloc_vm : VmState
unfolding zero_timer
calloc_vm = record {
  config = record {
    clock_rate_hz = 0;
    cycle_time_ms = 0;
    enable_cycle_check = false;
    enable_hash_check = false;
    enable_tick_timing = false;
    hash_algo = simple_fnv1a;
  };
  mem = λ a. 0;
  pc_start = 0;
  pc = 0;
  reg = λ r. 0;
  running = false;
  stop_requested = false;
  exit_code = 0;
  reload_pending = false;
  time_ms = 0;
  instr_ns_accum = 0;
  program_hash = 0;
  program_size = 0;
  prev_cycle_hash = 0;
  cycle_count = 0;
  modules = [];
  decoded_cache = λ a. none;
  ton_timers = λ k. zero_timer;
  tof_timers = λ k. zero_timer;
  tp_timers = λ k. zero_timer;
  tonr_timers = λ k. zero_timer;
  tofr_timers = λ k. zero_timer;
  ctu_counters = λ k. cleared;
  ctd_counters = λ k. cleared;
  ctud_counters = λ k. cleared;
  ctu_prev_input = λ k. false;
  ctd_prev_input = λ k. false;
  ctud_prev_up = λ k. false;
  ctud_prev_down = λ k. false;
  edge_prev_rising = λ k. false;
  edge_prev_falling = λ k. false;
  edge_prev_both = λ k. false;
  rs_latches = λ k. false;
  sr_latches = λ k. false;
}

-- `vm_create`, when both allocations succeed.
unfoldable pub vm_create : VmState
unfolding vm_state_init_common calloc_vm
vm_create = vm_state_init_common calloc_vm
