-- ===== src/Machine.antt =====
-- The state of one virtual machine (`vm_state_t` of prototype-integrator/include/main.h) and its
-- memory access. An array is a function from the index; the code's own guards, and the checks
-- proved in the modules below, keep the indices in range.
pub mod Memory
pub mod Frame
use virtual_machine.Prelude.{ℕ, Bool, ◌+◌, ◌*◌, ◌/◌, ◌%◌, ◌^◌, List, Option, update, if◌then◌else◌}
use virtual_machine.Timers.{IecTimer}
use virtual_machine.Instruction.{ra, rb, rc, fimm, sextimm8}

-- VM_MEM_BYTES
abbrev pub mem_bytes : ℕ
mem_bytes = 64 * 1024 * 1024

abbrev pub max_timers : ℕ
max_timers = 16

abbrev pub reg_count : ℕ
reg_count = 256

pub data HashAlgorithm : Type 0 where
  simple_fnv1a crc32 : HashAlgorithm

pub record VmConfig : Type 0 where
  pub clock_rate_hz : ℕ
  pub cycle_time_ms : ℕ
  pub enable_cycle_check : Bool
  pub enable_hash_check : Bool
  pub enable_tick_timing : Bool
  pub hash_algo : HashAlgorithm

-- `module_info_t` without the name, which is only printed.
pub record ModuleInfo : Type 0 where
  pub addr : ℕ
  pub size : ℕ

-- `CT_Counter`
pub record Counter : Type 0 where
  pub value : ℕ
  pub preset : ℕ

-- The fields that log and measure are the records of Debug/Log and Perf, those of the label and
-- breakpoint tables the record of Tables.
-- `decoded_cache` maps an address to the `raw_instr` of its cached entry.
pub record VmState : Type 0 where
  pub config : VmConfig
  pub mem : ℕ → ℕ
  pub pc_start : ℕ
  pub pc : ℕ
  pub reg : ℕ → ℕ
  pub running : Bool
  pub stop_requested : Bool
  pub exit_code : ℕ
  pub reload_pending : Bool
  pub time_ms : ℕ
  pub instr_ns_accum : ℕ
  pub program_hash : ℕ
  pub program_size : ℕ
  pub prev_cycle_hash : ℕ
  pub cycle_count : ℕ
  pub modules : List ModuleInfo
  pub decoded_cache : ℕ → Option ℕ
  pub ton_timers : ℕ → IecTimer
  pub tof_timers : ℕ → IecTimer
  pub tp_timers : ℕ → IecTimer
  pub tonr_timers : ℕ → IecTimer
  pub tofr_timers : ℕ → IecTimer
  pub ctu_counters : ℕ → Counter
  pub ctd_counters : ℕ → Counter
  pub ctud_counters : ℕ → Counter
  pub ctu_prev_input : ℕ → Bool
  pub ctd_prev_input : ℕ → Bool
  pub ctud_prev_up : ℕ → Bool
  pub ctud_prev_down : ℕ → Bool
  pub edge_prev_rising : ℕ → Bool
  pub edge_prev_falling : ℕ → Bool
  pub edge_prev_both : ℕ → Bool
  pub rs_latches : ℕ → Bool
  pub sr_latches : ℕ → Bool

-- `vm_mr32`: little endian; the four bytes do not overlap, so that `|` is a sum.
unfoldable pub mr32 : VmState → ℕ → ℕ
mr32 vm addr =
    vm.mem addr
    + vm.mem (addr + 1) * 2 ^ 8
    + vm.mem (addr + 2) * 2 ^ 16
    + vm.mem (addr + 3) * 2 ^ 24

unfoldable pub mw8 : VmState → ℕ → ℕ → VmState
mw8 vm addr v = record vm { mem = update vm.mem addr (v % 256) }

-- `vm_mw32`
unfoldable pub mw32 : VmState → ℕ → ℕ → VmState
unfolding mw8
mw32 vm addr val =
    let vm₁ = mw8 vm addr val in
    let vm₂ = mw8 vm₁ (addr + 1) (val / 2 ^ 8) in
    let vm₃ = mw8 vm₂ (addr + 2) (val / 2 ^ 16) in mw8 vm₃ (addr + 3) (val / 2 ^ 24)

-- `Bv`, `Cv`, `Cv_or_imm`, `SetA_val` of prototype-integrator/include/funcs.h
unfoldable pub bv : VmState → ℕ → ℕ
bv vm i = vm.reg (rb i)

unfoldable pub cv : VmState → ℕ → ℕ
cv vm i = vm.reg (rc i)

unfoldable pub cv_or_imm : VmState → ℕ → ℕ
cv_or_imm vm i = if fimm i then sextimm8 i else vm.reg (rc i)

unfoldable pub set_a : VmState → ℕ → ℕ → VmState
set_a vm i v = record vm { reg = update vm.reg (ra i) v }
