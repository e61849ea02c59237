-- ===== src/Lifecycle/Reset.antt =====
-- What creation and reset establish.
use virtual_machine.Prelude.{ℕ, ◌<◌, ◌≡◌, refl, arith, Bool, false}
use virtual_machine.Word.{u32_mod}
use virtual_machine.Machine.{VmState, mr32}
use virtual_machine.Machine.Frame.{IsValid}
use virtual_machine.Runtime.Cache.{IsCoherent}
use virtual_machine.Lifecycle.{
  vm_state_init_registers, vm_state_clear_iec_state, clear_timer, vm_state_init_common, vm_reset,
  calloc_vm, vm_create,
}

-- A new machine is valid, and its cache agrees with its memory.
pub vm_create-IsValid : IsValid vm_create × IsCoherent vm_create
unfolding vm_create calloc_vm vm_state_init_common vm_state_init_registers vm_state_clear_iec_state
vm_create-IsValid = (
  record {
    regs = λ r. omega arith;
    bytes = λ a. omega arith;
    pc_word = omega arith;
    ctu = λ k. omega arith;
    ctd = λ k. omega arith;
    ctud = λ k. omega arith;
  },
  record { entry = λ addr raw h. absurd (cc) },
)

-- A reset keeps a valid machine with a 32-bit PC_START valid, and a cache that agrees with the
-- memory in agreement with it.
pub vm_reset-IsValid :
    (vm : VmState)
    → vm.pc_start < u32_mod
    → IsValid vm
    → IsCoherent vm
    → IsValid (vm_reset vm) × IsCoherent (vm_reset vm)
unfolding vm_reset vm_state_init_registers vm_state_clear_iec_state mr32
vm_reset-IsValid vm start v c = (
  record {
    regs = λ r. omega arith;
    bytes = v.bytes;
    pc_word = start;
    ctu = λ k. omega arith;
    ctd = λ k. omega arith;
    ctud = λ k. omega arith;
  },
  record { entry = c.entry },
)

-- A second reset changes nothing.
pub vm_reset-vm_reset : (vm : VmState) → vm_reset (vm_reset vm) ≡ vm_reset vm
unfolding vm_reset vm_state_init_registers vm_state_clear_iec_state clear_timer
vm_reset-vm_reset vm = refl

-- A reset gives the same machine whatever the registers, the program counter, the times, the count
-- of cycles, the exit code and the two flags were.
pub vm_reset_forgets :
    (vm : VmState) (reg : ℕ → ℕ) (pc time accum count exit : ℕ) (running stop : Bool)
    → vm_reset (record vm {
      reg = reg;
      pc = pc;
      time_ms = time;
      instr_ns_accum = accum;
      cycle_count = count;
      exit_code = exit;
      running = running;
      stop_requested = stop;
    })
      ≡ vm_reset vm
unfolding vm_reset vm_state_init_registers vm_state_clear_iec_state clear_timer
vm_reset_forgets vm reg pc time accum count exit running stop = refl

-- The accumulated time of the retentive timers survives a reset.
pub vm_reset-tonr :
    (vm : VmState) (k : ℕ)
    → (((vm_reset vm).tonr_timers k).et ≡ (vm.tonr_timers k).et)
      × (((vm_reset vm).tonr_timers k).output ≡ (vm.tonr_timers k).output)
      × (((vm_reset vm).ton_timers k).et ≡ 0)
      × (((vm_reset vm).ton_timers k).output ≡ false)
unfolding vm_reset vm_state_init_registers vm_state_clear_iec_state clear_timer
vm_reset-tonr vm k = (refl, refl, refl, refl)
