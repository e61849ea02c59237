-- ===== src/Hashing/Window.antt =====
-- The two ways to hash a part of the memory.
use virtual_machine.Prelude.{ℕ, ◌+◌, ◌<◌, ◌≤◌, ◌≡◌, arith}
use virtual_machine.Word.{u64_mod}
use virtual_machine.Machine.{VmState, HashAlgorithm, mem_bytes}
use virtual_machine.Hashing.{
  calculate_memory_hash_ex, vm_calculate_memory_hash_ex, vm_calculate_program_hash_ex,
}

-- The hash of the program is the hash of the memory window from PC_START on, of the size of the
-- program, when that is not zero and the window ends below 2 ^ 64.
pub program_hash-memory_hash :
    (vm : VmState) (algo : HashAlgorithm)
    → 0 < vm.program_size
    → vm.pc_start + vm.program_size < u64_mod
    → vm_calculate_program_hash_ex vm algo
      ≡ vm_calculate_memory_hash_ex vm vm.pc_start vm.program_size algo
unfolding vm_calculate_program_hash_ex vm_calculate_memory_hash_ex
program_hash-memory_hash vm algo some_size fits = ground arith

-- A window inside the memory is hashed whole: the checked function agrees with the unchecked one.
pub memory_hash_inside :
    (vm : VmState) (start length : ℕ) (algo : HashAlgorithm)
    → start < mem_bytes
    → start + length ≤ mem_bytes
    → vm_calculate_memory_hash_ex vm start length algo
      ≡ calculate_memory_hash_ex vm.mem start length algo
unfolding vm_calculate_memory_hash_ex calculate_memory_hash_ex
memory_hash_inside vm start length algo lo hi = ground arith
