-- ===== src/Loader.antt =====
-- Loading of program files, prototype-integrator/src/loader.c: the files are placed one after another
-- in the memory, each as a module. What the C library says of a file is part of the arguments, and
-- the allocations succeed.
pub mod Placed
pub mod Bounds
pub mod Kept
use virtual_machine.Prelude.{
  ℕ, Bool, true, false, ◌+◌, ◌%◌, ◌==◌, ltb, if◌then◌else◌, List, [], ◌∷◌, ◌++◌, length, Option,
  none, some, update,
}
use virtual_machine.Word.{u32_mod, u64_mod, add32}
use virtual_machine.Machine.{VmState, ModuleInfo, mem_bytes}
use virtual_machine.Hashing.{calculate_memory_hash}

-- An open file: whether `fseek` succeeds, the size that `ftell` gives (as a `uint64_t`) and the bytes
-- that `fread` gives when that many are asked for.
pub record OpenFile : Type 0 where
  pub seeks : Bool
  pub fsize : ℕ
  pub read : List ℕ

-- The bytes from an address on are overwritten.
abbrev pub store_bytes : (ℕ → ℕ) → ℕ → List ℕ → ℕ → ℕ
store_bytes mem a [] = mem
store_bytes mem a (x ∷ xs) = store_bytes (update mem a x) (a + 1) xs

-- The modules are freed.
abbrev pub unload : VmState → VmState
unload vm = record vm { modules = [] }

abbrev pub add_module : VmState → ℕ → ℕ → List ModuleInfo
add_module vm addr size = vm.modules ++ (record { addr = addr; size = size }) ∷ []

-- A pass of the loop goes on with the next `write_ptr`, or `load_programs` returns -1.
pub data Loading : Type 0 where
  goes_on : VmState → ℕ → Loading
  fails : VmState → Loading

-- The loop's body; `none` for a file that `fopen` does not open.
unfoldable pub load_file : VmState → ℕ → Option OpenFile → Loading
unfolding add32
load_file vm write_ptr none = fails (unload vm)
load_file vm write_ptr (some f) =
    let mem = store_bytes vm.mem write_ptr f.read in
    let bytes_read = length f.read in
    if f.seeks
    then if f.fsize == 0
      then goes_on (record vm { modules = add_module vm write_ptr 0 }) write_ptr
      else if ltb mem_bytes ((write_ptr + f.fsize) % u64_mod)
      then fails (unload vm)
      else if bytes_read == f.fsize
      then goes_on
          (record vm {
            mem = mem;
            modules = add_module vm write_ptr (bytes_read % u32_mod);
            program_size = (vm.program_size + bytes_read % u32_mod) % u64_mod;
          })
          (add32 write_ptr bytes_read)
      else fails (unload (record vm { mem = mem }))
    else fails vm

-- The result is `true` for 0 and `false` for -1.
unfoldable pub load_files : VmState → ℕ → List (Option OpenFile) → Bool × VmState
unfolding load_file
load_files vm write_ptr [] = (true, vm)
load_files vm write_ptr (f ∷ fs) = elim (load_file vm write_ptr f) [
  | fails vm' ↦ (false, vm')
  | goes_on vm' next ↦ load_files vm' next fs
]

-- The result of the loop with the hash of the program, if no file failed.
abbrev pub with_hash : Bool × VmState → Bool × VmState
with_hash (true, vm) =
    (true, record vm { program_hash = calculate_memory_hash vm.mem vm.pc_start vm.program_size })
with_hash (false, vm) = (false, vm)

unfoldable pub load_programs : VmState → List (Option OpenFile) → Bool × VmState
unfolding load_files calculate_memory_hash
load_programs vm [] = (false, vm)
load_programs vm (f ∷ fs) = with_hash (
    load_files (record vm { modules = []; program_size = 0; program_hash = 0 }) vm.pc_start
      (f ∷ fs))
