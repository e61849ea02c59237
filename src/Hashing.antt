-- ===== src/Hashing.antt =====
-- The hash functions of prototype-integrator/src/hashing.c: FNV-1a, the table-driven CRC-32, and the
-- hashes of registers, memory and program. A buffer is the list of its bytes.
pub mod Stream
pub mod Window
pub mod Serial
pub mod Cancel
pub mod Detects
pub mod Incremental
use virtual_machine.Prelude.{
  ℕ, zero, suc, Bool, ◌+◌, ◌-◌, ◌*◌, ◌/◌, ◌%◌, ◌^◌, bit_xor, ◌||◌, ◌==◌, ltb, leb, if◌then◌else◌,
  List, [], ◌∷◌,
}
use virtual_machine.Word.{u32_max, u64_mod, mul32}
use virtual_machine.Machine.{VmState, HashAlgorithm, simple_fnv1a, crc32, mem_bytes, reg_count}

-- `fnv1a32_begin` and FNV1A32_PRIME
abbrev pub fnv1a32_begin : ℕ
fnv1a32_begin = 2166136261

abbrev fnv1a32_prime : ℕ
fnv1a32_prime = 16777619

unfoldable pub fnv1a32_update : ℕ → List ℕ → ℕ
unfolding mul32
fnv1a32_update hash [] = hash
fnv1a32_update hash (b ∷ bytes) = fnv1a32_update (mul32 (bit_xor hash b) fnv1a32_prime) bytes

unfoldable pub fnv1a32 : List ℕ → ℕ
unfolding fnv1a32_update
fnv1a32 bytes = fnv1a32_update fnv1a32_begin bytes

-- One round of `crc32_init_table`, with the reflected polynomial 0xEDB88320.
unfoldable pub crc32_round : ℕ → ℕ
crc32_round crc = if crc % 2 == 1 then bit_xor (crc / 2) 3988292384 else crc / 2

unfoldable pub crc32_rounds : ℕ → ℕ → ℕ
unfolding crc32_round
crc32_rounds zero crc = crc
crc32_rounds (suc j) crc = crc32_rounds j (crc32_round crc)

-- `crc32_table[i]`; the table is filled before its first use.
unfoldable pub crc32_table : ℕ → ℕ
unfolding crc32_rounds
crc32_table i = crc32_rounds 8 i

abbrev pub crc32_begin : ℕ
crc32_begin = u32_max

unfoldable pub crc32_update : ℕ → List ℕ → ℕ
unfolding crc32_table
crc32_update crc [] = crc
crc32_update crc (b ∷ bytes) =
    crc32_update (bit_xor (crc / 256) (crc32_table (bit_xor crc b % 256))) bytes

unfoldable pub crc32_finalize : ℕ → ℕ
crc32_finalize crc = bit_xor crc u32_max

-- The function `crc32`: the same loop, between the two ends.
unfoldable pub crc32_of : List ℕ → ℕ
unfolding crc32_update crc32_finalize
crc32_of bytes = crc32_finalize (crc32_update crc32_begin bytes)

unfoldable pub hash_buffer : HashAlgorithm → List ℕ → ℕ
unfolding fnv1a32 crc32_of
hash_buffer simple_fnv1a bytes = fnv1a32 bytes
hash_buffer crc32 bytes = crc32_of bytes

-- The bytes from an address on, and those of the first registers, little endian.
unfoldable pub memory_bytes : (ℕ → ℕ) → ℕ → ℕ → List ℕ
memory_bytes mem start zero = []
memory_bytes mem start (suc n) = mem start ∷ memory_bytes mem (start + 1) n

unfoldable pub register_bytes : (ℕ → ℕ) → ℕ → ℕ → List ℕ
register_bytes reg from zero = []
register_bytes reg from (suc n) =
    let w = reg from in
    w % 2 ^ 8
    ∷ w / 2 ^ 8 % 2 ^ 8
    ∷ w / 2 ^ 16 % 2 ^ 8
    ∷ w / 2 ^ 24 % 2 ^ 8
    ∷ register_bytes reg (from + 1) n

unfoldable pub calculate_registers_hash_ex : (ℕ → ℕ) → ℕ → HashAlgorithm → ℕ
unfolding hash_buffer register_bytes
calculate_registers_hash_ex reg count algo = hash_buffer algo (register_bytes reg 0 count)

unfoldable pub calculate_memory_hash_ex : (ℕ → ℕ) → ℕ → ℕ → HashAlgorithm → ℕ
unfolding hash_buffer memory_bytes
calculate_memory_hash_ex mem start length algo = hash_buffer algo (memory_bytes mem start length)

-- `calculate_memory_hash`
unfoldable pub calculate_memory_hash : (ℕ → ℕ) → ℕ → ℕ → ℕ
unfolding crc32_of memory_bytes
calculate_memory_hash mem start length = crc32_of (memory_bytes mem start length)

-- The sum of the guard is a `size_t` sum.
unfoldable pub vm_calculate_memory_hash_ex : VmState → ℕ → ℕ → HashAlgorithm → ℕ
unfolding hash_buffer memory_bytes
vm_calculate_memory_hash_ex vm start length algo =
    let clipped =
      if ltb mem_bytes ((start + length) % u64_mod) then mem_bytes - start else length in
    if leb mem_bytes start then 0 else hash_buffer algo (memory_bytes vm.mem start clipped)

unfoldable pub vm_calculate_program_hash_ex : VmState → HashAlgorithm → ℕ
unfolding hash_buffer memory_bytes
vm_calculate_program_hash_ex vm algo =
    let room = mem_bytes - vm.pc_start in
    let hash_size = if ltb room vm.program_size then room else vm.program_size in
    if vm.program_size == 0 || leb mem_bytes vm.pc_start
    then 0
    else hash_buffer algo (memory_bytes vm.mem vm.pc_start hash_size)

unfoldable pub verify_data_integrity : List ℕ → ℕ → Bool
unfolding crc32_of
verify_data_integrity bytes expected_crc = crc32_of bytes == expected_crc
