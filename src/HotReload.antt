-- ===== src/HotReload.antt =====
-- Reloading of programs from a directory, prototype-integrator/src/hot_reload.c, and its call in
-- `run_program` (prototype-integrator/src/vm_runtime.c). The directory's entries, what the system says
-- of each file, and `qsort` are arguments; the allocations succeed.
pub mod Names
pub mod Signature
pub mod Reload
use virtual_machine.Prelude.{
  ℕ, zero, suc, Bool, true, false, not, ◌+◌, ◌/◌, ◌%◌, ◌^◌, ◌-◌, ◌*◌, ◌&&◌, ◌||◌, ◌==◌, ltb, leb,
  if◌then◌else◌, List, [], ◌∷◌, ◌++◌, length, Option, none, some, map, take, drop,
}
use virtual_machine.Machine.{VmState, mem_bytes}
use virtual_machine.Hashing.{crc32_begin, crc32_update, crc32_finalize, crc32_of, memory_bytes}
use virtual_machine.Tables.{same_string}
use virtual_machine.Loader.{OpenFile, load_programs}

-- An entry of the directory: its name, whether it is a regular file, what a later `stat` of it gives
-- (`none` if it fails), and what opening it gives.
pub record DirEntry : Type 0 where
  pub d_name : List ℕ
  pub is_regular : Bool
  pub stat : Option (ℕ × ℕ)
  pub file : Option OpenFile

-- `strrchr(name, '.')`
abbrev pub dot_or : ℕ → List ℕ → Option (List ℕ) → Option (List ℕ)
dot_or c cs (some dot) = some dot
dot_or c cs none = if c == 46 then some (c ∷ cs) else none

abbrev pub last_dot : List ℕ → Option (List ℕ)
last_dot [] = none
last_dot (c ∷ cs) = dot_or c cs (last_dot cs)

-- ".bin"
abbrev pub dot_bin : List ℕ
dot_bin = 46 ∷ 98 ∷ 105 ∷ 110 ∷ []

unfoldable pub has_bin_extension : List ℕ → Bool
has_bin_extension name = elim (last_dot name) [ none ↦ false | some dot ↦ same_string dot dot_bin ]

-- The names "." and "..".
abbrev pub is_dots : List ℕ → Bool
is_dots name = same_string name (46 ∷ []) || same_string name (46 ∷ 46 ∷ [])

unfoldable pub join_path : List ℕ → List ℕ → List ℕ
join_path dir name = dir ++ 47 ∷ name

-- The entries that `collect_bin_files` keeps.
unfoldable pub bin_files : List DirEntry → List DirEntry
unfolding has_bin_extension
bin_files [] = []
bin_files (e ∷ es) =
    let rest = bin_files es in
    if has_bin_extension e.d_name && (not (is_dots e.d_name) && e.is_regular)
    then e ∷ rest
    else rest

-- The 8 bytes of an integer of the host, little endian.
abbrev pub bytes8 : ℕ → List ℕ
bytes8 n =
    n % 256
    ∷ n / 2 ^ 8 % 256
    ∷ n / 2 ^ 16 % 256
    ∷ n / 2 ^ 24 % 256
    ∷ n / 2 ^ 32 % 256
    ∷ n / 2 ^ 40 % 256
    ∷ n / 2 ^ 48 % 256
    ∷ n / 2 ^ 56 % 256
    ∷ []

-- The loop that reads a file in blocks of 4096 bytes, until a block is short; the fuel counts blocks.
unfoldable pub crc_blocks : ℕ → ℕ → List ℕ → ℕ
unfolding crc32_update
crc_blocks zero crc bytes = crc
crc_blocks (suc fuel) crc bytes =
    let block = take 4096 bytes in
    let crc' = crc32_update crc block in
    let rest = crc_blocks fuel crc' (drop 4096 bytes) in
    if ltb (length block) 4096 then crc' else rest

-- The contents go in if the file opens; a file has fewer blocks than bytes and one more.
abbrev pub crc_contents : ℕ → Option OpenFile → ℕ
crc_contents crc none = crc
crc_contents crc (some f) = crc_blocks (suc (length f.read)) crc f.read

-- The loop's body of `calc_dir_signature`.
unfoldable pub crc_file : List ℕ → ℕ → DirEntry → ℕ
unfolding crc32_update join_path crc_blocks
crc_file dir crc e = elim e.stat [
  | none ↦ crc
  | some st ↦
      let named = crc32_update crc (join_path dir e.d_name) in
      let sized = crc32_update named (bytes8 st.0) in
      crc_contents (crc32_update sized (bytes8 st.1)) e.file
]

unfoldable pub crc_files : List ℕ → ℕ → List DirEntry → ℕ
unfolding crc_file
crc_files dir crc [] = crc
crc_files dir crc (e ∷ es) = crc_files dir (crc_file dir crc e) es

-- `directory_changed` with the new signature: the result and `*prev_sig` after the call.
unfoldable pub compare_signature : ℕ → ℕ → Bool × ℕ
compare_signature new_sig prev_sig =
    if prev_sig == 0
    then (false, new_sig)
    else if new_sig == prev_sig
    then (false, prev_sig)
    else (true, new_sig)

-- `vm_calculate_program_hash`
unfoldable pub vm_calculate_program_hash : VmState → ℕ
unfolding crc32_of memory_bytes
vm_calculate_program_hash vm =
    let room = mem_bytes - vm.pc_start in
    let hash_size = if ltb room vm.program_size then room else vm.program_size in
    if vm.program_size == 0 || leb mem_bytes vm.pc_start
    then 0
    else crc32_of (memory_bytes vm.mem vm.pc_start hash_size)

-- The hash is computed again after a load that succeeds.
abbrev pub with_program_hash : Bool × VmState → Bool × VmState
with_program_hash (true, vm) = (true, record vm { program_hash = vm_calculate_program_hash vm })
with_program_hash (false, vm) = (false, vm)

-- `reload_programs_from_directory` from `if (count <= 0)` on.
unfoldable pub reload_files : VmState → List DirEntry → Bool × VmState
unfolding load_programs vm_calculate_program_hash
reload_files vm [] = (false, vm)
reload_files vm (e ∷ es) = with_program_hash (load_programs vm (map (λ f. f.file) (e ∷ es)))

-- The end of `apply_pending_reload`.
abbrev pub settle : Bool × VmState → VmState
settle (true, vm) = vm
settle (false, vm) = record vm { reload_pending = true }

module _ (qsort : List DirEntry → List DirEntry) where
  -- `none` if `opendir` fails.
  unfoldable pub collect_bin_files : Option (List DirEntry) → Option (List DirEntry)
  unfolding bin_files
  collect_bin_files none = none
  collect_bin_files (some entries) =
      let files = bin_files entries in some (if ltb 1 (length files) then qsort files else files)

  unfoldable pub reload_programs_from_directory : VmState → Option (List DirEntry) → Bool × VmState
  unfolding collect_bin_files reload_files
  reload_programs_from_directory vm dir = elim (collect_bin_files dir) [
    | none ↦ (false, vm)
    | some files ↦ reload_files vm files
  ]

  unfoldable pub calc_dir_signature : List ℕ → Option (List DirEntry) → ℕ
  unfolding collect_bin_files crc_files crc32_finalize
  calc_dir_signature path dir = elim (collect_bin_files dir) [
    | none ↦ 0
    | some files ↦ crc32_finalize (crc_files path crc32_begin files)
  ]

  -- The result and `*prev_sig` after the call.
  unfoldable pub directory_changed : List ℕ → Option (List DirEntry) → ℕ → Bool × ℕ
  unfolding calc_dir_signature compare_signature
  directory_changed path dir prev_sig = compare_signature (calc_dir_signature path dir) prev_sig

  unfoldable pub apply_pending_reload : VmState → Option (List DirEntry) → VmState
  unfolding reload_programs_from_directory
  apply_pending_reload vm dir =
      if vm.reload_pending
      then settle (reload_programs_from_directory (record vm { reload_pending = false }) dir)
      else vm

  -- The start of a pass of `run_program`: `program_dir_signature` and the machine after it.
  unfoldable pub watch : List ℕ → Option (List DirEntry) → ℕ × VmState → ℕ × VmState
  unfolding directory_changed apply_pending_reload
  watch path dir (sig, vm) =
      let (changed, sig') = directory_changed path dir sig in
      let pending = if changed then record vm { reload_pending = true } else vm in
      (sig', apply_pending_reload pending dir)
