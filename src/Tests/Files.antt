-- ===== src/Tests/Files.antt =====
-- Program files, and a directory of them.
use virtual_machine.Prelude.{
  ℕ, true, false, ◌+◌, ◌<◌, ◌≤◌, ◌≡◌, ◌⊎◌, ◌&◌, arith, refl, some, none, List, [], ◌∷◌, map,
}
use virtual_machine.Machine.{VmState}
use virtual_machine.Hashing.{crc32_of, memory_bytes}
use virtual_machine.Lifecycle.{calloc_vm}
use virtual_machine.Loader.{OpenFile, load_programs, load_files, load_file}
use virtual_machine.Loader.Placed.{layout, load_programs-placed}
use virtual_machine.Loader.Bounds.{IsLoaded, load_programs-inside, load_programs-failed}
use virtual_machine.HotReload.{
  DirEntry, collect_bin_files, bin_files, has_bin_extension, apply_pending_reload,
}
use virtual_machine.HotReload.Reload.{apply_pending_reload-placed}

abbrev blank : VmState
blank = record calloc_vm { pc_start = 12288; reload_pending = true }

abbrev pub four_bytes : OpenFile
four_bytes = record { seeks = true; fsize = 4; read = 1 ∷ 2 ∷ 3 ∷ 4 ∷ [] }

load_programs-placed_example :
    (vm : VmState) × (load_programs blank (map some (four_bytes ∷ four_bytes ∷ [])) ≡ (true, vm))
    × (vm.modules ≡ layout 12288 (four_bytes ∷ four_bytes ∷ []))
    × (vm.program_size ≡ 8)
    × (memory_bytes vm.mem 12288 8 ≡ 1 ∷ 2 ∷ 3 ∷ 4 ∷ 1 ∷ 2 ∷ 3 ∷ 4 ∷ [])
    × ((a : ℕ) → (a < 12288) ⊎ (12288 + 8 ≤ a) → vm.mem a ≡ blank.mem a)
    × (vm.program_hash ≡ crc32_of (1 ∷ 2 ∷ 3 ∷ 4 ∷ 1 ∷ 2 ∷ 3 ∷ 4 ∷ []))
    × (vm.pc_start ≡ 12288)
    × (vm.reload_pending ≡ true)
load_programs-placed_example =
    load_programs-placed blank four_bytes (four_bytes ∷ [])
      ((record { seeks = refl; whole = refl }) & (record { seeks = refl; whole = refl }) & tt)
      (omega arith)

load_programs-inside_example :
    IsLoaded 12288 blank.mem (load_programs blank (some four_bytes ∷ none ∷ [])).1
load_programs-inside_example =
    load_programs-inside blank (some four_bytes) (none ∷ []) ((omega arith, omega arith) & tt & tt)
      (omega arith)

second_fails : (load_programs blank (some four_bytes ∷ none ∷ [])).0 ≡ false
unfolding load_programs load_files load_file
second_fails = refl

load_programs-failed_example : (load_programs blank (some four_bytes ∷ none ∷ [])).1.modules ≡ []
load_programs-failed_example =
    load_programs-failed blank (some four_bytes) (none ∷ []) (refl & tt & tt) second_fails

-- The file "a.bin".
abbrev pub a_bin : DirEntry
a_bin = record {
  d_name = 97 ∷ 46 ∷ 98 ∷ 105 ∷ 110 ∷ [];
  is_regular = true;
  stat = some (4, 1);
  file = some four_bytes;
}

abbrev pub in_order : List DirEntry → List DirEntry
in_order es = es

one_found : collect_bin_files in_order (some (a_bin ∷ [])) ≡ some (a_bin ∷ [])
unfolding collect_bin_files bin_files has_bin_extension
one_found = refl

apply_pending_reload-placed_example :
    let vm = apply_pending_reload in_order blank (some (a_bin ∷ [])) in
    (vm.modules ≡ layout 12288 (four_bytes ∷ []))
    × (memory_bytes vm.mem 12288 4 ≡ 1 ∷ 2 ∷ 3 ∷ 4 ∷ [])
    × (vm.program_hash ≡ crc32_of (1 ∷ 2 ∷ 3 ∷ 4 ∷ []))
    × (vm.reload_pending ≡ false)
apply_pending_reload-placed_example =
    apply_pending_reload-placed in_order blank (some (a_bin ∷ [])) refl a_bin [] one_found
      four_bytes [] refl (record { seeks = refl; whole = refl }, tt) (omega arith) (omega arith)
