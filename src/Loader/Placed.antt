-- ===== src/Loader/Placed.antt =====
-- Files that can be read and fit are placed one after another from `PC_START` on.
use mathlib.Core.List.{append-nil, append_assoc}
use virtual_machine.Prelude.{
  ℕ, Bool, true, false, ◌+◌, ◌%◌, ◌≤◌, ◌<◌, ◌≡◌, ◌⊎◌, ◌==◌, ltb, List, [], ◌∷◌, ◌++◌, length,
  length-append, Option, some, update, update_self, update_ne, arith, refl, sym, ap, ◌∙◌, All, map,
  Bool-cases, inl, inr, ==_iff, le→ltb-false,
}
use virtual_machine.Word.{u32_mod, u64_mod, add32}
use virtual_machine.Machine.{VmState, ModuleInfo, mem_bytes}
use virtual_machine.Hashing.{calculate_memory_hash, memory_bytes, crc32_of}
use virtual_machine.Loader.{
  OpenFile, store_bytes, add_module, goes_on, load_file, load_files, load_programs, with_hash,
}

-- The file can be read to its end.
pub record IsReadable (f : OpenFile) : Type 0 where
  pub seeks : f.seeks ≡ true
  pub whole : length f.read ≡ f.fsize

-- The contents of the files one after another, and their modules.
abbrev pub image : List OpenFile → List ℕ
image [] = []
image (f ∷ fs) = f.read ++ image fs

abbrev pub layout : ℕ → List OpenFile → List ModuleInfo
layout addr [] = []
layout addr (f ∷ fs) =
    (record { addr = addr; size = length f.read }) ∷ layout (addr + length f.read) fs

-- The machine with bytes and modules added to it.
abbrev pub placed : VmState → ℕ → List ℕ → List ModuleInfo → VmState
placed vm addr bytes ms = record vm {
  mem = store_bytes vm.mem addr bytes;
  modules = vm.modules ++ ms;
  program_size = vm.program_size + length bytes;
}

empty_of : (xs : List ℕ) → length xs ≡ 0 → xs ≡ []
empty_of [] h = refl
empty_of (x ∷ xs) h = absurd (omega arith)

abbrev with_parts : VmState → (ℕ → ℕ) → List ModuleInfo → ℕ → VmState
with_parts vm mem ms size = record vm { mem = mem; modules = ms; program_size = size }

-- A readable file that fits is loaded as it is.
load_opened :
    (vm : VmState) (w fsize : ℕ) (read : List ℕ)
    → length read ≡ fsize
    → w + length read ≤ mem_bytes
    → vm.program_size + length read ≤ mem_bytes
    → load_file vm w (some (record { seeks = true; fsize = fsize; read = read }))
      ≡ goes_on
          (placed vm w read ((record { addr = w; size = length read }) ∷ []))
          (w + length read)
unfolding load_file add32
load_opened vm w fsize read whole fits small = elim (Bool-cases (fsize == 0)) [
  | inl e ↦
      let none_read : read ≡ [] = empty_of read (whole ∙ (==_iff fsize 0).0 e) in
      rw (e, none_read)
        (ap (λ p. goes_on (with_parts vm vm.mem (add_module vm w 0) p) w)
            (let q : vm.program_size ≡ vm.program_size + 0 = omega arith in q)
          ∙ ap (goes_on (with_parts vm vm.mem (add_module vm w 0) (vm.program_size + 0)))
              (let q : w ≡ w + 0 = omega arith in q))
  | inr e ↦
      let sum : (w + fsize) % u64_mod ≡ w + fsize = omega (arith, whole, fits) in
      let length_word : length read % u32_mod ≡ length read = omega (arith, fits) in
      let next : (w + length read) % u32_mod ≡ w + length read = omega (arith, fits) in
      let size : (vm.program_size + length read) % u64_mod ≡ vm.program_size + length read =
        omega (arith, small) in
      let fit : ltb mem_bytes (w + fsize) ≡ false =
        le→ltb-false (w + fsize) mem_bytes (omega (arith, whole, fits)) in
      let all_read : (length read == fsize) ≡ true = (==_iff (length read) fsize).1 whole in
      rw (e, sum, fit, all_read, length_word, next, size) refl
]

pub store_bytes_out :
    (mem : ℕ → ℕ) (a : ℕ) (xs : List ℕ) (k : ℕ)
    → (k < a) ⊎ (a + length xs ≤ k)
    → store_bytes mem a xs k ≡ mem k
store_bytes_out mem a [] k h = refl
store_bytes_out mem a (x ∷ xs) k h =
    store_bytes_out (update mem a x) (a + 1) xs k (ground (arith, h))
    ∙ update_ne mem a k x (λ e. ground (arith, h, e))

store_bytes-memory_bytes :
    (mem : ℕ → ℕ) (a : ℕ) (xs : List ℕ) → memory_bytes (store_bytes mem a xs) a (length xs) ≡ xs
unfolding memory_bytes
store_bytes-memory_bytes mem a [] = refl
store_bytes-memory_bytes mem a (x ∷ xs) =
    ap (λ y. y ∷ memory_bytes (store_bytes (update mem a x) (a + 1) xs) (a + 1) (length xs))
      (store_bytes_out (update mem a x) (a + 1) xs a (inl (omega arith)) ∙ update_self mem a x)
    ∙ ap (λ ys. x ∷ ys) (store_bytes-memory_bytes (update mem a x) (a + 1) xs)

store_bytes-append :
    (mem : ℕ → ℕ) (a : ℕ) (xs ys : List ℕ)
    → store_bytes mem a (xs ++ ys) ≡ store_bytes (store_bytes mem a xs) (a + length xs) ys
store_bytes-append mem a [] ys = ap (λ n. store_bytes mem n ys) (omega arith)
store_bytes-append mem a (x ∷ xs) ys =
    store_bytes-append (update mem a x) (a + 1) xs ys
    ∙ ap (λ n. store_bytes (store_bytes (update mem a x) (a + 1) xs) n ys) (omega arith)

placed_twice :
    (vm : VmState) (w : ℕ) (xs ys : List ℕ) (ms ns : List ModuleInfo)
    → placed (placed vm w xs ms) (w + length xs) ys ns ≡ placed vm w (xs ++ ys) (ms ++ ns)
placed_twice vm w xs ys ms ns =
    ap (λ m. with_parts vm m ((vm.modules ++ ms) ++ ns) (vm.program_size + length xs + length ys))
      (sym (store_bytes-append vm.mem w xs ys))
    ∙ ap
        (λ l.
          with_parts vm (store_bytes vm.mem w (xs ++ ys)) l
            (vm.program_size + length xs + length ys))
        (append_assoc vm.modules ms ns)
    ∙ ap (with_parts vm (store_bytes vm.mem w (xs ++ ys)) (vm.modules ++ (ms ++ ns))) (
        let e : vm.program_size + length xs + length ys ≡ vm.program_size + length (xs ++ ys) =
          omega (arith, length-append xs ys) in
        e)

load_files_step :
    (vm vm' : VmState) (w w' : ℕ) (f : Option OpenFile) (fs : List (Option OpenFile))
    {r : Bool × VmState}
    → load_file vm w f ≡ goes_on vm' w'
    → load_files vm' w' fs ≡ r
    → load_files vm w (f ∷ fs) ≡ r
unfolding load_files
load_files_step vm vm' w w' f fs e rest = rw (e, load_files) rest

readable_one :
    (vm : VmState) (w : ℕ) (f : OpenFile)
    → IsReadable f
    → w + length f.read ≤ mem_bytes
    → vm.program_size + length f.read ≤ mem_bytes
    → load_file vm w (some f)
      ≡ goes_on
          (placed vm w f.read ((record { addr = w; size = length f.read }) ∷ []))
          (w + length f.read)
readable_one vm w f r fits small =
    ap (λ b. load_file vm w (some (record { seeks = b; fsize = f.fsize; read = f.read }))) r.seeks
    ∙ load_opened vm w f.fsize f.read r.whole fits small

load_files-placed :
    (fs : List OpenFile) (vm : VmState) (w : ℕ)
    → All IsReadable fs
    → w + length (image fs) ≤ mem_bytes
    → vm.program_size + length (image fs) ≤ mem_bytes
    → load_files vm w (map some fs) ≡ (true, placed vm w (image fs) (layout w fs))
unfolding load_files
load_files-placed [] vm w all fits small =
    ap (λ l. (true, with_parts vm vm.mem l vm.program_size)) (sym (append-nil vm.modules))
    ∙ ap (λ n. (true, with_parts vm vm.mem (vm.modules ++ []) n))
        (let e : vm.program_size ≡ vm.program_size + 0 = omega arith in e)
load_files-placed (f ∷ fs) vm w (r, all) fits small =
    let one : load_file vm w (some f)
        ≡ goes_on (placed vm w f.read ((record { addr = w; size = length f.read }) ∷ []))
            (w + length f.read) =
      readable_one vm w f r (omega (arith, length-append f.read (image fs)))
        (omega (arith, length-append f.read (image fs))) in
    load_files_step vm (placed vm w f.read ((record { addr = w; size = length f.read }) ∷ [])) w
      (w + length f.read) (some f) (map some fs) one
      (load_files-placed fs (placed vm w f.read ((record { addr = w; size = length f.read }) ∷ []))
        (w + length f.read) all (omega (arith, length-append f.read (image fs)))
        (omega (arith, length-append f.read (image fs))))
    ∙ ap (λ v. (true, v))
        (placed_twice vm w f.read (image fs) ((record { addr = w; size = length f.read }) ∷ [])
          (layout (w + length f.read) fs))

-- Files that can be read and that fit behind PC_START are all loaded: the modules follow one
-- another from PC_START on with the sizes of the files, the memory there holds their contents and
-- is unchanged elsewhere, and size and CRC-32 of the program are those of the contents.
pub load_programs-placed :
    (vm : VmState) (f : OpenFile) (fs : List OpenFile)
    → All IsReadable (f ∷ fs)
    → vm.pc_start + length (image (f ∷ fs)) ≤ mem_bytes
    → (vm' : VmState) × (load_programs vm (map some (f ∷ fs)) ≡ (true, vm'))
      × (vm'.modules ≡ layout vm.pc_start (f ∷ fs))
      × (vm'.program_size ≡ length (image (f ∷ fs)))
      × (memory_bytes vm'.mem vm.pc_start (length (image (f ∷ fs))) ≡ image (f ∷ fs))
      × ((a : ℕ)
          → (a < vm.pc_start) ⊎ (vm.pc_start + length (image (f ∷ fs)) ≤ a)
          → vm'.mem a ≡ vm.mem a)
      × (vm'.program_hash ≡ crc32_of (image (f ∷ fs)))
      × (vm'.pc_start ≡ vm.pc_start)
      × (vm'.reload_pending ≡ vm.reload_pending)
unfolding load_programs calculate_memory_hash
load_programs-placed vm f fs all fits =
    let clean : VmState = record vm { modules = []; program_size = 0; program_hash = 0 } in
    let bytes = image (f ∷ fs) in
    let loaded = load_files-placed (f ∷ fs) clean vm.pc_start all fits (omega (arith, fits)) in
    let after = placed clean vm.pc_start bytes (layout vm.pc_start (f ∷ fs)) in
    let size : after.program_size ≡ length bytes = omega arith in
    let held = store_bytes-memory_bytes vm.mem vm.pc_start bytes in
    (
      record after {
        program_hash = calculate_memory_hash after.mem vm.pc_start after.program_size;
      },
      ap with_hash loaded,
      refl,
      size,
      held,
      λ a. store_bytes_out vm.mem vm.pc_start bytes a,
      ap (λ n. crc32_of (memory_bytes after.mem vm.pc_start n)) size ∙ ap crc32_of held,
      refl,
      refl,
    )
