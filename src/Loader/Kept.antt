-- ===== src/Loader/Kept.antt =====
-- What `load_programs` leaves of the running machine, whether it fails or not.
use mathlib.Core.Path.{subst}
use virtual_machine.Prelude.{
  ℕ, Bool, true, false, ◌+◌, ◌%◌, ◌<◌, ◌≡◌, ◌==◌, ltb, List, [], ◌∷◌, length, Option, none, some,
  refl, sym, All, inl, inr, if_split, update,
}
use virtual_machine.Word.{u32_mod, u64_mod}
use virtual_machine.Machine.{VmState, ModuleInfo, VmConfig, Counter, mem_bytes}
use virtual_machine.Machine.Frame.{IsValid, update-lt}
use virtual_machine.Loader.{
  OpenFile, store_bytes, Loading, goes_on, fails, load_file, load_files, load_programs, with_hash,
}
use virtual_machine.Loader.Bounds.{Loading-cases}

-- The bytes of a file are bytes.
abbrev pub HasBytes : Option OpenFile → Type 0
HasBytes none = Unit
HasBytes (some f) = All (λ b. b < 256) f.read

-- What loading does not touch.
abbrev pub Execution : Type 0
Execution = (ℕ → ℕ) × ℕ × (ℕ → Counter) × (ℕ → Counter) × (ℕ → Counter) × ℕ × Bool × ℕ × VmConfig

abbrev pub execution : VmState → Execution
execution vm = (
  vm.reg, vm.pc, vm.ctu_counters, vm.ctd_counters, vm.ctud_counters, vm.pc_start, vm.stop_requested,
  vm.cycle_count, vm.config,
)

store_bytes-lt :
    (mem : ℕ → ℕ) (w : ℕ) (xs : List ℕ)
    → ((a : ℕ) → mem a < 256)
    → All (λ b. b < 256) xs
    → (a : ℕ) → store_bytes mem w xs a < 256
store_bytes-lt mem w [] h all a = h a
store_bytes-lt mem w (x ∷ xs) h all a =
    store_bytes-lt (update mem w x) (w + 1) xs (update-lt mem w x 256 h all.0) all.1 a

abbrev ContentsOf : (List ℕ → Type 0) → Option OpenFile → Type 0
ContentsOf Q none = Unit
ContentsOf Q (some f) = Q f.read

-- A property of machines that a load keeps: storing the contents of a file with the property `Q` keeps
-- it, and so does a new hash of the program.
module _ (P : VmState → Type 0) (Q : List ℕ → Type 0) (empty : Q [])
    (stored : (vm : VmState) (w n : ℕ) (xs : List ℕ) (ms : List ModuleInfo)
      → Q xs
      → P vm
      → P (record vm { mem = store_bytes vm.mem w xs; modules = ms; program_size = n }))
    (hashed : (vm : VmState) (n : ℕ) → P vm → P (record vm { program_hash = n })) where
  abbrev Holds : Loading → Type 0
  Holds (goes_on vm w) = P vm
  Holds (fails vm) = P vm

  load_file-keeps :
      (vm : VmState) (w : ℕ) (f : Option OpenFile)
      → ContentsOf Q f
      → P vm
      → Holds (load_file vm w f)
  unfolding load_file
  load_file-keeps vm w none q p = stored vm w vm.program_size [] [] empty p
  load_file-keeps vm w (some f) q p =
      if_split Holds f.seeks
        (if_split Holds (f.fsize == 0) (stored vm w vm.program_size [] _ empty p) (
          if_split Holds (ltb mem_bytes ((w + f.fsize) % u64_mod))
            (stored vm w vm.program_size [] [] empty p)
            (if_split Holds (length f.read == f.fsize) (stored vm w _ f.read _ q p)
              (stored vm w vm.program_size f.read [] q p))))
        p

  load_files-keeps :
      (fs : List (Option OpenFile)) (vm : VmState) (w : ℕ)
      → All (ContentsOf Q) fs
      → P vm
      → P (load_files vm w fs).1
  unfolding load_files
  load_files-keeps [] vm w q p = p
  load_files-keeps (f ∷ fs) vm w (q, qs) p =
      let one = load_file-keeps vm w f q p in
      elim (Loading-cases (load_file vm w f)) [
        | inl (vm', e) ↦ rw (e, load_files) (subst Holds e one)
        | inr (vm', w', e) ↦ rw (e, load_files) (load_files-keeps fs vm' w' qs (subst Holds e one))
      ]

  with_hash-keeps : (r : Bool × VmState) → P r.1 → P (with_hash r).1
  with_hash-keeps (true, vm) p = hashed vm _ p
  with_hash-keeps (false, vm) p = p

  load_programs-keeps :
      (vm : VmState) (fs : List (Option OpenFile))
      → All (ContentsOf Q) fs
      → P vm
      → P (load_programs vm fs).1
  unfolding load_programs
  load_programs-keeps vm [] q p = p
  load_programs-keeps vm (f ∷ fs) q p =
      let clean : VmState = record vm { modules = []; program_size = 0; program_hash = 0 } in
      with_hash-keeps (load_files clean vm.pc_start (f ∷ fs)) (
        load_files-keeps (f ∷ fs) clean vm.pc_start q
          (stored _ vm.pc_start 0 [] [] empty (hashed vm 0 p)))

all_files : (fs : List (Option OpenFile)) → All (ContentsOf (λ xs. Unit)) fs
all_files [] = tt
all_files (none ∷ fs) = (tt, all_files fs)
all_files (some f ∷ fs) = (tt, all_files fs)

byte_files :
    (fs : List (Option OpenFile)) → All HasBytes fs → All (ContentsOf (All (λ b. b < 256))) fs
byte_files [] h = tt
byte_files (none ∷ fs) h = (tt, byte_files fs h.1)
byte_files (some f ∷ fs) h = (h.0, byte_files fs h.1)

-- Loading leaves the registers, the program counter, the counters, PC_START, the configuration and a
-- request to stop, whatever the files are.
pub load_programs-execution :
    (vm : VmState) (fs : List (Option OpenFile)) → execution (load_programs vm fs).1 ≡ execution vm
load_programs-execution vm fs =
    load_programs-keeps (λ vm'. execution vm' ≡ execution vm) (λ xs. Unit) tt
      (λ vm' w n xs ms q e. e) (λ vm' n e. e) vm fs (all_files fs) refl

-- Loading files of bytes into a memory of bytes leaves a memory of bytes.
pub load_programs-bytes :
    (vm : VmState) (fs : List (Option OpenFile))
    → All HasBytes fs
    → ((a : ℕ) → vm.mem a < 256)
    → (a : ℕ) → (load_programs vm fs).1.mem a < 256
load_programs-bytes vm fs b h =
    load_programs-keeps (λ vm'. (a : ℕ) → vm'.mem a < 256) (All (λ b. b < 256)) tt
      (λ vm' w n xs ms q p. store_bytes-lt vm'.mem w xs p q) (λ vm' n p. p) vm fs (byte_files fs b)
      h

pub execution-IsValid :
    {vm vm' : VmState}
    → execution vm' ≡ execution vm
    → ((a : ℕ) → vm'.mem a < 256)
    → IsValid vm
    → IsValid vm'
execution-IsValid e b v = record {
  regs = λ r. subst (λ (e : Execution). e.0 r < u32_mod) (sym e) (v.regs r);
  bytes = b;
  pc_word = subst (λ (e : Execution). e.1 < u32_mod) (sym e) v.pc_word;
  ctu = λ k. subst (λ (e : Execution). (e.2 k).value < u32_mod) (sym e) (v.ctu k);
  ctd = λ k. subst (λ (e : Execution). (e.3 k).value < u32_mod) (sym e) (v.ctd k);
  ctud = λ k. subst (λ (e : Execution). (e.4 k).value < u32_mod) (sym e) (v.ctud k);
}
