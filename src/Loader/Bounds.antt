-- ===== src/Loader/Bounds.antt =====
-- Whatever the files are, `load_programs` writes inside the memory, its modules are inside it, and
-- after a failure there are none.
use mathlib.Core.Path.{subst}
use virtual_machine.Prelude.{
  ℕ, Bool, true, false, ◌+◌, ◌%◌, ◌≤◌, ◌<◌, ◌^◌, ◌≡◌, ◌⊎◌, ◌==◌, ltb, List, [], ◌∷◌, ◌++◌, length,
  Option, none, some, arith, refl, sym, ap, ◌∙◌, All, inl, inr, ltb-false→le, if_split, if_cases,
}
use virtual_machine.Word.{u32_mod, u64_mod, add32}
use virtual_machine.Machine.{VmState, ModuleInfo, mem_bytes}
use virtual_machine.Loader.{
  OpenFile, store_bytes, Loading, goes_on, fails, load_file, load_files, load_programs, with_hash,
  unload,
}
use virtual_machine.Loader.Placed.{store_bytes_out}

-- What the C library promises: a size is a `long` that is not negative, and no more bytes are read
-- than asked for.
abbrev pub IsFile : Option OpenFile → Type 0
IsFile none = Unit
IsFile (some f) = (f.fsize < 2 ^ 63) × (length f.read ≤ f.fsize)

-- A module lies between `from` and the end of the memory.
abbrev pub IsInside : ℕ → ModuleInfo → Type 0
IsInside from m = (from ≤ m.addr) × (m.addr + m.size ≤ mem_bytes)

-- The machine differs from `mem` between `from` and the end of the memory only, and so for modules.
pub record IsLoaded (from : ℕ) (mem : ℕ → ℕ) (vm : VmState) : Type 0 where
  pub outside : (a : ℕ) → (a < from) ⊎ (mem_bytes ≤ a) → vm.mem a ≡ mem a
  pub modules : All (IsInside from) vm.modules

All-append :
    (P : ModuleInfo → Type 0) (xs : List ModuleInfo) (m : ModuleInfo)
    → All P xs
    → P m
    → All P (xs ++ m ∷ [])
All-append P [] m all p = (p, tt)
All-append P (x ∷ xs) m all p = (all.0, All-append P xs m all.1 p)

abbrev pub LoadsInside : ℕ → (ℕ → ℕ) → Loading → Type 0
LoadsInside from mem (goes_on vm w) = IsLoaded from mem vm × (from ≤ w) × (w ≤ mem_bytes)
LoadsInside from mem (fails vm) = IsLoaded from mem vm

pub Loading-cases :
    (l : Loading)
    → ((vm : VmState) × (l ≡ fails vm)) ⊎ ((vm : VmState) × (w : ℕ) × (l ≡ goes_on vm w))
Loading-cases (fails vm) = inl (vm, refl)
Loading-cases (goes_on vm w) = inr (vm, w, refl)

module _ (from : ℕ) (mem : ℕ → ℕ) where
  unloaded : {vm : VmState} → IsLoaded from mem vm → IsLoaded from mem (unload vm)
  unloaded l = record { outside = l.outside; modules = tt }

  stored_outside :
      (vm : VmState) (w : ℕ) (xs : List ℕ)
      → IsLoaded from mem vm
      → from ≤ w
      → w + length xs ≤ mem_bytes
      → (a : ℕ) → (a < from) ⊎ (mem_bytes ≤ a)
      → store_bytes vm.mem w xs a ≡ mem a
  stored_outside vm w xs l above fits a h =
      store_bytes_out vm.mem w xs a (ground (arith, h)) ∙ l.outside a h

  load_file-inside :
      (vm : VmState) (w : ℕ) (f : Option OpenFile)
      → IsFile f
      → IsLoaded from mem vm
      → from ≤ w
      → w ≤ mem_bytes
      → LoadsInside from mem (load_file vm w f)
  unfolding load_file add32
  load_file-inside vm w none file l above below = unloaded {vm = vm} l
  load_file-inside vm w (some f) (size, short) l above below =
      if_split (LoadsInside from mem) f.seeks
        (if_split (LoadsInside from mem) (f.fsize == 0)
          (
            record {
              outside = l.outside;
              modules =
                  All-append (IsInside from) vm.modules (record { addr = w; size = 0 }) l.modules
                    (above, omega (arith, below));
            },
            above,
            below,
          )
          (if_cases (LoadsInside from mem) (ltb mem_bytes ((w + f.fsize) % u64_mod))
            (λ over. unloaded {vm = vm} l)
            (λ under.
              let fits : w + f.fsize ≤ mem_bytes =
                let e : (w + f.fsize) % u64_mod ≡ w + f.fsize = omega (arith, size, below) in
                omega (arith, e, ltb-false→le mem_bytes ((w + f.fsize) % u64_mod) under) in
              let outside = stored_outside vm w f.read l above (omega (arith, fits, short)) in
              if_split (LoadsInside from mem) (length f.read == f.fsize)
                (
                  record {
                    outside = outside;
                    modules =
                        All-append (IsInside from) vm.modules
                          (record { addr = w; size = length f.read % u32_mod }) l.modules
                          (above, omega (arith, fits, short));
                  },
                  omega (arith, above, fits, short),
                  omega (arith, fits, short),
                )
                (record { outside = outside; modules = tt }))))
        l

  load_files-inside :
      (fs : List (Option OpenFile)) (vm : VmState) (w : ℕ)
      → All IsFile fs
      → IsLoaded from mem vm
      → from ≤ w
      → w ≤ mem_bytes
      → IsLoaded from mem (load_files vm w fs).1
  unfolding load_files
  load_files-inside [] vm w files l above below = l
  load_files-inside (f ∷ fs) vm w (file, files) l above below =
      let one = load_file-inside vm w f file l above below in
      elim (Loading-cases (load_file vm w f)) [
        | inl (vm', e) ↦ rw (e, load_files) (subst (LoadsInside from mem) e one)
        | inr (vm', w', e) ↦
            let (l', above', below') = subst (LoadsInside from mem) e one in
            rw (e, load_files) (load_files-inside fs vm' w' files l' above' below')
      ]

with_hash-inside :
    (from : ℕ) (mem : ℕ → ℕ) (r : Bool × VmState)
    → IsLoaded from mem r.1
    → IsLoaded from mem (with_hash r).1
with_hash-inside from mem (true, vm) l = record { outside = l.outside; modules = l.modules }
with_hash-inside from mem (false, vm) l = l

-- Whatever files are to be loaded, at least one, on a C library that gives no negative size and
-- reads no more than asked for, and with PC_START inside the memory: load_programs, failing or not,
-- changes the memory only from PC_START to its end, and every module that is listed afterwards lies
-- there.
pub load_programs-inside :
    (vm : VmState) (f : Option OpenFile) (fs : List (Option OpenFile))
    → All IsFile (f ∷ fs)
    → vm.pc_start ≤ mem_bytes
    → IsLoaded vm.pc_start vm.mem (load_programs vm (f ∷ fs)).1
unfolding load_programs
load_programs-inside vm f fs files start =
    let clean : VmState = record vm { modules = []; program_size = 0; program_hash = 0 } in
    with_hash-inside vm.pc_start vm.mem (load_files clean vm.pc_start (f ∷ fs)) (
      load_files-inside vm.pc_start vm.mem (f ∷ fs) clean vm.pc_start files
        (record { outside = λ a h. refl; modules = tt }) (omega arith) start)

-- `fseek` does not fail.
abbrev pub Seeks : Option OpenFile → Type 0
Seeks none = Unit
Seeks (some f) = f.seeks ≡ true

abbrev FailsEmpty : Loading → Type 0
FailsEmpty (goes_on vm w) = Unit
FailsEmpty (fails vm) = vm.modules ≡ []

load_file-failed :
    (vm : VmState) (w : ℕ) (f : Option OpenFile) → Seeks f → FailsEmpty (load_file vm w f)
unfolding load_file
load_file-failed vm w none s = refl
load_file-failed vm w (some f) s =
    if_cases FailsEmpty f.seeks
      (λ yes. if_split FailsEmpty (f.fsize == 0) tt (
        if_split FailsEmpty (ltb mem_bytes ((w + f.fsize) % u64_mod)) refl
          (if_split FailsEmpty (length f.read == f.fsize) tt refl)))
      (λ no. absurd (cc))

load_files-failed :
    (fs : List (Option OpenFile)) (vm : VmState) (w : ℕ)
    → All Seeks fs
    → (load_files vm w fs).0 ≡ false
    → (load_files vm w fs).1.modules ≡ []
unfolding load_files
load_files-failed [] vm w seeks h = absurd (cc)
load_files-failed (f ∷ fs) vm w (s, seeks) h =
    let one = load_file-failed vm w f s in
    elim (Loading-cases (load_file vm w f)) [
      | inl (vm', e) ↦ rw (e, load_files) (subst FailsEmpty e one)
      | inr (vm', w', e) ↦
          let step : load_files vm w (f ∷ fs) ≡ load_files vm' w' fs = rw (e, load_files) refl in
          ap (λ r. r.1.modules) step
          ∙ load_files-failed fs vm' w' seeks (sym (ap (λ r. r.0) step) ∙ h)
    ]

with_hash-failed :
    (r : Bool × VmState)
    → (r.0 ≡ false → r.1.modules ≡ [])
    → (with_hash r).0 ≡ false
    → (with_hash r).1.modules ≡ []
with_hash-failed (true, vm) k h = absurd (cc)
with_hash-failed (false, vm) k h = k h

-- When load_programs fails for a list of files that is not empty, and not in fseek, no module is
-- left, not even one of the program that was loaded before.
pub load_programs-failed :
    (vm : VmState) (f : Option OpenFile) (fs : List (Option OpenFile))
    → All Seeks (f ∷ fs)
    → (load_programs vm (f ∷ fs)).0 ≡ false
    → (load_programs vm (f ∷ fs)).1.modules ≡ []
unfolding load_programs
load_programs-failed vm f fs seeks h =
    let clean : VmState = record vm { modules = []; program_size = 0; program_hash = 0 } in
    with_hash-failed (load_files clean vm.pc_start (f ∷ fs))
      (load_files-failed (f ∷ fs) clean vm.pc_start seeks) h
