-- ===== src/HotReload/Reload.antt =====
-- `apply_pending_reload`: what it loads, and what a failure leaves.
use virtual_machine.Prelude.{
  ℕ, Bool, true, false, ◌+◌, ◌-◌, ◌≤◌, ◌<◌, ◌≡◌, ◌⊎◌, ◌==◌, ◌||◌, ltb, leb, arith, refl, sym, ap,
  ◌∙◌, List, [], ◌∷◌, length, Option, none, some, inl, inr, ltb→lt, if◌then◌else◌, if_cases,
  if_true, or-cases, leb→le, ==_iff, map, All,
}
use virtual_machine.Machine.{VmState, mem_bytes}
use virtual_machine.Hashing.{crc32_of, memory_bytes}
use virtual_machine.Loader.{OpenFile, load_programs}
use virtual_machine.Loader.Placed.{IsReadable, image, layout, load_programs-placed}
use virtual_machine.Loader.Bounds.{Seeks, load_programs-failed}
use virtual_machine.HotReload.Signature.{directory_changed_lem, directory_changed-kept}
use virtual_machine.HotReload.{
  DirEntry, collect_bin_files, reload_files, reload_programs_from_directory, apply_pending_reload,
  watch, directory_changed, with_program_hash, settle, vm_calculate_program_hash,
}

-- The entries with the files that opening them gives.
abbrev pub files_of : List DirEntry → List (Option OpenFile)
files_of = map (λ e. e.file)

with_program_hash-failed :
    (r : Bool × VmState)
    → (r.0 ≡ false → r.1.modules ≡ [])
    → (with_program_hash r).0 ≡ false
    → (settle (with_program_hash r)).modules ≡ []
with_program_hash-failed (true, vm) k h = absurd (cc)
with_program_hash-failed (false, vm) k h = k refl

settle-failed : (r : Bool × VmState) → r.0 ≡ false → (settle r).reload_pending ≡ true
settle-failed (true, vm) h = absurd (cc)
settle-failed (false, vm) h = refl

hashed-failed : (r : Bool × VmState) → r.0 ≡ false → (with_program_hash r).0 ≡ false
hashed-failed (true, vm) h = absurd (cc)
hashed-failed (false, vm) h = refl

program_hash_of :
    (vm : VmState) (start : ℕ) (bytes : List ℕ)
    → vm.pc_start ≡ start
    → vm.program_size ≡ length bytes
    → 0 < length bytes
    → start + length bytes ≤ mem_bytes
    → memory_bytes vm.mem start (length bytes) ≡ bytes
    → vm_calculate_program_hash vm ≡ crc32_of bytes
unfolding vm_calculate_program_hash
program_hash_of vm start bytes e size some_bytes fits held =
    if_cases (λ r. r ≡ crc32_of bytes) (vm.program_size == 0 || leb mem_bytes vm.pc_start)
      (λ bad. elim (or-cases (vm.program_size == 0) (leb mem_bytes vm.pc_start) bad) [
        | inl h ↦ absurd (omega (arith, (==_iff vm.program_size 0).0 h, size, some_bytes))
        | inr h ↦ absurd (omega (arith, leb→le mem_bytes vm.pc_start h, e, some_bytes, fits))
      ])
      (λ good.
        if_cases (λ n. crc32_of (memory_bytes vm.mem vm.pc_start n) ≡ crc32_of bytes)
          (ltb (mem_bytes - vm.pc_start) vm.program_size)
          (λ h.
            absurd
              (omega (arith, ltb→lt (mem_bytes - vm.pc_start) vm.program_size h, size, e, fits)))
          (λ h.
            ap (λ n. crc32_of (memory_bytes vm.mem vm.pc_start n)) size
            ∙ ap (λ a. crc32_of (memory_bytes vm.mem a (length bytes))) e
            ∙ ap crc32_of held))

module _ (qsort : List DirEntry → List DirEntry) (vm : VmState) (dir : Option (List DirEntry))
    (pending : vm.reload_pending ≡ true) where
  abbrev quiet : VmState
  quiet = record vm { reload_pending = false }

  abbrev quiet_failed : VmState
  quiet_failed = record vm { reload_pending = true }

  applies :
      apply_pending_reload qsort vm dir ≡ settle (reload_programs_from_directory qsort quiet dir)
  unfolding apply_pending_reload
  applies =
      if_true vm.reload_pending (settle (reload_programs_from_directory qsort quiet dir)) vm pending

  -- A pending reload that finds no directory, or no program file in it, leaves the machine as it
  -- was, with the reload still pending.
  pub apply_pending_reload-kept :
      (collect_bin_files qsort dir ≡ none) ⊎ (collect_bin_files qsort dir ≡ some [])
      → apply_pending_reload qsort vm dir ≡ vm
  unfolding reload_programs_from_directory reload_files
  apply_pending_reload-kept h =
      let same : quiet_failed ≡ vm = ap (λ b. record vm { reload_pending = b }) (sym pending) in
      elim h [
        | inl e ↦
            let r : reload_programs_from_directory qsort quiet dir ≡ (false, quiet) =
              rw (e, reload_programs_from_directory) refl in
            applies ∙ ap settle r ∙ same
        | inr e ↦
            let r : reload_programs_from_directory qsort quiet dir ≡ (false, quiet) =
              rw (e, reload_programs_from_directory) refl in
            applies ∙ ap settle r ∙ same
      ]

  module _ (e : DirEntry) (es : List DirEntry)
      (found : collect_bin_files qsort dir ≡ some (e ∷ es)) where
    reloads :
        reload_programs_from_directory qsort quiet dir
        ≡ with_program_hash (load_programs quiet (files_of (e ∷ es)))
    unfolding reload_programs_from_directory reload_files
    reloads = rw (found, reload_programs_from_directory) refl

    -- A file that cannot be loaded takes the old modules away; the reload stays pending.
    pub apply_pending_reload-failed :
        All Seeks (files_of (e ∷ es))
        → (load_programs quiet (files_of (e ∷ es))).0 ≡ false
        → ((apply_pending_reload qsort vm dir).modules ≡ [])
          × ((apply_pending_reload qsort vm dir).reload_pending ≡ true)
    apply_pending_reload-failed seeks fails =
        let whole = applies ∙ ap settle reloads in
        let r = load_programs quiet (files_of (e ∷ es)) in
        (
          ap (λ v. v.modules) whole
              ∙ with_program_hash-failed r (load_programs-failed quiet e.file (files_of es) seeks)
                  (hashed-failed r fails),
          ap (λ v. v.reload_pending) whole
              ∙ settle-failed (with_program_hash r) (hashed-failed r fails),
        )

    -- A pending reload from a directory whose program files can be read, are not all empty and fit
    -- behind PC_START is done: the modules and the memory are those of the files in their order,
    -- the hash of the program is the CRC-32 of their contents, and nothing is pending.
    pub apply_pending_reload-placed :
        (f : OpenFile) (fs : List OpenFile)
        → files_of (e ∷ es) ≡ map some (f ∷ fs)
        → All IsReadable (f ∷ fs)
        → 0 < length (image (f ∷ fs))
        → vm.pc_start + length (image (f ∷ fs)) ≤ mem_bytes
        → let vm' = apply_pending_reload qsort vm dir in
          (vm'.modules ≡ layout vm.pc_start (f ∷ fs))
          × (memory_bytes vm'.mem vm.pc_start (length (image (f ∷ fs))) ≡ image (f ∷ fs))
          × (vm'.program_hash ≡ crc32_of (image (f ∷ fs)))
          × (vm'.reload_pending ≡ false)
    apply_pending_reload-placed f fs opened readable some_bytes fits =
        let (vm₁, done, modules, size, held, out, hash, start, pend) =
          load_programs-placed quiet f fs readable fits in
        let whole : apply_pending_reload qsort vm dir
            ≡ record vm₁ { program_hash = vm_calculate_program_hash vm₁ } =
          applies
          ∙ ap settle reloads
          ∙ ap (λ l. settle (with_program_hash (load_programs quiet l))) opened
          ∙ ap (λ r. settle (with_program_hash r)) done in
        (
          ap (λ v. v.modules) whole ∙ modules,
          ap (λ v. memory_bytes v.mem vm.pc_start (length (image (f ∷ fs)))) whole ∙ held,
          ap (λ v. v.program_hash) whole
              ∙ program_hash_of vm₁ vm.pc_start (image (f ∷ fs)) start size some_bytes fits held,
          ap (λ v. v.reload_pending) whole ∙ pend,
        )

-- Nothing is pending and nothing changed.
watch_idle :
    (qsort : List DirEntry → List DirEntry) (path : List ℕ) (dir : Option (List DirEntry)) (sig : ℕ)
    (vm : VmState)
    → directory_changed qsort path dir sig ≡ (false, sig)
    → vm.reload_pending ≡ false
    → watch qsort path dir (sig, vm) ≡ (sig, vm)
unfolding watch apply_pending_reload
watch_idle qsort path dir sig vm same quiet =
    ap
      (λ r. (
        r.1,
        apply_pending_reload qsort (if r.0 then record vm { reload_pending = true } else vm) dir,
      ))
      same
    ∙ ap (λ v. (sig, v))
        (if_cases (λ v. v ≡ vm) vm.reload_pending (λ yes. absurd (cc)) (λ no. refl))

-- When a pass of the loop has looked at the directory and nothing is pending afterwards, looking at
-- the same directory again changes neither the signature nor the machine.
pub watch_twice :
    (qsort : List DirEntry → List DirEntry) (path : List ℕ) (dir : Option (List DirEntry)) (sig : ℕ)
    (vm : VmState)
    → (watch qsort path dir (sig, vm)).1.reload_pending ≡ false
    → watch qsort path dir (watch qsort path dir (sig, vm)) ≡ watch qsort path dir (sig, vm)
unfolding watch apply_pending_reload
watch_twice qsort path dir sig vm quiet =
    let r = watch qsort path dir (sig, vm) in
    let kept = directory_changed-kept qsort path dir sig in
    let again = (directory_changed_lem qsort path dir sig).1 in
    watch_idle qsort path dir r.0 r.1 (again ∙ ap (λ n. (false, n)) (sym kept)) quiet
