-- ===== src/Program/Kept.antt =====
-- The machine stays valid over every run of `run_program`, whatever programs are loaded in between.
use mathlib.Core.Path.{subst}
use virtual_machine.Prelude.{
  ℕ, Bool, true, false, not, ◌≤◌, ◌<◌, ◌≡◌, ◌&&◌, ltb, refl, arith, sym, ap, ◌∙◌, List, [], ◌∷◌,
  length, map, Option, none, some, All, if_split, inr,
}
use virtual_machine.Word.{u32_mod}
use virtual_machine.Host.{Host, GivesWords}
use virtual_machine.Machine.{VmState, ModuleInfo, Counter, mem_bytes}
use virtual_machine.Machine.Frame.{IsValid, Settings}
use virtual_machine.Loader.{OpenFile, load_programs}
use virtual_machine.Loader.Bounds.{IsFile, IsInside, load_programs-inside}
use virtual_machine.Loader.Kept.{
  HasBytes, Execution, load_programs-execution, load_programs-bytes, execution-IsValid,
}
use virtual_machine.HotReload.{
  DirEntry, bin_files, has_bin_extension, is_dots, collect_bin_files, reload_files,
  reload_programs_from_directory, apply_pending_reload, watch, directory_changed, with_program_hash,
  settle,
}
use virtual_machine.Cycle.{Pass, run_cycle}
use virtual_machine.Cycle.Stop.{run_cycle-Kept}
use virtual_machine.Program.{Round, run_or_stop, run_rounds}

-- A valid machine with the given PC_START and memory beyond the end, and modules at 32-bit addresses.
pub record IsSound (start : ℕ) (mem : ℕ → ℕ) (vm : VmState) : Type 0 where
  pub valid : IsValid vm
  pub addresses : All (λ m. m.addr < u32_mod) vm.modules
  pub pc_start : vm.pc_start ≡ start
  pub beyond : (a : ℕ) → mem_bytes ≤ a → vm.mem a ≡ mem a

-- What is read of a directory entry's file.
abbrev pub GivesFile : DirEntry → Type 0
GivesFile e = IsFile e.file × HasBytes e.file

abbrev pub AllEntries : (DirEntry → Type 0) → Option (List DirEntry) → Type 0
AllEntries P none = Unit
AllEntries P (some es) = All P es

files_are : (es : List DirEntry) → All GivesFile es → All IsFile (map (λ e. e.file) es)
files_are [] h = tt
files_are (e ∷ es) h = (h.0.0, files_are es h.1)

files_hold : (es : List DirEntry) → All GivesFile es → All HasBytes (map (λ e. e.file) es)
files_hold [] h = tt
files_hold (e ∷ es) h = (h.0.1, files_hold es h.1)

bin_files-All : (es : List DirEntry) → All GivesFile es → All GivesFile (bin_files es)
unfolding bin_files
bin_files-All [] h = tt
bin_files-All (e ∷ es) h =
    let rest = bin_files-All es h.1 in
    if_split (All GivesFile)
      (has_bin_extension e.d_name && (not (is_dots e.d_name) && e.is_regular)) (h.0, rest) rest

-- What soundness reads of a machine.
abbrev Seen : Type 0
Seen = (ℕ → ℕ) × (ℕ → ℕ) × ℕ × (ℕ → Counter) × (ℕ → Counter) × (ℕ → Counter) × List ModuleInfo × ℕ

abbrev seen : VmState → Seen
seen vm = (
  vm.reg, vm.mem, vm.pc, vm.ctu_counters, vm.ctd_counters, vm.ctud_counters, vm.modules,
  vm.pc_start,
)

same-IsSound :
    {start : ℕ} {mem : ℕ → ℕ} {vm vm' : VmState}
    → seen vm' ≡ seen vm
    → IsSound start mem vm
    → IsSound start mem vm'
same-IsSound h s = record {
  valid = record {
    regs = λ r. subst (λ (e : Seen). e.0 r < u32_mod) (sym h) (s.valid.regs r);
    bytes = λ a. subst (λ (e : Seen). e.1 a < 256) (sym h) (s.valid.bytes a);
    pc_word = subst (λ (e : Seen). e.2 < u32_mod) (sym h) s.valid.pc_word;
    ctu = λ k. subst (λ (e : Seen). (e.3 k).value < u32_mod) (sym h) (s.valid.ctu k);
    ctd = λ k. subst (λ (e : Seen). (e.4 k).value < u32_mod) (sym h) (s.valid.ctd k);
    ctud = λ k. subst (λ (e : Seen). (e.5 k).value < u32_mod) (sym h) (s.valid.ctud k);
  };
  addresses = subst (λ (e : Seen). All (λ m. m.addr < u32_mod) e.6) (sym h) s.addresses;
  pc_start = ap (λ (e : Seen). e.7) h ∙ s.pc_start;
  beyond = λ a b. ap (λ (e : Seen). e.1 a) h ∙ s.beyond a b;
}

module _ (start : ℕ) (mem : ℕ → ℕ) (inside : start ≤ mem_bytes) where
  addresses_inside :
      (ms : List ModuleInfo) → All (IsInside start) ms → All (λ m. m.addr < u32_mod) ms
  addresses_inside [] h = tt
  addresses_inside (m ∷ ms) (h, hs) = (omega (arith, h), addresses_inside ms hs)

  load_programs-IsSound :
      (vm : VmState) (f : Option OpenFile) (fs : List (Option OpenFile))
      → All IsFile (f ∷ fs)
      → All HasBytes (f ∷ fs)
      → IsSound start mem vm
      → IsSound start mem (load_programs vm (f ∷ fs)).1
  load_programs-IsSound vm f fs files bytes s =
      let l = load_programs-inside vm f fs files (rw s.pc_start inside) in
      let e = load_programs-execution vm (f ∷ fs) in
      record {
        valid = execution-IsValid e (load_programs-bytes vm (f ∷ fs) bytes s.valid.bytes) s.valid;
        addresses = addresses_inside (load_programs vm (f ∷ fs)).1.modules (
            subst (λ b. All (IsInside b) (load_programs vm (f ∷ fs)).1.modules) s.pc_start
              l.modules);
        pc_start = ap (λ (t : Execution). t.5) e ∙ s.pc_start;
        beyond = λ a h. l.outside a (inr h) ∙ s.beyond a h;
      }

  with_program_hash-IsSound :
      (r : Bool × VmState) → IsSound start mem r.1 → IsSound start mem (with_program_hash r).1
  with_program_hash-IsSound (true, vm) s = same-IsSound refl s
  with_program_hash-IsSound (false, vm) s = s

  settle-IsSound : (r : Bool × VmState) → IsSound start mem r.1 → IsSound start mem (settle r)
  settle-IsSound (true, vm) s = s
  settle-IsSound (false, vm) s = same-IsSound refl s

  reload_files-IsSound :
      (vm : VmState) (es : List DirEntry)
      → All GivesFile es
      → IsSound start mem vm
      → IsSound start mem (reload_files vm es).1
  unfolding reload_files
  reload_files-IsSound vm [] h s = s
  reload_files-IsSound vm (e ∷ es) h s =
      with_program_hash-IsSound (load_programs vm (map (λ f. f.file) (e ∷ es))) (
        load_programs-IsSound vm e.file (map (λ f. f.file) es) (files_are (e ∷ es) h)
          (files_hold (e ∷ es) h) s)

  module _ (qsort : List DirEntry → List DirEntry)
      (sorts : (es : List DirEntry) → All GivesFile es → All GivesFile (qsort es))
      (path : List ℕ) where
    reload-IsSound :
        (vm : VmState) (dir : Option (List DirEntry))
        → AllEntries GivesFile dir
        → IsSound start mem vm
        → IsSound start mem (reload_programs_from_directory qsort vm dir).1
    unfolding reload_programs_from_directory collect_bin_files
    reload-IsSound vm none h s = s
    reload-IsSound vm (some es) h s =
        let kept = bin_files-All es h in
        if_split (λ files. IsSound start mem (reload_files vm files).1)
          (ltb 1 (length (bin_files es)))
          (reload_files-IsSound vm (qsort (bin_files es)) (sorts (bin_files es) kept) s)
          (reload_files-IsSound vm (bin_files es) kept s)

    apply-IsSound :
        (vm : VmState) (dir : Option (List DirEntry))
        → AllEntries GivesFile dir
        → IsSound start mem vm
        → IsSound start mem (apply_pending_reload qsort vm dir)
    unfolding apply_pending_reload
    apply-IsSound vm dir h s =
        if_split (IsSound start mem) vm.reload_pending
          (settle-IsSound
            (reload_programs_from_directory qsort (record vm { reload_pending = false }) dir)
            (reload-IsSound (record vm { reload_pending = false }) dir h (same-IsSound refl s)))
          s

    watch-IsSound :
        (dir : Option (List DirEntry)) (sig : ℕ) (vm : VmState)
        → AllEntries GivesFile dir
        → IsSound start mem vm
        → IsSound start mem (watch qsort path dir (sig, vm)).1
    unfolding watch
    watch-IsSound dir sig vm h s = apply-IsSound _ dir h (
        if_split (IsSound start mem) (directory_changed qsort path dir sig).0 (same-IsSound refl s)
          s)

    cycle-IsSound :
        (env : ℕ → Host) (vm : VmState)
        → ((n : ℕ) → GivesWords (env n))
        → IsSound start mem vm
        → IsSound start mem (run_cycle env vm)
    cycle-IsSound env vm words s =
        let k = run_cycle-Kept env vm words s.addresses s.valid in
        record {
          valid = k.valid;
          addresses =
              subst (All (λ m. m.addr < u32_mod)) (sym (ap (λ (t : Settings). t.0) k.same_settings))
                s.addresses;
          pc_start = ap (λ (t : Settings). t.1) k.same_settings ∙ s.pc_start;
          beyond = λ a h. k.beyond a h ∙ s.beyond a h;
        }

    run_or_stop-IsSound :
        (p : Pass)
        → ((n : ℕ) → GivesWords (p.env n))
        → (next : ℕ × VmState → Bool × VmState) (sig : ℕ) (vm : VmState)
        → ((t : ℕ × VmState) → IsSound start mem t.1 → IsSound start mem (next t).1)
        → IsSound start mem vm
        → IsSound start mem (run_or_stop qsort path p next sig vm).1
    unfolding run_or_stop
    run_or_stop-IsSound p words next sig vm h s =
        elim vm.stop_requested
          as (λ b.
            IsSound start mem
              (elim b as (λ c. Bool × VmState) [
                | true ↦ (true, vm)
                | false ↦ next (sig, run_cycle p.env vm)
              ]).1) [
                | true ↦ s
                | false ↦ h (sig, run_cycle p.env vm) (cycle-IsSound p.env vm words s)
              ]

    -- Whatever programs are found in the directory over a run, loaded or refused, and whatever they
    -- do: a machine that starts valid, with PC_START inside the memory and its modules at 32-bit
    -- addresses, stays so with the same PC_START, and no byte beyond the memory is written, on
    -- hosts that give words, from directories whose files the C library reads as promised, and with
    -- a `qsort` whose result has only such files if what it sorts does.
    pub run_rounds-IsSound :
        (rounds : List Round) (sig : ℕ) (vm : VmState)
        → All (λ r. AllEntries GivesFile r.dir × ((n : ℕ) → GivesWords (r.pass.env n))) rounds
        → IsSound start mem vm
        → IsSound start mem (run_rounds qsort path rounds (sig, vm)).1
    unfolding run_rounds
    run_rounds-IsSound [] sig vm h s = s
    run_rounds-IsSound (r ∷ rs) sig vm ((files, words), hs) s =
        run_or_stop-IsSound r.pass words (λ t. run_rounds qsort path rs t) _ _
          (λ t s'. run_rounds-IsSound rs t.0 t.1 hs s')
          (same-IsSound refl (watch-IsSound r.dir sig vm files s))
