-- ===== src/Program/Stop.antt =====
-- How a request to stop ends `run_program`.
use virtual_machine.Prelude.{
  ℕ, Bool, true, false, ◌<◌, ◌≡◌, ◌||◌, refl, ap, ◌∙◌, List, [], ◌∷◌, ◌++◌, map, Option, All,
  if_split, Option-cases, inl, inr,
}
use virtual_machine.Word.{u32_mod}
use virtual_machine.Host.{GivesWords}
use virtual_machine.Machine.{VmState, ModuleInfo}
use virtual_machine.Machine.Frame.{IsValid}
use virtual_machine.Loader.{load_programs}
use virtual_machine.Loader.Kept.{Execution, load_programs-execution}
use virtual_machine.HotReload.{
  DirEntry, reload_files, collect_bin_files, reload_programs_from_directory, apply_pending_reload,
  watch, directory_changed, with_program_hash, settle,
}
use virtual_machine.Runtime.{run_modules}
use virtual_machine.Cycle.{Pass, begin_cycle, run_cycle, init_hash}
use virtual_machine.Cycle.Stop.{in_turn, end_cycle, run_cycle-in_turn, run_cycle-stops}
use virtual_machine.Program.{Round, run_or_stop, run_rounds}

with_program_hash-stop :
    (r : Bool × VmState) → (with_program_hash r).1.stop_requested ≡ r.1.stop_requested
with_program_hash-stop (true, vm) = refl
with_program_hash-stop (false, vm) = refl

settle-stop : (r : Bool × VmState) → (settle r).stop_requested ≡ r.1.stop_requested
settle-stop (true, vm) = refl
settle-stop (false, vm) = refl

reload_files-stop :
    (vm : VmState) (es : List DirEntry) → (reload_files vm es).1.stop_requested ≡ vm.stop_requested
unfolding reload_files
reload_files-stop vm [] = refl
reload_files-stop vm (e ∷ es) =
    with_program_hash-stop (load_programs vm (map (λ f. f.file) (e ∷ es)))
    ∙ ap (λ (t : Execution). t.6) (load_programs-execution vm (map (λ f. f.file) (e ∷ es)))

module _ (qsort : List DirEntry → List DirEntry) (path : List ℕ) where
  reload-stop :
      (vm : VmState) (dir : Option (List DirEntry))
      → (reload_programs_from_directory qsort vm dir).1.stop_requested ≡ vm.stop_requested
  unfolding reload_programs_from_directory
  reload-stop vm dir = elim (Option-cases (collect_bin_files qsort dir)) [
    | inl e ↦ rw (e, reload_programs_from_directory) refl
    | inr (files, e) ↦ rw (e, reload_programs_from_directory) (reload_files-stop vm files)
  ]

  apply-stop :
      (vm : VmState) (dir : Option (List DirEntry))
      → (apply_pending_reload qsort vm dir).stop_requested ≡ vm.stop_requested
  unfolding apply_pending_reload
  apply-stop vm dir =
      if_split (λ (v : VmState). v.stop_requested ≡ vm.stop_requested) vm.reload_pending
        (settle-stop
            (reload_programs_from_directory qsort (record vm { reload_pending = false }) dir)
          ∙ reload-stop (record vm { reload_pending = false }) dir)
        refl

  watch-stop :
      (dir : Option (List DirEntry)) (sig : ℕ) (vm : VmState)
      → (watch qsort path dir (sig, vm)).1.stop_requested ≡ vm.stop_requested
  unfolding watch
  watch-stop dir sig vm =
      apply-stop _ dir
      ∙ if_split (λ (v : VmState). v.stop_requested ≡ vm.stop_requested)
          (directory_changed qsort path dir sig).0 refl refl

  stopped :
      (p : Pass) (next : ℕ × VmState → Bool × VmState) (sig : ℕ) (vm : VmState)
      → vm.stop_requested ≡ true
      → run_or_stop qsort path p next sig vm ≡ (true, vm)
  unfolding run_or_stop
  stopped p next sig vm e = simp (e, run_or_stop) refl

  goes_on :
      (p : Pass) (next : ℕ × VmState → Bool × VmState) (sig : ℕ) (vm : VmState)
      → vm.stop_requested ≡ false
      → run_or_stop qsort path p next sig vm ≡ next (sig, run_cycle p.env vm)
  unfolding run_or_stop
  goes_on p next sig vm e = simp (e, run_or_stop) refl

  -- A machine that has been asked to stop, by a program or by a signal, looks at the directory once
  -- more, counts the pass and leaves the loop, whatever would have followed: no module is run.
  pub run_rounds_stop :
      (r : Round) (rs : List Round) (sig : ℕ) (vm : VmState)
      → (vm.stop_requested || r.pass.vm_stop_requested) ≡ true
      → run_rounds qsort path (r ∷ rs) (sig, vm)
        ≡ (true, begin_cycle r.pass.vm_stop_requested (watch qsort path r.dir (sig, vm)).1)
  unfolding run_rounds begin_cycle
  run_rounds_stop r rs sig vm h =
      let (sig', vm') = watch qsort path r.dir (sig, vm) in
      stopped r.pass (λ t. run_rounds qsort path rs t) sig'
        (begin_cycle r.pass.vm_stop_requested vm')
        (ap (λ b. b || r.pass.vm_stop_requested) (watch-stop r.dir sig vm) ∙ h)

  -- On a host that gives words, when a cycle starts with no stop requested, on a valid machine with
  -- modules at 32-bit addresses, and a stop is requested once some of the modules have run: the
  -- other modules still run in turn, each from its address with `running` set, the cycle is
  -- finished, and the next pass leaves the loop, whatever the other modules do and whatever would
  -- have followed.
  pub stop-ends_program :
      (r r' : Round) (rs : List Round) (sig : ℕ) (vm : VmState) (ms ms' : List ModuleInfo)
      → let (sig', watched) = watch qsort path r.dir (sig, vm) in
        let started = begin_cycle r.pass.vm_stop_requested watched in
        ((n : ℕ) → GivesWords (r.pass.env n))
        → IsValid started
        → All (λ m. m.addr < u32_mod) started.modules
        → started.stop_requested ≡ false
        → started.modules ≡ ms ++ ms'
        → (run_modules r.pass.env ms 0 (init_hash started)).1.stop_requested ≡ true
        → run_rounds qsort path (r ∷ r' ∷ rs) (sig, vm) ≡ (
          true,
          begin_cycle r'.pass.vm_stop_requested
              (watch qsort path r'.dir (
                sig',
                end_cycle started
                    (in_turn r.pass.env ms' (run_modules r.pass.env ms 0 (init_hash started))).1,
              )).1,
        )
  unfolding run_rounds
  stop-ends_program r r' rs sig vm ms ms' words v a on e h =
      let (sig', watched) = watch qsort path r.dir (sig, vm) in
      let started = begin_cycle r.pass.vm_stop_requested watched in
      let stops = run_cycle-stops r.pass.env started ms ms' words a v e h in
      goes_on r.pass (λ t. run_rounds qsort path (r' ∷ rs) t) sig' started on
      ∙ run_rounds_stop r' rs sig' (run_cycle r.pass.env started)
          (ap (λ b. b || r'.pass.vm_stop_requested) stops)
      ∙ ap
          (λ vm'.
            (true, begin_cycle r'.pass.vm_stop_requested (watch qsort path r'.dir (sig', vm')).1))
          (run_cycle-in_turn r.pass.env started ms ms' words a v e)
