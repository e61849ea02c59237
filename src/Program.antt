-- ===== src/Program.antt =====
-- `run_program` of prototype-integrator/src/vm_runtime.c as a whole: the start, and in each pass of the
-- loop the look at the directory of the programs, the reload, the check of `stop_requested` and the
-- cycle. What happens in the world before and in a pass is an argument; the reports, the sleep and the
-- cleanups at the end are left out.
pub mod Kept
pub mod Stop
use virtual_machine.Prelude.{ℕ, Bool, true, false, List, [], ◌∷◌, Option}
use virtual_machine.Machine.{VmState}
use virtual_machine.HotReload.{DirEntry, watch}
use virtual_machine.Cycle.{Pass, start_program, begin_cycle, run_cycle}

-- One pass: the directory as it is at its start (`none` if it cannot be opened), the signal and the
-- host's answers.
pub record Round : Type 0 where
  pub dir : Option (List DirEntry)
  pub pass : Pass

module _ (qsort : List DirEntry → List DirEntry) (path : List ℕ) where
  -- The check of `stop_requested`, with the passes after this one.
  unfoldable pub run_or_stop : Pass → (ℕ × VmState → Bool × VmState) → ℕ → VmState → Bool × VmState
  run_or_stop p next sig vm = elim vm.stop_requested [
    | true ↦ (true, vm)
    | false ↦ next (sig, run_cycle p.env vm)
  ]

  -- The loop over the given passes; the first component of the state is `program_dir_signature`. The
  -- state at the end, and whether the loop was left.
  unfoldable pub run_rounds : List Round → ℕ × VmState → Bool × VmState
  unfolding watch begin_cycle
  run_rounds [] (sig, vm) = (false, vm)
  run_rounds (r ∷ rs) (sig, vm) =
      let (sig', vm') = watch qsort path r.dir (sig, vm) in
      run_or_stop r.pass (λ s. run_rounds rs s) sig' (begin_cycle r.pass.vm_stop_requested vm')

  unfoldable pub run_program : ℕ → List Round → ℕ × VmState → Bool × VmState
  unfolding start_program run_rounds
  run_program now rounds (sig, vm) = run_rounds rounds (sig, start_program now vm)
