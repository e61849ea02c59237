-- ===== src/Tests/Programs.antt =====
-- Whole runs: reloads, a request to stop, the log.
use virtual_machine.Prelude.{
  true, false, ◌≡◌, ◌==◌, arith, refl, if◌then◌else◌, some, none, List, [], ◌∷◌,
}
use virtual_machine.Machine.{VmState, mr32}
use virtual_machine.Machine.Frame.{IsValid}
use virtual_machine.Instruction.{opc}
use virtual_machine.OpTable.{op_ex, default_op_ex}
use virtual_machine.Ops.Control.{op_halt}
use virtual_machine.Lifecycle.{calloc_vm}
use virtual_machine.HotReload.{
  watch, apply_pending_reload, directory_changed, calc_dir_signature, collect_bin_files,
  compare_signature,
}
use virtual_machine.Runtime.{
  run_modules, run_module, run_loop, run_instruction, execute, advance, update_time,
  decode_instruction, loop_on,
}
use virtual_machine.Cycle.{Pass, begin_cycle, init_hash}
use virtual_machine.Program.{Round, run_rounds}
use virtual_machine.Program.Kept.{IsSound, GivesFile, run_rounds-IsSound}
use virtual_machine.Cycle.Stop.{in_turn, end_cycle}
use virtual_machine.Program.Stop.{stop-ends_program}
use virtual_machine.Debug.Log.{init_logging, logged_loop}
use virtual_machine.Debug.Replay.{Follows, logged_loop-Follows}
use virtual_machine.Tests.Running.{host, host-GivesWords, program, loaded, loaded-IsValid}
use virtual_machine.Tests.Files.{a_bin, in_order}

loaded-IsSound : IsSound 12288 loaded.mem loaded
loaded-IsSound = record {
  valid = loaded-IsValid;
  addresses = (omega arith, tt);
  pc_start = refl;
  beyond = λ a h. refl;
}

abbrev quiet_pass : Pass
quiet_pass = record { vm_stop_requested = false; env = λ n. host }

-- The directory "d" has the file "a.bin", then it is gone.
abbrev two_rounds : List Round
two_rounds =
    (record { dir = some (a_bin ∷ []); pass = quiet_pass })
    ∷ (record { dir = none; pass = quiet_pass })
    ∷ []

a_bin-GivesFile : GivesFile a_bin
a_bin-GivesFile =
    ((omega arith, omega arith), (omega arith, (omega arith, (omega arith, (omega arith, tt)))))

run_rounds-IsSound_example :
    IsSound 12288 loaded.mem (run_rounds in_order (100 ∷ []) two_rounds (1, loaded)).1
run_rounds-IsSound_example =
    run_rounds-IsSound 12288 loaded.mem (omega arith) in_order (λ es h. h) (100 ∷ []) two_rounds 1
      loaded ((((a_bin-GivesFile, tt), λ n. host-GivesWords)), ((tt, λ n. host-GivesWords), tt))
      loaded-IsSound

-- HALT at 0x3000, and an empty module behind it.
abbrev halting : VmState
halting = record loaded {
  mem = λ a. if a == 12291 then 132 else 0;
  modules = program ∷ (record { addr = 12292; size = 4 }) ∷ [];
}

abbrev halting_round : Round
halting_round = record { dir = none; pass = quiet_pass }

abbrev halting_started : VmState
halting_started = begin_cycle false (watch in_order (100 ∷ []) none (0, halting)).1

halting-IsValid : IsValid halting_started
unfolding calloc_vm begin_cycle watch apply_pending_reload directory_changed calc_dir_signature
    collect_bin_files compare_signature
halting-IsValid = record {
  regs = λ r. omega arith;
  bytes = λ a. ground arith;
  pc_word = omega arith;
  ctu = λ k. omega arith;
  ctd = λ k. omega arith;
  ctud = λ k. omega arith;
}

stop-ends_program_example :
    run_rounds in_order (100 ∷ []) (halting_round ∷ halting_round ∷ []) (0, halting) ≡ (
      true,
      begin_cycle false
          (watch in_order (100 ∷ []) none (
            (watch in_order (100 ∷ []) none (0, halting)).0,
            end_cycle halting_started
                (in_turn
                  (λ n. host)
                  ((record { addr = 12292; size = 4 }) ∷ [])
                  (run_modules (λ n. host) (program ∷ []) 0 (init_hash halting_started))).1,
          )).1,
    )
unfolding calloc_vm begin_cycle watch apply_pending_reload directory_changed calc_dir_signature
    collect_bin_files compare_signature run_modules run_module run_loop run_instruction execute
    decode_instruction loop_on advance update_time op_ex default_op_ex op_halt opc mr32 init_hash
stop-ends_program_example =
    stop-ends_program in_order (100 ∷ []) halting_round halting_round [] 0 halting (program ∷ [])
      ((record { addr = 12292; size = 4 }) ∷ []) (λ n. host-GivesWords) halting-IsValid
      (omega arith, (omega arith, tt)) refl refl refl

fresh_log-Follows : Follows loaded.reg loaded.mem (init_logging true true loaded) loaded
unfolding init_logging
fresh_log-Follows = record { on = refl; registers = λ r lt. refl; bytes = λ a lt. refl }

logged_loop-Follows_example :
    Follows loaded.reg loaded.mem
      (logged_loop (λ n. host) program 12292 5 0 (init_logging true true loaded) loaded).0
      (run_loop (λ n. host) program 12292 5 0 loaded).1
logged_loop-Follows_example =
    logged_loop-Follows loaded.reg loaded.mem (λ n. host) program 12292 5 0
      (init_logging true true loaded) loaded fresh_log-Follows
