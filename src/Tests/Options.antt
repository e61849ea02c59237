-- ===== src/Tests/Options.antt =====
-- Options of the command line.
use virtual_machine.Prelude.{true, false, ◌≡◌, refl, none, some, [], ◌∷◌}
use virtual_machine.Lifecycle.{default_config}
use virtual_machine.CommandLine.{
  Libc, vm_parse_cli, parse_options, parse_option, parse_u32, cycle_time_ms, enable_hash_check,
}
use virtual_machine.CommandLine.Apply.{
  Setup, vm_apply_cli_options, vm_validate_config, start, loads, default_dir,
}
use virtual_machine.CommandLine.Meaning.{set_options}
use virtual_machine.CommandLine.Checked.{IsReady, start-loads}

-- A C library whose numbers are all 5.
abbrev fives : Libc
fives = record {
  strtoul = λ s. record { value = 5; fails = false; end_at_start = false; end_at_zero = true };
  same_letters = λ a b. true;
}

abbrev fresh_setup : Setup
fresh_setup = record { program_dir = none; config = default_config }

abbrev ready_setup : Setup
ready_setup = record {
  program_dir = some default_dir;
  config = record default_config { cycle_time_ms = 5; enable_hash_check = true };
}

starts :
    start fives (λ dir. true) (cycle_time_ms (53 ∷ []) ∷ enable_hash_check ∷ []) [] fresh_setup
    ≡ loads ready_setup
unfolding start vm_parse_cli vm_apply_cli_options vm_validate_config parse_options parse_option
    parse_u32
starts = refl

start-loads_example :
    IsReady (λ dir. true) ready_setup
    × (ready_setup.config
        ≡ set_options fives default_config (cycle_time_ms (53 ∷ []) ∷ enable_hash_check ∷ []))
start-loads_example =
    start-loads fives (λ dir. true) (cycle_time_ms (53 ∷ []) ∷ enable_hash_check ∷ []) []
      fresh_setup ready_setup starts
