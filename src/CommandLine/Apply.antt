-- ===== src/CommandLine/Apply.antt =====
-- What the parsed options do to the configuration, prototype-integrator/src/vm_helpers.c, its
-- validation, and the start of `main` (prototype-integrator/src/main.c).
use virtual_machine.Prelude.{
  ℕ, Bool, true, false, not, ◌&&◌, ◌==◌, if◌then◌else◌, List, [], ◌∷◌, Option, none, some,
}
use virtual_machine.Machine.{VmConfig}
use virtual_machine.CommandLine.{
  Libc, CliOption, CliOptions, parsed, shows_help, rejected, vm_parse_cli,
}

-- The fields of `vm_state_t` that the options set.
pub record Setup : Type 0 where
  pub program_dir : Option (List ℕ)
  pub config : VmConfig

abbrev pub or_else : Option (List ℕ) → Option (List ℕ) → Option (List ℕ)
or_else none old = old
or_else (some dir) old = some dir

-- `true` for 0, `false` for -1; what is set before an early return stays set.
unfoldable pub vm_apply_cli_options : Setup → CliOptions → Bool × Setup
vm_apply_cli_options s o =
    let c = s.config in
    let dir = or_else o.program_dir s.program_dir in
    let rate = if o.has_clock_rate_hz then o.clock_rate_hz else c.clock_rate_hz in
    let time = if o.has_cycle_time_ms then o.cycle_time_ms else c.cycle_time_ms in
    if o.has_clock_rate_hz && (o.clock_rate_hz == 0)
    then (false, record { program_dir = dir; config = c })
    else if o.has_cycle_time_ms && (o.cycle_time_ms == 0)
    then (false, record { program_dir = dir; config = record c { clock_rate_hz = rate } })
    else (
      true,
      record {
        program_dir = dir;
        config = record {
          clock_rate_hz = rate;
          cycle_time_ms = time;
          enable_cycle_check =
              if o.set_enable_cycle_check then o.enable_cycle_check else c.enable_cycle_check;
          enable_hash_check =
              if o.set_enable_hash_check then o.enable_hash_check else c.enable_hash_check;
          enable_tick_timing =
              if o.set_enable_tick_timing then o.enable_tick_timing else c.enable_tick_timing;
          hash_algo = if o.has_hash_algo then o.hash_algo else c.hash_algo;
        };
      },
    )

-- A directory's name is set, is not empty, and is a directory's (`path_is_directory`).
abbrev pub dir_is_valid : (List ℕ → Bool) → Option (List ℕ) → Bool
dir_is_valid path_is_directory none = false
dir_is_valid path_is_directory (some []) = false
dir_is_valid path_is_directory (some (c ∷ cs)) = path_is_directory (c ∷ cs)

-- A `HashAlgorithm` passes the last check.
unfoldable pub vm_validate_config : (List ℕ → Bool) → Setup → Bool
vm_validate_config path_is_directory s =
    dir_is_valid path_is_directory s.program_dir
    && (not (s.config.clock_rate_hz == 0) && not (s.config.cycle_time_ms == 0))

-- "build/programs"
abbrev pub default_dir : List ℕ
default_dir = 98 ∷ 117 ∷ 105 ∷ 108 ∷ 100 ∷ 47 ∷ 112 ∷ 114 ∷ 111 ∷ 103 ∷ 114 ∷ 97 ∷ 109 ∷ 115 ∷ []

-- `main` ends with an exit code, or goes on with the first load.
pub data Start : Type 0 where
  exits : ℕ → Start
  loads : Setup → Start

-- `main` from the parsing to the validation; `s` is the machine's fresh setup.
unfoldable pub start : Libc → (List ℕ → Bool) → List CliOption → List (List ℕ) → Setup → Start
unfolding vm_parse_cli vm_apply_cli_options vm_validate_config
start libc path_is_directory options rest s =
    let (rc, o) = vm_parse_cli libc options rest in
    let (applied, s') = vm_apply_cli_options s o in
    let ready = record s' { program_dir = or_else s'.program_dir (some default_dir) } in
    elim rc [
      | shows_help ↦ exits 0
      | rejected ↦ exits 1
      | parsed ↦
          if applied
          then if vm_validate_config path_is_directory ready then loads ready else exits 1
          else exits 1
    ]
