-- ===== src/CommandLine.antt =====
-- The command line and the configuration: prototype-integrator/src/vm_helpers.c, and the start of
-- `main` (prototype-integrator/src/main.c). `getopt_long` has read the arguments: its results are a
-- list, the arguments that are no options another. Strings are lists of bytes; what is printed is left
-- out, and the allocations succeed.
pub mod Apply
pub mod Meaning
pub mod Checked
use virtual_machine.Prelude.{
  ℕ, Bool, true, false, not, ◌&&◌, ◌||◌, ◌==◌, ltb, if◌then◌else◌, List, [], ◌∷◌, Option, none,
  some,
}
use virtual_machine.Word.{u32_max}
use virtual_machine.Machine.{HashAlgorithm, simple_fnv1a, crc32, VmConfig}
use virtual_machine.Tables.{same_string}

-- The result of `strtoul(s, &end, 10)`: the value, `errno != 0`, `end == s` and `*end == '\0'`.
pub record Unsigned : Type 0 where
  pub value : ℕ
  pub fails : Bool
  pub end_at_start : Bool
  pub end_at_zero : Bool

-- The functions of the C library that the options go through; `same_letters` is `strcasecmp` giving 0.
pub record Libc : Type 0 where
  pub strtoul : List ℕ → Unsigned
  pub same_letters : List ℕ → List ℕ → Bool

-- What `getopt_long` returns, with `optarg`: the codes 1 to 9, 'h' and '?'.
pub data CliOption : Type 0 where
  clock_rate_hz cycle_time_ms : List ℕ → CliOption
  enable_cycle_check disable_cycle_check : CliOption
  enable_hash_check disable_hash_check : CliOption
  enable_tick_timing disable_tick_timing : CliOption
  hash_algo : List ℕ → CliOption
  help unknown : CliOption

-- `vm_cli_options_t`
pub record CliOptions : Type 0 where
  pub program_dir : Option (List ℕ)
  pub has_clock_rate_hz : Bool
  pub clock_rate_hz : ℕ
  pub has_cycle_time_ms : Bool
  pub cycle_time_ms : ℕ
  pub set_enable_cycle_check : Bool
  pub enable_cycle_check : Bool
  pub set_enable_hash_check : Bool
  pub enable_hash_check : Bool
  pub set_enable_tick_timing : Bool
  pub enable_tick_timing : Bool
  pub has_hash_algo : Bool
  pub hash_algo : HashAlgorithm

abbrev pub vm_cli_options_init : CliOptions
vm_cli_options_init = record {
  program_dir = none;
  has_clock_rate_hz = false;
  clock_rate_hz = 0;
  has_cycle_time_ms = false;
  cycle_time_ms = 0;
  set_enable_cycle_check = false;
  enable_cycle_check = false;
  set_enable_hash_check = false;
  enable_hash_check = false;
  set_enable_tick_timing = false;
  enable_tick_timing = false;
  has_hash_algo = false;
  hash_algo = simple_fnv1a;
}

-- The results 0, 1 and -1 of `vm_parse_cli`.
pub data CliResult : Type 0 where
  parsed shows_help rejected : CliResult

-- The end of `vm_parse_cli`, after the loop: at most one argument that is no option.
abbrev pub take_dir : CliOptions → List (List ℕ) → CliResult × CliOptions
take_dir o [] = (parsed, o)
take_dir o (dir ∷ []) = (parsed, record o { program_dir = some dir })
take_dir o (dir ∷ more ∷ rest) = (rejected, record o { program_dir = some dir })

module _ (libc : Libc) where
  -- `none` for `false`
  unfoldable pub parse_u32 : List ℕ → Option ℕ
  parse_u32 s =
      let u = libc.strtoul s in
      if u.fails || (u.end_at_start || (not u.end_at_zero || ltb u32_max u.value))
      then none
      else some u.value

  -- The words are "true", "yes", "on", "false", "no" and "off".
  unfoldable pub parse_bool : List ℕ → Option Bool
  parse_bool s =
      if same_string s (49 ∷ [])
        || (libc.same_letters s (116 ∷ 114 ∷ 117 ∷ 101 ∷ [])
            || (libc.same_letters s (121 ∷ 101 ∷ 115 ∷ []) || libc.same_letters s (111 ∷ 110 ∷ [])))
      then some true
      else if same_string s (48 ∷ [])
          || (libc.same_letters s (102 ∷ 97 ∷ 108 ∷ 115 ∷ 101 ∷ [])
              || (libc.same_letters s (110 ∷ 111 ∷ [])
                  || libc.same_letters s (111 ∷ 102 ∷ 102 ∷ [])))
      then some false
      else none

  -- The words are "crc32", "fnv1a" and "simple_fnv1a".
  unfoldable pub parse_hash_algo : List ℕ → Option HashAlgorithm
  parse_hash_algo s =
      if libc.same_letters s (99 ∷ 114 ∷ 99 ∷ 51 ∷ 50 ∷ [])
      then some crc32
      else if libc.same_letters s (102 ∷ 110 ∷ 118 ∷ 49 ∷ 97 ∷ [])
          || libc.same_letters s
              (115 ∷ 105 ∷ 109 ∷ 112 ∷ 108 ∷ 101 ∷ 95 ∷ 102 ∷ 110 ∷ 118 ∷ 49 ∷ 97 ∷ [])
      then some simple_fnv1a
      else none

  -- A pass of the loop: `parsed` goes on, and the other results are returned.
  unfoldable pub parse_option : CliOptions → CliOption → CliResult × CliOptions
  unfolding parse_u32 parse_hash_algo
  parse_option o (clock_rate_hz s) = elim (parse_u32 s) [
    | none ↦ (rejected, record o { has_clock_rate_hz = true })
    | some n ↦ (parsed, record o { has_clock_rate_hz = true; clock_rate_hz = n })
  ]
  parse_option o (cycle_time_ms s) = elim (parse_u32 s) [
    | none ↦ (rejected, record o { has_cycle_time_ms = true })
    | some n ↦ (parsed, record o { has_cycle_time_ms = true; cycle_time_ms = n })
  ]
  parse_option o enable_cycle_check =
      (parsed, record o { set_enable_cycle_check = true; enable_cycle_check = true })
  parse_option o disable_cycle_check =
      (parsed, record o { set_enable_cycle_check = true; enable_cycle_check = false })
  parse_option o enable_hash_check =
      (parsed, record o { set_enable_hash_check = true; enable_hash_check = true })
  parse_option o disable_hash_check =
      (parsed, record o { set_enable_hash_check = true; enable_hash_check = false })
  parse_option o enable_tick_timing =
      (parsed, record o { set_enable_tick_timing = true; enable_tick_timing = true })
  parse_option o disable_tick_timing =
      (parsed, record o { set_enable_tick_timing = true; enable_tick_timing = false })
  parse_option o (hash_algo s) = elim (parse_hash_algo s) [
    | none ↦ (rejected, record o { has_hash_algo = true })
    | some a ↦ (parsed, record o { has_hash_algo = true; hash_algo = a })
  ]
  parse_option o help = (shows_help, o)
  parse_option o unknown = (rejected, o)

  unfoldable pub parse_options : CliOptions → List CliOption → CliResult × CliOptions
  unfolding parse_option
  parse_options o [] = (parsed, o)
  parse_options o (c ∷ cs) =
      let (rc, o') = parse_option o c in
      elim rc [
        | parsed ↦ parse_options o' cs
        | shows_help ↦ (shows_help, o')
        | rejected ↦ (rejected, o')
      ]

  unfoldable pub vm_parse_cli : List CliOption → List (List ℕ) → CliResult × CliOptions
  unfolding parse_options
  vm_parse_cli options rest =
      let (rc, o) = parse_options vm_cli_options_init options in
      elim rc [ parsed ↦ take_dir o rest | shows_help ↦ (shows_help, o) | rejected ↦ (rejected, o) ]
