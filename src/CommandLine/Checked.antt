-- ===== src/CommandLine/Checked.antt =====
-- The checks of the configuration: what `main` goes on with, and when the options are refused.
use virtual_machine.Prelude.{
  ℕ, Bool, true, false, not, ◌&&◌, ◌==◌, ◌<◌, ◌≡◌, ◌≢◌, ◌↔◌, arith, if◌then◌else◌, List, [], ◌∷◌,
  Option, none, some, refl, ap, ◌∙◌, if_cases, ==_iff, Bool-cases, inl, inr,
}
use virtual_machine.HashTable.Find.{and-true, not-true}
use virtual_machine.CommandLine.{
  Libc, CliOption, CliOptions, CliResult, parsed, shows_help, rejected, vm_parse_cli,
}
use virtual_machine.CommandLine.Apply.{
  Setup, or_else, dir_is_valid, default_dir, vm_apply_cli_options, vm_validate_config, Start, exits,
  loads, start,
}
use virtual_machine.CommandLine.Meaning.{set_options, parsed_applied}

-- A setup that passes the validation.
pub record IsReady (path_is_directory : List ℕ → Bool) (s : Setup) : Type 0 where
  pub dir : List ℕ
  pub is_dir : s.program_dir ≡ some dir
  pub exists : path_is_directory dir ≡ true
  pub some_rate : 0 < s.config.clock_rate_hz
  pub some_time : 0 < s.config.cycle_time_ms

dir_is_valid-some :
    (path_is_directory : List ℕ → Bool) (d : Option (List ℕ))
    → dir_is_valid path_is_directory d ≡ true
    → (dir : List ℕ) × (d ≡ some dir) × (path_is_directory dir ≡ true)
dir_is_valid-some p none h = absurd (cc)
dir_is_valid-some p (some []) h = absurd (cc)
dir_is_valid-some p (some (c ∷ cs)) h = (c ∷ cs, refl, h)

positive : (n : ℕ) → not (n == 0) ≡ true → 0 < n
positive n h = ground (arith, not-true (n == 0) h)

pub vm_validate_config-IsReady :
    (path_is_directory : List ℕ → Bool) (s : Setup)
    → vm_validate_config path_is_directory s ≡ true
    → IsReady path_is_directory s
unfolding vm_validate_config
vm_validate_config-IsReady p s h =
    let (dir_ok, numbers) =
      and-true (dir_is_valid p s.program_dir)
        (not (s.config.clock_rate_hz == 0) && not (s.config.cycle_time_ms == 0)) h in
    let (rate, time) =
      and-true (not (s.config.clock_rate_hz == 0)) (not (s.config.cycle_time_ms == 0)) numbers in
    let (d, e, k) = dir_is_valid-some p s.program_dir dir_ok in
    record {
      dir = d;
      is_dir = e;
      exists = k;
      some_rate = positive s.config.clock_rate_hz rate;
      some_time = positive s.config.cycle_time_ms time;
    }

-- The setup with the default directory.
abbrev pub with_default : Setup → Setup
with_default s = record s { program_dir = or_else s.program_dir (some default_dir) }

-- The end of `start` as a function of what the two calls return.
abbrev ends : (List ℕ → Bool) → CliResult → Bool × Setup → Start
ends p rc r = elim rc [
  | shows_help ↦ exits 0
  | rejected ↦ exits 1
  | parsed ↦
      if r.0
      then if vm_validate_config p (with_default r.1) then loads (with_default r.1) else exits 1
      else exits 1
]

ends-loads :
    (p : List ℕ → Bool) (rc : CliResult) (r : Bool × Setup) (s' : Setup)
    → ends p rc r ≡ loads s'
    → (rc ≡ parsed) × (r.0 ≡ true) × (vm_validate_config p s' ≡ true) × (s' ≡ with_default r.1)
ends-loads p shows_help r s' h = absurd (cc)
ends-loads p rejected r s' h = absurd (cc)
ends-loads p parsed (false, s) s' h = absurd (cc)
ends-loads p parsed (true, s) s' h =
    if_cases {A = Start}
      (λ x.
        x ≡ loads s'
        → (parsed ≡ parsed)
          × (true ≡ true)
          × (vm_validate_config p s' ≡ true)
          × (s' ≡ with_default s))
      (vm_validate_config p (with_default s))
      (λ valid k.
        let e : s' ≡ with_default s = cc in (refl, refl, ap (vm_validate_config p) e ∙ valid, e))
      (λ no k. absurd (cc)) h

-- If main gets through the options to the first load, the program directory is one, the clock rate
-- and the cycle time are not 0, and the configuration is the fresh one with each option set in
-- turn.
pub start-loads :
    (libc : Libc) (path_is_directory : List ℕ → Bool) (opts : List CliOption) (rest : List (List ℕ))
    (s s' : Setup)
    → start libc path_is_directory opts rest s ≡ loads s'
    → IsReady path_is_directory s' × (s'.config ≡ set_options libc s.config opts)
unfolding start
start-loads libc p opts rest s s' h =
    let (rc, ok, valid, e) =
      ends-loads p (vm_parse_cli libc opts rest).0
        (vm_apply_cli_options s (vm_parse_cli libc opts rest).1) s' h in
    (
      vm_validate_config-IsReady p s' valid,
      ap (λ x. x.config) e ∙ parsed_applied libc opts rest s rc ok,
    )

no_zero : (n : ℕ) → n ≢ 0 → (n == 0) ≡ false
no_zero n h = elim (Bool-cases (n == 0)) [ inl e ↦ absurd (h ((==_iff n 0).0 e)) | inr e ↦ e ]

zero_given : (b : Bool) (n : ℕ) → ((b && (n == 0)) ≡ false) ↔ (b ≡ true → n ≢ 0)
zero_given true n = (λ h k e. absurd (let f = (==_iff n 0).1 e in cc), λ h. no_zero n (h refl))
zero_given false n = (λ h k. absurd (cc), λ h. refl)

-- No rate and no time of 0 are given.
abbrev pub IsGiven : CliOptions → Type 0
IsGiven o =
    (o.has_clock_rate_hz ≡ true → o.clock_rate_hz ≢ 0)
    × (o.has_cycle_time_ms ≡ true → o.cycle_time_ms ≢ 0)

-- The options are applied without an error exactly if no clock rate of 0 and no cycle time of 0 is
-- given.
pub vm_apply_cli_options_iff :
    (s : Setup) (o : CliOptions) → ((vm_apply_cli_options s o).0 ≡ true) ↔ IsGiven o
unfolding vm_apply_cli_options
vm_apply_cli_options_iff s o =
    let rate = zero_given o.has_clock_rate_hz o.clock_rate_hz in
    let time = zero_given o.has_cycle_time_ms o.cycle_time_ms in
    if_cases {A = Bool × Setup} (λ r. (r.0 ≡ true) ↔ IsGiven o)
      (o.has_clock_rate_hz && (o.clock_rate_hz == 0))
      (λ bad. (λ h. absurd (cc), λ q. absurd (let f = rate.1 q.0 in cc)))
      (λ good.
        if_cases {A = Bool × Setup} (λ r. (r.0 ≡ true) ↔ IsGiven o)
          (o.has_cycle_time_ms && (o.cycle_time_ms == 0))
          (λ bad. (λ h. absurd (cc), λ q. absurd (let f = time.1 q.1 in cc)))
          (λ fine. (λ h. (rate.0 good, time.0 fine), λ q. refl)))
