-- ===== src/CommandLine/Meaning.antt =====
-- Parsing the options and applying them later is setting each of them in the configuration in turn.
use virtual_machine.Prelude.{
  ℕ, Bool, true, false, ◌&&◌, ◌==◌, if◌then◌else◌, List, [], ◌∷◌, Option, none, some, ◌≡◌, refl,
  sym, ap, ◌∙◌, Option-cases, inl, inr, if_split,
}
use virtual_machine.Machine.{VmConfig}
use virtual_machine.CommandLine.{
  Libc, CliOption, CliOptions, CliResult, parsed, shows_help, rejected, parse_u32, parse_hash_algo,
  parse_option, parse_options, vm_parse_cli, vm_cli_options_init, take_dir, clock_rate_hz,
  cycle_time_ms, enable_cycle_check, disable_cycle_check, enable_hash_check, disable_hash_check,
  enable_tick_timing, disable_tick_timing, hash_algo, help, unknown,
}
use virtual_machine.CommandLine.Apply.{Setup, vm_apply_cli_options}

abbrev or_config {ℓ} : {A : Type ℓ} → Option A → (A → VmConfig) → VmConfig → VmConfig
or_config none set c = c
or_config (some a) set c = set a

-- The recorded options put over a configuration.
abbrev over : CliOptions → VmConfig → VmConfig
over o c = record {
  clock_rate_hz = if o.has_clock_rate_hz then o.clock_rate_hz else c.clock_rate_hz;
  cycle_time_ms = if o.has_cycle_time_ms then o.cycle_time_ms else c.cycle_time_ms;
  enable_cycle_check =
      if o.set_enable_cycle_check then o.enable_cycle_check else c.enable_cycle_check;
  enable_hash_check = if o.set_enable_hash_check then o.enable_hash_check else c.enable_hash_check;
  enable_tick_timing =
      if o.set_enable_tick_timing then o.enable_tick_timing else c.enable_tick_timing;
  hash_algo = if o.has_hash_algo then o.hash_algo else c.hash_algo;
}

module _ (libc : Libc) where
  -- One option, set in the configuration at once; a word that is no value sets nothing.
  abbrev pub set_option : VmConfig → CliOption → VmConfig
  set_option c (clock_rate_hz s) =
      or_config (parse_u32 libc s) (λ n. record c { clock_rate_hz = n }) c
  set_option c (cycle_time_ms s) =
      or_config (parse_u32 libc s) (λ n. record c { cycle_time_ms = n }) c
  set_option c enable_cycle_check = record c { enable_cycle_check = true }
  set_option c disable_cycle_check = record c { enable_cycle_check = false }
  set_option c enable_hash_check = record c { enable_hash_check = true }
  set_option c disable_hash_check = record c { enable_hash_check = false }
  set_option c enable_tick_timing = record c { enable_tick_timing = true }
  set_option c disable_tick_timing = record c { enable_tick_timing = false }
  set_option c (hash_algo s) =
      or_config (parse_hash_algo libc s) (λ a. record c { hash_algo = a }) c
  set_option c help = c
  set_option c unknown = c

  abbrev pub set_options : VmConfig → List CliOption → VmConfig
  set_options c [] = c
  set_options c (o ∷ os) = set_options (set_option c o) os

  parse_option-over :
      (o : CliOptions) (opt : CliOption) (c : VmConfig)
      → (parse_option libc o opt).0 ≡ parsed
      → over (parse_option libc o opt).1 c ≡ set_option (over o c) opt
  unfolding parse_option
  parse_option-over o (clock_rate_hz s) c h = elim (Option-cases (parse_u32 libc s)) [
    | inl e ↦ absurd (
        let f : (parse_option libc o (clock_rate_hz s)).0 ≡ rejected = rw (e, parse_option) refl in
        cc)
    | inr (n, e) ↦ rw (e, parse_option) refl
  ]
  parse_option-over o (cycle_time_ms s) c h = elim (Option-cases (parse_u32 libc s)) [
    | inl e ↦ absurd (
        let f : (parse_option libc o (cycle_time_ms s)).0 ≡ rejected = rw (e, parse_option) refl in
        cc)
    | inr (n, e) ↦ rw (e, parse_option) refl
  ]
  parse_option-over o (hash_algo s) c h = elim (Option-cases (parse_hash_algo libc s)) [
    | inl e ↦
        absurd (
          let f : (parse_option libc o (hash_algo s)).0 ≡ rejected = rw (e, parse_option) refl in
          cc)
    | inr (n, e) ↦ rw (e, parse_option) refl
  ]
  parse_option-over o enable_cycle_check c h = refl
  parse_option-over o disable_cycle_check c h = refl
  parse_option-over o enable_hash_check c h = refl
  parse_option-over o disable_hash_check c h = refl
  parse_option-over o enable_tick_timing c h = refl
  parse_option-over o disable_tick_timing c h = refl
  parse_option-over o help c h = refl
  parse_option-over o unknown c h = refl

-- What the result of a chain of two parsing steps being `parsed` means.
abbrev chain :
    CliResult × CliOptions → (CliOptions → CliResult × CliOptions) → CliResult × CliOptions
chain r next =
    let (rc, o) = r in
    elim rc [ parsed ↦ next o | shows_help ↦ (shows_help, o) | rejected ↦ (rejected, o) ]

chain-parsed :
    (r : CliResult × CliOptions) (next : CliOptions → CliResult × CliOptions)
    → (chain r next).0 ≡ parsed
    → (r.0 ≡ parsed) × (chain r next ≡ next r.1)
chain-parsed (parsed, o) next h = (refl, refl)
chain-parsed (shows_help, o) next h = absurd (cc)
chain-parsed (rejected, o) next h = absurd (cc)

module _ (libc : Libc) where
  parse_options-over :
      (opts : List CliOption) (o : CliOptions) (c : VmConfig)
      → (parse_options libc o opts).0 ≡ parsed
      → over (parse_options libc o opts).1 c ≡ set_options libc (over o c) opts
  unfolding parse_options
  parse_options-over [] o c h = refl
  parse_options-over (opt ∷ opts) o c h =
      let (first, whole) =
        chain-parsed (parse_option libc o opt) (λ o'. parse_options libc o' opts) h in
      let o' = (parse_option libc o opt).1 in
      ap (λ r. over r.1 c) whole
      ∙ parse_options-over opts o' c (sym (ap (λ r. r.0) whole) ∙ h)
      ∙ ap (λ c'. set_options libc c' opts) (parse_option-over libc o opt c first)

  take_dir-over :
      (rest : List (List ℕ)) (o : CliOptions) (c : VmConfig) → over (take_dir o rest).1 c ≡ over o c
  take_dir-over [] o c = refl
  take_dir-over (dir ∷ []) o c = refl
  take_dir-over (dir ∷ more ∷ rest) o c = refl

  vm_parse_cli-over :
      (opts : List CliOption) (rest : List (List ℕ)) (c : VmConfig)
      → (vm_parse_cli libc opts rest).0 ≡ parsed
      → over (vm_parse_cli libc opts rest).1 c ≡ set_options libc c opts
  unfolding vm_parse_cli
  vm_parse_cli-over opts rest c h =
      let (first, whole) =
        chain-parsed (parse_options libc vm_cli_options_init opts) (λ o. take_dir o rest) h in
      let o = (parse_options libc vm_cli_options_init opts).1 in
      ap (λ r. over r.1 c) whole
      ∙ take_dir-over rest o c
      ∙ parse_options-over opts vm_cli_options_init c first

vm_apply_cli_options-over :
    (s : Setup) (o : CliOptions)
    → (vm_apply_cli_options s o).0 ≡ true
    → (vm_apply_cli_options s o).1.config ≡ over o s.config
unfolding vm_apply_cli_options
vm_apply_cli_options-over s o =
    if_split {A = Bool × Setup} (λ r. r.0 ≡ true → r.1.config ≡ over o s.config)
      (o.has_clock_rate_hz && (o.clock_rate_hz == 0)) (λ h. absurd (cc))
      (if_split {A = Bool × Setup} (λ r. r.0 ≡ true → r.1.config ≡ over o s.config)
        (o.has_cycle_time_ms && (o.cycle_time_ms == 0)) (λ h. absurd (cc)) (λ h. refl))

-- If the options are parsed and applied, the configuration is the one that they set in turn.
pub parsed_applied :
    (libc : Libc) (opts : List CliOption) (rest : List (List ℕ)) (s : Setup)
    → (vm_parse_cli libc opts rest).0 ≡ parsed
    → (vm_apply_cli_options s (vm_parse_cli libc opts rest).1).0 ≡ true
    → (vm_apply_cli_options s (vm_parse_cli libc opts rest).1).1.config
      ≡ set_options libc s.config opts
parsed_applied libc opts rest s h k =
    vm_apply_cli_options-over s (vm_parse_cli libc opts rest).1 k
    ∙ vm_parse_cli-over libc opts rest s.config h
