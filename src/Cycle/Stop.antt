-- ===== src/Cycle/Stop.antt =====
-- Stopping, and the validity of the machine over a cycle.
use mathlib.Core.Path.{subst}
use virtual_machine.Prelude.{
  ℕ, true, ◌+◌, ◌<◌, ◌≡◌, ◌||◌, ◌&&◌, ◌==◌, ◌%◌, not, ltb, ap, refl, arith, sym, ◌∙◌, List, [], ◌∷◌,
  ◌++◌, All, ◌≢◌,
}
use virtual_machine.Word.{u32_mod, u64_mod, add32}
use virtual_machine.Host.{Host, GivesWords}
use virtual_machine.Machine.{VmState, ModuleInfo}
use virtual_machine.Machine.Frame.{IsValid, Settings}
use virtual_machine.Ops.TimerOps.{update_all_timers}
use virtual_machine.Runtime.{run_module, run_modules, run_loop, max_instructions}
use virtual_machine.Runtime.Steps.{started}
use virtual_machine.Runtime.Step.{Kept, Kept-refl, Kept-trans, Kept-quiet, Kept-if}
use virtual_machine.Runtime.Loop.{run_module-Kept, run_modules-Kept}
use virtual_machine.Cycle.{
  Pass, begin_cycle, init_hash, fill_cycle, registers_hash, run_cycle, run_cycles,
}

init_hash-Kept : {vm : VmState} → IsValid vm → Kept vm (init_hash vm)
unfolding init_hash
init_hash-Kept {vm} v =
    Kept-if (vm.config.enable_hash_check && vm.cycle_count == 1)
      (Kept-quiet v refl (λ h. h) refl refl v.pc_word refl refl refl) (Kept-refl v)

init_hash-modules : (vm : VmState) → (init_hash vm).modules ≡ vm.modules
unfolding init_hash
init_hash-modules vm = ground arith

fill_cycle-Kept : (start : ℕ) {vm : VmState} → IsValid vm → Kept vm (fill_cycle start vm)
unfolding fill_cycle
fill_cycle-Kept start {vm} v =
    Kept-if
      (not vm.config.enable_tick_timing
        && ltb vm.time_ms ((start + vm.config.cycle_time_ms) % u64_mod))
      (Kept-quiet v refl (λ h. h) refl refl v.pc_word refl refl refl) (Kept-refl v)

timers-Kept : {vm : VmState} → IsValid vm → Kept vm (update_all_timers vm)
unfolding update_all_timers
timers-Kept v = Kept-quiet v refl (λ h. h) refl refl v.pc_word refl refl refl

-- Whatever the programs are, a whole cycle over modules at 32-bit addresses, on a host that gives
-- words, leaves a valid machine valid and writes nothing beyond the memory.
pub run_cycle-Kept :
    (env : ℕ → Host) (vm : VmState)
    → ((n : ℕ) → GivesWords (env n))
    → All (λ m. m.addr < u32_mod) vm.modules
    → IsValid vm
    → Kept vm (run_cycle env vm)
unfolding run_cycle
run_cycle-Kept env vm words a v =
    let k₁ = init_hash-Kept v in
    let k₂ =
      run_modules-Kept env words (init_hash vm).modules 0 (init_hash vm)
        (rw (init_hash-modules vm) a) k₁.valid in
    let k₃ = fill_cycle-Kept vm.time_ms k₂.valid in
    let k₄ = timers-Kept k₃.valid in
    let k₅ = Kept-quiet k₄.valid refl (λ h. h) refl refl k₄.valid.pc_word refl refl refl in
    Kept-trans k₁ (Kept-trans k₂ (Kept-trans k₃ (Kept-trans k₄ k₅)))

run_modules-append :
    (env : ℕ → Host) (ms ms' : List ModuleInfo) (total : ℕ) (vm : VmState)
    → run_modules env (ms ++ ms') total vm
      ≡ run_modules env ms' (run_modules env ms total vm).0 (run_modules env ms total vm).1
unfolding run_modules
run_modules-append env [] ms' total vm = refl
run_modules-append env (m ∷ ms) ms' total vm =
    run_modules-append env ms ms' (run_module env m total vm).0 (run_module env m total vm).1

All-split :
    (P : ModuleInfo → Type 0) (ms ms' : List ModuleInfo) → All P (ms ++ ms') → All P ms × All P ms'
All-split P [] ms' h = (tt, h)
All-split P (m ∷ ms) ms' h = let (a, b) = All-split P ms ms' h.1 in ((h.0, a), b)

-- The modules one after another, each from its start with `running` set, whatever the machine was
-- asked for before.
abbrev pub in_turn : (ℕ → Host) → List ModuleInfo → ℕ × VmState → ℕ × VmState
in_turn env [] r = r
in_turn env (m ∷ ms) r = in_turn env ms (
    run_loop env m (add32 m.addr m.size) max_instructions (r.0)
      (record (r.1) { running = true; pc = m.addr }))

module _ (env : ℕ → Host) (words : (n : ℕ) → GivesWords (env n)) where
  run_modules-in_turn :
      (ms : List ModuleInfo) (total : ℕ) (vm : VmState)
      → All (λ m. m.addr < u32_mod) ms
      → IsValid vm
      → vm.modules ≢ []
      → run_modules env ms total vm ≡ in_turn env ms (total, vm)
  unfolding run_modules
  run_modules-in_turn [] total vm a v some = refl
  run_modules-in_turn (m ∷ ms) total vm a v some =
      let r = run_module env m total vm in
      let k = run_module-Kept env words m total vm (a.0) v in
      let listed : r.1.modules ≡ vm.modules = ap (λ (t : Settings). t.0) k.same_settings in
      run_modules-in_turn ms (r.0) (r.1) (a.1) k.valid (λ e. some (sym listed ∙ e))
      ∙ ap (in_turn env ms) (started env m total vm some)

-- The end of a cycle that started in `vm`: the time of the cycle, the timers, and the hash of the
-- registers.
abbrev pub end_cycle : VmState → VmState → VmState
end_cycle vm vm' =
    let vm'' = update_all_timers (fill_cycle vm.time_ms vm') in
    record vm'' { prev_cycle_hash = registers_hash vm'' }

some_inside : (ms : List ModuleInfo) (m : ModuleInfo) (ms' : List ModuleInfo) → ms ++ (m ∷ ms') ≢ []
some_inside [] m ms' e = cc
some_inside (m' ∷ ms) m ms' e = cc

in_turn_or_none :
    (env : ℕ → Host) (words : (n : ℕ) → GivesWords (env n)) (ms ms' : List ModuleInfo) (total : ℕ)
    (vm : VmState)
    → All (λ m. m.addr < u32_mod) ms'
    → IsValid vm
    → vm.modules ≡ ms ++ ms'
    → run_modules env ms' total vm ≡ in_turn env ms' (total, vm)
unfolding run_modules
in_turn_or_none env words ms [] total vm a v e = refl
in_turn_or_none env words ms (m ∷ ms') total vm a v e =
    run_modules-in_turn env words (m ∷ ms') total vm a v
      (λ none. some_inside ms m ms' (sym e ∙ none))

-- A cycle whose modules are split in two: the second part runs from where the first has left.
pub run_cycle-in_turn :
    (env : ℕ → Host) (vm : VmState) (ms ms' : List ModuleInfo)
    → ((n : ℕ) → GivesWords (env n))
    → All (λ m. m.addr < u32_mod) vm.modules
    → IsValid vm
    → vm.modules ≡ ms ++ ms'
    → run_cycle env vm ≡ end_cycle vm (in_turn env ms' (run_modules env ms 0 (init_hash vm))).1
unfolding run_cycle
run_cycle-in_turn env vm ms ms' words a v e =
    let k₁ = init_hash-Kept v in
    let (a₁, a₂) =
      All-split (λ m. m.addr < u32_mod) ms ms' (subst (All (λ m. m.addr < u32_mod)) e a) in
    let mid = run_modules env ms 0 (init_hash vm) in
    let k₂ = run_modules-Kept env words ms 0 (init_hash vm) a₁ k₁.valid in
    let listed : mid.1.modules ≡ ms ++ ms' =
      ap (λ (t : Settings). t.0) (Kept-trans k₁ k₂).same_settings ∙ e in
    ap (λ r. end_cycle vm r.1)
      (ap (λ l. run_modules env l 0 (init_hash vm)) (init_hash-modules vm ∙ e)
        ∙ run_modules-append env ms ms' 0 (init_hash vm)
        ∙ in_turn_or_none env words ms ms' mid.0 mid.1 a₂ k₂.valid listed)

-- A stop that some of the modules have asked for is still asked for at the end of the cycle.
pub run_cycle-stops :
    (env : ℕ → Host) (vm : VmState) (ms ms' : List ModuleInfo)
    → ((n : ℕ) → GivesWords (env n))
    → All (λ m. m.addr < u32_mod) vm.modules
    → IsValid vm
    → vm.modules ≡ ms ++ ms'
    → (run_modules env ms 0 (init_hash vm)).1.stop_requested ≡ true
    → (run_cycle env vm).stop_requested ≡ true
unfolding run_cycle
run_cycle-stops env vm ms ms' words a v e h =
    let k₁ = init_hash-Kept v in
    let (a₁, a₂) =
      All-split (λ m. m.addr < u32_mod) ms ms' (subst (All (λ m. m.addr < u32_mod)) e a) in
    let mid = run_modules env ms 0 (init_hash vm) in
    let k₂ = run_modules-Kept env words ms 0 (init_hash vm) a₁ k₁.valid in
    let k₃ = run_modules-Kept env words ms' mid.0 mid.1 a₂ k₂.valid in
    let whole : (run_modules env (init_hash vm).modules 0 (init_hash vm))
        ≡ run_modules env ms' mid.0 mid.1 =
      ap (λ l. run_modules env l 0 (init_hash vm)) (init_hash-modules vm ∙ e)
      ∙ run_modules-append env ms ms' 0 (init_hash vm) in
    let end = (run_modules env (init_hash vm).modules 0 (init_hash vm)).1 in
    let stop : end.stop_requested ≡ true =
      ap (λ (r : ℕ × VmState). r.1.stop_requested) whole ∙ k₃.stops h in
    let valid : IsValid end = subst (λ (r : ℕ × VmState). IsValid r.1) (sym whole) k₃.valid in
    let k₄ = fill_cycle-Kept vm.time_ms valid in (timers-Kept k₄.valid).stops (k₄.stops stop)

-- Once a HALT, an EXIT or a signal has asked to stop, the next pass ends the program: no module is
-- run, and only the request and the count of the cycles change.
pub run_cycles_stop :
    (p : Pass) (ps : List Pass) (vm : VmState)
    → (vm.stop_requested || p.vm_stop_requested) ≡ true
    → run_cycles (p ∷ ps) vm
      ≡ (true, record vm { stop_requested = true; cycle_count = add32 vm.cycle_count 1 })
unfolding run_cycles begin_cycle
run_cycles_stop p ps vm h =
    rw (h, run_cycles)
      (ap (λ b. (true, record vm { stop_requested = b; cycle_count = add32 vm.cycle_count 1 })) h)
