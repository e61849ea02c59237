-- ===== src/Runtime/Step.antt =====
-- One instruction of `vm_run_instruction`: what it keeps, and what the cache of decoded
-- instructions means.
use virtual_machine.Prelude.{
  ℕ, Bool, true, false, ◌+◌, ◌-◌, ◌/◌, ◌%◌, ◌<◌, ◌≤◌, ◌≡◌, ◌||◌, ◌==◌, ltb, leb, arith, refl, ◌∙◌,
  if◌then◌else◌, Bool-cases, Option-cases, inl, inr, some, none, update,
}
use virtual_machine.Word.{u32_mod, u64_mod, add32}
use virtual_machine.Host.{Host, GivesWords}
use virtual_machine.Instruction.{opc}
use virtual_machine.Machine.{VmState, ModuleInfo, mem_bytes, mr32}
use virtual_machine.Machine.Frame.{IsValid, Framed, Framed-quiet, settings}
use virtual_machine.OpTable.{op_ex}
use virtual_machine.OpTable.Frame.{op_ex-Framed}
use virtual_machine.Runtime.{
  update_time, advance, decode_instruction, Progress, continues, finishes, execute, run_instruction,
}

-- The state after the step.
unfoldable pub after : Progress → VmState
after (continues vm) = vm
after (finishes vm) = vm

-- Valid, nothing beyond the memory was written, what is set is as before, and a request to stop stays.
pub record Kept (vm vm' : VmState) : Type 0 where
  pub valid : IsValid vm'
  pub beyond : (a : ℕ) → mem_bytes ≤ a → vm'.mem a ≡ vm.mem a
  pub same_settings : settings vm' ≡ settings vm
  pub stops : vm.stop_requested ≡ true → vm'.stop_requested ≡ true

pub Kept-refl : {vm : VmState} → IsValid vm → Kept vm vm
Kept-refl v = record { valid = v; beyond = λ a h. refl; same_settings = refl; stops = λ h. h }

pub Kept-trans : {vm vm₁ vm₂ : VmState} → Kept vm vm₁ → Kept vm₁ vm₂ → Kept vm vm₂
Kept-trans p q = record {
  valid = q.valid;
  beyond = λ a h. q.beyond a h ∙ p.beyond a h;
  same_settings = q.same_settings ∙ p.same_settings;
  stops = λ h. q.stops (p.stops h);
}

Framed-Kept : {i : ℕ} {vm vm' : VmState} → Framed i vm vm' → Kept vm vm'
Framed-Kept f = record {
  valid = f.valid;
  beyond = f.beyond;
  same_settings = f.same_settings;
  stops = f.stops;
}

pub Kept-quiet :
    {vm vm' : VmState}
    → IsValid vm
    → settings vm' ≡ settings vm
    → (vm.stop_requested ≡ true → vm'.stop_requested ≡ true)
    → vm'.reg ≡ vm.reg
    → vm'.mem ≡ vm.mem
    → vm'.pc < u32_mod
    → vm'.ctu_counters ≡ vm.ctu_counters
    → vm'.ctd_counters ≡ vm.ctd_counters
    → vm'.ctud_counters ≡ vm.ctud_counters
    → Kept vm vm'
Kept-quiet v es st er em ep e₁ e₂ e₃ = Framed-Kept {i = 0} (
    Framed-quiet v es st er em ep (λ k. rw e₁ (v.ctu k)) (λ k. rw e₂ (v.ctd k))
      (λ k. rw e₃ (v.ctud k)))

pub Kept-if :
    {vm vm₁ vm₂ : VmState} (b : Bool) → Kept vm vm₁ → Kept vm vm₂ → Kept vm (if b then vm₁ else vm₂)
Kept-if true p q = p
Kept-if false p q = q

update_time-Kept : (host : Host) {vm : VmState} → IsValid vm → Kept vm (update_time host vm)
unfolding update_time
update_time-Kept host {vm} v =
    let rate = vm.config.clock_rate_hz in
    let add_ms = (vm.instr_ns_accum + 1_000_000_000 / rate) % u64_mod / 1_000_000 in
    Kept-if (rate == 0) (Kept-refl v) (
      Kept-if vm.config.enable_tick_timing
        (Kept-quiet v refl (λ h. h) refl refl v.pc_word refl refl refl)
        (Kept-if (add_ms == 0) (Kept-quiet v refl (λ h. h) refl refl v.pc_word refl refl refl)
          (Kept-quiet v refl (λ h. h) refl refl v.pc_word refl refl refl)))

advance-Kept : (old_pc : ℕ) {vm : VmState} → IsValid vm → Kept vm (advance old_pc vm)
unfolding advance add32
advance-Kept old_pc {vm} v = elim (Bool-cases (vm.pc == old_pc)) [
  | inl e ↦ rw e (Kept-quiet v refl (λ h. h) refl refl (omega arith) refl refl refl)
  | inr e ↦ rw e (Kept-refl v)
]

stopped-Kept : {vm : VmState} → IsValid vm → Kept vm (record vm { running = false })
stopped-Kept v = Kept-quiet v refl (λ h. h) refl refl v.pc_word refl refl refl

cached-Kept :
    {vm : VmState} (raw : ℕ)
    → IsValid vm
    → Kept vm (record vm { decoded_cache = update vm.decoded_cache vm.pc (some raw) })
cached-Kept raw v = Kept-quiet v refl (λ h. h) refl refl v.pc_word refl refl refl

module _ (host : Host) (words : GivesWords host) where
  execute-Kept :
      (instr raw : ℕ) {vm : VmState} → IsValid vm → Kept vm (after (execute host instr (raw, vm)))
  unfolding execute after
  execute-Kept instr raw {vm} v = elim (Option-cases (op_ex host (opc instr))) [
    | inl e ↦ rw (e, after) (stopped-Kept v)
    | inr (op, e) ↦
        rw (e, after)
          (let h = Framed-Kept (op_ex-Framed host words (opc instr) vm raw e v) in
            let h' = Kept-trans h (advance-Kept vm.pc h.valid) in
            Kept-trans h' (update_time-Kept host h'.valid))
  ]

  decoded-Kept :
      (instr : ℕ) {vm : VmState}
      → IsValid vm
      → Kept vm (
          after (elim (decode_instruction vm vm.pc) [
            | none ↦ finishes (record vm { running = false })
            | some entry ↦ execute host instr entry
          ]))
  unfolding decode_instruction after
  decoded-Kept instr {vm} v = elim (Option-cases (vm.decoded_cache vm.pc)) [
    | inl e ↦ elim (Bool-cases (leb (mem_bytes - 3) vm.pc)) [
      | inl t ↦ rw e (rw (t, after) (stopped-Kept v))
      | inr t ↦ rw e (
          rw t (
            let h = cached-Kept (mr32 vm vm.pc) v in
            Kept-trans h (execute-Kept instr (mr32 vm vm.pc) h.valid)))
    ]
    | inr (raw, e) ↦ rw e (execute-Kept instr raw v)
  ]

  pub run_instruction-Kept :
      (m : ModuleInfo) (module_end : ℕ) {vm : VmState}
      → IsValid vm
      → Kept vm (after (run_instruction host m module_end vm))
  unfolding run_instruction after
  run_instruction-Kept m module_end {vm} v =
      elim (Bool-cases (leb module_end vm.pc || ltb vm.pc m.addr)) [
        | inl e ↦ rw e (Kept-refl v)
        | inr e ↦ elim (Bool-cases (mr32 vm vm.pc == 0)) [
          | inl z ↦ rw e (rw z (Kept-refl v))
          | inr z ↦ rw e (rw z (decoded-Kept (mr32 vm vm.pc) v))
        ]
      ]
