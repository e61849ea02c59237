-- ===== src/Debug/Entries.antt =====
-- What the entries of one instruction add to the changes of a log.
use virtual_machine.Prelude.{
  ℕ, true, ◌<◌, ◌≡◌, ◌==◌, ltb, refl, arith, ap, ◌∙◌, Option, none, List, [], ◌∷◌, ◌++◌, Bool-cases,
  inl, inr,
}
use virtual_machine.Instruction.{ra, rb, rc, fimm}
use virtual_machine.Machine.{VmState, reg_count}
use virtual_machine.Debug.Log.{
  Entry, Entry.instruction, register_operand, invalid_operand, immediate_operand, register_changed,
  registers_same, memory_changed, memory_same, pc_changed, pc_same, Log, mem_log_size, log_before,
  log_after, changes, or_same, pc_entry, operand_entries, operand_entry, log_instruction,
}
use virtual_machine.Debug.Changes.{
  register_of, byte_of, write_change, replay, IsSilent, replay-append, replay-IsSilent,
  changes-IsSilent, replay-changes,
}

-- Only the entries of changes count.
pub record IgnoresRest (of : Entry → Option (ℕ × ℕ)) : Type 0 where
  of_instruction : (n pc : ℕ) (text bits : List ℕ) → of (instruction n pc text bits) ≡ none
  of_register : (i v : ℕ) → of (register_operand i v) ≡ none
  of_invalid : (i : ℕ) → of (invalid_operand i) ≡ none
  of_immediate : (v : ℕ) → of (immediate_operand v) ≡ none
  of_registers_same : of registers_same ≡ none
  of_memory_same : of memory_same ≡ none
  of_pc_changed : (old pc : ℕ) → of (pc_changed old pc) ≡ none
  of_pc_same : (pc : ℕ) → of (pc_same pc) ≡ none

pub register_of-IgnoresRest : IgnoresRest register_of
register_of-IgnoresRest = record {
  of_instruction = λ n pc text bits. refl;
  of_register = λ i v. refl;
  of_invalid = λ i. refl;
  of_immediate = λ v. refl;
  of_registers_same = refl;
  of_memory_same = refl;
  of_pc_changed = λ old pc. refl;
  of_pc_same = λ pc. refl;
}

pub byte_of-IgnoresRest : IgnoresRest byte_of
byte_of-IgnoresRest = record {
  of_instruction = λ n pc text bits. refl;
  of_register = λ i v. refl;
  of_invalid = λ i. refl;
  of_immediate = λ v. refl;
  of_registers_same = refl;
  of_memory_same = refl;
  of_pc_changed = λ old pc. refl;
  of_pc_same = λ pc. refl;
}

replay-or_same :
    (of : Entry → Option (ℕ × ℕ)) (same : Entry) (es : List Entry) (f : ℕ → ℕ)
    → of same ≡ none
    → replay of (or_same same es) f ≡ replay of es f
unfolding or_same
replay-or_same of same [] f h = ap (λ w. write_change w f) h
replay-or_same of same (e ∷ es) f h = refl

module _ (of : Entry → Option (ℕ × ℕ)) (q : IgnoresRest of) where
  of_pc_entry : (old pc : ℕ) → of (pc_entry old pc) ≡ none
  unfolding pc_entry
  of_pc_entry old pc = elim (Bool-cases (old == pc)) [
    | inl e ↦ rw e (q.of_pc_same pc)
    | inr e ↦ rw e (q.of_pc_changed old pc)
  ]

  of_operand_entry : (vm : VmState) (r : ℕ) → of (operand_entry vm r) ≡ none
  unfolding operand_entry
  of_operand_entry vm r = elim (Bool-cases (ltb r reg_count)) [
    | inl e ↦ rw e (q.of_register r (vm.reg r))
    | inr e ↦ rw e (q.of_invalid r)
  ]

  operand_entries-IsSilent : (vm : VmState) (i : ℕ) → IsSilent of (operand_entries vm i)
  unfolding operand_entries
  operand_entries-IsSilent vm i = elim (Bool-cases (fimm i)) [
    | inl e ↦
        rw e (of_operand_entry vm (ra i), (of_operand_entry vm (rb i), (q.of_immediate _, tt)))
    | inr e ↦
        rw e (
          of_operand_entry vm (ra i),
          (of_operand_entry vm (rb i), (of_operand_entry vm (rc i), tt)),
        )
  ]

  pub replay-log_before :
      (log : Log) (vm : VmState) (pc instr : ℕ) (f : ℕ → ℕ)
      → replay of (log_before log vm pc instr).entries f ≡ replay of log.entries f
  unfolding log_before log_instruction
  replay-log_before log vm pc instr f = elim (Bool-cases log.enabled) [
    | inl e ↦ rw e (
        replay-append of (log.entries ++ _ ∷ []) (operand_entries vm instr) f
        ∙ replay-IsSilent of (operand_entries vm instr) _ (operand_entries-IsSilent vm instr)
        ∙ replay-append of log.entries (_ ∷ []) f
        ∙ ap (λ w. write_change w (replay of log.entries f)) (q.of_instruction _ _ _ _))
    | inr e ↦ rw e refl
  ]

  replay-log_after :
      (log : Log) (vm : VmState) (pc : ℕ) (f : ℕ → ℕ)
      → log.enabled ≡ true
      → replay of (log_after log vm pc).entries f
        ≡ replay of (changes memory_changed mem_log_size 0 log.dbg_prev_mem vm.mem) (
            replay of
              (changes register_changed reg_count 0 log.dbg_prev_reg vm.reg)
              (replay of log.entries f))
  unfolding log_after
  replay-log_after log vm pc f on =
      let registers = changes register_changed reg_count 0 log.dbg_prev_reg vm.reg in
      let bytes = changes memory_changed mem_log_size 0 log.dbg_prev_mem vm.mem in
      let last = or_same memory_same bytes ++ pc_entry log.dbg_prev_pc pc ∷ [] in
      let before = replay of log.entries f in
      rw on (
        replay-append of log.entries (or_same registers_same registers ++ last) f
        ∙ replay-append of (or_same registers_same registers) last before
        ∙ ap (replay of last)
            (replay-or_same of registers_same registers before q.of_registers_same)
        ∙ replay-append of (or_same memory_same bytes) (pc_entry log.dbg_prev_pc pc ∷ []) _
        ∙ ap
            (λ w.
              write_change w (replay of (or_same memory_same bytes) (replay of registers before)))
            (of_pc_entry log.dbg_prev_pc pc)
        ∙ replay-or_same of memory_same bytes (replay of registers before) q.of_memory_same)

-- What the log knows before the handler.
pub log_before_snapshot :
    (log : Log) (vm : VmState) (pc instr : ℕ)
    → log.enabled ≡ true
    → ((log_before log vm pc instr).enabled ≡ true)
      × ((log_before log vm pc instr).dbg_prev_reg ≡ vm.reg)
      × ((log_before log vm pc instr).dbg_prev_mem ≡ vm.mem)
unfolding log_before log_instruction
log_before_snapshot log vm pc instr e = rw e (refl, refl, refl)

pub log_after_on :
    (log : Log) (vm : VmState) (pc : ℕ) → log.enabled ≡ true → (log_after log vm pc).enabled ≡ true
unfolding log_after
log_after_on log vm pc on = rw on refl

pub registers-log_after :
    (log : Log) (vm : VmState) (pc r : ℕ) (reg : ℕ → ℕ)
    → log.enabled ≡ true
    → r < reg_count
    → replay register_of log.entries reg r ≡ log.dbg_prev_reg r
    → replay register_of (log_after log vm pc).entries reg r ≡ vm.reg r
registers-log_after log vm pc r reg on lt h =
    ap (λ (g : ℕ → ℕ). g r)
      (replay-log_after register_of register_of-IgnoresRest log vm pc reg on
        ∙ replay-IsSilent register_of
            (changes memory_changed mem_log_size 0 log.dbg_prev_mem vm.mem) _
            (changes-IsSilent register_of memory_changed mem_log_size 0 log.dbg_prev_mem vm.mem
              (λ j o v. refl)))
    ∙ replay-changes register_of register_changed (λ j o v. refl) reg_count 0 r log.dbg_prev_reg
        vm.reg (replay register_of log.entries reg) (omega arith) (omega (arith, lt)) h

pub bytes-log_after :
    (log : Log) (vm : VmState) (pc a : ℕ) (mem : ℕ → ℕ)
    → log.enabled ≡ true
    → a < mem_log_size
    → replay byte_of log.entries mem a ≡ log.dbg_prev_mem a
    → replay byte_of (log_after log vm pc).entries mem a ≡ vm.mem a
bytes-log_after log vm pc a mem on lt h =
    ap (λ (g : ℕ → ℕ). g a)
      (replay-log_after byte_of byte_of-IgnoresRest log vm pc mem on
        ∙ ap (replay byte_of (changes memory_changed mem_log_size 0 log.dbg_prev_mem vm.mem)) (
            replay-IsSilent byte_of (changes register_changed reg_count 0 log.dbg_prev_reg vm.reg) _
              (changes-IsSilent byte_of register_changed reg_count 0 log.dbg_prev_reg vm.reg
                (λ j o v. refl))))
    ∙ replay-changes byte_of memory_changed (λ j o v. refl) mem_log_size 0 a log.dbg_prev_mem vm.mem
        (replay byte_of log.entries mem) (omega arith) (omega (arith, lt)) h
