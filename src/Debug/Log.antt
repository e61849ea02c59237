-- ===== src/Debug/Log.antt =====
-- The log of executed instructions: `init_logging`, `log_instruction`, `log_before` and `log_after` of
-- prototype-integrator/src/debug.c, and their place in `vm_run_instruction` and its loop
-- (prototype-integrator/src/vm_runtime.c). A log is the list of what is printed, each line with its
-- numbers and texts; frames, headings, and characters shown beside bytes are left out.
use virtual_machine.Prelude.{
  ℕ, zero, suc, Bool, true, false, ◌+◌, ◌%◌, ◌==◌, ◌||◌, leb, ltb, if◌then◌else◌, none, some, List,
  [], ◌∷◌, ◌++◌,
}
use virtual_machine.Word.{u64_mod}
use virtual_machine.Host.{Host}
use virtual_machine.Instruction.{opc, ra, rb, rc, fimm, imm8}
use virtual_machine.Machine.{VmState, ModuleInfo, reg_count, mr32}
use virtual_machine.OpTable.{op_ex}
use virtual_machine.Runtime.{
  Progress, continues, finishes, advance, update_time, decode_instruction,
}
use virtual_machine.Debug.{fprintf_inst, fprintf_binary}

pub data Entry : Type 0 where
  -- the number of the instruction and its address, its text, its bits
  instruction : ℕ → ℕ → List ℕ → List ℕ → Entry
  register_operand : ℕ → ℕ → Entry
  invalid_operand : ℕ → Entry
  immediate_operand : ℕ → Entry
  register_changed : ℕ → ℕ → ℕ → Entry
  registers_same : Entry
  memory_changed : ℕ → ℕ → ℕ → Entry
  memory_same : Entry
  pc_changed : ℕ → ℕ → Entry
  pc_same : ℕ → Entry

-- The log file, and the fields `dbg_…` of the machine. `enabled` says that logging is on and that the
-- file is open.
pub record Log : Type 0 where
  pub enabled : Bool
  pub entries : List Entry
  pub dbg_instruction_count : ℕ
  pub dbg_prev_pc : ℕ
  pub dbg_prev_reg : ℕ → ℕ
  pub dbg_prev_mem : ℕ → ℕ

-- MEM_LOG_SIZE
abbrev pub mem_log_size : ℕ
mem_log_size = 256

-- `init_logging`, where `opens` says whether `fopen` succeeds, if logging is on.
unfoldable pub init_logging : Bool → Bool → VmState → Log
init_logging logging_enabled opens vm = record {
  enabled = if logging_enabled then opens else false;
  entries = [];
  dbg_instruction_count = 0;
  dbg_prev_pc = vm.pc;
  dbg_prev_reg = vm.reg;
  dbg_prev_mem = vm.mem;
}

-- A register among the operands.
unfoldable pub operand_entry : VmState → ℕ → Entry
operand_entry vm r = if ltb r reg_count then register_operand r (vm.reg r) else invalid_operand r

unfoldable pub log_instruction : Log → ℕ → ℕ → Log
unfolding fprintf_inst fprintf_binary
log_instruction log pc instr =
    let count = (log.dbg_instruction_count + 1) % u64_mod in
    record log {
      dbg_instruction_count = count;
      entries =
          log.entries ++ instruction count pc (fprintf_inst instr) (fprintf_binary instr) ∷ [];
    }

-- The operands A, B and C before the instruction.
unfoldable pub operand_entries : VmState → ℕ → List Entry
unfolding operand_entry ra rb rc fimm imm8
operand_entries vm instr =
    operand_entry vm (ra instr)
    ∷ operand_entry vm (rb instr)
    ∷ (if fimm instr then immediate_operand (imm8 instr) else operand_entry vm (rc instr))
    ∷ []

unfoldable pub log_before : Log → VmState → ℕ → ℕ → Log
log_before log vm pc instr =
    let snapshot = record log { dbg_prev_pc = pc; dbg_prev_reg = vm.reg; dbg_prev_mem = vm.mem } in
    let logged = log_instruction snapshot pc instr in
    if log.enabled
    then record logged { entries = logged.entries ++ operand_entries vm instr }
    else log

-- The loop over `n` places from `i` on that compares a snapshot with what is there now.
unfoldable pub changes : (ℕ → ℕ → ℕ → Entry) → ℕ → ℕ → (ℕ → ℕ) → (ℕ → ℕ) → List Entry
changes entry zero i old now = []
changes entry (suc n) i old now =
    let rest = changes entry n (i + 1) old now in
    if old i == now i then rest else entry i (old i) (now i) ∷ rest

-- The line that says that there are no changes.
unfoldable pub or_same : Entry → List Entry → List Entry
or_same same [] = same ∷ []
or_same same (e ∷ es) = e ∷ es

unfoldable pub pc_entry : ℕ → ℕ → Entry
pc_entry old pc = if old == pc then pc_same pc else pc_changed old pc

unfoldable pub log_after : Log → VmState → ℕ → Log
log_after log vm pc =
    let registers = changes register_changed reg_count 0 log.dbg_prev_reg vm.reg in
    let bytes = changes memory_changed mem_log_size 0 log.dbg_prev_mem vm.mem in
    if log.enabled
    then record log {
      entries =
          log.entries
          ++ (or_same registers_same registers
              ++ (or_same memory_same bytes ++ pc_entry log.dbg_prev_pc pc ∷ []));
    }
    else log

-- `execute` of the runtime with the log of the fetched word around the handler.
unfoldable pub logged_execute : Host → Log → ℕ → ℕ × VmState → Log × Progress
logged_execute host log instr (raw, vm) = elim (op_ex host (opc instr)) [
  | none ↦ (log, finishes (record vm { running = false }))
  | some op ↦
      let vm' = advance vm.pc (op vm raw) in
      (log_after (log_before log vm vm.pc instr) vm' vm'.pc, continues (update_time host vm'))
]

-- `vm_run_instruction` with its log.
unfoldable pub logged_instruction : Host → ModuleInfo → ℕ → Log → VmState → Log × Progress
logged_instruction host m module_end log vm =
    let instr = mr32 vm vm.pc in
    if leb module_end vm.pc || ltb vm.pc m.addr
    then (log, finishes vm)
    else if instr == 0
    then (log, finishes vm)
    else elim (decode_instruction vm vm.pc) [
      | none ↦ (log, finishes (record vm { running = false }))
      | some entry ↦ logged_execute host log instr entry
    ]

-- On to the next instruction, or out.
unfoldable pub logged_on : (Log → VmState → Log × VmState) → Log × Progress → Log × VmState
logged_on next (log, continues vm) = next log vm
logged_on next (log, finishes vm) = (log, vm)

-- The loop of `vm_run_module`, as `run_loop` of the runtime, with the log.
unfoldable pub logged_loop : (ℕ → Host) → ModuleInfo → ℕ → ℕ → ℕ → Log → VmState → Log × VmState
logged_loop env m module_end zero total log vm = (log, vm)
logged_loop env m module_end (suc left) total log vm = elim vm.running [
  | false ↦ (log, vm)
  | true ↦
      logged_on (λ log' vm'. logged_loop env m module_end left (total + 1) log' vm')
        (logged_instruction (env total) m module_end log vm)
]
