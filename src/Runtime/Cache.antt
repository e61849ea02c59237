-- ===== src/Runtime/Cache.antt =====
-- The cache of decoded instructions (prototype-integrator/src/vm_tables.c) as the execution of an
-- instruction uses it: the opcode is read from memory, the operands from the cache.
use virtual_machine.Prelude.{
  ap, sym, ==_iff, ℕ, true, false, ◌-◌, ◌<◌, ◌≤◌, ◌≡◌, ◌≢◌, ◌||◌, ◌==◌, ltb, leb, arith, refl, ◌∙◌,
  Bool-cases, Option-cases, inl, inr, Option, some, none, update,
}
use virtual_machine.Word.{u32_mod, add32}
use virtual_machine.Host.{Host}
use virtual_machine.Instruction.{opc, fimm, sextimm8}
use virtual_machine.Instruction.Encoding.{sextimm8_lem}
use virtual_machine.Machine.{VmState, ModuleInfo, mem_bytes, mr32}
use virtual_machine.OpTable.{Handler, op_ex}
use virtual_machine.Ops.Control.{jump_target, op_jmp}
use virtual_machine.Runtime.{
  update_time, advance, decode_instruction, continues, finishes, execute, run_instruction,
}

-- Every cached entry is the word that the memory holds.
pub record IsCoherent (vm : VmState) : Type 0 where
  pub entry : (addr raw : ℕ) → vm.decoded_cache addr ≡ some raw → raw ≡ mr32 vm addr

-- The program counter is inside the module and the memory, at a word that is not zero.
pub record IsFetched (m : ModuleInfo) (module_end : ℕ) (vm : VmState) : Type 0 where
  pub from : m.addr ≤ vm.pc
  pub below : vm.pc < module_end
  pub in_memory : vm.pc < mem_bytes - 3
  pub word : mr32 vm vm.pc ≢ 0

inside :
    {m : ModuleInfo} {module_end : ℕ} {vm : VmState}
    → IsFetched m module_end vm
    → (leb module_end vm.pc || ltb vm.pc m.addr) ≡ false
inside f = ground (arith, f.from, f.below)

not_end :
    {m : ModuleInfo} {module_end : ℕ} {vm : VmState}
    → IsFetched m module_end vm
    → (mr32 vm vm.pc == 0) ≡ false
not_end f = ground (arith, f.word)

readable :
    {m : ModuleInfo} {module_end : ℕ} {vm : VmState}
    → IsFetched m module_end vm
    → leb (mem_bytes - 3) vm.pc ≡ false
readable f = ground (arith, f.in_memory)

-- The machine with the word at its program counter cached.
abbrev pub cached_vm : VmState → VmState
cached_vm vm = record vm { decoded_cache = update vm.decoded_cache vm.pc (some (mr32 vm vm.pc)) }

coherent_update :
    (vm : VmState) (addr raw : ℕ)
    → IsCoherent vm
    → (cached_vm vm).decoded_cache addr ≡ some raw
    → raw ≡ mr32 vm addr
coherent_update vm addr raw c h = elim (Bool-cases (addr == vm.pc)) [
  | inl e ↦ ground (arith, h, e)
  | inr e ↦ c.entry addr raw (ground (arith, h, e))
]

cached_vm-IsCoherent : (vm : VmState) → IsCoherent vm → IsCoherent (cached_vm vm)
unfolding mr32
cached_vm-IsCoherent vm c = record { entry = λ addr raw h. coherent_update vm addr raw c h }

outside :
    (i addr module_end : ℕ)
    → 128 ≤ addr
    → module_end ≤ u32_mod - 128
    → (leb module_end (sextimm8 i) || ltb (sextimm8 i) addr) ≡ true
outside i addr module_end lo hi = rw sextimm8_lem (ground arith)

immediate_jump : (vm : VmState) (i : ℕ) → fimm i ≡ true → (op_jmp vm i).pc ≡ sextimm8 i
unfolding op_jmp jump_target
immediate_jump vm i h = rw h refl

true_or_false : true ≡ false → ⊥
true_or_false e = cc

elsewhere :
    (m : ModuleInfo) (module_end x pc : ℕ)
    → (leb module_end x || ltb x m.addr) ≡ true
    → (leb module_end pc || ltb pc m.addr) ≡ false
    → (x == pc) ≡ false
elsewhere m module_end x pc out within = elim (Bool-cases (x == pc)) [
  | inl e ↦
      let same : x ≡ pc = (==_iff x pc).0 e in
      absurd (true_or_false (sym out ∙ ap (λ y. leb module_end y || ltb y m.addr) same ∙ within))
  | inr e ↦ e
]

update_time-pc : (host : Host) (vm : VmState) → (update_time host vm).pc ≡ vm.pc
unfolding update_time
update_time-pc host vm = ground arith

advance_away : (old : ℕ) (vm : VmState) → (vm.pc == old) ≡ false → (advance old vm).pc ≡ vm.pc
unfolding advance
advance_away old vm h = ground (arith, h)

finishes_outside :
    (host : Host) (m : ModuleInfo) (module_end : ℕ) (vm : VmState)
    → (leb module_end vm.pc || ltb vm.pc m.addr) ≡ true
    → run_instruction host m module_end vm ≡ finishes vm
unfolding run_instruction
finishes_outside host m module_end vm h = rw h refl

execute-some :
    (host : Host) (instr raw : ℕ) (vm : VmState) {op : Handler}
    → op_ex host (opc instr) ≡ some op
    → execute host instr (raw, vm) ≡ continues (update_time host (advance vm.pc (op vm raw)))
unfolding execute
execute-some host instr raw vm o = rw (o, execute) refl

execute-none :
    (host : Host) (instr raw : ℕ) (vm : VmState)
    → op_ex host (opc instr) ≡ none
    → execute host instr (raw, vm) ≡ finishes (record vm { running = false })
unfolding execute
execute-none host instr raw vm o = rw (o, execute) refl

module _ (host : Host) (m : ModuleInfo) (module_end : ℕ) where
  -- An instruction at a cached address, inside module and memory and at a word that is not zero,
  -- runs the handler of the opcode that the memory holds on the word that the cache holds, and then
  -- the program counter and the time are advanced; the two words need not be the same.
  cached_operands :
      (vm : VmState) (raw : ℕ) (op : Handler)
      → IsFetched m module_end vm
      → vm.decoded_cache vm.pc ≡ some raw
      → op_ex host (opc (mr32 vm vm.pc)) ≡ some op
      → run_instruction host m module_end vm
        ≡ continues (update_time host (advance vm.pc (op vm raw)))
  unfolding run_instruction decode_instruction execute
  cached_operands vm raw op f c o =
      rw (inside f) (rw (not_end f) (rw c (execute-some host (mr32 vm vm.pc) raw vm o)))

  -- With a cache that agrees with the memory, an instruction whose opcode has a handler, at a
  -- program counter inside module and memory and at a word that is not zero, runs that handler on
  -- the word in memory and then advances program counter and time; the handler finds the machine as
  -- it was, but for the cache, which still agrees with the memory.
  pub fetched_operands :
      (vm : VmState) (op : Handler)
      → IsCoherent vm
      → IsFetched m module_end vm
      → op_ex host (opc (mr32 vm vm.pc)) ≡ some op
      → (cache : ℕ → Option ℕ) × (let vm' = record vm { decoded_cache = cache } in
          IsCoherent vm'
          × (run_instruction host m module_end vm
              ≡ continues (update_time host (advance vm.pc (op vm' (mr32 vm vm.pc))))))
  unfolding run_instruction decode_instruction execute
  fetched_operands vm op c f o = elim (Option-cases (vm.decoded_cache vm.pc)) [
    | inl e ↦ (
      update vm.decoded_cache vm.pc (some (mr32 vm vm.pc)),
      (
        cached_vm-IsCoherent vm c,
        rw (inside f) (
            rw (not_end f) (
              rw e (
                rw (readable f)
                  (execute-some host (mr32 vm vm.pc) (mr32 vm vm.pc) (cached_vm vm) o)))),
      ),
    )
    | inr (raw, e) ↦ (
      vm.decoded_cache,
      (
        c,
        cached_operands vm raw op f e o
            ∙ ap (λ r. continues (update_time host (advance vm.pc (op vm r))))
                (c.entry vm.pc raw e),
      ),
    )
  ]

  -- An opcode without a handler stops the machine and ends the module; no register and no byte
  -- changes.
  pub invalid_opcode :
      (vm : VmState)
      → IsFetched m module_end vm
      → op_ex host (opc (mr32 vm vm.pc)) ≡ none
      → (vm' : VmState) × (run_instruction host m module_end vm ≡ finishes vm')
        × (vm'.running ≡ false)
        × (vm'.reg ≡ vm.reg)
        × (vm'.mem ≡ vm.mem)
  unfolding run_instruction decode_instruction execute
  invalid_opcode vm f o = elim (Option-cases (vm.decoded_cache vm.pc)) [
    | inl e ↦ (
      record vm { running = false; decoded_cache = (cached_vm vm).decoded_cache },
      rw (inside f) (
          rw (not_end f) (
            rw e (
              rw (readable f)
                (execute-none host (mr32 vm vm.pc) (mr32 vm vm.pc) (cached_vm vm) o)))),
      refl,
      refl,
      refl,
    )
    | inr (raw, e) ↦ (
      record vm { running = false },
      rw (inside f) (rw (not_end f) (rw e (execute-none host (mr32 vm vm.pc) raw vm o))),
      refl,
      refl,
      refl,
    )
  ]

  -- With a cache that agrees with the memory: an immediate JMP, at a program counter inside the
  -- memory and a module that starts at address 128 or above and ends at 2 ^ 32 - 128 or below, sets
  -- the program counter to the signed immediate, and then the next instruction ends the module.
  pub immediate_jump_ends :
      (host' : Host) (vm : VmState)
      → IsCoherent vm
      → IsFetched m module_end vm
      → op_ex host (opc (mr32 vm vm.pc)) ≡ some op_jmp
      → fimm (mr32 vm vm.pc) ≡ true
      → 128 ≤ m.addr
      → module_end ≤ u32_mod - 128
      → (vm' : VmState) × (run_instruction host m module_end vm ≡ continues vm')
        × (vm'.pc ≡ sextimm8 (mr32 vm vm.pc))
        × (run_instruction host' m module_end vm' ≡ finishes vm')
  immediate_jump_ends host' vm c f o h lo hi =
      let i = mr32 vm vm.pc in
      let (cache, (coherent, e)) = fetched_operands vm op_jmp c f o in
      let jumped = op_jmp (record vm { decoded_cache = cache }) i in
      let to : jumped.pc ≡ sextimm8 i = immediate_jump (record vm { decoded_cache = cache }) i h in
      let out = outside i m.addr module_end lo hi in
      let at : (update_time host (advance vm.pc jumped)).pc ≡ sextimm8 i =
        update_time-pc host (advance vm.pc jumped)
        ∙ advance_away vm.pc jumped
            (ap (λ x. x == vm.pc) to ∙ elsewhere m module_end _ vm.pc out (inside f))
        ∙ to in
      (
        update_time host (advance vm.pc jumped),
        e,
        at,
        finishes_outside host' m module_end _ (ap (λ x. leb module_end x || ltb x m.addr) at ∙ out),
      )

-- A JMP to its own address is not taken: the program counter goes to the next instruction.
pub self_jump :
    (vm : VmState) (i : ℕ)
    → jump_target vm i ≡ vm.pc
    → (advance vm.pc (op_jmp vm i)).pc ≡ add32 vm.pc 4
unfolding advance op_jmp
self_jump vm i h = ground (arith, h)
