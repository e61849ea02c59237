-- ===== src/Tests/Running.antt =====
-- The execution of a program, the hashes and the life of a machine. The program is ADD R0, R1, R2 at
-- 0x3000.
use virtual_machine.Prelude.{
  ℕ, true, ◌+◌, ◌*◌, ◌/◌, ◌<◌, ◌≡◌, ◌≢◌, ◌==◌, arith, refl, if◌then◌else◌, Option, [], ◌∷◌, update,
}
use virtual_machine.Word.{add32}
use virtual_machine.Instruction.{opc, fimm, sextimm8}
use virtual_machine.Host.{Host, GivesWords}
use virtual_machine.Machine.{VmState, ModuleInfo, mr32}
use virtual_machine.Machine.Frame.{IsValid, Framed}
use virtual_machine.OpTable.{default_op_ex, op_ex}
use virtual_machine.OpTable.Frame.{op_ex-Framed}
use virtual_machine.Ops.Arithmetic.{op_add}
use virtual_machine.Runtime.{update_time, advance, continues, finishes, run_instruction, run_module}
use virtual_machine.Runtime.Time.{update_time_exact}
use virtual_machine.Runtime.Cache.{IsCoherent, IsFetched, fetched_operands, immediate_jump_ends}
use virtual_machine.Runtime.Steps.{Runs, run_module-Runs}
use virtual_machine.Hashing.{
  crc32_table, crc32_rounds, crc32_round, crc32_update, crc32_finalize, crc32_of,
}
use virtual_machine.Hashing.Incremental.{
  Incremental, vm_update_register_hash, vm_update_all_register_hashes, register_hashes-written,
}
use virtual_machine.Lifecycle.{calloc_vm, default_config}

abbrev pub host : Host
host = record {
  pow = λ x y. 0;
  sqrt = λ x. 0;
  log = λ x. 0;
  log10 = λ x. 0;
  exp = λ x. 0;
  sin = λ x. 0;
  cos = λ x. 0;
  tan = λ x. 0;
  asin = λ x. 0;
  acos = λ x. 0;
  atan = λ x. 0;
  current_tm = record {
    tm_hour = 12;
    tm_min = 34;
    tm_sec = 56;
    tm_year = 125;
    tm_mon = 10;
    tm_mday = 25;
  };
  monotonic_ms = 1000;
}

pub host-GivesWords : GivesWords host
host-GivesWords = record {
  pow_word = λ x y. omega arith;
  sqrt_word = λ x. omega arith;
  log_word = λ x. omega arith;
  log10_word = λ x. omega arith;
  exp_word = λ x. omega arith;
  sin_word = λ x. omega arith;
  cos_word = λ x. omega arith;
  tan_word = λ x. omega arith;
  asin_word = λ x. omega arith;
  acos_word = λ x. omega arith;
  atan_word = λ x. omega arith;
}

abbrev pub program : ModuleInfo
program = record { addr = 12288; size = 4 }

abbrev pub loaded : VmState
loaded = record calloc_vm {
  config = default_config;
  mem = λ a. if a == 12288 then 2 else (if a == 12289 then 2 else 0);
  reg = λ r. 7;
  pc_start = 12288;
  pc = 12288;
  program_size = 4;
  modules = program ∷ [];
}

pub loaded-IsValid : IsValid loaded
unfolding calloc_vm
loaded-IsValid = record {
  regs = λ r. omega arith;
  bytes = λ a. ground arith;
  pc_word = omega arith;
  ctu = λ k. omega arith;
  ctd = λ k. omega arith;
  ctud = λ k. omega arith;
}

loaded-IsCoherent : IsCoherent loaded
unfolding calloc_vm
loaded-IsCoherent = record { entry = λ addr raw h. absurd (cc) }

loaded-IsFetched : IsFetched program 12292 loaded
unfolding mr32
loaded-IsFetched = record {
  from = omega arith;
  below = omega arith;
  in_memory = omega arith;
  word = omega arith;
}

op_ex-Framed_example : Framed 514 loaded (op_add loaded 514)
unfolding op_ex default_op_ex
op_ex-Framed_example = op_ex-Framed host host-GivesWords 0 loaded 514 refl loaded-IsValid

loaded_modules : loaded.modules ≢ []
loaded_modules e = cc

run_module-Runs_example :
    Runs
      (λ n. host)
      program
      12292
      100000
      0
      (record loaded { running = true; pc = 12288 })
      (run_module (λ n. host) program 0 loaded)
unfolding calloc_vm add32
run_module-Runs_example = run_module-Runs (λ n. host) program 0 loaded loaded_modules

fetched_operands_example :
    (cache : ℕ → Option ℕ) × (let vm' = record loaded { decoded_cache = cache } in
      IsCoherent vm'
      × (run_instruction host program 12292 loaded
          ≡ continues (update_time host (advance 12288 (op_add vm' (mr32 loaded 12288))))))
unfolding op_ex default_op_ex opc mr32
fetched_operands_example =
    fetched_operands host program 12292 loaded op_add loaded-IsCoherent loaded-IsFetched refl

-- JMP #100 at 0x3000
abbrev jumping : VmState
jumping = record loaded {
  mem =
      λ a. if a == 12288 then 100 else (if a == 12289 then 1 else (if a == 12291 then 124 else 0));
}

jumping-IsCoherent : IsCoherent jumping
unfolding calloc_vm
jumping-IsCoherent = record { entry = λ addr raw h. absurd (cc) }

jumping-IsFetched : IsFetched program 12292 jumping
unfolding mr32
jumping-IsFetched = record {
  from = omega arith;
  below = omega arith;
  in_memory = omega arith;
  word = omega arith;
}

immediate_jump_ends_example :
    (vm' : VmState) × (run_instruction host program 12292 jumping ≡ continues vm')
    × (vm'.pc ≡ sextimm8 (mr32 jumping 12288))
    × (run_instruction host program 12292 vm' ≡ finishes vm')
unfolding op_ex default_op_ex opc fimm mr32
immediate_jump_ends_example =
    immediate_jump_ends host program 12292 host jumping jumping-IsCoherent jumping-IsFetched refl
      refl (omega arith) (omega arith)

update_time_exact_example :
    ((update_time host loaded).time_ms * 1_000_000 + (update_time host loaded).instr_ns_accum
      ≡ loaded.time_ms * 1_000_000 + loaded.instr_ns_accum + 1_000_000_000 / 100)
    × ((update_time host loaded).instr_ns_accum < 1_000_000)
unfolding calloc_vm
update_time_exact_example =
    update_time_exact host loaded refl (omega arith) (omega arith) (omega arith)

-- The check value of CRC-32, the hash of the digits from 1 to 9.
crc32_check : crc32_of (49 ∷ 50 ∷ 51 ∷ 52 ∷ 53 ∷ 54 ∷ 55 ∷ 56 ∷ 57 ∷ []) ≡ 3421780262
unfolding crc32_of crc32_update crc32_table crc32_rounds crc32_round crc32_finalize
crc32_check = refl

abbrev no_hashes : Incremental
no_hashes = record { reg_hashes = λ r. 0; incremental_hash = 0 }

register_hashes-written_example :
    let vm = record loaded { reg = update loaded.reg 3 9 } in
    (vm_update_register_hash vm (vm_update_all_register_hashes loaded no_hashes) 3).reg_hashes 5
    ≡ (vm_update_all_register_hashes vm no_hashes).reg_hashes 5
register_hashes-written_example =
    register_hashes-written loaded no_hashes 3 9 5 (omega arith) (omega arith)
