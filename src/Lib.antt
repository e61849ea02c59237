-- ===== src/Lib.antt =====
-- VM32, the virtual machine for controllers of prototype-integrator: its instructions, the IEC
-- function blocks behind them, the execution of programs in cycles, the assembler and the log.
--
-- A program is assembled by tools/converter.c to 32-bit words, opcode:7 A:8 B:8 FIMM:1 C:8. At the
-- start, main reads the options and loads the program files of a directory into the memory, each as
-- a module. The machine keeps one state; vm_run_instruction fetches the word at the program counter,
-- finds the handler of its opcode in a table, runs it on the state and advances the program counter
-- and the virtual time. vm_run_module repeats this within a module. In each cycle run_program
-- reloads the files if the directory has changed, runs all modules once, updates the timers and
-- hashes the registers. Labels, breakpoints and decoded instructions are in hash tables.
--
-- The files, and the code they model (paths below prototype-integrator):
--   Machine        vm_state_t, vm_mr32, vm_mw32 of include/main.h; the operand macros Bv, Cv,
--                  Cv_or_imm, SetA_val of include/funcs.h; Machine/Frame: what an instruction keeps
--   Instruction    the fields of an instruction word, include/funcs.h; Instruction/Encoding: the
--                  word that tools/converter.c builds of them
--   Assembler      tools/converter.c: the operand checks; Assembler/Opcodes: its op_table;
--                  Assembler/Text: the lines, tokens and operands of a source, and the output
--   Toolchain      from a source through the assembler and the loader to the words in memory
--   Debug          src/debug.c: the text of an instruction; Debug/Log: the log around an instruction;
--                  Debug/Dump: the dump of memory; Debug/NonZero: the list of its bytes that are not 0
--   Timers         update_ton, update_tof, update_tp, update_tonr, update_tofr of src/timers.c
--   Ops            the handlers op_* of src/funcs.c, one file for each group of instructions;
--                  Ops/TimerOps has the rest of src/timers.c
--   OpTable        default_op_ex of src/vm_lifecycle.c
--   Runtime        vm_run_instruction, vm_run_module, vm_update_time_after_instruction of
--                  src/vm_runtime.c, decode_instruction_cached of src/vm_tables.c
--                  Runtime/Steps: a module's run as a sequence of instructions
--   Cycle          one pass of the loop of run_program, src/vm_runtime.c
--   Program        run_program as a whole, src/vm_runtime.c
--   Perf           the measured times of src/vm_runtime.c, vm_get_elapsed_ms and vm_wait_for_tick of
--                  src/vm_helpers.c
--   Cleanup        src/cleanup.c
--   Hashing        FNV-1a, CRC-32 and the hashes made with them, src/hashing.c; Hashing/Serial: the
--                  CRC-32 bit by bit, and Hashing/Cancel and Hashing/Detects about what it detects;
--                  Hashing/Incremental: the hashes of single registers
--   HashTable      the hash table of src/hashing.c; the children, in their order: the probing
--                  sequence (Probe, Search), the invariant (Sound), searching (Find), one write to
--                  the bins (Store, Free), resizing (Rehash, Resize), the operations (Insert,
--                  Delete, Map) and sequences of them (History)
--   Tables         src/vm_tables.c with the key types of src/hashing.c
--   Loader         load_programs of src/loader.c
--   HotReload      src/hot_reload.c, and its place in run_program
--   CommandLine    the options and the configuration, src/vm_helpers.c; CommandLine/Apply: their
--                  application, and the start of main, src/main.c
--   Lifecycle      defaults, creation and reset, src/vm_lifecycle.c
--   Host           what the code takes from the C library
--   Prelude, Word  shared names, lists, maps and unsigned arithmetic; Tests: concrete inputs
--
-- A C function on `vm_state_t *vm` becomes a function on the record VmState that returns the new
-- record; an array is a function from the index; a word is a natural number below 2 ^ 32, with the
-- wrap-around written out. The libm functions, the local time and the monotonic clock are the record
-- Host, a parameter; that a conversion to uint32_t gives a word is the hypothesis GivesWords, and
-- that localtime_r gives a valid structure is IsTm.
--
-- Bounds: the loop of a module recurs on the number of instructions that its limit
-- MAX_INSTRUCTIONS leaves, so it needs no other fuel; the loop of a string's length recurs on the
-- bytes that are left of the memory. The passes of a program are a list, one entry for each pass.
--
-- The hash table's insertion and its resizing call each other; the fuel bounds the depth of the calls.
-- An insertion has the depth 2, which is enough: a table that has outgrown its size fills one twice
-- as large, which need not grow again. The loop over a file's blocks has more fuel than bytes.
--
-- A text is a list of bytes. The lines of a source are read with its length as fuel, since each call
-- of fgets takes at least one byte; a decimal numeral of 32 bits has ten digits at most.
--
-- What the system says of files and directories, getopt_long, strtoul, strtol, strcasecmp and qsort are
-- parameters; that strtol reads decimals is the hypothesis ReadsDecimals.
--
-- Not modelled: what is printed, but for the text of instructions and the entries of the log; the
-- release of memory and failures of malloc; the hash of the machine's whole state, which reads the
-- layout of C structures; the copy of the machine below system-master and the components around it.
-- The machine's state has the cache of decoded instructions as a map; Tables/Decoded relates it to
-- the hash table.
--
-- Read more simply than in C: a memcpy between parts of the memory that overlap, which C leaves open,
-- copies as memmove does; the two looks of a pass at the directory, for its signature and for a
-- reload, see the same files; a word fetched within three bytes of the end of the memory reads bytes
-- behind it, which the record has and C need not.
pub mod Prelude
pub mod Word
pub mod Instruction
pub mod Timers
pub mod Machine
pub mod Host
pub mod Ops
pub mod OpTable
pub mod Assembler
pub mod Debug
pub mod Runtime
pub mod Hashing
pub mod Lifecycle
pub mod Cycle
pub mod HashTable
pub mod Tables
pub mod Loader
pub mod Toolchain
pub mod HotReload
pub mod Program
pub mod Perf
pub mod Cleanup
pub mod CommandLine
mod Tests
