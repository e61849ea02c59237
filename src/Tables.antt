-- ===== src/Tables.antt =====
-- The tables of a machine, prototype-integrator/src/vm_tables.c: labels, breakpoints and decoded
-- instructions, each a hash table of prototype-integrator/src/hashing.c, with its key types. A table
-- is created, so the checks for a null pointer do not fail. An outer `none` is a failed assertion
-- inside the hash table.
pub mod Keys
pub mod Breakpoints
pub mod Labels
pub mod Decoded
use virtual_machine.Prelude.{
  ℕ, Bool, true, false, ◌-◌, ◌/◌, ◌%◌, ◌^◌, ◌&&◌, ◌==◌, leb, if◌then◌else◌, Option, none, some,
  List, [], ◌∷◌,
}
use virtual_machine.Hashing.{crc32_of}
use virtual_machine.Instruction.{opc, ra, rb, rc, fimm, imm8}
use virtual_machine.Machine.{VmState, mem_bytes, mr32}
use virtual_machine.HashTable.{
  KeyType, HashTable, hash_table_create, hash_table_insert, hash_table_lookup, hash_table_delete,
  hash_table_contains,
}

-- `strcmp(a, b) == 0`
abbrev pub same_string : List ℕ → List ℕ → Bool
same_string [] [] = true
same_string [] (y ∷ ys) = false
same_string (x ∷ xs) [] = false
same_string (x ∷ xs) (y ∷ ys) = x == y && same_string xs ys

-- `string_key_type`; a string is the list of its bytes before the terminator.
unfoldable pub string_key_type : KeyType (List ℕ)
unfolding crc32_of
string_key_type = record { hash = crc32_of; cmp = same_string; no_key = [] }

-- `uint32_hash`: the bytes of the key in the memory of a little-endian host
unfoldable pub uint32_hash : ℕ → ℕ
unfolding crc32_of
uint32_hash k =
    crc32_of (k % 2 ^ 8 ∷ k / 2 ^ 8 % 2 ^ 8 ∷ k / 2 ^ 16 % 2 ^ 8 ∷ k / 2 ^ 24 % 2 ^ 8 ∷ [])

-- `uint32_key_type`
unfoldable pub uint32_key_type : KeyType ℕ
unfolding uint32_hash
uint32_key_type = record { hash = uint32_hash; cmp = λ a b. a == b; no_key = 0 }

-- `decoded_instr_t`
pub record DecodedInstr : Type 0 where
  pub raw_instr : ℕ
  pub opcode : ℕ
  pub ra : ℕ
  pub rb : ℕ
  pub rc : ℕ
  pub has_immediate : Bool
  pub immediate : ℕ

-- The three tables of `vm_state_t`.
pub record Tables : Type 0 where
  pub labels : HashTable (List ℕ) ℕ
  pub breakpoints : HashTable ℕ ℕ
  pub decoded_cache : HashTable ℕ DecodedInstr

unfoldable pub vm_tables_init : Tables
unfolding hash_table_create
vm_tables_init = record {
  labels = hash_table_create string_key_type;
  breakpoints = hash_table_create uint32_key_type;
  decoded_cache = hash_table_create uint32_key_type;
}

-- A table put back into the machine's tables.
abbrev pub with_labels : Tables → Option (HashTable (List ℕ) ℕ) → Option Tables
with_labels ts none = none
with_labels ts (some t) = some (record ts { labels = t })

abbrev pub with_breakpoints : Tables → Option (HashTable ℕ ℕ) → Option Tables
with_breakpoints ts none = none
with_breakpoints ts (some t) = some (record ts { breakpoints = t })

unfoldable pub labels_add : Tables → List ℕ → ℕ → Option Tables
unfolding hash_table_insert
labels_add ts name addr = with_labels ts (hash_table_insert string_key_type ts.labels name addr)

unfoldable pub labels_lookup : Tables → List ℕ → Option (Option ℕ)
unfolding hash_table_lookup
labels_lookup ts name = hash_table_lookup string_key_type ts.labels name

unfoldable pub bp_set : Tables → ℕ → Option Tables
unfolding hash_table_insert
bp_set ts addr = with_breakpoints ts (hash_table_insert uint32_key_type ts.breakpoints addr 1)

unfoldable pub bp_clear : Tables → ℕ → Option Tables
unfolding hash_table_delete
bp_clear ts addr = with_breakpoints ts (hash_table_delete uint32_key_type ts.breakpoints addr)

unfoldable pub bp_is_set : Tables → ℕ → Option Bool
unfolding hash_table_contains
bp_is_set ts addr = hash_table_contains uint32_key_type ts.breakpoints addr

-- The fields that `decode_instruction_cached` fills in.
unfoldable pub decode : ℕ → DecodedInstr
unfolding opc ra rb rc fimm imm8
decode instr = record {
  raw_instr = instr;
  opcode = opc instr;
  ra = ra instr;
  rb = rb instr;
  rc = rc instr;
  has_immediate = fimm instr;
  immediate = if fimm instr then imm8 instr else 0;
}

-- The entry of an address, `none` for the null pointer, and the tables after the call. The word is
-- read from the memory of `vm`.
unfoldable pub decode_instruction_cached :
    VmState → Tables → ℕ → Option (Option DecodedInstr × Tables)
unfolding hash_table_lookup hash_table_insert decode
decode_instruction_cached vm ts addr =
    elim (hash_table_lookup uint32_key_type ts.decoded_cache addr) [
      | none ↦ none
      | some (some cached) ↦ some (some cached, ts)
      | some none ↦
          if leb (mem_bytes - 3) addr
          then some (none, ts)
          else elim (hash_table_insert uint32_key_type ts.decoded_cache addr
              (decode (mr32 vm addr))) [
                | none ↦ none
                | some t ↦ some (some (decode (mr32 vm addr)), record ts { decoded_cache = t })
              ]
    ]
