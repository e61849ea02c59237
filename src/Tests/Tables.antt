-- ===== src/Tests/Tables.antt =====
-- The hash table and the tables of a machine, from their creation on.
use virtual_machine.Prelude.{
  ℕ, true, ◌+◌, ◌^◌, ◌<◌, ◌≤◌, ◌≡◌, ◌≢◌, arith, some, none, List, [], ◌∷◌, run_all, ◌%◌,
}
use virtual_machine.Word.{u32_mod, u32_max}
use virtual_machine.HashTable.{HashTable, hash_table_create, hash_table_insert, hash_table_lookup}
use virtual_machine.HashTable.Map.{
  IsConsistent, created, hash_table_create-IsConsistent, hash_table_insert_lem, lookup-HasKey,
}
use virtual_machine.HashTable.History.{
  Change, put, remove, run_changes, run_changes-written, Represents, written_all, created_used,
  created-Represents,
}
use virtual_machine.HashTable.Active.{hash_table_insert-active}
use virtual_machine.Lifecycle.{calloc_vm}
use virtual_machine.Tables.{Tables, uint32_key_type, vm_tables_init, bp_is_set, labels_lookup}
use virtual_machine.Tables.Keys.{uint32_key_type-KeyLaws}
use virtual_machine.Tables.Breakpoints.{BpCall, set_at, clear_at, call_bp, bp_is_set-calls}
use virtual_machine.Tables.Labels.{labels_add_all, labels_add-lookup}
use virtual_machine.Tables.Decoded.{IsDecoded, Matches, decode_instruction-cached}

abbrev three_changes : List (Change ℕ ℕ)
three_changes = put 5 7 ∷ put 13 9 ∷ remove 5 ∷ []

run_changes-written_example :
    (t : HashTable ℕ ℕ) × (run_changes uint32_key_type
        (hash_table_create uint32_key_type)
        three_changes
      ≡ some t)
    × Represents uint32_key_type t (written_all uint32_key_type (λ k. none) three_changes)
run_changes-written_example =
    run_changes-written uint32_key_type uint32_key_type-KeyLaws three_changes (omega arith)

abbrev none_yet : HashTable ℕ ℕ
none_yet = created uint32_key_type

-- A table that has the value 7 for the key 5.
abbrev WithFive : Type 0
WithFive =
    (t : HashTable ℕ ℕ) × (hash_table_insert uint32_key_type none_yet 5 7 ≡ some t)
    × IsConsistent uint32_key_type t
    × (t.used ≤ none_yet.used + 1)
    × (hash_table_lookup uint32_key_type t 5 ≡ some (some 7))
    × ((k : ℕ)
        → k ≢ 5
        → hash_table_lookup uint32_key_type t k ≡ hash_table_lookup uint32_key_type none_yet k)

five : WithFive
five =
    hash_table_insert_lem uint32_key_type uint32_key_type-KeyLaws none_yet 5 7
      (hash_table_create-IsConsistent uint32_key_type)
      (omega (arith, created_used ℕ uint32_key_type))

hash_table_insert-active_example :
    (t : HashTable ℕ ℕ) × (hash_table_insert uint32_key_type five.0 5 8 ≡ some t)
    × (t.active ≡ (five.0.active + u32_max) % u32_mod)
hash_table_insert-active_example =
    hash_table_insert-active uint32_key_type uint32_key_type-KeyLaws five.0 5 8 five.2
      (lookup-HasKey uint32_key_type uint32_key_type-KeyLaws five.0 5 7 five.2 five.4)

abbrev bp_calls : List BpCall
bp_calls = set_at 256 ∷ set_at 260 ∷ clear_at 256 ∷ []

bp_is_set-calls_example :
    (ts : Tables) × (run_all call_bp vm_tables_init bp_calls ≡ some ts)
    × (bp_is_set ts 260 ≡ some true)
bp_is_set-calls_example = bp_is_set-calls bp_calls 260 (omega arith)

-- The label "m" at two addresses, one after the other.
abbrev two_labels : List (List ℕ × ℕ)
two_labels = (109 ∷ [], 256) ∷ (109 ∷ [], 512) ∷ []

labels_add-lookup_example :
    (ts : Tables) × (labels_add_all vm_tables_init two_labels ≡ some ts)
    × (labels_lookup ts (109 ∷ []) ≡ some (some 512))
labels_add-lookup_example = labels_add-lookup two_labels (109 ∷ []) (omega arith)

nothing_decoded : Matches calloc_vm vm_tables_init
unfolding calloc_vm vm_tables_init
nothing_decoded = created-Represents uint32_key_type uint32_key_type-KeyLaws

few_decoded : vm_tables_init.decoded_cache.used < 2 ^ 30
unfolding vm_tables_init hash_table_create
few_decoded = omega arith

decode_instruction-cached_example : IsDecoded calloc_vm vm_tables_init 256
decode_instruction-cached_example =
    decode_instruction-cached calloc_vm vm_tables_init 256 nothing_decoded few_decoded
