-- ===== src/Tables/Breakpoints.antt =====
-- The table of breakpoints is a set of addresses.
use virtual_machine.Prelude.{
  ℕ, Bool, true, false, ◌+◌, ◌^◌, ◌≤◌, ◌≡◌, ◌==◌, refl, ap, ◌∙◌, arith, List, [], ◌∷◌, length,
  Option, none, some, if◌then◌else◌, run_all, run_all-some,
}
use virtual_machine.HashTable.{HashTable, hash_table_contains, hash_table_lookup}
use virtual_machine.HashTable.History.{
  put, remove, Represents, changed_lem, created-Represents, created_used,
}
use virtual_machine.Tables.{
  Tables, uint32_key_type, vm_tables_init, bp_set, bp_clear, bp_is_set, with_breakpoints,
}
use virtual_machine.Tables.Keys.{uint32_key_type-KeyLaws}

-- A call of `bp_set` or `bp_clear`.
pub data BpCall : Type 0 where
  set_at : ℕ → BpCall
  clear_at : ℕ → BpCall

abbrev pub call_bp : Tables → BpCall → Option Tables
call_bp ts (set_at addr) = bp_set ts addr
call_bp ts (clear_at addr) = bp_clear ts addr

-- Whether the address is in the set after the calls; the last call for it decides.
abbrev pub is_set_after : List BpCall → ℕ → Bool → Bool
is_set_after [] a b = b
is_set_after (set_at addr ∷ cs) a b = is_set_after cs a (if addr == a then true else b)
is_set_after (clear_at addr ∷ cs) a b = is_set_after cs a (if addr == a then false else b)

abbrev has : Option ℕ → Bool
has none = false
has (some v) = true

contains-has :
    (t : HashTable ℕ ℕ) (a : ℕ) (o : Option ℕ)
    → hash_table_lookup uint32_key_type t a ≡ some o
    → hash_table_contains uint32_key_type t a ≡ some (has o)
unfolding hash_table_contains
contains-has t a none e = rw (e, hash_table_contains) refl
contains-has t a (some v) e = rw (e, hash_table_contains) refl

has-if : (b : Bool) (x y : Option ℕ) → has (if b then x else y) ≡ (if b then has x else has y)
has-if true x y = refl
has-if false x y = refl

call_bp_all :
    (cs : List BpCall) (ts : Tables) (m : ℕ → Option ℕ) (a : ℕ)
    → Represents uint32_key_type ts.breakpoints m
    → ts.breakpoints.used + length cs ≤ 2 ^ 30
    → (ts' : Tables) × (run_all call_bp ts cs ≡ some ts')
      × (bp_is_set ts' a ≡ some (is_set_after cs a (has (m a))))
unfolding bp_set bp_clear bp_is_set uint32_key_type
call_bp_all [] ts m a rep limit = (ts, refl, contains-has ts.breakpoints a (m a) (rep.same a))
call_bp_all (set_at addr ∷ cs) ts m a rep limit =
    let (t, one, rep', le) =
      changed_lem uint32_key_type uint32_key_type-KeyLaws ts.breakpoints m (put addr 1) rep
        (omega (arith, limit)) in
    let (ts', rest, found) =
      call_bp_all cs (record ts { breakpoints = t }) (λ k. if addr == k then some 1 else m k) a rep'
        (omega (arith, limit, le)) in
    (
      ts',
      run_all-some call_bp ts (record ts { breakpoints = t }) (set_at addr) cs
          (ap (with_breakpoints ts) one) rest,
      found ∙ ap (λ b. some (is_set_after cs a b)) (has-if (addr == a) (some 1) (m a)),
    )
call_bp_all (clear_at addr ∷ cs) ts m a rep limit =
    let (t, one, rep', le) =
      changed_lem uint32_key_type uint32_key_type-KeyLaws ts.breakpoints m (remove addr) rep
        (omega (arith, limit)) in
    let (ts', rest, found) =
      call_bp_all cs (record ts { breakpoints = t }) (λ k. if addr == k then none else m k) a rep'
        (omega (arith, limit, le)) in
    (
      ts',
      run_all-some call_bp ts (record ts { breakpoints = t }) (clear_at addr) cs
          (ap (with_breakpoints ts) one) rest,
      found ∙ ap (λ b. some (is_set_after cs a b)) (has-if (addr == a) none (m a)),
    )

-- After up to 2 ^ 30 calls of bp_set and bp_clear on fresh tables, all of which return, a
-- breakpoint is set exactly if the last call for its address was bp_set.
pub bp_is_set-calls :
    (cs : List BpCall) (a : ℕ)
    → length cs ≤ 2 ^ 30
    → (ts : Tables) × (run_all call_bp vm_tables_init cs ≡ some ts)
      × (bp_is_set ts a ≡ some (is_set_after cs a false))
unfolding vm_tables_init
bp_is_set-calls cs a limit =
    call_bp_all cs vm_tables_init (λ k. none) a
      (created-Represents uint32_key_type uint32_key_type-KeyLaws)
      (omega (arith, limit, created_used ℕ uint32_key_type))
