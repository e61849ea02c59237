-- ===== src/HashTable/History.antt =====
-- Sequences of insertions and deletions, and the map they describe.
use virtual_machine.Prelude.{
  ◌+◌, ◌^◌, ◌≤◌, ◌<◌, ◌≡◌, ◌≢◌, arith, Option, none, some, Bool-cases, sym, ◌∙◌, ap, refl, inl, inr,
  List, [], ◌∷◌, length, if◌then◌else◌, run_all, run_all-some,
}
use virtual_machine.HashTable.{
  KeyType, HashTable, min_table_size, hash_table_create, hash_table_insert, hash_table_lookup,
  hash_table_delete,
}
use virtual_machine.HashTable.Sound.{KeyLaws}
use virtual_machine.HashTable.Contents.{lookup_absent}
use virtual_machine.HashTable.Rehash.{fresh_table_none, fresh_table_counts}
use virtual_machine.HashTable.Map.{
  IsConsistent, created, hash_table_create-IsConsistent, hash_table_insert_lem,
  hash_table_delete-lookup,
}

-- A call of `hash_table_insert` or `hash_table_delete`.
pub data Change (K V : Type 0) : Type 0 where
  put : K → V → Change K V
  remove : K → Change K V

module _ {K V : Type 0} (kt : KeyType K) where
  abbrev pub changed : HashTable K V → Change K V → Option (HashTable K V)
  changed t (put key value) = hash_table_insert kt t key value
  changed t (remove key) = hash_table_delete kt t key

  abbrev pub run_changes : HashTable K V → List (Change K V) → Option (HashTable K V)
  run_changes = run_all changed

  -- The map as a function, and the effect of a call on it.
  abbrev pub written : (K → Option V) → Change K V → K → Option V
  written m (put key value) k = if kt.cmp key k then some value else m k
  written m (remove key) k = if kt.cmp key k then none else m k

  abbrev pub written_all : (K → Option V) → List (Change K V) → K → Option V
  written_all m [] = m
  written_all m (c ∷ cs) = written_all (written m c) cs

  -- The table stands for the map.
  pub record Represents (t : HashTable K V) (m : K → Option V) : Type 0 where
    pub table : IsConsistent kt t
    pub same : (k : K) → hash_table_lookup kt t k ≡ some (m k)

module _ {K V : Type 0} (kt : KeyType K) (laws : KeyLaws kt) where
  -- One key has a new value and the others have theirs.
  agree :
      (m : K → Option V) (key : K) (o : Option V) (lookup : K → Option (Option V))
      → lookup key ≡ some o
      → ((k : K) → k ≢ key → lookup k ≡ some (m k))
      → (k : K) → lookup k ≡ some (if kt.cmp key k then o else m k)
  agree m key o lookup here there k = elim (Bool-cases (kt.cmp key k)) [
    | inl e ↦ rw e (ap lookup (sym (laws.cmp-eq key k e)) ∙ here)
    | inr e ↦
        rw e (there k (λ same. absurd (let self = ap (kt.cmp key) same ∙ laws.cmp_self key in cc)))
  ]

  pub changed_lem :
      (t : HashTable K V) (m : K → Option V) (c : Change K V)
      → Represents kt t m
      → t.used < 2 ^ 30
      → (t' : HashTable K V) × (changed kt t c ≡ some t')
        × Represents kt t' (written kt m c)
        × (t'.used ≤ t.used + 1)
  changed_lem t m (put key value) rep limit =
      let (t', done, table, le, here, there) =
        hash_table_insert_lem kt laws t key value rep.table limit in
      (
        t',
        done,
        record {
          table = table;
          same =
              agree m key (some value) (hash_table_lookup kt t') here
                (λ k ne. there k ne ∙ rep.same k);
        },
        le,
      )
  changed_lem t m (remove key) rep limit =
      let (t', done, table, le, here, there) = hash_table_delete-lookup kt laws t key rep.table in
      (
        t',
        done,
        record {
          table = table;
          same = agree m key none (hash_table_lookup kt t') here (λ k ne. there k ne ∙ rep.same k);
        },
        omega (arith, le),
      )

  pub run_changes-from :
      (cs : List (Change K V)) (t : HashTable K V) (m : K → Option V)
      → Represents kt t m
      → t.used + length cs ≤ 2 ^ 30
      → (t' : HashTable K V) × (run_changes kt t cs ≡ some t')
        × Represents kt t' (written_all kt m cs)
  run_changes-from [] t m rep limit = (t, refl, rep)
  run_changes-from (c ∷ cs) t m rep limit =
      let (t₁, one, rep₁, le) = changed_lem t m c rep (omega (arith, limit)) in
      let (t', rest, rep') =
        run_changes-from cs t₁ (written kt m c) rep₁ (omega (arith, limit, le)) in
      (t', run_all-some (changed kt) t t₁ c cs one rest, rep')

  pub created-Represents : Represents kt (created {V = V} kt) (λ k. none)
  unfolding hash_table_create
  created-Represents =
      let table = hash_table_create-IsConsistent {V = V} kt in
      record {
        table = table;
        same = λ k.
            lookup_absent kt laws (created {V = V} kt) table.sound k
              (fresh_table_none kt min_table_size k);
      }

  -- With keys that the comparison decides: up to 2 ^ 30 insertions and deletions, in any order, all
  -- return from a created table, whatever collides and however often the table is resized, and
  -- leave a table that keeps its invariant and in which the lookup of every key gives the value
  -- written last, or none if the key was deleted last or never written.
  pub run_changes-written :
      (cs : List (Change K V))
      → length cs ≤ 2 ^ 30
      → (t : HashTable K V) × (run_changes kt (hash_table_create kt) cs ≡ some t)
        × Represents kt t (written_all kt (λ k. none) cs)
  unfolding hash_table_create
  run_changes-written cs limit =
      run_changes-from cs (created kt) (λ k. none) created-Represents
        (omega (arith, limit, (fresh_table_counts V kt min_table_size).1))

pub created_used : {K : Type 0} (V : Type 0) (kt : KeyType K) → (created {V = V} kt).used ≡ 0
unfolding hash_table_create
created_used V kt = (fresh_table_counts V kt min_table_size).1
