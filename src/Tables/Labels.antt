-- ===== src/Tables/Labels.antt =====
-- The table of labels is a map from the names to the addresses.
use virtual_machine.Prelude.{
  ℕ, ◌+◌, ◌^◌, ◌≤◌, ◌≡◌, refl, ap, arith, List, [], ◌∷◌, length, Option, none, some, if◌then◌else◌,
  run_all, run_all-some,
}
use virtual_machine.HashTable.History.{
  put, Represents, changed_lem, created-Represents, created_used,
}
use virtual_machine.Tables.{
  Tables, string_key_type, same_string, vm_tables_init, labels_add, labels_lookup, with_labels,
}
use virtual_machine.Tables.Keys.{string_key_type-KeyLaws}

-- A sequence of calls of `labels_add`.
abbrev pub labels_add_all : Tables → List (List ℕ × ℕ) → Option Tables
labels_add_all = run_all (λ ts l. labels_add ts l.0 l.1)

-- The address of the last label of that name in the list, or else `o`.
abbrev last_label : List (List ℕ × ℕ) → List ℕ → Option ℕ → Option ℕ
last_label [] name o = o
last_label (l ∷ ls) name o = last_label ls name (if same_string l.0 name then some l.1 else o)

labels_add_from :
    (ls : List (List ℕ × ℕ)) (ts : Tables) (m : List ℕ → Option ℕ)
    → Represents string_key_type ts.labels m
    → ts.labels.used + length ls ≤ 2 ^ 30
    → (ts' : Tables) × (labels_add_all ts ls ≡ some ts')
      × ((name : List ℕ) → labels_lookup ts' name ≡ some (last_label ls name (m name)))
unfolding labels_add labels_lookup string_key_type
labels_add_from [] ts m rep limit = (ts, refl, rep.same)
labels_add_from (l ∷ ls) ts m rep limit =
    let (t, one, rep', le) =
      changed_lem string_key_type string_key_type-KeyLaws ts.labels m (put l.0 l.1) rep
        (omega (arith, limit)) in
    let (ts', rest, found) =
      labels_add_from ls (record ts { labels = t })
        (λ k. if same_string l.0 k then some l.1 else m k) rep' (omega (arith, limit, le)) in
    (
      ts',
      run_all-some (λ t l. labels_add t l.0 l.1) ts (record ts { labels = t }) l ls
          (ap (with_labels ts) one) rest,
      found,
    )

-- After up to 2 ^ 30 labels are added to fresh tables, all of which succeed, the lookup of a name
-- gives the address of the last label of that name, and nothing for other names.
pub labels_add-lookup :
    (ls : List (List ℕ × ℕ)) (name : List ℕ)
    → length ls ≤ 2 ^ 30
    → (ts : Tables) × (labels_add_all vm_tables_init ls ≡ some ts)
      × (labels_lookup ts name ≡ some (last_label ls name none))
unfolding vm_tables_init
labels_add-lookup ls name limit =
    let (ts, done, found) =
      labels_add_from ls vm_tables_init (λ k. none)
        (created-Represents string_key_type string_key_type-KeyLaws)
        (omega (arith, limit, created_used ℕ string_key_type)) in
    (ts, done, found name)
