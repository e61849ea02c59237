-- ===== src/HashTable/Map.antt =====
-- The hash table as a finite map: any sequence of insertions and deletions succeeds and leaves the
-- entries that the sequence describes.
use virtual_machine.Prelude.{
  ◌+◌, ◌^◌, ◌≤◌, ◌<◌, ◌≡◌, ◌≢◌, arith, Option, none, some, sym, ◌∙◌, refl, inl, inr,
}
use virtual_machine.HashTable.{
  KeyType, HashTable, min_table_size, hash_table_create, hash_table_insert, hash_table_lookup,
  hash_table_delete,
}
use virtual_machine.HashTable.Sound.{KeyLaws, IsSound}
use virtual_machine.HashTable.Contents.{
  HasEntry, HasKey, HasKey-or_not, lookup-entry, lookup_absent,
}
use virtual_machine.HashTable.Changes.{HasKey-HasEntry}
use virtual_machine.HashTable.Rehash.{fresh_table-IsSound, fresh_table_counts}
use virtual_machine.HashTable.Resize.{IsSparse}
use virtual_machine.HashTable.Insert.{insert_internal_lem}
use virtual_machine.HashTable.Delete.{hash_table_delete_lem}

module _ {K V : Type 0} (kt : KeyType K) where
  -- The invariant between two calls.
  pub record IsConsistent (t : HashTable K V) : Type 0 where
    pub sound : IsSound kt t
    pub sparse : IsSparse t

  abbrev pub created : HashTable K V
  created = hash_table_create kt

  pub hash_table_create-IsConsistent : IsConsistent created
  unfolding hash_table_create
  hash_table_create-IsConsistent =
      let (size, used) = fresh_table_counts V kt min_table_size in
      record {
        sound = fresh_table-IsSound kt min_table_size 3 refl (omega arith) (omega arith);
        sparse = omega (arith, used);
      }

module _ {K V : Type 0} (kt : KeyType K) (laws : KeyLaws kt) where
  lookup-kept :
      (t t' : HashTable K V) (k : K)
      → IsSound kt t
      → IsSound kt t'
      → ((v : Option V) → HasEntry t k v → HasEntry t' k v)
      → (HasKey t' k → HasKey t k)
      → hash_table_lookup kt t' k ≡ hash_table_lookup kt t k
  lookup-kept t t' k sound sound' kept back = elim (HasKey-or_not kt laws t sound k) [
    | inl has ↦
        let entry = HasKey-HasEntry has in
        lookup-entry kt laws t' sound' (kept (t.bins has.bin).val entry)
        ∙ sym (lookup-entry kt laws t sound entry)
    | inr absent ↦
        lookup_absent kt laws t' sound' k (λ has. absent (back has))
        ∙ sym (lookup_absent kt laws t sound k absent)
  ]

  -- With keys that the comparison decides, and a table that keeps its invariant and has fewer than
  -- 2 ^ 30 bins in the probing, an insertion returns a table that keeps the invariant, has at most
  -- one more bin in the probing, gives the new value for the key and the old result for every other
  -- key.
  pub hash_table_insert_lem :
      (t : HashTable K V) (key : K) (value : V)
      → IsConsistent kt t
      → t.used < 2 ^ 30
      → (t' : HashTable K V) × (hash_table_insert kt t key value ≡ some t')
        × IsConsistent kt t'
        × (t'.used ≤ t.used + 1)
        × (hash_table_lookup kt t' key ≡ some (some value))
        × ((k : K) → k ≢ key → hash_table_lookup kt t' k ≡ hash_table_lookup kt t k)
  unfolding hash_table_insert
  hash_table_insert_lem t key value table limit =
      let (t', done, ins, (sparse, fits)) =
        insert_internal_lem kt laws 0 (t.used + 1) 0 t key (some value) (omega (arith, limit))
          table.sound (table.sparse, omega arith) in
      (
        t',
        done,
        record { sound = ins.sound; sparse = sparse },
        ins.one_more,
        lookup-entry kt laws t' ins.sound ins.entry,
        λ k ne.
            lookup-kept t t' k table.sound ins.sound (λ v. ins.kept k v ne)
              (λ has. elim (ins.back k has) [ inl e ↦ absurd (ne e) | inr old ↦ old ]),
      )

  pub hash_table_delete-lookup :
      (t : HashTable K V) (key : K)
      → IsConsistent kt t
      → (t' : HashTable K V) × (hash_table_delete kt t key ≡ some t')
        × IsConsistent kt t'
        × (t'.used ≤ t.used)
        × (hash_table_lookup kt t' key ≡ some none)
        × ((k : K) → k ≢ key → hash_table_lookup kt t' k ≡ hash_table_lookup kt t k)
  hash_table_delete-lookup t key table =
      let (t', done, rem, sparse) = hash_table_delete_lem kt laws t key table.sound table.sparse in
      (
        t',
        done,
        record { sound = rem.sound; sparse = sparse },
        rem.no_more,
        lookup_absent kt laws t' rem.sound key rem.gone,
        λ k ne. lookup-kept t t' k table.sound rem.sound (λ v. rem.kept k v ne) (rem.back k),
      )

  -- A key with a value is there.
  pub lookup-HasKey :
      (t : HashTable K V) (key : K) (value : V)
      → IsConsistent kt t
      → hash_table_lookup kt t key ≡ some (some value)
      → HasKey t key
  lookup-HasKey t key value table h = elim (HasKey-or_not kt laws t table.sound key) [
    | inl has ↦ has
    | inr absent ↦ absurd (
        let e : some none ≡ some (some value) =
          sym (lookup_absent kt laws t table.sound key absent) ∙ h in
        cc)
  ]
