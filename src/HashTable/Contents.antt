-- ===== src/HashTable/Contents.antt =====
-- The contents of a hash table, the bin `hash_table_insert_internal` chooses, and
-- `hash_table_lookup`.
use virtual_machine.Prelude.{
  ℕ, false, ◌<◌, ◌≡◌, ◌⊎◌, arith, Option, none, some, sym, ◌∙◌, ap, refl, inl, inr,
}
use virtual_machine.HashTable.{KeyType, HashTable, probe, find_empty, target_bin, hash_table_lookup}
use virtual_machine.HashTable.Search.{first_bin_lem}
use virtual_machine.HashTable.Sound.{KeyLaws, IsSound, occupied-in_probe}
use virtual_machine.HashTable.Store.{IsTarget}
use virtual_machine.HashTable.Find.{LacksKey, find_key_lem, inside, open_bin}

module _ {K V : Type 0} where
  -- A bin holds the key with the value.
  pub record HasEntry (t : HashTable K V) (key : K) (val : Option V) : Type 0 where
    pub bin : ℕ
    pub below : bin < t.size
    pub is_full : (t.bins bin).is_empty ≡ false
    pub is_key : (t.bins bin).key ≡ key
    pub is_val : (t.bins bin).val ≡ val

  pub record HasKey (t : HashTable K V) (key : K) : Type 0 where
    pub bin : ℕ
    pub below : bin < t.size
    pub is_full : (t.bins bin).is_empty ≡ false
    pub is_key : (t.bins bin).key ≡ key

module _ {K V : Type 0} (kt : KeyType K) (laws : KeyLaws kt) (t : HashTable K V)
    (sound : IsSound kt t) where
  find_empty_lem :
      (key : K)
      → LacksKey kt laws t sound key
      → (j : ℕ) × (find_empty t (kt.hash key) ≡ some j) × IsTarget kt t key j
  unfolding find_empty
  find_empty_lem key absent =
      let (d, lt, unused) = open_bin kt laws t sound (kt.hash key) in
      let (j, found, first) =
        first_bin_lem (λ b. b.is_empty) t.bins (kt.hash key) t.size t.size 0 d (omega arith)
          (omega arith)
          (sound.fresh (probe (kt.hash key) d t.size) (inside kt laws t sound (kt.hash key) d)
            unused) in
      (
        j,
        found,
        record {
          inside = rw (sym first.here) (inside kt laws t sound (kt.hash key) first.steps);
          way = record {
            steps = first.steps;
            below = omega (arith, first.below);
            here = first.here;
            before = λ i below.
                occupied-in_probe {kt = kt} {t = t} (probe (kt.hash key) i t.size) sound
                  (inside kt laws t sound (kt.hash key) i) (first.before i (omega arith) below);
          };
          own = λ full. absurd (let e = first.stops in cc);
          alone = λ i lt' ne full. absent i lt' full;
        },
      )

  pub target_bin_lem :
      (key : K) → (j : ℕ) × (target_bin kt t (kt.hash key) key ≡ some j) × IsTarget kt t key j
  unfolding target_bin
  target_bin_lem key =
      let (j, found, lt, way, result) = find_key_lem kt laws t sound key in
      elim result [
        | inl holds ↦ (
          j,
          rw (found, target_bin, holds.in_probe) refl,
          record {
            inside = lt;
            way = way;
            own = λ full. holds.is_key;
            alone = λ i lt' ne full same.
                ne (sound.unique i j lt' lt full holds.is_full (same ∙ sym holds.is_key));
          },
        )
        | inr (unused, absent) ↦
            let (e, empty, target) = find_empty_lem key absent in
            (e, rw (found, target_bin, unused) empty, target)
      ]

  pub HasKey-or_not : (key : K) → HasKey t key ⊎ ¬ HasKey t key
  HasKey-or_not key =
      let (j, found, lt, way, result) = find_key_lem kt laws t sound key in
      elim result [
        | inl holds ↦
            inl (record { bin = j; below = lt; is_full = holds.is_full; is_key = holds.is_key })
        | inr (unused, absent) ↦ inr (λ has. absent has.bin has.below has.is_full has.is_key)
      ]

  -- The lookup of a key that is there returns its value.
  pub lookup-entry :
      {key : K} {val : Option V} → HasEntry t key val → hash_table_lookup kt t key ≡ some val
  unfolding hash_table_lookup
  lookup-entry {key} {val} entry =
      let (j, found, lt, way, result) = find_key_lem kt laws t sound key in
      elim result [
        | inl holds ↦
            let same : entry.bin ≡ j =
              sound.unique entry.bin j entry.below lt entry.is_full holds.is_full
                (entry.is_key ∙ sym holds.is_key) in
            rw (found, hash_table_lookup, holds.in_probe)
              (ap some (sym (ap (λ b. (t.bins b).val) same) ∙ entry.is_val))
        | inr (unused, absent) ↦ absurd (absent entry.bin entry.below entry.is_full entry.is_key)
      ]

  pub lookup_absent : (key : K) → ¬ HasKey t key → hash_table_lookup kt t key ≡ some none
  unfolding hash_table_lookup
  lookup_absent key absent =
      let (j, found, lt, way, result) = find_key_lem kt laws t sound key in
      elim result [
        | inl holds ↦ absurd (
            absent (record { bin = j; below = lt; is_full = holds.is_full; is_key = holds.is_key }))
        | inr (unused, none_has) ↦ rw (found, hash_table_lookup, unused) refl
      ]
