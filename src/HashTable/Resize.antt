-- ===== src/HashTable/Resize.antt =====
-- `resize` keeps the contents, and `hash_table_insert_internal` ends: an insertion that grows the
-- table inserts into a table that need not grow.
use virtual_machine.Prelude.{
  ℕ, suc, Bool, true, false, not, ◌*◌, ◌^◌, ◌≤◌, ◌≡◌, arith, Option, some, ◌∙◌, refl, to_nat,
}
use virtual_machine.HashTable.{KeyType, HashTable, resize}
use virtual_machine.HashTable.Count.{count_mono}
use virtual_machine.HashTable.Sound.{IsSound, occupied-in_probe}
use virtual_machine.HashTable.Contents.{HasEntry}
use virtual_machine.HashTable.Changes.{Inserted, SameContents}
use virtual_machine.HashTable.Rehash.{
  occupied, Moved, rehash_lem, fresh_table, fresh_table-IsSound, fresh_table_none,
}

to_nat-not : (a b : Bool) → (b ≡ false → a ≡ true) → to_nat (not b) ≤ to_nat a
to_nat-not true true h = omega arith
to_nat-not true false h = omega arith
to_nat-not false true h = omega arith
to_nat-not false false h = absurd (let e = h refl in cc)

module _ {K V : Type 0} where
  -- At most the half of the bins is in the probing: the load factor's upper bound.
  abbrev pub IsSparse : HashTable K V → Type 0
  IsSparse t = t.used * 2 ≤ t.size

module _ {K V : Type 0} (kt : KeyType K) where
  -- There are no more occupied bins than bins in the probing.
  pub occupied-le-used :
      (t : HashTable K V) (sound : IsSound kt t) → occupied kt t sound t.size 0 ≤ t.used
  occupied-le-used t sound = rw sound.counted (
      count_mono (λ j. not (t.bins j).is_empty) (λ j. (t.bins j).in_probe) t.size 0
        (λ j p q.
          to_nat-not (t.bins j).in_probe (t.bins j).is_empty
            (occupied-in_probe {kt = kt} {t = t} j sound (omega arith))))

  moved_entry :
      (t t' : HashTable K V) (sound : IsSound kt t) (m : Moved kt t sound t.size t') (k : K)
      (v : Option V)
      → HasEntry t k v
      → HasEntry t' k v
  moved_entry t t' sound m k v entry =
      let there = m.moved entry.bin entry.below entry.is_full in
      record {
        bin = there.bin;
        below = there.below;
        is_full = there.is_full;
        is_key = there.is_key ∙ entry.is_key;
        is_val = there.is_val ∙ entry.is_val;
      }

  module _ (t : HashTable K V) (sound : IsSound kt t) (ok : ℕ → HashTable K V → Type 0)
      (insert : HashTable K V → ℕ → K → Option V → Option (HashTable K V))
      (step : (r : ℕ) (t : HashTable K V) (key : K) (val : Option V)
        → IsSound kt t
        → ok (suc r) t
        → (t' : HashTable K V) × (insert t (kt.hash key) key val ≡ some t')
          × Inserted kt t t' key val
          × ok r t') where
    pub resize_lem :
        (new_size exponent : ℕ)
        → new_size ≡ 2 ^ exponent
        → 3 ≤ exponent
        → exponent ≤ 31
        → ok (occupied kt t sound t.size 0) (fresh_table kt new_size)
        → (t' : HashTable K V) × (resize kt insert t new_size ≡ some t')
          × IsSound kt t'
          × SameContents t t'
          × ok 0 t'
    unfolding resize
    resize_lem new_size exponent e big small good =
        let (t', found, m, fine) =
          rehash_lem kt t sound ok insert step t.size 0 (fresh_table kt new_size) (omega arith) good
            (record {
              sound = fresh_table-IsSound kt new_size exponent e big small;
              moved = λ l lt full. absurd (omega arith);
              only = λ k has. absurd (fresh_table_none kt new_size k has);
            }) in
        (
          t',
          found,
          m.sound,
          record {
            kept = λ k v entry. moved_entry t t' sound m k v entry;
            back = λ k has.
                let (l, lt, full, is) = m.only k has in
                record { bin = l; below = lt; is_full = full; is_key = is };
          },
          fine,
        )
