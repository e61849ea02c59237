-- ===== src/HashTable/Active.antt =====
-- The counter `active` when a key is written that is there already.
use virtual_machine.Prelude.{
  ℕ, true, false, not, ◌+◌, ◌%◌, ◌≡◌, arith, Option, some, refl, ap, ◌∙◌, inl, inr, to_nat, ◌&&◌,
  if_cases,
}
use virtual_machine.Word.{add32, u32_mod, u32_max}
use virtual_machine.HashTable.{
  KeyType, HashTable, target_bin, store_in_bin, free_bin, is_active_bin, grow, insert_internal,
  hash_table_insert,
}
use virtual_machine.HashTable.Sound.{KeyLaws, store-size, store-used, size-small}
use virtual_machine.HashTable.Find.{find_key_lem}
use virtual_machine.HashTable.Contents.{HasKey}
use virtual_machine.HashTable.Insert.{stays}
use virtual_machine.HashTable.Map.{IsConsistent}

module _ {K V : Type 0} (kt : KeyType K) (laws : KeyLaws kt) where
  -- `store_in_bin` at a bin in use.
  store-active :
      (t : HashTable K V) (j hash_key : ℕ) (key : K) (val : Option V)
      → (t.bins j).in_probe ≡ true
      → (t.bins j).is_empty ≡ false
      → (store_in_bin t j hash_key key val).active ≡ (t.active + u32_max) % u32_mod
  unfolding store_in_bin free_bin is_active_bin add32
  store-active t j hash_key key val used full =
      if_cases {A = HashTable K V} (λ r. r.active ≡ (t.active + u32_max) % u32_mod)
        ((t.bins j).in_probe && not (t.bins j).is_empty) (λ yes. omega (arith, ap to_nat full))
        (λ no. absurd (
          let yes : ((t.bins j).in_probe && not (t.bins j).is_empty) ≡ true =
            rw (used, full) refl in
          cc))

  -- With keys that the comparison decides, and a table that keeps its invariant, the insertion of a
  -- key that is there already returns a table whose count of active bins is one less, modulo 2 ^
  -- 32.
  pub hash_table_insert-active :
      (t : HashTable K V) (key : K) (value : V)
      → IsConsistent kt t
      → HasKey t key
      → (t' : HashTable K V) × (hash_table_insert kt t key value ≡ some t')
        × (t'.active ≡ (t.active + u32_max) % u32_mod)
  unfolding hash_table_insert insert_internal target_bin add32
  hash_table_insert-active t key value table has =
      let (j, found, inside, way, result) = find_key_lem kt laws t table.sound key in
      elim result [
        | inr (unused, absent) ↦ absurd (absent has.bin has.below has.is_full has.is_key)
        | inl holds ↦
            let s = store_in_bin t j (kt.hash key) key (some value) in
            let target : target_bin kt t (kt.hash key) key ≡ some j =
              rw (found, target_bin, holds.in_probe) refl in
            let call : insert_internal kt 2 t (kt.hash key) key (some value)
                ≡ grow kt (insert_internal kt 1) s =
              rw (target, insert_internal) refl in
            let used : s.used ≡ t.used =
              store-used t j (kt.hash key) key (some value)
              ∙ ap (λ b. add32 t.used (to_nat (not b))) holds.in_probe
              ∙ omega (arith, table.sound.room, size-small table.sound) in
            (
              s,
              call
                  ∙ stays kt laws (insert_internal kt 1) s (
                      omega
                        (arith, used, store-size t j (kt.hash key) key (some value), table.sparse)),
              store-active t j (kt.hash key) key (some value) holds.in_probe holds.is_full,
            )
      ]
