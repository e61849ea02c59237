-- ===== src/HashTable/Delete.antt =====
-- `hash_table_delete` returns, and the table is the old one without the key.
use native.Mathlib.Nat.{pow-suc}
use virtual_machine.Prelude.{
  ℕ, zero, suc, false, ◌-◌, ◌*◌, ◌/◌, ◌^◌, ◌≤◌, ◌<◌, ◌≡◌, ◌⊎◌, arith, some, Bool-cases, ap, refl,
  inl, inr, ltb, ltb→lt, ◌&&◌,
}
use virtual_machine.HashTable.{
  KeyType, HashTable, free_bin, is_active_bin, min_table_size, shrink, resize, insert_internal,
  hash_table_delete,
}
use virtual_machine.HashTable.Sound.{KeyLaws, IsSound, size-small, free_bin-frame}
use virtual_machine.HashTable.Find.{Holds, find_key_lem, and-true, LacksKey}
use virtual_machine.HashTable.Changes.{SameContents, SameContents-refl}
use virtual_machine.HashTable.Rehash.{fresh_table_counts}
use virtual_machine.HashTable.Resize.{IsSparse, occupied-le-used, resize_lem}
use virtual_machine.HashTable.Insert.{IsWithin, insert_internal_lem}
use virtual_machine.HashTable.Free.{Removed, free_bin-Removed}

-- Half a size above the smallest one is the power of two below it.
half-power : (e n : ℕ) → n ≡ 2 ^ e → 8 < n → n / 2 ≡ 2 ^ (e - 1)
half-power zero n eq big = absurd (omega arith)
half-power (suc e) n eq big =
    omega (arith, pow-suc 2 e, ap (λ k. 2 ^ k) (let same : suc e - 1 ≡ e = omega arith in same))

half_exponent : (e n : ℕ) → n ≡ 2 ^ e → 8 < n → 3 ≤ e - 1
half_exponent zero n eq big = absurd (omega arith)
half_exponent (suc zero) n eq big = absurd (omega arith)
half_exponent (suc (suc zero)) n eq big = absurd (omega arith)
half_exponent (suc (suc (suc zero))) n eq big = absurd (omega arith)
half_exponent (suc (suc (suc (suc e)))) n eq big = omega arith

module _ {K V : Type 0} (kt : KeyType K) (laws : KeyLaws kt) where
  shrunk :
      (t : HashTable K V)
      → IsSound kt t
      → IsSparse t
      → 8 < t.size
      → (t' : HashTable K V) × (resize kt (insert_internal kt 2) t (t.size / 2) ≡ some t')
        × IsSound kt t'
        × SameContents t t'
        × IsWithin t.used 0 t'
  shrunk t sound sparse big =
      let (size, used) = fresh_table_counts V kt (t.size / 2) in
      resize_lem kt t sound (IsWithin t.used) (insert_internal kt 2)
        (λ r cur k v snd within.
          insert_internal_lem kt laws 0 t.used r cur k v (omega (arith, sparse, size-small sound))
            snd within)
        (t.size / 2) (sound.exponent - 1) (half-power sound.exponent t.size sound.power big)
        (half_exponent sound.exponent t.size sound.power big) (omega (arith, sound.small))
        (omega (arith, used), omega (arith, used, occupied-le-used kt t sound))

  shrink_lem :
      (t : HashTable K V)
      → IsSound kt t
      → IsSparse t
      → (t' : HashTable K V) × (shrink kt t ≡ some t')
        × IsSound kt t'
        × IsSparse t'
        × (t'.used ≤ t.used)
        × SameContents t t'
  unfolding shrink
  shrink_lem t sound sparse =
      elim (Bool-cases (ltb min_table_size t.size && ltb (t.active * 8) t.size)) [
        | inl e ↦
            let big =
              ltb→lt min_table_size t.size
                (and-true (ltb min_table_size t.size) (ltb (t.active * 8) t.size) e).0 in
            let (t', found, sound', same, (sparse', fits)) = shrunk t sound sparse big in
            (t', rw (e, shrink) found, sound', sparse', omega (arith, fits), same)
        | inr e ↦ (t, rw (e, shrink) refl, sound, sparse, omega arith, SameContents-refl t)
      ]

  -- `free_bin` of a bin out of the probing does nothing.
  freeing :
      (t : HashTable K V) (key : K) (j : ℕ) (sound : IsSound kt t)
      → j < t.size
      → Holds kt laws key (t.bins j)
        ⊎ (((t.bins j).in_probe ≡ false) × LacksKey kt laws t sound key)
      → Removed kt t (free_bin t j) key × ((free_bin t j).size ≡ t.size)
  unfolding free_bin is_active_bin
  freeing t key j sound inside (inl holds) =
      (free_bin-Removed kt laws t key j sound inside holds, (free_bin-frame t j).0)
  freeing t key j sound inside (inr (unused, absent)) =
      rw (unused, free_bin)
        (
          record {
            sound = sound;
            no_more = omega arith;
            gone = λ has. absent has.bin has.below has.is_full has.is_key;
            kept = λ k v ne e. e;
            back = λ k has. has;
          },
          refl,
        )

  pub hash_table_delete_lem :
      (t : HashTable K V) (key : K)
      → IsSound kt t
      → IsSparse t
      → (t' : HashTable K V) × (hash_table_delete kt t key ≡ some t')
        × Removed kt t t' key
        × IsSparse t'
  unfolding hash_table_delete
  hash_table_delete_lem t key sound sparse =
      let (j, found, inside, way, result) = find_key_lem kt laws t sound key in
      let freed = free_bin t j in
      let (removed, size) = freeing t key j sound inside result in
      let (t', done, sound', sparse', less, same) =
        shrink_lem freed removed.sound (omega (arith, sparse, size, removed.no_more)) in
      (
        t',
        rw (found, hash_table_delete) done,
        record {
          sound = sound';
          no_more = omega (arith, less, removed.no_more);
          gone = λ has. removed.gone (same.back key has);
          kept = λ k v ne e. same.kept k v (removed.kept k v ne e);
          back = λ k has. removed.back k (same.back k has);
        },
        sparse',
      )
