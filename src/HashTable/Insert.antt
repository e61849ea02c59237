-- ===== src/HashTable/Insert.antt =====
-- `hash_table_insert_internal` returns, and the table is the old one with the value for the key.
use native.Mathlib.Nat.{pow-suc, mod-eq_of_lt}
use virtual_machine.Prelude.{
  ℕ, suc, ◌+◌, ◌*◌, ◌^◌, ◌≤◌, ◌<◌, ◌≡◌, ◌⊎◌, arith, Option, some, Bool-cases, sym, ◌∙◌, ap, refl,
  inl, inr, ltb, ltb→lt, lt→ltb, le→ltb-false, ltb-false→le,
}
use virtual_machine.Word.{u32_mod}
use virtual_machine.HashTable.{KeyType, HashTable, resize, grow, store_in_bin, insert_internal}
use virtual_machine.HashTable.Sound.{KeyLaws, IsSound, store-size, size-big}
use virtual_machine.HashTable.Contents.{target_bin_lem}
use virtual_machine.HashTable.Changes.{Inserted, SameContents, Inserted-then, store-Inserted}
use virtual_machine.HashTable.Rehash.{fresh_table_counts}
use virtual_machine.HashTable.Resize.{IsSparse, occupied-le-used, resize_lem}

top_or : (e : ℕ) → e ≤ 31 → (e ≤ 30) ⊎ (e ≡ 31)
top_or e h = ground arith

exponent_room : (e : ℕ) → e ≤ 31 → 2 ^ e < 2 ^ 31 → e ≤ 30
exponent_room e le lt = elim (top_or e le) [
  | inl below ↦ below
  | inr top ↦ absurd (let same : 2 ^ e ≡ 2 ^ 31 = ap (λ k. 2 ^ k) top in omega arith)
]

module _ {K V : Type 0} where
  -- A table with room for `b` bins in the probing, `r` of them still to be added.
  abbrev HasRoom : ℕ → ℕ → HashTable K V → Type 0
  HasRoom b r t = (b * 2 ≤ t.size) × (t.used + r ≤ b)

  abbrev pub IsWithin : ℕ → ℕ → HashTable K V → Type 0
  IsWithin b r t = IsSparse t × (t.used + r ≤ b)

module _ {K V : Type 0} (kt : KeyType K) (laws : KeyLaws kt) where
  -- The table an insertion returns, if it does not outgrow its size.
  stored_in : (t : HashTable K V) (key : K) (val : Option V) → IsSound kt t → HashTable K V
  stored_in t key val sound =
      store_in_bin t (target_bin_lem kt laws t sound key).0 (kt.hash key) key val

  insert-grow :
      (depth : ℕ) (t : HashTable K V) (key : K) (val : Option V) (sound : IsSound kt t)
      → insert_internal kt (suc depth) t (kt.hash key) key val
        ≡ grow kt (insert_internal kt depth) (stored_in t key val sound)
  unfolding insert_internal stored_in
  insert-grow depth t key val sound =
      rw ((target_bin_lem kt laws t sound key).1, insert_internal) refl

  pub stays :
      (insert : HashTable K V → ℕ → K → Option V → Option (HashTable K V)) (t : HashTable K V)
      → t.used * 2 ≤ t.size
      → grow kt insert t ≡ some t
  unfolding grow
  stays insert t h = rw (le→ltb-false (t.used * 2) t.size h, grow) refl

  doubles :
      (insert : HashTable K V → ℕ → K → Option V → Option (HashTable K V)) (t : HashTable K V)
      → t.size < t.used * 2
      → t.size * 2 < u32_mod
      → grow kt insert t ≡ resize kt insert t (t.size * 2)
  unfolding grow
  doubles insert t h small =
      rw (lt→ltb t.size (t.used * 2) h, grow)
        (ap (resize kt insert t) (mod-eq_of_lt {n = t.size * 2} {m = u32_mod} small))

  stored_facts :
      (t : HashTable K V) (key : K) (val : Option V) (sound : IsSound kt t)
      → IsSparse t
      → Inserted kt t (stored_in t key val sound) key val
        × ((stored_in t key val sound).size ≡ t.size)
  unfolding stored_in
  stored_facts t key val sound sparse =
      let (j, found, target) = target_bin_lem kt laws t sound key in
      (
        store-Inserted kt t key val j sound target (omega (arith, size-big sound, sparse)),
        store-size t j (kt.hash key) key val,
      )

  insert_roomy :
      (depth b r : ℕ) (t : HashTable K V) (key : K) (val : Option V)
      → IsSound kt t
      → HasRoom b (suc r) t
      → (t' : HashTable K V) × (insert_internal kt (suc depth) t (kt.hash key) key val ≡ some t')
        × Inserted kt t t' key val
        × HasRoom b r t'
  insert_roomy depth b r t key val sound (large, fits) =
      let (ins, size) = stored_facts t key val sound (omega (arith, large, fits)) in
      (
        stored_in t key val sound,
        insert-grow depth t key val sound
            ∙ stays (insert_internal kt depth) (stored_in t key val sound)
                (omega (arith, ins.one_more, size, large, fits)),
        ins,
        (omega (arith, large, size), omega (arith, ins.one_more, fits)),
      )

  grown :
      (depth : ℕ) (s : HashTable K V)
      → IsSound kt s
      → s.size < 2 ^ 31
      → (t' : HashTable K V) × (resize kt (insert_internal kt (suc depth)) s (s.size * 2) ≡ some t')
        × IsSound kt t'
        × SameContents s t'
        × HasRoom s.used 0 t'
  grown depth s sound small =
      let (size, used) = fresh_table_counts V kt (s.size * 2) in
      resize_lem kt s sound (HasRoom s.used) (insert_internal kt (suc depth))
        (insert_roomy depth s.used) (s.size * 2) (suc sound.exponent)
        (ap (λ n. n * 2) sound.power ∙ sym (pow-suc 2 sound.exponent)) (omega (arith, sound.big))
        (omega (arith, exponent_room sound.exponent sound.small (rw (sym sound.power) small)))
        (omega (arith, size, sound.room), omega (arith, used, occupied-le-used kt s sound))

  -- Two levels of the recursion are enough.
  pub insert_internal_lem :
      (depth b r : ℕ) (t : HashTable K V) (key : K) (val : Option V)
      → b ≤ 2 ^ 30
      → IsSound kt t
      → IsWithin b (suc r) t
      → (t' : HashTable K V) × (insert_internal kt (suc (suc depth)) t (kt.hash key) key val
          ≡ some t')
        × Inserted kt t t' key val
        × IsWithin b r t'
  insert_internal_lem depth b r t key val limit sound (sparse, fits) =
      let (ins, size) = stored_facts t key val sound sparse in
      let s = stored_in t key val sound in
      let call = insert-grow (suc depth) t key val sound in
      elim (Bool-cases (ltb s.size (s.used * 2))) [
        | inr keeps ↦
            let half = ltb-false→le s.size (s.used * 2) keeps in
            (
              s,
              call ∙ stays (insert_internal kt (suc depth)) s half,
              ins,
              (half, omega (arith, ins.one_more, fits)),
            )
        | inl grows ↦
            let many = ltb→lt s.size (s.used * 2) grows in
            let small : s.size < 2 ^ 31 = omega (arith, many, ins.one_more, fits, limit) in
            let (t', found, sound', same, (large', fits')) = grown depth s ins.sound small in
            (
              t',
              call ∙ doubles (insert_internal kt (suc depth)) s many (omega (arith, small)) ∙ found,
              Inserted-then ins same sound' (omega (arith, fits', ins.one_more)),
              (omega (arith, large', fits'), omega (arith, fits', ins.one_more, fits)),
            )
      ]
